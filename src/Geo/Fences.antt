-- ===== src/Geo/Fences.antt =====
-- The index of fences, in geo/rtree.go. The boxes and polygons of the orb package and the search of
-- the rtree package are parameters. The lock is left out: an operation runs while it is held.
use fletchling.Prelude.{
  ◌≡◌, ◌↔◌, ◌⊎◌, refl, ap, ◌∙◌, inl, inr, Bool, true, Option, none, some, List, [], ◌∷◌, ◌++◌,
  String, if◌then◌else◌, Bool-cases,
}

-- The shapes of orb; a Point has the longitude first. A nil slice of rings or of polygons is none.
pub record Shapes : Type 1 where
  pub Coord : Type 0
  pub Point : Type 0
  pub Polygon : Type 0
  pub MultiPolygon : Type 0
  pub Bound : Type 0
  pub point : (lon lat : Coord) → Point
  pub polygon_bound : Option Polygon → Bound
  pub multi_polygon_bound : Option MultiPolygon → Bound
  pub polygon_contains : Polygon → Point → Bool
  pub multi_polygon_contains : Option MultiPolygon → Point → Bool

pub data Geometry (S : Shapes) : Type 0 where
  of_polygon : Option S.Polygon → Geometry S
  of_multi_polygon : Option S.MultiPolygon → Geometry S
  of_other : String → Geometry S

-- To be one of the elements.
abbrev pub Has : {A : Type 0} → A → List A → Type 0
Has x [] = ⊥
Has x (y ∷ ys) = (x ≡ y) ⊎ Has x ys

pub Has-snoc : {A : Type 0} (x y : A) (xs : List A) → Has x (xs ++ y ∷ []) ↔ (Has x xs ⊎ (x ≡ y))
Has-snoc x y [] = (
  λ h. elim h [ inl e ↦ inr e | inr n ↦ elim n [ ] ],
  λ h. elim h [ inl n ↦ elim n [ ] | inr e ↦ inl e ],
)
Has-snoc x y (z ∷ xs) = (
  λ h. elim h [
    | inl e ↦ inl (inl e)
    | inr t ↦ elim ((Has-snoc x y xs).0 t) [ inl i ↦ inl (inr i) | inr e ↦ inr e ]
  ],
  λ h. elim h [
    | inl i ↦ elim i [ inl e ↦ inl e | inr t ↦ inr ((Has-snoc x y xs).1 (inl t)) ]
    | inr e ↦ inr ((Has-snoc x y xs).1 (inr e))
  ],
)

-- The polygon decides if there is one.
abbrev pub contains_either :
    (S : Shapes) → Option S.Polygon → Option S.MultiPolygon → S.Point → Bool
contains_either S (some g) _ p = S.polygon_contains g p
contains_either S none gs p = S.multi_polygon_contains gs p

module _ (S : Shapes) (V : Type 0) where
  open S use {Point, Polygon, MultiPolygon, Bound, polygon_bound, multi_polygon_bound}

  pub record FenceRTreeEntry : Type 0 where
    pub polygon : Option Polygon
    pub multi_polygon : Option MultiPolygon
    pub value : V

  -- The tree as what was put into it: an entry for each box.
  abbrev pub FenceRTree : Type 0
  FenceRTree = List (Bound × FenceRTreeEntry)

  unfoldable pub contains : FenceRTreeEntry → Point → Bool
  contains e p = contains_either S e.polygon e.multi_polygon p

  abbrev pub insert_entry : Bound → FenceRTreeEntry → FenceRTree → FenceRTree
  insert_entry bbox entry tree = tree ++ (bbox, entry) ∷ []

  unfoldable pub insert_polygon : Option Polygon → V → FenceRTree → FenceRTree
  insert_polygon g value tree =
      insert_entry (polygon_bound g) (record { polygon = g; multi_polygon = none; value = value })
        tree

  unfoldable pub insert_multi_polygon : Option MultiPolygon → V → FenceRTree → FenceRTree
  insert_multi_polygon g value tree =
      insert_entry (multi_polygon_bound g)
        (record { polygon = none; multi_polygon = g; value = value }) tree

  -- None for a geometry of another type, which is an error.
  unfoldable pub insert_geometry : Geometry S → V → FenceRTree → Option FenceRTree
  unfolding insert_polygon insert_multi_polygon
  insert_geometry (of_polygon g) value tree = some (insert_polygon g value tree)
  insert_geometry (of_multi_polygon g) value tree = some (insert_multi_polygon g value tree)
  insert_geometry (of_other kind) value tree = none

  -- The values of the entries found that contain the point.
  unfoldable pub collect : Point → List (Bound × FenceRTreeEntry) → List V
  unfolding contains
  collect p [] = []
  collect p ((bbox, e) ∷ more) = if contains e p then e.value ∷ collect p more else collect p more

  unfoldable pub get_matches :
      (FenceRTree → Point → List (Bound × FenceRTreeEntry))
      → (lat lon : S.Coord) → FenceRTree
      → List V
  unfolding collect
  get_matches search lat lon tree = let p = S.point lon lat in collect p (search tree p)

  -- What the rtree package says of Search: the entries whose box has the point in it.
  abbrev pub Searches :
      (Bound → Point → Bool) → (FenceRTree → Point → List (Bound × FenceRTreeEntry)) → Type 0
  Searches in_bound search =
      (tree : FenceRTree) (p : Point) (b : Bound) (e : FenceRTreeEntry)
      → Has (b, e) (search tree p) ↔ (Has (b, e) tree × (in_bound b p ≡ true))

  pub Has-collect :
      (p : Point) (v : V) (entries : List (Bound × FenceRTreeEntry))
      → Has v (collect p entries) ↔ (
          (b : Bound) × (e : FenceRTreeEntry) × Has (b, e) entries
          × (contains e p ≡ true)
          × (v ≡ e.value))
  unfolding collect
  Has-collect p v [] = (λ h. elim h [ ], λ (b, e, h, _, _). elim h [ ])
  Has-collect p v ((b, e) ∷ more) = (
    λ h. elim (Bool-cases (contains e p)) [
      | inl inside ↦ elim (rw inside at h) [
        | inl same ↦ (b, e, inl refl, inside, same)
        | inr there ↦
            let (b', e', i, c, s) = (Has-collect p v more).0 there in (b', e', inr i, c, s)
      ]
      | inr outside ↦
          let (b', e', i, c, s) = (Has-collect p v more).0 (rw outside at h) in
          (b', e', inr i, c, s)
    ],
    λ (b', e', i, c, s). elim (Bool-cases (contains e p)) [
      | inl inside ↦ elim i [
        | inl same ↦ rw inside (inl (s ∙ ap (λ t. t.1.value) same))
        | inr there ↦ rw inside (inr ((Has-collect p v more).1 (b', e', there, c, s)))
      ]
      | inr outside ↦ elim i [
        | inl same ↦ cc (outside, c, ap (λ t. contains t.1 p) same)
        | inr there ↦ rw outside ((Has-collect p v more).1 (b', e', there, c, s))
      ]
    ],
  )
