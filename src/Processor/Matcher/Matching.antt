-- ===== src/Processor/Matcher/Matching.antt =====
-- The nests that match a point are those that contain it.
use mathlib.Core.Option.{some-injective}
use fletchling.Prelude.{
  ◌≡◌, ◌↔◌, refl, sym, ap, subst, ◌∙◌, inl, inr, ℤ, int_eq, Bool, true, false, Option, none, some,
  List, [], ◌∷◌, ◌++◌, ◌==◌, if◌then◌else◌, Bool-cases,
}
use fletchling.Prelude.Map.{lookup, insert, lookup-insert, lookup-nil}
use fletchling.Geo.Fences.{
  Shapes, Geometry, of_polygon, of_multi_polygon, of_other, FenceRTreeEntry, FenceRTree,
  contains_either, contains, insert_geometry, insert_polygon, insert_multi_polygon, get_matches,
  Has, Has-snoc, Has-collect, Searches,
}
use fletchling.Processor.Matcher.{
  NestMatcher, new_nest_matcher, get_nest_by_id, add_new, indexed, add_nest, kept_or_added,
  add_nests, get_matching_nests,
}

module _ (S : Shapes) where
  abbrev pub geometry_contains : Geometry S → S.Point → Bool
  geometry_contains (of_polygon g) p = contains_either S g none p
  geometry_contains (of_multi_polygon g) p = contains_either S none g p
  geometry_contains (of_other kind) p = false

  abbrev pub geometry_bound : Geometry S → Option S.Bound
  geometry_bound (of_polygon g) = some (S.polygon_bound g)
  geometry_bound (of_multi_polygon g) = some (S.multi_polygon_bound g)
  geometry_bound (of_other kind) = none

  -- What the orb package says of Bound: it has every point that the geometry contains.
  abbrev pub Bounds : (S.Bound → S.Point → Bool) → Type 0
  Bounds in_bound =
      (g : Geometry S) (p : S.Point) (b : S.Bound)
      → geometry_bound g ≡ some b
      → geometry_contains g p ≡ true
      → in_bound b p ≡ true

  module _ (V : Type 0) (id_of : V → ℤ) (geometry_of : V → Geometry S) where
    -- The box and the entry of a nest.
    abbrev pub entry_of : Geometry S → V → Option (S.Bound × FenceRTreeEntry S V)
    entry_of (of_polygon g) v =
        some (S.polygon_bound g, record { polygon = g; multi_polygon = none; value = v })
    entry_of (of_multi_polygon g) v =
        some (S.multi_polygon_bound g, record { polygon = none; multi_polygon = g; value = v })
    entry_of (of_other kind) v = none

    -- The index has exactly the nests of the map.
    pub record IsIndexed (m : NestMatcher S V) : Type 0 where
      pub from_map :
          (b : S.Bound) (e : FenceRTreeEntry S V)
          → Has (b, e) m.nests_rtree
          → (lookup (id_of e.value) m.nests ≡ some e.value)
            × (entry_of (geometry_of e.value) e.value ≡ some (b, e))
      pub in_tree :
          (id : ℤ) (v : V)
          → lookup id m.nests ≡ some v
          → (id_of v ≡ id)
            × (b : S.Bound) × (e : FenceRTreeEntry S V) × (entry_of (geometry_of v) v ≡ some (b, e))
            × Has (b, e) m.nests_rtree

    new-IsIndexed : IsIndexed (new_nest_matcher S V)
    new-IsIndexed = record {
      from_map = λ b e h. elim h [ ];
      in_tree = λ id v h. cc (lookup-nil {V = V} id, h);
    }

    abbrev inserted :
        Option (S.Bound × FenceRTreeEntry S V) → FenceRTree S V → Option (FenceRTree S V)
    inserted none tree = none
    inserted (some entry) tree = some (tree ++ entry ∷ [])

    insert_geometry-eq :
        (g : Geometry S) (v : V) (tree : FenceRTree S V)
        → insert_geometry S V g v tree ≡ inserted (entry_of g v) tree
    unfolding insert_geometry insert_polygon insert_multi_polygon
    insert_geometry-eq (of_polygon g) v tree = refl
    insert_geometry-eq (of_multi_polygon g) v tree = refl
    insert_geometry-eq (of_other kind) v tree = refl

    entry_of-value :
        (g : Geometry S) (v : V) (b : S.Bound) (e : FenceRTreeEntry S V)
        → entry_of g v ≡ some (b, e)
        → (e.value ≡ v)
          × ((p : S.Point) → contains S V e p ≡ geometry_contains g p)
          × (geometry_bound g ≡ some b)
    unfolding contains
    entry_of-value (of_polygon g) v b e h =
        let entry : FenceRTreeEntry S V = record { polygon = g; multi_polygon = none; value = v } in
        let pair : ◌≡◌ {A = S.Bound × FenceRTreeEntry S V} (S.polygon_bound g, entry) (b, e) =
          some-injective (S.polygon_bound g, entry) (b, e) h in
        subst
          (λ k.
            (k.value ≡ v)
            × ((p : S.Point) → contains S V k p ≡ contains_either S g none p)
            × (some (S.polygon_bound g) ≡ some b))
          (ap (λ t. t.1) pair) (refl, λ p. refl, ap (λ t. some t.0) pair)
    entry_of-value (of_multi_polygon g) v b e h =
        let entry : FenceRTreeEntry S V = record { polygon = none; multi_polygon = g; value = v } in
        let pair : ◌≡◌ {A = S.Bound × FenceRTreeEntry S V} (S.multi_polygon_bound g, entry) (b, e) =
          some-injective (S.multi_polygon_bound g, entry) (b, e) h in
        subst
          (λ k.
            (k.value ≡ v)
            × ((p : S.Point) → contains S V k p ≡ contains_either S none g p)
            × (some (S.multi_polygon_bound g) ≡ some b))
          (ap (λ t. t.1) pair) (refl, λ p. refl, ap (λ t. some t.0) pair)
    entry_of-value (of_other kind) v b e h = cc

    module _ (m : NestMatcher S V) (indexed_before : IsIndexed m) (v : V)
        (new : lookup (id_of v) m.nests ≡ none) (box : S.Bound) (entry : FenceRTreeEntry S V)
        (entered : entry_of (geometry_of v) v ≡ some (box, entry)) where
      abbrev after : NestMatcher S V
      after = record {
        nests_rtree = m.nests_rtree ++ (box, entry) ∷ [];
        nests = insert (id_of v) v m.nests;
      }

      looked :
          (id : ℤ) → lookup id after.nests ≡ (if id_of v == id then some v else lookup id m.nests)
      looked id = lookup-insert (id_of v) id v m.nests

      after_from_map :
          (b : S.Bound) (e : FenceRTreeEntry S V)
          → Has (b, e) after.nests_rtree
          → (lookup (id_of e.value) after.nests ≡ some e.value)
            × (entry_of (geometry_of e.value) e.value ≡ some (b, e))
      after_from_map b e h = elim ((Has-snoc (b, e) (box, entry) m.nests_rtree).0 h) [
        | inl old ↦
            let (found, en) = indexed_before.from_map b e old in
            elim (Bool-cases (id_of v == id_of e.value)) [
              | inl same ↦
                  let i = (int_eq.same_iff (id_of v) (id_of e.value)).0 same in
                  cc (found, new, ap (λ k. lookup k m.nests) i)
              | inr other ↦ ((rw other at (looked (id_of e.value))) ∙ found, en)
            ]
        | inr last ↦
            let value : e.value ≡ v =
              ap (λ t. t.1.value) last ∙ (entry_of-value (geometry_of v) v box entry entered).0 in
            let self : lookup (id_of v) after.nests ≡ some v =
              rw ((int_eq.same_iff (id_of v) (id_of v)).1 refl) at (looked (id_of v)) in
            (
              subst (λ w. lookup (id_of w) after.nests ≡ some w) (sym value) self,
              subst (λ w. entry_of (geometry_of w) w ≡ some (b, e)) (sym value)
                  (entered ∙ ap some (sym last)),
            )
      ]

      after_in_tree :
          (id : ℤ) (w : V)
          → lookup id after.nests ≡ some w
          → (id_of w ≡ id)
            × (b : S.Bound) × (e : FenceRTreeEntry S V) × (entry_of (geometry_of w) w ≡ some (b, e))
            × Has (b, e) after.nests_rtree
      after_in_tree id w h = elim (Bool-cases (id_of v == id)) [
        | inl same ↦
            let value : v ≡ w = some-injective v w (sym (rw same at (looked id)) ∙ h) in
            (
              ap id_of (sym value) ∙ (int_eq.same_iff (id_of v) id).0 same,
              box,
              entry,
              subst (λ k. entry_of (geometry_of k) k ≡ some (box, entry)) value entered,
              (Has-snoc (box, entry) (box, entry) m.nests_rtree).1 (inr refl),
            )
        | inr other ↦
            let (i, b, e, en, there) =
              indexed_before.in_tree id w (sym (rw other at (looked id)) ∙ h) in
            (i, b, e, en, (Has-snoc (b, e) (box, entry) m.nests_rtree).1 (inl there))
      ]

    indexed-IsIndexed :
        (m : NestMatcher S V) (v : V) (o : Option (S.Bound × FenceRTreeEntry S V))
        → IsIndexed m
        → lookup (id_of v) m.nests ≡ none
        → entry_of (geometry_of v) v ≡ o
        → IsIndexed (
            kept_or_added S V id_of geometry_of m
              (indexed S V id_of geometry_of m v (inserted o m.nests_rtree)))
    indexed-IsIndexed m v none h new e = h
    indexed-IsIndexed m v (some (b, entry)) h new e = record {
      from_map = after_from_map m h v new b entry e;
      in_tree = after_in_tree m h v new b entry e;
    }

    add_new-IsIndexed :
        (m : NestMatcher S V) (v : V) (old : Option V)
        → IsIndexed m
        → lookup (id_of v) m.nests ≡ old
        → IsIndexed (kept_or_added S V id_of geometry_of m (add_new S V id_of geometry_of m v old))
    add_new-IsIndexed m v (some w) h e = h
    add_new-IsIndexed m v none h e =
        rw (insert_geometry-eq (geometry_of v) v m.nests_rtree)
          (indexed-IsIndexed m v (entry_of (geometry_of v) v) h e refl)

    pub add_nests-IsIndexed :
        (vs : List V) (m : NestMatcher S V)
        → IsIndexed m
        → IsIndexed (add_nests S V id_of geometry_of vs m)
    unfolding add_nests add_nest
    add_nests-IsIndexed [] m h = h
    add_nests-IsIndexed (v ∷ vs) m h =
        add_nests-IsIndexed vs
          (kept_or_added S V id_of geometry_of m
            (add_new S V id_of geometry_of m v (lookup (id_of v) m.nests)))
          (add_new-IsIndexed m v (lookup (id_of v) m.nests) h refl)

    -- What matches is what is in the map and contains the point.
    IsIndexed-matches :
        (in_bound : S.Bound → S.Point → Bool)
        (search : FenceRTree S V → S.Point → List (S.Bound × FenceRTreeEntry S V))
        → Searches S V in_bound search
        → Bounds in_bound
        → (m : NestMatcher S V) (lat lon : S.Coord) (v : V) → IsIndexed m
        → Has v (get_matching_nests S V search lat lon m) ↔ (
            (get_nest_by_id S V (id_of v) m ≡ some v)
            × (geometry_contains (geometry_of v) (S.point lon lat) ≡ true))
    unfolding get_matching_nests get_matches get_nest_by_id
    IsIndexed-matches in_bound search searches bounds m lat lon v h =
        let p = S.point lon lat in
        (
          λ i.
              let (b, e, there, inside, value) =
                (Has-collect S V p v (search m.nests_rtree p)).0 i in
              let (found, en) = h.from_map b e ((searches m.nests_rtree p b e).0 there).0 in
              let (_, same, _) = entry_of-value (geometry_of e.value) e.value b e en in
              (
                subst (λ w. lookup (id_of w) m.nests ≡ some w) (sym value) found,
                subst (λ w. geometry_contains (geometry_of w) p ≡ true) (sym value)
                    (sym (same p) ∙ inside),
              ),
          λ (found, inside).
              let (_, b, e, en, there) = h.in_tree (id_of v) v found in
              let (value, same, bound) = entry_of-value (geometry_of v) v b e en in
              (Has-collect S V p v (search m.nests_rtree p)).1 (
                b,
                e,
                (searches m.nests_rtree p b e).1 (there, bounds (geometry_of v) p b bound inside),
                same p ∙ inside,
                sym value,
              ),
        )

    -- Given that a search of the tree finds the entries whose box has the point in it, and that
    -- the box of a geometry has every point that the geometry contains: after any nests are added
    -- to a new matcher, those that are refused being skipped, GetMatchingNests at a latitude and
    -- a longitude finds exactly the nests that GetNestById gives under their id and whose
    -- geometry contains the point with the longitude first and the latitude second.
    pub get_matching_nests-add_nests :
        (in_bound : S.Bound → S.Point → Bool)
        (search : FenceRTree S V → S.Point → List (S.Bound × FenceRTreeEntry S V))
        → Searches S V in_bound search
        → Bounds in_bound
        → (vs : List V) (lat lon : S.Coord) (v : V)
        → let m = add_nests S V id_of geometry_of vs (new_nest_matcher S V) in
          Has v (get_matching_nests S V search lat lon m) ↔ (
            (get_nest_by_id S V (id_of v) m ≡ some v)
            × (geometry_contains (geometry_of v) (S.point lon lat) ≡ true))
    get_matching_nests-add_nests in_bound search searches bounds vs lat lon v =
        IsIndexed-matches in_bound search searches bounds _ lat lon v
          (add_nests-IsIndexed vs (new_nest_matcher S V) new-IsIndexed)
