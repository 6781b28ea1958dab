-- ===== src/Processor/Matcher/Examples.antt =====
-- Concrete nests and a concrete index: a geometry is a range of
-- longitudes, and a point is its longitude.
use fletchling.Prelude.{
  ◌≡◌, ◌↔◌, ap, subst, ◌∙◌, inl, inr, ℕ, ℤ, pos, int_eq, Bool, true, false, Option, none, some,
  List, [], ◌∷◌, ◌&&◌, leb, if◌then◌else◌, Bool-cases,
}
use fletchling.Geo.Fences.{
  Shapes, Geometry, of_polygon, of_multi_polygon, of_other, FenceRTree, FenceRTreeEntry, Has,
  Searches,
}
use fletchling.Processor.Matcher.{
  NestMatcher, new_nest_matcher, add_nests, get_nest_by_id, get_matching_nests,
}
use fletchling.Processor.Matcher.Matching.{geometry_contains, Bounds, get_matching_nests-add_nests}

abbrev pub within : ℕ × ℕ → ℕ → Bool
within (low, high) p = leb low p && leb p high

abbrev pub range_or_all : Option (ℕ × ℕ) → ℕ × ℕ
range_or_all none = (0, 0)
range_or_all (some range) = range

abbrev pub within_some : Option (ℕ × ℕ) → ℕ → Bool
within_some none p = false
within_some (some range) p = within range p

abbrev pub ranges : Shapes
ranges = record {
  Coord = ℕ;
  Point = ℕ;
  point = λ lon lat. lon;
  Polygon = ℕ × ℕ;
  MultiPolygon = ℕ × ℕ;
  Bound = ℕ × ℕ;
  polygon_bound = range_or_all;
  multi_polygon_bound = range_or_all;
  polygon_contains = within;
  multi_polygon_contains = within_some;
}

-- A nest is its id and its geometry.
abbrev Fence : Type 0
Fence = ℤ × Geometry ranges

search : FenceRTree ranges Fence → ℕ → List ((ℕ × ℕ) × FenceRTreeEntry ranges Fence)
search [] p = []
search ((b, e) ∷ more) p = let rest = search more p in if within b p then (b, e) ∷ rest else rest

search-Searches : Searches ranges Fence within search
unfolding search
search-Searches [] p b e = (λ h. elim h [ ], λ (h, _). elim h [ ])
search-Searches ((b', e') ∷ more) p b e = elim (Bool-cases (within b' p)) [
  | inl inside ↦ rw inside (
    λ h. elim h [
      | inl same ↦ (inl same, ap (λ t. within t.0 p) same ∙ inside)
      | inr there ↦ let (i, w) = (search-Searches more p b e).0 there in (inr i, w)
    ],
    λ (h, w). elim h [
      | inl same ↦ inl same
      | inr there ↦ inr ((search-Searches more p b e).1 (there, w))
    ],
  )
  | inr outside ↦ rw outside (
    λ h. let (i, w) = (search-Searches more p b e).0 h in (inr i, w),
    λ (h, w). elim h [
      | inl same ↦ cc (outside, w, ap (λ t. within t.0 p) same)
      | inr there ↦ (search-Searches more p b e).1 (there, w)
    ],
  )
]

bound_eq : (r b : ℕ × ℕ) → some r ≡ some b → r ≡ b
bound_eq r b e = cc

ranges-Bounds : Bounds ranges within
ranges-Bounds (of_polygon none) p b e h = cc
ranges-Bounds (of_polygon (some r)) p b e h = subst (λ k. within k p ≡ true) (bound_eq r b e) h
ranges-Bounds (of_multi_polygon none) p b e h = cc
ranges-Bounds (of_multi_polygon (some r)) p b e h =
    subst (λ k. within k p ≡ true) (bound_eq r b e) h
ranges-Bounds (of_other kind) p b e h = cc

abbrev fences : List Fence
fences =
    (pos 1, of_polygon (some (2, 8)))
    ∷ (pos 2, of_polygon (some (5, 9)))
    ∷ (pos 1, of_polygon (some (0, 1)))
    ∷ (pos 3, of_other "Point")
    ∷ []

abbrev id_of : Fence → ℤ
id_of fence = fence.0

abbrev geometry_of : Fence → Geometry ranges
geometry_of fence = fence.1

abbrev loaded : NestMatcher ranges Fence
loaded = add_nests ranges Fence id_of geometry_of fences (new_nest_matcher ranges Fence)

get_matching_nests-add_nests_example :
    Has (pos 2, of_polygon (some (5, 9))) (get_matching_nests ranges Fence search 50 6 loaded) ↔ (
      (get_nest_by_id ranges Fence (pos 2) loaded ≡ some (pos 2, of_polygon (some (5, 9))))
      × (geometry_contains ranges (of_polygon (some (5, 9))) 6 ≡ true))
get_matching_nests-add_nests_example =
    get_matching_nests-add_nests ranges Fence id_of geometry_of within search search-Searches
      ranges-Bounds fences 50 6 (pos 2, of_polygon (some (5, 9)))
