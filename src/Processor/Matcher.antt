-- ===== src/Processor/Matcher.antt =====
-- NestMatcher of processor/matcher.go: the nests by their ids, and an index of their fences. A nest is
-- known by its id and its geometry.
pub mod Matching
pub mod Examples
use fletchling.Prelude.{ℕ, ℤ, int_eq, Bool, Option, none, some, List, [], ◌∷◌, map, length}
use fletchling.Prelude.Map.{Map, lookup, insert}
use fletchling.Geo.Fences.{
  Shapes, Geometry, FenceRTreeEntry, FenceRTree, insert_geometry, get_matches,
}

pub data AddError : Type 0 where
  already_exists not_supported : AddError

module _ (S : Shapes) (V : Type 0) where
  pub record NestMatcher : Type 0 where
    pub nests_rtree : FenceRTree S V
    pub nests : Map ℤ V

  -- The matcher after an addition, or the error that left it as it was.
  pub data Added : Type 0 where
    added : NestMatcher → Added
    refused : AddError → Added

  abbrev pub new_nest_matcher : NestMatcher
  new_nest_matcher = record { nests_rtree = []; nests = [] }

  unfoldable pub get_nest_by_id : ℤ → NestMatcher → Option V
  get_nest_by_id id m = lookup id m.nests

  abbrev pub len : NestMatcher → ℕ
  len m = length m.nests

  -- In the order in which `range` meets them.
  unfoldable pub get_all_nests : NestMatcher → List V
  get_all_nests m = map (λ entry. entry.1) m.nests

  module _ (id_of : V → ℤ) (geometry_of : V → Geometry S) where
    abbrev pub indexed : NestMatcher → V → Option (FenceRTree S V) → Added
    indexed m nest none = refused not_supported
    indexed m nest (some tree) =
        added (record { nests_rtree = tree; nests = insert (id_of nest) nest m.nests })

    abbrev pub add_new : NestMatcher → V → Option V → Added
    add_new m nest (some old) = refused already_exists
    add_new m nest none = indexed m nest (insert_geometry S V (geometry_of nest) nest m.nests_rtree)

    unfoldable pub add_nest : V → NestMatcher → Added
    add_nest nest m = add_new m nest (lookup (id_of nest) m.nests)

    -- A nest that is refused is skipped.
    abbrev pub kept_or_added : NestMatcher → Added → NestMatcher
    kept_or_added m (added m') = m'
    kept_or_added m (refused e) = m

    unfoldable pub add_nests : List V → NestMatcher → NestMatcher
    unfolding add_nest
    add_nests [] m = m
    add_nests (nest ∷ nests) m = add_nests nests (kept_or_added m (add_nest nest m))

  unfoldable pub get_matching_nests :
      (FenceRTree S V → S.Point → List (S.Bound × FenceRTreeEntry S V))
      → (lat lon : S.Coord) → NestMatcher
      → List V
  unfolding get_matches
  get_matching_nests search lat lon m = get_matches S V search lat lon m.nests_rtree
