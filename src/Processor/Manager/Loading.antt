-- ===== src/Processor/Manager/Loading.antt =====
-- LoadConfig of processor/manager.go, up to the swap: the nests of the new matcher. The statistics of
-- a nest are shared by the nests of the old and the new configuration that have the same id: they stand
-- in a store, in which a nest points to a place.
use fletchling.Prelude.{ℕ, ℤ, Option, none, some, List, [], ◌∷◌, ◌++◌, String, length}
use fletchling.Prelude.Float.{Floats}
use fletchling.Prelude.Time.{Time}
use fletchling.DbStore
use fletchling.DbStore.Rows.{Returned, Cursor, get_nests}
use fletchling.Geo.Fences.{Shapes, Geometry}
use fletchling.Models.Nest.{Nest, NestStatsInfo}
use fletchling.Models.Loading.{new_nest_from_db_store}
use fletchling.Processor.Matcher.{
  NestMatcher, new_nest_matcher, get_nest_by_id, add_nest, kept_or_added,
}

module _ (F : Floats) (S : Shapes) where
  -- A nest of a matcher, and the place of its statistics.
  pub record Held : Type 0 where
    pub nest : Nest F (Geometry S)
    pub nest_stats_info : ℕ

  abbrev pub Infos : Type 0
  Infos = List (NestStatsInfo F)

  abbrev pub held_id : Held → ℤ
  held_id h = h.nest.id

  abbrev pub held_geometry : Held → Geometry S
  held_geometry h = h.nest.geometry

  abbrev pub Matcher : Type 0
  Matcher = NestMatcher S Held

  -- The nest that the old matcher has under this id.
  abbrev pub old_nest : Option Matcher → ℤ → Option Held
  old_nest none id = none
  old_nest (some m) id = get_nest_by_id S Held id m

  -- The place of the statistics: the old nest's, or a new one.
  abbrev pub hold : Infos → Nest F (Geometry S) → Option Held → Held × Infos
  hold infos nest (some old) =
      (record { nest = nest; nest_stats_info = old.nest_stats_info }, infos)
  hold infos nest none =
      (record { nest = nest; nest_stats_info = length infos }, infos ++ nest.stats_info ∷ [])

  -- A nest that does not load, or that the matcher refuses, is skipped.
  abbrev pub load_nest :
      Option Matcher → Infos × Matcher → Option (Nest F (Geometry S)) → Infos × Matcher
  load_nest old (infos, m) none = (infos, m)
  load_nest old (infos, m) (some nest) =
      let (h, infos') = hold infos nest (old_nest old nest.id) in
      (
        infos',
        kept_or_added S Held held_id held_geometry m (add_nest S Held held_id held_geometry h m),
      )

  module _ (geometry_of : String → Option (Geometry S)) (now : Time) where
    unfoldable pub load_nests :
        Option Matcher → List (DbStore.Nest F) → Infos × Matcher → Infos × Matcher
    unfolding new_nest_from_db_store add_nest get_nest_by_id
    load_nests old [] r = r
    load_nests old (row ∷ rows) r =
        load_nests old rows (load_nest old r (new_nest_from_db_store F geometry_of now row))

    abbrev pub loaded :
        Option Matcher
        → Infos
        → Returned (Option (List (DbStore.Nest F)))
        → Option (Infos × Matcher)
    loaded old infos r = elim r.error [
      | some e ↦ none
      | none ↦ elim r.value [
        | none ↦ some (infos, new_nest_matcher S Held)
        | some rows ↦ some (load_nests old rows (infos, new_nest_matcher S Held))
      ]
    ]

    -- None if the database fails: then nothing is changed.
    unfoldable pub load_config :
        Option Matcher → Infos → Option (Cursor (DbStore.Nest F)) → Option (Infos × Matcher)
    unfolding get_nests load_nests
    load_config old infos answer = loaded old infos (get_nests answer)
