-- ===== src/DbStore.antt =====
-- The rows and updates of the nests table, in db_store/nests.go. A nullable column is an option; the
-- fields of an update that are nil are left alone.
pub mod Updating
pub mod Rows
pub mod Streaming
pub mod Batches
pub mod Getters
pub mod Examples
use fletchling.Prelude.{
  ℕ, ℤ, Bool, Option, none, some, List, [], ◌∷◌, ◌++◌, String, length, leb, if◌then◌else◌, Outcome,
  done, panic, bad_index, ◌>>=◌,
}
use mathlib.Core.Option
use fletchling.Prelude.Float.{Floats}

pub record Nest (F : Floats) : Type 0 where
  pub nest_id : ℤ
  pub lat : F.Float
  pub lon : F.Float
  pub name : String
  pub polygon : String
  pub area_name : Option String
  pub spawnpoints : Option ℤ
  pub m2 : Option F.Float
  pub active : Option Bool
  pub pokemon_id : Option ℤ
  pub pokemon_form : Option ℤ
  pub pokemon_avg : Option F.Float
  pub pokemon_ratio : Option F.Float
  pub pokemon_count : Option F.Float
  pub discarded : Option String
  pub updated : Option ℤ

pub record NestPartialUpdate (F : Floats) : Type 0 where
  pub area_name : Option (Option String)
  pub spawnpoints : Option (Option ℤ)
  pub m2 : Option (Option F.Float)
  pub active : Option Bool
  pub pokemon_id : Option (Option ℤ)
  pub pokemon_form : Option (Option ℤ)
  pub pokemon_avg : Option (Option F.Float)
  pub pokemon_ratio : Option (Option F.Float)
  pub pokemon_count : Option (Option F.Float)
  pub discarded : Option (Option String)
  pub updated : Option (Option ℤ)

-- `column=?` with its value, in an UPDATE of one row.
pub data Assignment (F : Floats) : Type 0 where
  set_updated : Option ℤ → Assignment F
  set_area_name : Option String → Assignment F
  set_spawnpoints : Option ℤ → Assignment F
  set_m2 : Option F.Float → Assignment F
  set_pokemon_id : Option ℤ → Assignment F
  set_pokemon_form : Option ℤ → Assignment F
  set_pokemon_avg : Option F.Float → Assignment F
  set_pokemon_ratio : Option F.Float → Assignment F
  set_pokemon_count : Option F.Float → Assignment F
  set_active : Bool → Assignment F
  set_discarded : Option String → Assignment F

module _ {F : Floats} where
  -- `if v := nestUpdate.X; v != nil` for each column, in the order of the statement.
  abbrev pub columns : NestPartialUpdate F → List (Option (Assignment F))
  columns u =
      Option.map set_updated u.updated
      ∷ Option.map set_area_name u.area_name
      ∷ Option.map set_spawnpoints u.spawnpoints
      ∷ Option.map set_m2 u.m2
      ∷ Option.map set_pokemon_id u.pokemon_id
      ∷ Option.map set_pokemon_form u.pokemon_form
      ∷ Option.map set_pokemon_avg u.pokemon_avg
      ∷ Option.map set_pokemon_ratio u.pokemon_ratio
      ∷ Option.map set_pokemon_count u.pokemon_count
      ∷ Option.map set_active u.active
      ∷ Option.map set_discarded u.discarded
      ∷ []

  -- The array of arguments has 12 places.
  abbrev pub add_value : Assignment F → List (Assignment F) → Outcome (List (Assignment F))
  add_value v args = if leb 12 (length args) then panic bad_index else done (args ++ v ∷ [])

  unfoldable pub add_values :
      List (Option (Assignment F)) → List (Assignment F) → Outcome (List (Assignment F))
  add_values [] args = done args
  add_values (none ∷ vs) args = add_values vs args
  add_values (some v ∷ vs) args = do args' ← add_value v args; add_values vs args'

  -- The statement that is run, if there is anything to update. The id of the nest is one more argument.
  abbrev finish_update : List (Assignment F) → Outcome (Option (List (Assignment F)))
  finish_update [] = done none
  finish_update (a ∷ args) =
      if leb 12 (length (a ∷ args)) then panic bad_index else done (some (a ∷ args))

  unfoldable pub update_nest_partial : NestPartialUpdate F → Outcome (Option (List (Assignment F)))
  unfolding add_values
  update_nest_partial u = do args ← add_values (columns u) []; finish_update args

  -- What the database does to the row.
  abbrev pub assign : Assignment F → Nest F → Nest F
  assign (set_updated v) row = record row { updated = v }
  assign (set_area_name v) row = record row { area_name = v }
  assign (set_spawnpoints v) row = record row { spawnpoints = v }
  assign (set_m2 v) row = record row { m2 = v }
  assign (set_pokemon_id v) row = record row { pokemon_id = v }
  assign (set_pokemon_form v) row = record row { pokemon_form = v }
  assign (set_pokemon_avg v) row = record row { pokemon_avg = v }
  assign (set_pokemon_ratio v) row = record row { pokemon_ratio = v }
  assign (set_pokemon_count v) row = record row { pokemon_count = v }
  assign (set_active v) row = record row { active = some v }
  assign (set_discarded v) row = record row { discarded = v }

  abbrev pub assign_all : List (Assignment F) → Nest F → Nest F
  assign_all [] row = row
  assign_all (a ∷ args) row = assign_all args (assign a row)
