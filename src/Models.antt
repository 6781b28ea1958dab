-- ===== src/Models.antt =====
-- processor/models/pokemon.go; the other files of processor/models are in the modules below.
pub mod Loading
pub mod Summary
pub mod Ranking
pub mod Nest
use mathlib.Core.Bool.{◌&&◌}
use fletchling.Prelude.{◌≡◌, ◌↔◌, Bool, true, arith, ℤ, Eq}
use fletchling.Prelude.Int.{eqb_ℤ, eqb_ℤ_iff}

pub record PokemonKey : Type 0 where
  pub pokemon_id : ℤ
  pub form_id : ℤ

unfoldable pub eqb_key : PokemonKey → PokemonKey → Bool
eqb_key a b = eqb_ℤ a.pokemon_id b.pokemon_id && eqb_ℤ a.form_id b.form_id

pub eqb_key_iff : (a b : PokemonKey) → (eqb_key a b ≡ true) ↔ (a ≡ b)
unfolding eqb_key
eqb_key_iff a b = ground (arith, eqb_ℤ_iff a.pokemon_id b.pokemon_id, eqb_ℤ_iff a.form_id b.form_id)

instance abbrev pub key_eq : Eq PokemonKey
key_eq = record { same = eqb_key; same_iff = eqb_key_iff }
