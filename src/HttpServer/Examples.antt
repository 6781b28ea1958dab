-- ===== src/HttpServer/Examples.antt =====
-- Concrete requests, httpserver/.
use fletchling.Prelude.{
  ℕ, ◌≡◌, refl, ℤ, pos, Option, none, some, List, [], ◌∷◌, String, arith, done,
}
use fletchling.Prelude.Float.{fractions, Ratio}
use fletchling.Prelude.Time.{hour}
use fletchling.Stats.Examples.{doubled, one_stats, one_stats-IsSound}
use fletchling.HttpServer.{bad_request, handle_purge_keep_stats}
use fletchling.HttpServer.Messages.{PokemonWebhook, WebhookMessage, Pokemon, process_messages}
use fletchling.HttpServer.Purging.{Keeps, handle_purge_keep_stats-Keeps}

handle_purge_keep_stats-Keeps_example :
    Keeps 720 one_stats one_stats-IsSound
      (handle_purge_keep_stats doubled hour (some (pos 720)) one_stats)
handle_purge_keep_stats-Keeps_example =
    handle_purge_keep_stats-Keeps doubled hour 720 one_stats one_stats-IsSound (omega arith)
      (omega arith)

purge_nothing :
    handle_purge_keep_stats doubled hour (some (pos 0)) one_stats
    ≡ done (one_stats, bad_request "duration_minutes should be > 0")
unfolding handle_purge_keep_stats
purge_nothing = refl

abbrev half : Ratio
half = record { num = 1; den = 2 }

abbrev pikachu : String → Option ℤ → PokemonWebhook fractions
pikachu spawnpoint_id attack = record {
  spawnpoint_id = spawnpoint_id;
  pokemon_id = pos 25;
  latitude = half;
  longitude = half;
  form = none;
  individual_attack = attack;
}

abbrev message : Option (PokemonWebhook fractions) → WebhookMessage fractions
message pokemon = record { type = "pokemon"; pokemon = pokemon }

abbrev remember : Pokemon fractions → List ℕ → List ℕ
remember pokemon ids = pokemon.spawnpoint_id ∷ ids

-- A raid, a lured pokemon, one that was not encountered, one of a bad spawnpoint, and a wild one.
two_processed :
    process_messages remember
      (message none
        ∷ message (some (pikachu "None" (some (pos 15))))
        ∷ message (some (pikachu "1f" none))
        ∷ message (some (pikachu "xyz" (some (pos 1))))
        ∷ message (some (pikachu "1f" (some (pos 1))))
        ∷ [])
      ([], 0)
    ≡ (31 ∷ 0 ∷ [], 2)
unfolding process_messages
two_processed = refl
