-- ===== src/Webhooks/Examples.antt =====
-- The theorems about the webhook queue applied to three messages.
use fletchling.Prelude.{ℕ, suc, ◌≡◌, refl, pos, List, [], ◌∷◌, map, arith}
use fletchling.Prelude.Float.{fractions, Ratio}
use fletchling.Areas.{AreaName, new_area_name}
use fletchling.Webhooks.{
  NestWebhookMessage, NestWebhookQueue, filter_messages, pop_nest_messages_from_queue, popped,
  flush,
}
use fletchling.Webhooks.Queue.{add_all, flush-add_all, popped-add_all}

abbrev whole : ℕ → Ratio
whole n = record { num = n; den = 1 }

abbrev about : ℕ → NestWebhookMessage fractions
about id = record {
  type = "nest";
  message = record {
    nest_id = pos id;
    name = "park";
    lat = whole 1;
    lon = whole 2;
    pokemon_id = pos 25;
    form = pos 0;
    pokemon_count = 10;
    pokemon_avg = whole 10;
    pokemon_ratio = whole 50;
    poly_path = "path";
    reset_time = pos 3_600;
    area_name = new_area_name "York" "Fulford";
  };
}

abbrev doubled : ℕ → ℕ
doubled n = suc n

abbrev empty_queue : NestWebhookQueue fractions
empty_queue = record { messages = []; stale = []; room = 0 }

abbrev two_waiting : NestWebhookQueue fractions
two_waiting = record { messages = about 1 ∷ about 2 ∷ []; stale = []; room = 0 }

abbrev york : List (List AreaName)
york = (new_area_name "York" "*" ∷ []) ∷ [] ∷ []

flush-add_all_example :
    ((flush fractions york
        (add_all fractions doubled (about 1 ∷ about 2 ∷ []) empty_queue)).0.messages
      ≡ [])
    × ((flush fractions york (add_all fractions doubled (about 1 ∷ about 2 ∷ []) empty_queue)).1
        ≡ map (λ names. filter_messages fractions names (about 1 ∷ about 2 ∷ [])) york)
flush-add_all_example =
    flush-add_all fractions doubled york (about 1 ∷ about 2 ∷ []) empty_queue refl

popped-add_all_example :
    (popped fractions (pop_nest_messages_from_queue fractions two_waiting).1 (
        add_all fractions doubled
          (about 3 ∷ [])
          (pop_nest_messages_from_queue fractions two_waiting).0)
      ≡ about 3 ∷ about 2 ∷ [])
    × ((add_all fractions doubled
          (about 3 ∷ [])
          (pop_nest_messages_from_queue fractions two_waiting).0).messages
        ≡ about 3 ∷ [])
popped-add_all_example = popped-add_all fractions doubled (about 3 ∷ []) two_waiting (omega arith)
