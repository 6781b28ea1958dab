-- ===== src/Webhooks.antt =====
-- The webhooks of webhook_sender/poracle.go. The queue is a slice of an array: behind the messages in
-- it stand cells that still hold older ones, and then cells never written. `extra n` is the room that
-- a new array for n + 1 messages gets. Requests are left out: what a destination is sent is a list.
pub mod Queue
pub mod Examples
use fletchling.Prelude.{
  ℕ, zero, suc, ℤ, pos, Option, none, some, List, [], ◌∷◌, ◌++◌, map, if◌then◌else◌, take, length,
  String,
}
use fletchling.Prelude.Float.{Floats}
use fletchling.Prelude.Time.{unix}
use fletchling.Models.{PokemonKey}
use fletchling.Models.Summary.{percent}
use fletchling.Models.Nest.{Nest, NestingPokemonInfo}
use fletchling.Areas.{AreaName, area_string_to_area_name, area_name_matches}

pub record NestWebhook (F : Floats) : Type 0 where
  pub nest_id : ℤ
  pub name : String
  pub lat : F.Float
  pub lon : F.Float
  pub pokemon_id : ℤ
  pub form : ℤ
  pub pokemon_count : ℕ
  pub pokemon_avg : F.Float
  pub pokemon_ratio : F.Float
  pub poly_path : String
  pub reset_time : ℤ
  pub area_name : AreaName

pub record NestWebhookMessage (F : Floats) : Type 0 where
  pub type : String
  pub message : NestWebhook F

pub record NestWebhookQueue (F : Floats) : Type 0 where
  pub messages : List (NestWebhookMessage F)
  pub stale : List (NestWebhookMessage F)
  pub room : ℕ

module _ (F : Floats) where
  -- All messages if the destination names no area.
  unfoldable pub filter_messages :
      List AreaName → List (NestWebhookMessage F) → List (NestWebhookMessage F)
  filter_messages names [] = []
  filter_messages [] (m ∷ ms) = m ∷ ms
  filter_messages (n ∷ names) (m ∷ ms) =
      let rest = filter_messages (n ∷ names) ms in
      if area_name_matches m.message.area_name (n ∷ names) then m ∷ rest else rest

  -- `append`, which writes to the next cell of the array, or moves to a new one.
  unfoldable pub add_message :
      (ℕ → ℕ) → NestWebhookMessage F → NestWebhookQueue F → NestWebhookQueue F
  add_message extra m q = elim q.stale [
    | old ∷ stale ↦ record { messages = q.messages ++ m ∷ []; stale = stale; room = q.room }
    | [] ↦ elim q.room [
      | suc room ↦ record { messages = q.messages ++ m ∷ []; stale = []; room = room }
      | zero ↦ record {
        messages = q.messages ++ m ∷ [];
        stale = [];
        room = extra (length q.messages);
      }
    ]
  ]

  abbrev string_or_empty : Option String → String
  string_or_empty none = ""
  string_or_empty (some s) = s

  -- `poly_path` encodes the path of the nest's polygon.
  unfoldable pub add_nest_webhook :
      {Geometry : Type 0}
      → (Geometry → String)
      → (ℕ → ℕ)
      → Nest F Geometry
      → NestingPokemonInfo F
      → NestWebhookQueue F
      → NestWebhookQueue F
  unfolding add_message
  add_nest_webhook poly_path extra nest ni = add_message extra (record {
    type = "nest";
    message = record {
      nest_id = nest.id;
      name = nest.name;
      lat = nest.lat;
      lon = nest.lon;
      pokemon_id = ni.pokemon_key.pokemon_id;
      form = ni.pokemon_key.form_id;
      pokemon_count = ni.nest_count;
      pokemon_avg = ni.nest_hourly_count;
      pokemon_ratio = percent F ni.nest_count ni.nest_total;
      poly_path = poly_path nest.geometry;
      reset_time = unix ni.detected_at;
      area_name = area_string_to_area_name (string_or_empty nest.area_name);
    };
  })

  -- The queue is emptied, and as many messages are popped. They stay in the array of the queue.
  unfoldable pub pop_nest_messages_from_queue : NestWebhookQueue F → NestWebhookQueue F × ℕ
  pop_nest_messages_from_queue q =
      (record { messages = []; stale = q.messages ++ q.stale; room = q.room }, length q.messages)

  -- What popped messages are, read while the queue has not moved to a new array.
  abbrev pub popped : ℕ → NestWebhookQueue F → List (NestWebhookMessage F)
  popped n q = take n (q.messages ++ q.stale)

  -- The messages that each destination is sent, if nothing is added while they are sent.
  unfoldable pub flush :
      List (List AreaName)
      → NestWebhookQueue F
      → NestWebhookQueue F × List (List (NestWebhookMessage F))
  unfolding pop_nest_messages_from_queue
  flush destinations q =
      let (q', n) = pop_nest_messages_from_queue q in
      (q', map (λ names. filter_messages names (popped n q')) destinations)
