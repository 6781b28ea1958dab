-- ===== src/Webhooks/Queue.antt =====
-- What the queue of webhook_sender/poracle.go delivers.
use mathlib.Core.List.{append-nil, append_assoc}
use fletchling.Prelude.{
  ℕ, zero, suc, ◌≤◌, ◌≡◌, refl, sym, ap, ◌∙◌, List, [], ◌∷◌, ◌++◌, map, take, length, length-append,
  arith,
}
use fletchling.Prelude.Float.{Floats}
use fletchling.Areas.{AreaName}
use fletchling.Webhooks.{
  NestWebhookMessage, NestWebhookQueue, filter_messages, add_message, pop_nest_messages_from_queue,
  popped, flush,
}

module _ {A : Type 0} where
  abbrev pub drop : ℕ → List A → List A
  drop zero xs = xs
  drop (suc n) [] = []
  drop (suc n) (x ∷ xs) = drop n xs

  take-length : (xs ys : List A) → take (length xs) (xs ++ ys) ≡ xs
  take-length [] ys = refl
  take-length (x ∷ xs) ys = ap (◌∷◌ x) (take-length xs ys)

  -- New elements at the front, over those that were there.
  take-overwritten :
      (ms xs ys : List A)
      → length ms ≤ length xs
      → take (length xs) (ms ++ drop (length ms) (xs ++ ys)) ≡ ms ++ drop (length ms) xs
  take-overwritten [] xs ys h = take-length xs ys
  take-overwritten (m ∷ ms) [] ys h = absurd (omega (arith, h))
  take-overwritten (m ∷ ms) (x ∷ xs) ys h =
      ap (◌∷◌ m) (take-overwritten ms xs ys (omega (arith, h)))

module _ (F : Floats) (extra : ℕ → ℕ) where
  unfoldable pub add_all : List (NestWebhookMessage F) → NestWebhookQueue F → NestWebhookQueue F
  add_all [] q = q
  add_all (m ∷ ms) q = add_all ms (add_message F extra m q)

  add_message-messages :
      (m : NestWebhookMessage F) (q : NestWebhookQueue F)
      → (add_message F extra m q).messages ≡ q.messages ++ m ∷ []
  unfolding add_message
  add_message-messages m q = ground arith

  add_all-messages :
      (ms : List (NestWebhookMessage F)) (q : NestWebhookQueue F)
      → (add_all ms q).messages ≡ q.messages ++ ms
  unfolding add_all
  add_all-messages [] q = sym (append-nil q.messages)
  add_all-messages (m ∷ ms) q =
      add_all-messages ms (add_message F extra m q)
      ∙ rw (add_message-messages m q) (append_assoc q.messages (m ∷ []) ms)

  pub flush-add_all :
      (destinations : List (List AreaName)) (ms : List (NestWebhookMessage F))
      (q : NestWebhookQueue F)
      → q.messages ≡ []
      → ((flush F destinations (add_all ms q)).0.messages ≡ [])
        × ((flush F destinations (add_all ms q)).1
            ≡ map (λ names. filter_messages F names ms) destinations)
  unfolding flush pop_nest_messages_from_queue
  flush-add_all destinations ms q empty =
      let all : (add_all ms q).messages ≡ ms = add_all-messages ms q ∙ rw empty refl in
      (refl, rw (take-length (add_all ms q).messages (add_all ms q).stale, all) refl)

  add_message-stale :
      (m : NestWebhookMessage F) (q : NestWebhookQueue F) (old : NestWebhookMessage F)
      (stale : List (NestWebhookMessage F))
      → q.stale ≡ old ∷ stale
      → (add_message F extra m q).stale ≡ stale
  unfolding add_message
  add_message-stale m q old stale e = rw e refl

  add_all-stale :
      (ms : List (NestWebhookMessage F)) (q : NestWebhookQueue F)
      (stale : List (NestWebhookMessage F))
      → q.stale ≡ stale
      → length ms ≤ length stale
      → (add_all ms q).stale ≡ drop (length ms) stale
  unfolding add_all
  add_all-stale [] q stale e h = e
  add_all-stale (m ∷ ms) q [] e h = absurd (omega (arith, h))
  add_all-stale (m ∷ ms) q (old ∷ stale) e h =
      add_all-stale ms (add_message F extra m q) stale (add_message-stale m q old stale e)
        (omega (arith, h))

  -- If after a pop no more messages are added than were popped, and before those are sent, then
  -- what is sent is the new messages followed by the popped ones without as many of the first,
  -- while the new messages wait in the queue too: the first popped messages are lost and the new
  -- ones are sent twice.
  pub popped-add_all :
      (ms : List (NestWebhookMessage F)) (q : NestWebhookQueue F)
      → length ms ≤ length q.messages
      → (popped F
            (pop_nest_messages_from_queue F q).1
            (add_all ms (pop_nest_messages_from_queue F q).0)
          ≡ ms ++ drop (length ms) q.messages)
        × ((add_all ms (pop_nest_messages_from_queue F q).0).messages ≡ ms)
  unfolding pop_nest_messages_from_queue
  popped-add_all ms q few =
      let fits : length ms ≤ length (q.messages ++ q.stale) =
        omega (arith, few, length-append q.messages q.stale) in
      let waiting = add_all-messages ms (pop_nest_messages_from_queue F q).0 in
      (
        rw
            (
              waiting,
              add_all-stale ms (pop_nest_messages_from_queue F q).0 (q.messages ++ q.stale) refl
                  fits,
            )
            (take-overwritten ms q.messages q.stale few),
        waiting,
      )
