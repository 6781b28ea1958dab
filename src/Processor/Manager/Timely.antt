-- ===== src/Processor/Manager/Timely.antt =====
-- When Run rotates the statistics.
use fletchling.Prelude.{
  ◌+◌, ◌≡◌, ◌≤◌, ◌<◌, ◌⊎◌, inl, inr, refl, sym, ap, pos, pos_part, ◌-ℤ◌, ◌≤ℤ◌, ltb_ℤ, int_eq, Bool,
  true, false, ◌∷◌, leb, ◌==◌, ◌||◌, Bool-cases, arith,
}
use fletchling.Prelude.Time.{Time, Duration, time_sub}
use fletchling.Prelude.Int
use fletchling.Processor.Manager.{
  fires, Loop, System, start, reload_loop, on_reload, on_stats_timer, on_log_timer, process_pokemon,
  swap_processor, Step, Reach,
}

module _ {P : Type 0} (interval_of : P → Duration)
    (positive : (p : P) → pos 0 ≤ℤ interval_of p) where
  -- The timer fires one interval after the last rotation.
  pub record IsTimed (now : Time) (l : Loop interval_of) : Type 0 where
    pub begun : l.stats_timer_start ≤ now
    pub interval : l.rotation_interval ≡ interval_of l.nest_processor
    pub due : l.stats_timer ≡ l.stats_timer_start + pos_part l.rotation_interval

  abbrev pub IsTimely : System interval_of → Type 0
  IsTimely s = IsTimed s.now s.loop

  rest_of_interval :
      (now begun : Time) (new : Duration)
      → begun ≤ now
      → pos 0 ≤ℤ new
      → ltb_ℤ new (time_sub now begun) ≡ false
      → fires now (new -ℤ time_sub now begun) ≡ begun + pos_part new
  unfolding time_sub
  rest_of_interval now begun new h k l =
      ground (arith, h, k, l, Int.-ℤ_parts new (time_sub now begun))

  reload_loop-IsTimed :
      (now : Time) (p : P) (l : Loop interval_of)
      → IsTimed now l
      → IsTimed now (reload_loop interval_of now p l).0
  unfolding reload_loop
  reload_loop-IsTimed now p l h = elim (Bool-cases (interval_of p == l.rotation_interval)) [
    | inl same ↦ rw same (record {
      begun = h.begun;
      interval = sym ((int_eq.same_iff (interval_of p) l.rotation_interval).0 same);
      due = h.due;
    })
    | inr other ↦
        elim (Bool-cases
          (leb l.stats_timer now || ltb_ℤ (interval_of p) (time_sub now l.stats_timer_start))) [
            | inl hit ↦
                rw other (rw hit (record { begun = omega arith; interval = refl; due = refl }))
            | inr wait ↦ rw other (
                rw wait (record {
                  begun = h.begun;
                  interval = refl;
                  due =
                      rest_of_interval now l.stats_timer_start (interval_of p) h.begun (positive p)
                        (ground (arith, wait));
                }))
          ]
  ]

  later_now : (now now' : Time) (l : Loop interval_of) → now ≤ now' → IsTimed now l → IsTimed now' l
  later_now now now' l h t = record {
    begun = omega (arith, h, t.begun);
    interval = t.interval;
    due = t.due;
  }

  Step-IsTimely : {s t : System interval_of} → Step interval_of s t → IsTimely s → IsTimely t
  unfolding on_reload on_stats_timer on_log_timer process_pokemon swap_processor
  Step-IsTimely {s} (Step.reload now h pending) i =
      reload_loop-IsTimed now s.nest_processor s.loop (later_now s.now now s.loop h i)
  Step-IsTimely {s} (Step.stats_timer now h fired) i = record {
    begun = omega arith;
    interval = i.interval;
    due = refl;
  }
  Step-IsTimely {s} (Step.log_timer now h fired) i =
      let t = later_now s.now now s.loop h i in
      record { begun = t.begun; interval = t.interval; due = t.due }
  Step-IsTimely {s} (Step.pokemon n) i = i
  Step-IsTimely {s} (Step.load now p h) i = later_now s.now now s.loop h i

  pub Reach-IsTimely : {s : System interval_of} → Reach interval_of s → IsTimely s
  unfolding start
  Reach-IsTimely (Reach.started now p current) = record {
    begun = omega arith;
    interval = refl;
    due = refl;
  }
  Reach-IsTimely (Reach.later r st) = Step-IsTimely st (Reach-IsTimely r)

  -- If no interval of a configuration is negative: in every state that Run, with any pokemon and
  -- reloads, can reach, and whatever reloads have changed the interval, Run can rotate the
  -- statistics at any instant from one interval of its processor after the last rotation, or
  -- after its start, on: the rotation is that of its processor, and the next interval begins at
  -- that instant.
  pub Reach-rotates :
      (s : System interval_of) (now : Time)
      → Reach interval_of s
      → s.now ≤ now
      → s.loop.stats_timer_start + pos_part (interval_of s.loop.nest_processor) ≤ now
      → (t : System interval_of) × Step interval_of s t
        × (t.rotations ≡ (now, s.loop.nest_processor) ∷ s.rotations)
        × (t.loop.stats_timer_start ≡ now)
  unfolding on_stats_timer
  Reach-rotates s now r later passed =
      let i = Reach-IsTimely r in
      (
        on_stats_timer interval_of now s,
        Step.stats_timer now later (omega (arith, i.due, ap pos_part i.interval, passed)),
        refl,
        refl,
      )

  -- What a step does to the rotations: none, or one that is due.
  abbrev pub IsDue : System interval_of → System interval_of → Type 0
  IsDue s t =
      ((t.rotations ≡ s.rotations) × (t.loop.stats_timer_start ≡ s.loop.stats_timer_start))
      ⊎ ((t.rotations ≡ (t.now, t.loop.nest_processor) ∷ s.rotations)
          × (t.loop.stats_timer_start ≡ t.now)
          × ((s.loop.stats_timer_start + pos_part (interval_of s.loop.nest_processor) ≤ t.now)
              ⊎ (s.loop.stats_timer_start + pos_part (interval_of t.loop.nest_processor) < t.now)))

  -- The same of a reload's loop.
  abbrev LoopIsDue : Time → P → Loop interval_of → Loop interval_of × Bool → Type 0
  LoopIsDue now p l (l', rotates) =
      ((rotates ≡ false) × (l'.stats_timer_start ≡ l.stats_timer_start))
      ⊎ ((rotates ≡ true)
          × (l'.stats_timer_start ≡ now)
          × (l'.nest_processor ≡ p)
          × ((l.stats_timer ≤ now) ⊎ (l.stats_timer_start + pos_part (interval_of p) < now)))

  has_passed :
      (now begun timer : Time) (new : Duration)
      → begun ≤ now
      → pos 0 ≤ℤ new
      → (leb timer now || ltb_ℤ new (time_sub now begun)) ≡ true
      → (timer ≤ now) ⊎ (begun + pos_part new < now)
  unfolding time_sub
  has_passed now begun timer new h k hit = elim (Bool-cases (leb timer now)) [
    | inl fired ↦ inl (ground (arith, fired))
    | inr early ↦ inr (ground (arith, early, hit, h, k))
  ]

  reload_loop-IsDue :
      (now : Time) (p : P) (l : Loop interval_of)
      → l.stats_timer_start ≤ now
      → LoopIsDue now p l (reload_loop interval_of now p l)
  unfolding reload_loop
  reload_loop-IsDue now p l h = elim (Bool-cases (interval_of p == l.rotation_interval)) [
    | inl same ↦ rw same (inl (refl, refl))
    | inr other ↦
        elim (Bool-cases
          (leb l.stats_timer now || ltb_ℤ (interval_of p) (time_sub now l.stats_timer_start))) [
            | inl hit ↦ rw other (
                rw hit (
                  inr (
                    refl,
                    refl,
                    refl,
                    has_passed now l.stats_timer_start l.stats_timer (interval_of p) h (positive p)
                        hit,
                  )))
            | inr wait ↦ rw other (rw wait (inl (refl, refl)))
          ]
  ]

  reloaded-IsDue :
      (now : Time) (s : System interval_of)
      → IsTimely s
      → s.now ≤ now
      → IsDue s (on_reload interval_of now s)
  unfolding on_reload
  reloaded-IsDue now s i h =
      let begun : s.loop.stats_timer_start ≤ now = omega (arith, i.begun, h) in
      elim (reload_loop-IsDue now s.nest_processor s.loop begun) [
        | inl (waits, same) ↦ inl (rw waits refl, same)
        | inr (rotates, begins, same, passed) ↦ inr (
          rw (rotates, same) refl,
          begins,
          elim passed [
            | inl fired ↦ inl (omega (arith, i.due, ap pos_part i.interval, fired))
            | inr short ↦ inr (rw same short)
          ],
        )
      ]

  -- If no interval of a configuration is negative: from every state that Run, with any pokemon
  -- and reloads, can reach, a step rotates the statistics at most once. If it does, then one
  -- interval has passed since the last rotation or since the start: that of the processor so far,
  -- or that of the processor that a reload brings in; and the next interval begins. If it does
  -- not, the time of the last rotation stays.
  pub Step-IsDue :
      {s t : System interval_of} → Reach interval_of s → Step interval_of s t → IsDue s t
  unfolding on_stats_timer on_log_timer process_pokemon swap_processor
  Step-IsDue {s} r (Step.reload now h pending) = reloaded-IsDue now s (Reach-IsTimely r) h
  Step-IsDue {s} r (Step.stats_timer now h fired) =
      let i = Reach-IsTimely r in
      inr (refl, refl, inl (omega (arith, i.due, ap pos_part i.interval, fired)))
  Step-IsDue {s} r (Step.log_timer now h fired) = inl (refl, refl)
  Step-IsDue {s} r (Step.pokemon n) = inl (refl, refl)
  Step-IsDue {s} r (Step.load now p h) = inl (refl, refl)
