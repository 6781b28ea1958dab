-- ===== src/Processor/Manager.antt =====
-- NestProcessorManager of processor/manager.go: Run, ProcessPokemon and the swap of LoadConfig. A
-- timer is the instant at which it fires, and a handler of Run reads the clock once. Which channel a
-- select takes is left to the relation. A processor is known by its rotation interval.
pub mod Timely
pub mod Loading
pub mod Carried
pub mod Examples
use fletchling.Prelude.{
  ℕ, zero, ◌+◌, ◌%◌, ◌≡◌, ◌≤◌, ◌<◌, ℤ, pos_part, ◌-ℤ◌, ltb_ℤ, int_eq, Bool, true, false, Option,
  none, some, List, [], ◌∷◌, leb, ltb, if◌then◌else◌, ◌==◌, ◌||◌,
}
use fletchling.Prelude.Time.{Time, Duration, minute, time_sub}
use fletchling.Prelude.Word.{u64_mod}

-- `time.NewTimer(d)` and `Reset(d)`: without a wait if `d` is not positive.
abbrev pub fires : Time → Duration → Time
fires now d = now + pos_part d

abbrev pub log_interval : ℕ
log_interval = minute

module _ {P : Type 0} (interval_of : P → Duration) where
  -- The variables of Run.
  pub record Loop : Type 0 where
    pub nest_processor : P
    pub rotation_interval : Duration
    pub stats_timer_start : Time
    pub stats_timer : Time
    pub log_timer : Time

  -- The manager, the loop, the clock, and what was done: the rotations, newest first, and the pairs
  -- of counts that were logged.
  pub record System : Type 0 where
    pub nest_processor : P
    pub reload_pending : Bool
    pub pokemon_processed_count : ℕ
    pub nests_matched_count : ℕ
    pub loop : Loop
    pub now : Time
    pub rotations : List (Time × P)
    pub reports : List (ℕ × ℕ)

  abbrev pub new_loop : Time → P → Loop
  new_loop now p = record {
    nest_processor = p;
    rotation_interval = interval_of p;
    stats_timer_start = now;
    stats_timer = fires now (interval_of p);
    log_timer = now + log_interval;
  }

  -- Run as it begins: it takes the manager's processor `p` first and eats a pending signal later. If a
  -- reload comes between the two, the manager has another processor by then.
  unfoldable pub start : Time → (p current : P) → System
  start now p current = record {
    nest_processor = current;
    reload_pending = false;
    pokemon_processed_count = 0;
    nests_matched_count = 0;
    loop = new_loop now p;
    now = now;
    rotations = [];
    reports = [];
  }

  -- The loop after a reload, and whether the statistics are processed at once: if the timer has fired
  -- or the new interval has passed.
  unfoldable pub reload_loop : Time → P → Loop → Loop × Bool
  reload_loop now p l =
      let new = interval_of p in
      let passed = time_sub now l.stats_timer_start in
      if new == l.rotation_interval
      then (record l { nest_processor = p }, false)
      else if leb l.stats_timer now || ltb_ℤ new passed
      then (
        record {
          nest_processor = p;
          rotation_interval = new;
          stats_timer_start = now;
          stats_timer = fires now new;
          log_timer = l.log_timer;
        },
        true,
      )
      else (
        record {
          nest_processor = p;
          rotation_interval = new;
          stats_timer_start = l.stats_timer_start;
          stats_timer = fires now (new -ℤ passed);
          log_timer = l.log_timer;
        },
        false,
      )

  abbrev pub noted : Bool → Time → P → List (Time × P) → List (Time × P)
  noted rotates now p rotations = if rotates then (now, p) ∷ rotations else rotations

  unfoldable pub on_reload : Time → System → System
  unfolding reload_loop
  on_reload now s =
      let (l, rotates) = reload_loop now s.nest_processor s.loop in
      record s {
        reload_pending = false;
        loop = l;
        now = now;
        rotations = noted rotates now s.nest_processor s.rotations;
      }

  unfoldable pub on_stats_timer : Time → System → System
  on_stats_timer now s =
      let l = s.loop in
      record s {
        loop = record l { stats_timer_start = now; stats_timer = fires now l.rotation_interval };
        now = now;
        rotations = (now, l.nest_processor) ∷ s.rotations;
      }

  unfoldable pub on_log_timer : Time → System → System
  on_log_timer now s =
      let l = s.loop in
      record s {
        pokemon_processed_count = 0;
        nests_matched_count = 0;
        loop = record l { log_timer = now + log_interval };
        now = now;
        reports = (s.pokemon_processed_count, s.nests_matched_count) ∷ s.reports;
      }

  unfoldable pub process_pokemon : ℕ → System → System
  process_pokemon num_nests_matched s = record s {
    pokemon_processed_count = (s.pokemon_processed_count + 1) % u64_mod;
    nests_matched_count = (s.nests_matched_count + num_nests_matched) % u64_mod;
  }

  -- The end of LoadConfig: the new processor, and a signal unless there is one already.
  unfoldable pub swap_processor : Time → P → System → System
  swap_processor now p s = record s { nest_processor = p; reload_pending = true; now = now }

  -- One step: a case of the select that is ready, or what other goroutines do.
  pub data Step (s : System) : System → Type 0 where
    reload : (now : Time) → s.now ≤ now → s.reload_pending ≡ true → Step s (on_reload now s)
    stats_timer :
        (now : Time) → s.now ≤ now → s.loop.stats_timer ≤ now → Step s (on_stats_timer now s)
    log_timer : (now : Time) → s.now ≤ now → s.loop.log_timer ≤ now → Step s (on_log_timer now s)
    pokemon : (num_nests_matched : ℕ) → Step s (process_pokemon num_nests_matched s)
    load : (now : Time) (p : P) → s.now ≤ now → Step s (swap_processor now p s)

  pub data Reach : System → Type 0 where
    started : (now : Time) (p current : P) → Reach (start now p current)
    later : {s t : System} → Reach s → Step s t → Reach t
