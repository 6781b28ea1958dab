-- ===== src/Stats/Reach.antt =====
-- Every collection of processor/stats.go that the operations of the processor can lead to.
use fletchling.Prelude.{
  ℕ, suc, ◌+◌, ◌<◌, ◌≡◌, sym, ap, ◌∙◌, subst, Bool, true, false, Option, none, some, List, ℤ, pos,
  ◌≤ℤ◌, int_eq, Outcome, done, panic, length, inl, inr, Bool-cases,
}
use fletchling.Prelude.Float.{Floats}
use fletchling.Prelude.Time.{Time, Duration}
use fletchling.Prelude.Word.{u64_mod}
use fletchling.Models.{PokemonKey}
use fletchling.Stats.Counts.Tally.{Cell, IsLive}
use fletchling.Stats.Period.Tally.{Scope, count, gain}
use fletchling.Stats.Collection.Balance.{sum_counts}
use fletchling.Stats.Overlap.{add_pokemon_around_snapshot, add_pokemon_around_snapshot-Loses}
use fletchling.Stats.Collection.{
  StatsCollection, new_stats_collection, add_pokemon, keep_recent_stats, purge_oldest_stats,
  purge_newest_stats,
}
use fletchling.Stats.Collection.Sound.{IsSound}
use fletchling.Stats.Collection.Adding.{add_pokemon-Counts}
use fletchling.Stats.Collection.Panics.{add_pokemon_spent_panics}
use fletchling.Stats.Collection.Purges.{
  keep_recent_stats-Retains, purge_oldest_stats-Retains, purge_newest_stats-Retains,
}
use fletchling.Stats.Rotation.{FrozenStatsCollection, rotate, throws_away, get_snapshot}
use fletchling.Stats.Rotation.Sound.{rotate_kept, rotate_thrown}
use fletchling.Stats.Rotation.Snapshot.{get_snapshot-Snapshots}
use fletchling.Stats.Rotation.Start.{new_stats_collection-IsSound}

-- The state that an operation leaves is the one that the lemma about it gives.
module _ {A : Type 0} where
  abbrev state_or : StatsCollection → Outcome (StatsCollection × A) → StatsCollection
  state_or default (done r) = r.0
  state_or default (panic f) = default

  same_state :
      (r : Outcome (StatsCollection × A)) (s t : StatsCollection) (a b : A)
      → r ≡ done (s, a)
      → r ≡ done (t, b)
      → s ≡ t
  same_state r s t a b e f = ap (state_or s) (sym e ∙ f)

abbrev purged_or : StatsCollection → Outcome (StatsCollection × ℕ × Duration) → StatsCollection
purged_or default (done r) = r.0
purged_or default (panic f) = default

same_purge :
    (r : Outcome (StatsCollection × ℕ × Duration)) (s t : StatsCollection) (m n : ℕ)
    (d e : Duration)
    → r ≡ done (s, m, d)
    → r ≡ done (t, n, e)
    → s ≡ t
same_purge r s t m n d e h k = ap (purged_or s) (sym h ∙ k)

abbrev overlap_or :
    StatsCollection → Outcome (StatsCollection × FrozenStatsCollection × Bool) → StatsCollection
overlap_or default (done r) = r.0
overlap_or default (panic f) = default

-- AddPokemon returns only if it could write to the totals.
add-IsSound :
    (s t : StatsCollection) (k : PokemonKey) (ids : List ℤ) (counted : Bool)
    → ((x : Scope) (c : Cell) → count x c s.totals + suc (length ids) < u64_mod)
    → add_pokemon k ids s ≡ done (t, counted)
    → IsSound s
    → IsSound t
add-IsSound s t k ids counted room e h = elim h.balanced.totals.global [
  | inl spent ↦ absurd (cc (e, add_pokemon_spent_panics k ids s h room spent))
  | inr live ↦
      let r = add_pokemon-Counts k ids s h live room in
      subst IsSound (same_state _ r.after t true counted r.result e) r.sound
]

module _ (F : Floats) (extra : ℕ → ℕ) where
  -- One whole call that returns. Counters have room, and durations to keep are not negative.
  pub data Step : StatsCollection → StatsCollection → Type 0 where
    add :
        (s t : StatsCollection) (k : PokemonKey) (ids : List ℤ) (counted : Bool)
        → ((x : Scope) (c : Cell) → count x c s.totals + suc (length ids) < u64_mod)
        → add_pokemon k ids s ≡ done (t, counted)
        → Step s t
    rotated :
        (s t : StatsCollection) (now : Time) (max_history : Duration) (skip_pct : F.Float)
        (f : Option FrozenStatsCollection)
        → pos 0 ≤ℤ max_history
        → rotate F extra now max_history skip_pct s ≡ done (t, f)
        → Step s t
    snapshot :
        (s t : StatsCollection) (now : Time) (f : FrozenStatsCollection)
        → get_snapshot now s ≡ done (t, f)
        → Step s t
    keep_recent :
        (s t : StatsCollection) (now : Time) (keep : Duration) (num : ℕ) (purged : Duration)
        → pos 0 ≤ℤ keep
        → keep_recent_stats extra now keep s ≡ done (t, num, purged)
        → Step s t
    purge_oldest :
        (s t : StatsCollection) (now : Time) (limit : Duration) (num : ℕ) (purged : Duration)
        → purge_oldest_stats now limit s ≡ done (t, num, purged)
        → Step s t
    purge_newest :
        (s t : StatsCollection) (now : Time) (limit : Duration) (num : ℕ) (purged : Duration)
        → purge_newest_stats extra now limit false s ≡ done (t, num, purged)
        → Step s t

  -- Calls one after the other, and at most one overlap, with which the run ends: the pokemon and
  -- the nests of an AddPokemon within which a GetSnapshot falls. Both hold the mutex for reading.
  pub data Reach : Option (PokemonKey × List ℤ) → StatsCollection → Type 0 where
    start : (now : Time) → Reach none (new_stats_collection now)
    next : (s t : StatsCollection) → Reach none s → Step s t → Reach none t
    overlap :
        (s t : StatsCollection) (now : Time) (k : PokemonKey) (ids : List ℤ)
        (f : FrozenStatsCollection) (counted : Bool)
        → Reach none s
        → IsLive s.totals.global_counts
        → ((x : Scope) (c : Cell) → count x c s.totals + suc (length ids) < u64_mod)
        → add_pokemon_around_snapshot now k ids s ≡ done (t, f, counted)
        → Reach (some (k, ids)) t

  rotate-IsSound :
      (s t : StatsCollection) (now : Time) (max_history : Duration) (skip_pct : F.Float)
      (f : Option FrozenStatsCollection)
      → pos 0 ≤ℤ max_history
      → rotate F extra now max_history skip_pct s ≡ done (t, f)
      → IsSound s
      → IsSound t
  rotate-IsSound s t now max_history skip_pct f nonneg e h =
      elim (Bool-cases (throws_away F skip_pct h.current.global_counts)) [
        | inl thrown ↦
            let r = rotate_thrown F extra now max_history nonneg s h skip_pct thrown in
            subst IsSound (same_state _ r.after t none f r.result e) r.sound
        | inr kept ↦
            let (g, r, _) = rotate_kept F extra now max_history nonneg s h skip_pct kept in
            subst IsSound (same_state _ r.after t (some g) f r.result e) r.sound
      ]

  Step-IsSound : {s t : StatsCollection} → Step s t → IsSound s → IsSound t
  Step-IsSound (add s t k ids counted room e) h = add-IsSound s t k ids counted room e h
  Step-IsSound (rotated s t now max_history skip_pct f nonneg e) h =
      rotate-IsSound s t now max_history skip_pct f nonneg e h
  Step-IsSound (snapshot s t now f e) h =
      let r = get_snapshot-Snapshots now s h in
      subst IsSound (same_state _ r.after t r.taken f r.result e) r.sound
  Step-IsSound (keep_recent s t now keep num purged nonneg e) h =
      let (r, _, _) = keep_recent_stats-Retains s h extra now keep nonneg in
      subst IsSound (same_purge _ r.after t r.num num r.purged purged r.result e) r.sound
  Step-IsSound (purge_oldest s t now limit num purged e) h =
      let (r, _, _) = purge_oldest_stats-Retains s h extra now limit in
      subst IsSound (same_purge _ r.after t r.num num r.purged purged r.result e) r.sound
  Step-IsSound (purge_newest s t now limit num purged e) h =
      let (r, _, _) = purge_newest_stats-Retains s h extra now limit in
      subst IsSound (same_purge _ r.after t r.num num r.purged purged r.result e) r.sound

  Reach-IsSound : (s : StatsCollection) → Reach none s → IsSound s
  Reach-IsSound _ (start now) = new_stats_collection-IsSound now
  Reach-IsSound _ (next s t r step) = Step-IsSound step (Reach-IsSound s r)

  -- Without an overlap it is sound; with one the totals count its pokemon once more than the
  -- periods do.
  abbrev pub Balances : Option (PokemonKey × List ℤ) → StatsCollection → Type 0
  Balances none s = IsSound s
  Balances (some (k, ids)) s =
      (x : Scope) (c : Cell) → count x c s.totals ≡ sum_counts x c s.counts + gain x c k ids

  -- Every collection that NewStatsCollection and then any sequence of AddPokemon, Rotate,
  -- GetSnapshot, KeepRecent, PurgeOldest and PurgeNewest without the current period lead to, each
  -- a whole call that returns, while each counter has room and no duration to keep is negative,
  -- is sound: its totals count in each nest and in the world exactly what its periods count, its
  -- duration is that of the periods that are over, and its last period is not frozen. If the
  -- sequence ends with an AddPokemon within which a GetSnapshot falls, after AddPokemon has read
  -- the current period and before it counts, on totals that can be written to, then the totals
  -- count its pokemon, in the world and in each of its nests, once more than the periods do.
  pub Reach-Balances :
      (overlapped : Option (PokemonKey × List ℤ)) (s : StatsCollection)
      → Reach overlapped s
      → Balances overlapped s
  Reach-Balances _ _ (start now) = new_stats_collection-IsSound now
  Reach-Balances _ _ (next s t r step) = Step-IsSound step (Reach-IsSound s r)
  Reach-Balances _ _ (overlap s t now k ids f counted r live room e) =
      let l = add_pokemon_around_snapshot-Loses now k ids s (Reach-IsSound s r) live room in
      let same : l.after ≡ t = ap (overlap_or l.after) (sym l.result ∙ e) in
      λ x c.
        subst (λ u. count x c u.totals ≡ sum_counts x c u.counts + gain x c k ids) same
          (l.totals x c)
