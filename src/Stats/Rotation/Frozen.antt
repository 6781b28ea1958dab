-- ===== src/Stats/Rotation/Frozen.antt =====
-- The periods of the statistics that Rotate of processor/stats.go hands out, if a purge behind them
-- has moved periods out of the array that they share.
use fletchling.Prelude.{
  ℕ, zero, suc, ◌≤◌, ◌<◌, ◌≡◌, refl, sym, ap, ◌∙◌, Option, none, some, List, [], ◌∷◌, ◌++◌, arith,
  pos, ◌≤ℤ◌, Outcome, done, panic, false, length, length-append, unsnoc-snoc,
}
use fletchling.Prelude.Float.{Floats}
use fletchling.Prelude.Time.{Time, Duration}
use fletchling.Stats.Period.{CountsForTimePeriod}
use fletchling.Stats.Collection.{StatsCollection}
use fletchling.Stats.Collection.Sound.{IsSound}
use fletchling.Stats.Rotation.{
  FrozenStatsCollection, nil_after, seen_by_frozen, latest_entry, throws_away, end_period, rotate,
}
use fletchling.Stats.Rotation.Sound.{rotate_kept}

nil_after-snoc :
    (num : ℕ) (ps : List CountsForTimePeriod) (p : CountsForTimePeriod)
    → num ≤ length ps
    → nil_after num (ps ++ p ∷ []) ≡ nil_after num ps ++ none ∷ []
nil_after-snoc zero [] p h = refl
nil_after-snoc (suc num) [] p h = absurd (omega (arith, h))
nil_after-snoc zero (q ∷ ps) p h = ap (◌∷◌ none) (nil_after-snoc zero ps p (omega arith))
nil_after-snoc (suc num) (q ∷ ps) p h =
    ap (◌∷◌ (some q)) (nil_after-snoc num ps p (omega (arith, h)))

abbrev handed_or :
    FrozenStatsCollection
    → Outcome (StatsCollection × Option FrozenStatsCollection)
    → FrozenStatsCollection
handed_or f (done (s, some g)) = g
handed_or f (done (s, none)) = f
handed_or f (panic e) = f

abbrev counts_or : StatsCollection → Outcome (StatsCollection × Option FrozenStatsCollection) → ℕ
counts_or t (done (s, g)) = length s.counts
counts_or t (panic e) = length t.counts

latest_none :
    (spare num : ℕ) (ps : List CountsForTimePeriod) (p : CountsForTimePeriod)
    (f : FrozenStatsCollection)
    → f.counts ≡ seen_by_frozen spare num (ps ++ p ∷ [])
    → 0 < spare
    → 0 < num
    → num ≤ length ps
    → latest_entry f ≡ done none
latest_none zero num ps p f e a b c = absurd (omega (arith, a))
latest_none (suc spare) zero ps p f e a b c = absurd (omega (arith, b))
latest_none (suc spare) (suc num) ps p f e a b c =
    rw (e, nil_after-snoc (suc num) ps p c, unsnoc-snoc (nil_after (suc num) ps) none) refl

module _ (F : Floats) (extra : ℕ → ℕ) (now : Time) (max_history : Duration)
    (nonneg : pos 0 ≤ℤ max_history) (stats : StatsCollection) (h : IsSound stats) where
  -- On a sound collection whose array has room behind its periods, if a Rotate that does not
  -- throw the current period away drops at least one old period and keeps at least one that is
  -- over, then the last of the periods that it hands out is a nil pointer.
  pub rotate-latest_entry :
      (skip_pct : F.Float) (after : StatsCollection) (f : FrozenStatsCollection)
      → throws_away F skip_pct h.current.global_counts ≡ false
      → rotate F extra now max_history skip_pct stats ≡ done (after, some f)
      → 0 < stats.spare
      → 1 < length after.counts
      → length after.counts ≤ length stats.counts
      → latest_entry f ≡ done none
  rotate-latest_entry skip_pct after f kept result room many fewer =
      let (g, r, handed) = rotate_kept F extra now max_history nonneg stats h skip_pct kept in
      let same : g ≡ f = ap (handed_or g) (sym r.result ∙ result) in
      let lengths : length r.after.counts ≡ length after.counts =
        ap (counts_or after) (sym r.result ∙ result) in
      let ours = ap length h.counts ∙ length-append h.past (h.current ∷ []) in
      let theirs = ap length r.sound.counts ∙ length-append r.sound.past (r.sound.current ∷ []) in
      let whole =
        sym (length-append h.past (end_period now h.current ∷ []))
        ∙ ap length r.whole
        ∙ length-append r.dropped r.sound.past in
      ap latest_entry (sym same)
      ∙ latest_none stats.spare (length r.dropped) h.past (end_period now h.current) g
          handed.periods room (omega (arith, lengths, ours, theirs, whole, many, fewer))
          (omega (arith, lengths, ours, theirs, whole, many, fewer))
