-- ===== src/Stats/Collection/Retention.antt =====
-- The loops of the three purges of processor/stats.go: none of them panics, each drops whole periods from one end
-- and leaves totals that count exactly the periods that are kept.
use fletchling.Prelude.{
  ◌≡◌, refl, ap, subst, List, [], ◌∷◌, ◌++◌, arith, pos, ◌+ℤ◌, ◌≤ℤ◌, ltb_ℤ, int_laws, done, ◌>>=◌,
  All, All-append, Bool-cases, inl, inr, true, false,
}
use fletchling.Prelude.Int.{parts}
use fletchling.Prelude.Time.{Time, Duration}
use fletchling.Stats.Period.{CountsForTimePeriod}
use fletchling.Stats.Period.Tally.{IsPeriod}
use fletchling.Stats.Collection.{
  Purge, drop_period, keep_recent_loop, purge_oldest_loop, purge_oldest_periods,
}
use fletchling.Stats.Collection.Balance.{
  IsBalanced, IsEnded, length_of, sum_lengths, sum_lengths-append, drop_period-Dropped,
}
use fletchling.Stats.Collection.Kept.{
  Kept, from_front, Kept-cons, Kept-stop, shorter, with_current, would_fit, Stops, IsWithin,
  WasNeeded,
}

whole_length :
    (total : Duration) (p : CountsForTimePeriod) (past dropped left : List CountsForTimePeriod)
    (after : Duration)
    → total ≡ sum_lengths (p ∷ past)
    → past ≡ dropped ++ left
    → after ≡ sum_lengths left
    → total ≡ sum_lengths (p ∷ dropped) +ℤ after
whole_length total p past dropped left after len whole lengths = omega (
  int_laws,
  parts len,
  parts (ap sum_lengths whole),
  parts (sum_lengths-append dropped left),
  parts lengths,
)

module _ (now : Time) (keep : Duration) (current : CountsForTimePeriod)
    (current_ok : IsPeriod current) where
  -- The periods before the current one are dropped until their length is at most `keep`.
  pub keep_recent_loop-Kept :
      (past : List CountsForTimePeriod) (s : Purge)
      → pos 0 ≤ℤ keep
      → IsBalanced s.totals (past ++ current ∷ [])
      → s.total_duration ≡ sum_lengths past
      → All IsPeriod past
      → All IsEnded past
      → (k : Kept from_front
          (with_current current)
          (keep_recent_loop now keep s (past ++ current ∷ []))
          s
          past
          current)
        × (k.after.total_duration ≤ℤ keep)
        × WasNeeded keep k.after.total_duration k.dropped
  unfolding keep_recent_loop Kept-stop Kept-cons
  keep_recent_loop-Kept [] s h b len ps es =
      let not_more : ltb_ℤ keep s.total_duration ≡ false = ground (arith, len, h) in
      rw (not_more, keep_recent_loop)
        (Kept-stop (with_current current) s [] current b len, omega (int_laws, parts len), tt)
  keep_recent_loop-Kept (p ∷ past) s h b len ps es =
      elim (Bool-cases (ltb_ℤ keep s.total_duration)) [
        | inl more ↦
            let rest = past ++ current ∷ [] in
            let d =
              drop_period-Dropped now p s rest b.totals b.sums ps.0
                (All-append IsPeriod past (current ∷ []) ps.1 (current_ok, tt)) in
            let (k, le, needed) =
              keep_recent_loop-Kept past d.after h d.balanced
                (shorter now s p past current es.0 d len) ps.1 es.1 in
            rw (more, keep_recent_loop)
              (rw d.result (
                Kept-cons now s p past current es.0 d (with_current current) _ k,
                le,
                (
                  subst (λ x. ltb_ℤ keep x ≡ true)
                      (whole_length s.total_duration p past k.dropped k.left k.after.total_duration
                        len k.whole k.lengths)
                      more,
                  needed,
                ),
              ))
        | inr enough ↦
            rw (enough, keep_recent_loop)
              (
                Kept-stop (with_current current) s (p ∷ past) current b len,
                ground (arith, enough),
                tt,
              )
      ]

module _ (now : Time) (current : CountsForTimePeriod) (current_ok : IsPeriod current) where
  abbrev Purged : Duration → Purge → List CountsForTimePeriod → Type 0
  Purged limit s past =
      (k : Kept from_front (with_current current)
        (purge_oldest_periods now limit s (past ++ current ∷ [])) s past current)
      × IsWithin limit s k.after
      × Stops now limit k.after.purged k.left

  module _ (limit : Duration) (s : Purge) (p : CountsForTimePeriod)
      (past : List CountsForTimePeriod) (b : IsBalanced s.totals (p ∷ past ++ current ∷ []))
      (len : s.total_duration ≡ length_of p +ℤ sum_lengths past) (ok : IsPeriod p)
      (ps : All IsPeriod past) (ended : IsEnded p) where
    purge_oldest-round :
        (purge_oldest_periods now limit s (p ∷ past ++ current ∷ [])
          ≡ (elim (would_fit now limit s.purged p) [
            | true ↦ drop_period now p s >>= λ s'.
                purge_oldest_periods now limit s' (past ++ current ∷ [])
            | false ↦ done (s, p ∷ past ++ current ∷ [])
          ]))
        → ((t : Purge)
            → IsBalanced t.totals (past ++ current ∷ [])
            → t.total_duration ≡ sum_lengths past
            → Purged limit t past)
        → Purged limit s (p ∷ past)
    unfolding Kept-stop Kept-cons
    purge_oldest-round step next = elim (Bool-cases (would_fit now limit s.purged p)) [
      | inl fits ↦
          let d =
            drop_period-Dropped now p s (past ++ current ∷ []) b.totals b.sums ok
              (All-append IsPeriod past (current ∷ []) ps (current_ok, tt)) in
          let (k, within, stops) =
            next d.after d.balanced (shorter now s p past current ended d len) in
          rw (step, fits, d.result)
            (
              Kept-cons now s p past current ended d (with_current current) _ k,
              elim within [ inl same ↦ inr (rw (same, d.purged) fits) | inr lt ↦ inr lt ],
              stops,
            )
      | inr full ↦
          rw (step, full)
            (Kept-stop (with_current current) s (p ∷ past) current b len, inl refl, full)
    ]

  pub purge_oldest_periods-Kept :
      (past : List CountsForTimePeriod) (limit : Duration) (s : Purge)
      → IsBalanced s.totals (past ++ current ∷ [])
      → s.total_duration ≡ sum_lengths past
      → All IsPeriod past
      → All IsEnded past
      → Purged limit s past
  unfolding purge_oldest_periods purge_oldest_loop Kept-stop
  purge_oldest_periods-Kept [] limit s b len ps es =
      (Kept-stop (with_current current) s [] current b len, inl refl, tt)
  purge_oldest_periods-Kept (p ∷ []) limit s b len ps es =
      purge_oldest-round limit s p [] b len ps.0 ps.1 es.0 refl
        (λ t bt lt. purge_oldest_periods-Kept [] limit t bt lt ps.1 es.1)
  purge_oldest_periods-Kept (p ∷ q ∷ past) limit s b len ps es =
      purge_oldest-round limit s p (q ∷ past) b len ps.0 ps.1 es.0 refl
        (λ t bt lt. purge_oldest_periods-Kept (q ∷ past) limit t bt lt ps.1 es.1)
