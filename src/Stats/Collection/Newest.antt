-- ===== src/Stats/Collection/Newest.antt =====
-- The loop of purgeNewestStats in processor/stats.go, over the periods that are over, newest first.
use mathlib.Core.List.{reverse, reverse-cons, reverse-append, reverse-reverse}
use fletchling.Prelude.{
  int_laws, length-reverse, sym, refl, ◌∙◌, arith, ap, subst, false, ◌≡◌, List, [], ◌∷◌, ◌++◌, ◌+ℤ◌,
  ltb_ℤ, All, All-append, Bool-cases, inl, inr,
}
use fletchling.Prelude.Time.{Time, Duration}
use fletchling.Stats.Period.{CountsForTimePeriod, duration}
use fletchling.Stats.Counts.Tally.{Cell}
use fletchling.Stats.Period.Tally.{Scope, IsPeriod}
use fletchling.Stats.Collection.{Purge, purge_newest_loop, purge_newest_periods}
use fletchling.Stats.Collection.Balance.{
  sum_counts, sum_counts-append, sum_lengths-append, IsBalanced, IsEnded, sum_lengths, length_of,
  duration-IsEnded, drop_period-Dropped,
}
use fletchling.Stats.Collection.Kept.{
  same_list, from_front, from_back, Kept, DidFit, StopsAt, oldest_of, Kept-cons, Kept-stop, shorter,
}

module _ (now : Time) (limit oldest : Duration) (current : CountsForTimePeriod)
    (current_ok : IsPeriod current) where
  pub purge_newest_loop-Kept :
      (past : List CountsForTimePeriod) (s : Purge)
      → IsBalanced s.totals (past ++ current ∷ [])
      → s.total_duration ≡ sum_lengths past
      → All IsPeriod past
      → All IsEnded past
      → (k : Kept from_front same_list (purge_newest_loop now limit oldest s past) s past current)
        × DidFit limit oldest s.purged k.dropped
        × StopsAt limit oldest k.after.purged k.left
  unfolding purge_newest_loop Kept-stop Kept-cons
  purge_newest_loop-Kept [] s b len ps es = (Kept-stop same_list s [] current b len, tt, tt)
  purge_newest_loop-Kept (p ∷ past) s b len ps es =
      elim (Bool-cases (ltb_ℤ (s.purged +ℤ oldest) limit)) [
        | inl more ↦
            let d =
              drop_period-Dropped now p s (past ++ current ∷ []) b.totals b.sums ps.0
                (All-append IsPeriod past (current ∷ []) ps.1 (current_ok, tt)) in
            let (k, fit, stops) =
              purge_newest_loop-Kept past d.after d.balanced
                (shorter now s p past current es.0 d len) ps.1 es.1 in
            let purged : d.after.purged ≡ s.purged +ℤ length_of p =
              d.purged ∙ ap (λ (x : Duration). s.purged +ℤ x) (duration-IsEnded now p es.0) in
            rw (more, purge_newest_loop)
              (rw d.result (
                Kept-cons now s p past current es.0 d same_list _ k,
                (more, subst (λ x. DidFit limit oldest x k.dropped) purged fit),
                stops,
              ))
        | inr full ↦
            rw (full, purge_newest_loop) (Kept-stop same_list s (p ∷ past) current b len, tt, full)
      ]

-- What is kept of a list does not depend on its order.
sum_counts-reverse :
    (s : Scope) (x : Cell) (ps : List CountsForTimePeriod)
    → sum_counts s x (reverse ps) ≡ sum_counts s x ps
sum_counts-reverse s x [] = refl
sum_counts-reverse s x (p ∷ ps) =
    rw (reverse-cons p ps)
      (omega (arith, sum_counts-append s x (reverse ps) (p ∷ []), sum_counts-reverse s x ps))

sum_lengths-reverse : (ps : List CountsForTimePeriod) → sum_lengths (reverse ps) ≡ sum_lengths ps
sum_lengths-reverse [] = refl
sum_lengths-reverse (p ∷ ps) =
    rw (reverse-cons p ps, sum_lengths-append (reverse ps) (p ∷ []), sum_lengths-reverse ps)
      (omega int_laws)

All-reverse {ℓ} :
    (P : CountsForTimePeriod → Type ℓ) (ps : List CountsForTimePeriod)
    → All P ps
    → All P (reverse ps)
All-reverse P [] h = tt
All-reverse P (p ∷ ps) h =
    rw (reverse-cons p ps) (All-append P (reverse ps) (p ∷ []) (All-reverse P ps h.1) (h.0, tt))

IsBalanced-reverse :
    (t current : CountsForTimePeriod) (ps : List CountsForTimePeriod)
    → IsBalanced t (ps ++ current ∷ [])
    → IsBalanced t (reverse ps ++ current ∷ [])
IsBalanced-reverse t current ps b = record {
  totals = b.totals;
  sums = λ s x. omega (
    arith,
    b.sums s x,
    sum_counts-append s x ps (current ∷ []),
    sum_counts-append s x (reverse ps) (current ∷ []),
    sum_counts-reverse s x ps,
  );
}

StopsAt-snoc :
    (limit oldest purged : Duration) (q : CountsForTimePeriod) (ps : List CountsForTimePeriod)
    → ltb_ℤ (purged +ℤ oldest) limit ≡ false
    → StopsAt limit oldest purged (ps ++ q ∷ [])
StopsAt-snoc limit oldest purged q [] h = h
StopsAt-snoc limit oldest purged q (p ∷ ps) h = h

StopsAt-reverse :
    (limit oldest purged : Duration) (ps : List CountsForTimePeriod)
    → StopsAt limit oldest purged ps
    → StopsAt limit oldest purged (reverse ps)
StopsAt-reverse limit oldest purged [] h = tt
StopsAt-reverse limit oldest purged (p ∷ ps) h =
    rw (reverse-cons p ps) (StopsAt-snoc limit oldest purged p (reverse ps) h)

-- The periods of the past from the oldest on, of which the newest are dropped.
pub purge_newest_periods-Kept :
    (now : Time) (limit : Duration) (current : CountsForTimePeriod) (current_ok : IsPeriod current)
    (past : List CountsForTimePeriod) (s : Purge)
    → IsBalanced s.totals (past ++ current ∷ [])
    → s.total_duration ≡ sum_lengths past
    → All IsPeriod past
    → All IsEnded past
    → (k : Kept from_back same_list (purge_newest_periods now limit s past) s past current) × DidFit
        limit
        (oldest_of now past)
        s.purged
        (reverse k.dropped)
      × StopsAt limit (oldest_of now past) k.after.purged k.left
unfolding purge_newest_periods
purge_newest_periods-Kept now limit current current_ok [] s b len ps es = (
  record {
    after = s;
    dropped = [];
    left = [];
    whole = refl;
    result = refl;
    balanced = b;
    lengths = len;
    num = omega arith;
    purged = omega int_laws;
    frozen = refl;
  },
  tt,
  tt,
)
purge_newest_periods-Kept now limit current current_ok (p ∷ past) s b len ps es =
    let all_periods = p ∷ past in
    let (k, fit, stops) =
      purge_newest_loop-Kept now limit (duration now p) current current_ok (reverse all_periods) s
        (IsBalanced-reverse s.totals current all_periods b)
        (len ∙ sym (sum_lengths-reverse all_periods)) (All-reverse IsPeriod all_periods ps)
        (All-reverse IsEnded all_periods es) in
    (
      record {
        after = k.after;
        dropped = reverse k.dropped;
        left = reverse k.left;
        whole =
            sym (reverse-reverse all_periods)
            ∙ ap reverse k.whole
            ∙ reverse-append k.dropped k.left;
        result = rw k.result refl;
        balanced = IsBalanced-reverse k.after.totals current k.left k.balanced;
        lengths = k.lengths ∙ sym (sum_lengths-reverse k.left);
        num = omega (arith, k.num, length-reverse k.dropped);
        purged = rw (sum_lengths-reverse k.dropped) k.purged;
        frozen = k.frozen;
      },
      subst (DidFit limit (duration now p) s.purged) (sym (reverse-reverse k.dropped)) fit,
      StopsAt-reverse limit (duration now p) k.after.purged k.left stops,
    )
