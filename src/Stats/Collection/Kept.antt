-- ===== src/Stats/Collection/Kept.antt =====
-- What a purge of processor/stats.go keeps, and how its loops build it up round by round.
use fletchling.Prelude.{
  Bool, true, false, ltb_ℤ, ◌⊎◌, ◌+◌, ◌≡◌, refl, ap, ◌∙◌, List, [], ◌∷◌, ◌++◌, arith, ℤ, ◌+ℤ◌, ◌-ℤ◌,
  int_laws, pos, Outcome, done, length,
}
use fletchling.Prelude.Int.{parts}
use fletchling.Prelude.Time.{Time, Duration}
use fletchling.Stats.Period.{CountsForTimePeriod, duration}
use fletchling.Stats.Collection.{Purge, drop_period}
use fletchling.Stats.Collection.Balance.{
  IsBalanced, IsEnded, length_of, sum_lengths, duration-IsEnded, Dropped,
}

-- The periods from which a purge drops some, as those that it dropped and those that it kept.
abbrev pub Join : Type 0
Join = List CountsForTimePeriod → List CountsForTimePeriod → List CountsForTimePeriod

abbrev pub from_front : Join
from_front dropped kept = dropped ++ kept

abbrev pub from_back : Join
from_back dropped kept = kept ++ dropped

-- What is left of the periods `past`, which are over, beside the current one; `out` says what the
-- loop makes of them.
pub record Kept (join : Join) (out : List CountsForTimePeriod → List CountsForTimePeriod)
    (r : Outcome (Purge × List CountsForTimePeriod)) (s : Purge) (past : List CountsForTimePeriod)
    (current : CountsForTimePeriod) : Type 0 where
  pub after : Purge
  pub dropped : List CountsForTimePeriod
  pub left : List CountsForTimePeriod
  pub whole : past ≡ join dropped left
  pub result : r ≡ done (after, out left)
  pub balanced : IsBalanced after.totals (left ++ current ∷ [])
  pub lengths : after.total_duration ≡ sum_lengths left
  pub num : after.num ≡ s.num + length dropped
  pub purged : after.purged ≡ s.purged +ℤ sum_lengths dropped
  pub frozen : after.totals.frozen ≡ s.totals.frozen

-- The length that is left after one period is dropped.
shortened : (a b l l' r : ℤ) → a ≡ b -ℤ l → l ≡ l' → b ≡ l' +ℤ r → a ≡ r
shortened a b l l' r e f g = omega (int_laws, parts e, parts f, parts g)

module _ (now : Time) (s : Purge) (p : CountsForTimePeriod) (past : List CountsForTimePeriod)
    (current : CountsForTimePeriod) (ended : IsEnded p)
    (d : Dropped (drop_period now p s) now p s (past ++ current ∷ [])) where
  pub shorter :
      s.total_duration ≡ length_of p +ℤ sum_lengths past → d.after.total_duration ≡ sum_lengths past
  shorter len =
      shortened _ s.total_duration (duration now p) (length_of p) (sum_lengths past) d.length
        (duration-IsEnded now p ended) len

  -- A purge that goes on after `p` is dropped.
  unfoldable pub Kept-cons :
      (out : List CountsForTimePeriod → List CountsForTimePeriod)
      (r : Outcome (Purge × List CountsForTimePeriod))
      → Kept from_front out r d.after past current
      → Kept from_front out r s (p ∷ past) current
  Kept-cons out r k = record {
    after = k.after;
    dropped = p ∷ k.dropped;
    left = k.left;
    whole = ap (◌∷◌ p) k.whole;
    result = k.result;
    balanced = k.balanced;
    lengths = k.lengths;
    num = omega (arith, k.num, d.num);
    purged = omega (int_laws, parts k.purged, parts d.purged, parts (duration-IsEnded now p ended));
    frozen = k.frozen ∙ d.frozen;
  }

-- A purge that drops nothing more.
unfoldable pub Kept-stop :
    (out : List CountsForTimePeriod → List CountsForTimePeriod) (s : Purge)
    (past : List CountsForTimePeriod) (current : CountsForTimePeriod)
    → IsBalanced s.totals (past ++ current ∷ [])
    → s.total_duration ≡ sum_lengths past
    → Kept from_front out (done (s, out past)) s past current
Kept-stop out s past current b len = record {
  after = s;
  dropped = [];
  left = past;
  whole = refl;
  result = refl;
  balanced = b;
  lengths = len;
  num = omega arith;
  purged = omega int_laws;
  frozen = refl;
}

abbrev pub with_current : CountsForTimePeriod → List CountsForTimePeriod → List CountsForTimePeriod
with_current current l = l ++ current ∷ []

abbrev pub same_list : List CountsForTimePeriod → List CountsForTimePeriod
same_list l = l

-- Whether a purge of less than `limit` that took `purged` would take `del` too.
abbrev pub would_fit : Time → Duration → Duration → CountsForTimePeriod → Bool
would_fit now limit purged del = ltb_ℤ (purged +ℤ duration now del) limit

-- Where a purge stops: nothing of the past is left, or the next period would not fit.
abbrev pub Stops : Time → Duration → Duration → List CountsForTimePeriod → Type 0
Stops now limit purged [] = Unit {0}
Stops now limit purged (p ∷ ps) = would_fit now limit purged p ≡ false

-- What was purged, if anything, stays below `limit`.
abbrev pub IsWithin : Duration → Purge → Purge → Type 0
IsWithin limit s after = (after ≡ s) ⊎ (ltb_ℤ after.purged limit ≡ true)

-- The length at every drop, that of what was still there, was above `keep`; `left` is what stays.
abbrev pub WasNeeded : Duration → Duration → List CountsForTimePeriod → Type 0
WasNeeded keep left [] = Unit {0}
WasNeeded keep left (p ∷ ps) =
    (ltb_ℤ keep (sum_lengths (p ∷ ps) +ℤ left) ≡ true) × WasNeeded keep left ps

-- The length that purgeNewestStats tests with: that of the oldest period, whichever it drops.
abbrev pub oldest_of : Time → List CountsForTimePeriod → Duration
oldest_of now [] = pos 0
oldest_of now (p ∷ ps) = duration now p

-- At every drop the length purged so far and that of the oldest were below `limit`.
abbrev pub DidFit : Duration → Duration → Duration → List CountsForTimePeriod → Type 0
DidFit limit oldest purged [] = Unit {0}
DidFit limit oldest purged (p ∷ ps) =
    (ltb_ℤ (purged +ℤ oldest) limit ≡ true) × DidFit limit oldest (purged +ℤ length_of p) ps

-- Nothing is left, or the length of the oldest would not fit any more.
abbrev pub StopsAt : Duration → Duration → Duration → List CountsForTimePeriod → Type 0
StopsAt limit oldest purged [] = Unit {0}
StopsAt limit oldest purged (p ∷ ps) = ltb_ℤ (purged +ℤ oldest) limit ≡ false
