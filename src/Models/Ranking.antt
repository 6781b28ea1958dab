-- ===== src/Models/Ranking.antt =====
-- Lists of entries that carry their rank, which Swap of processor/models/stats.go and of
-- processor/sorter.go keeps up to date. sort.Sort of the standard library changes a list by nothing
-- but Swap; which swaps it makes is a parameter.
use mathlib.Core.Option.{some-injective}
use fletchling.Prelude.{
  ℕ, zero, suc, ◌+◌, ◌≡◌, refl, sym, ap, ◌∙◌, false, Option, none, some, List, [], ◌∷◌, All, arith,
  subst, length, eqb, eqb_iff, Bool-cases, inl, inr,
}

-- A type of entries with a rank.
pub record Ranked (A : Type 0) : Type 0 where
  pub rank_of : A → ℕ
  pub set_rank : ℕ → A → A
  pub rank_of-set_rank : (n : ℕ) (a : A) → rank_of (set_rank n a) ≡ n

module _ {A : Type 0} where
  abbrev pub get_elem? : List A → ℕ → Option A
  get_elem? [] n = none
  get_elem? (x ∷ xs) zero = some x
  get_elem? (x ∷ xs) (suc n) = get_elem? xs n

  abbrev pub put : ℕ → A → List A → List A
  put n a [] = []
  put zero a (x ∷ xs) = a ∷ xs
  put (suc n) a (x ∷ xs) = x ∷ put n a xs

  module _ (P : A → Type 0) where
    get-All : (xs : List A) (n : ℕ) (a : A) → All P xs → get_elem? xs n ≡ some a → P a
    get-All [] n a h e = cc
    get-All (x ∷ xs) zero a (p, h) e = subst P (some-injective x a e) p
    get-All (x ∷ xs) (suc n) a (p, h) e = get-All xs n a h e

    put-All : (n : ℕ) (a : A) (xs : List A) → P a → All P xs → All P (put n a xs)
    put-All n a [] p h = tt
    put-All zero a (x ∷ xs) p (q, h) = (p, h)
    put-All (suc n) a (x ∷ xs) p (q, h) = (q, put-All n a xs p h)

  length-put : (n : ℕ) (a : A) (xs : List A) → length (put n a xs) ≡ length xs
  length-put n a [] = refl
  length-put zero a (x ∷ xs) = refl
  length-put (suc n) a (x ∷ xs) = ap suc (length-put n a xs)

  get-put_here :
      (n : ℕ) (a x : A) (xs : List A) → get_elem? xs n ≡ some x → get_elem? (put n a xs) n ≡ some a
  get-put_here n a x [] h = cc
  get-put_here zero a x (y ∷ xs) h = refl
  get-put_here (suc n) a x (y ∷ xs) h = get-put_here n a x xs h

  get-put_other :
      (i n : ℕ) (a : A) (xs : List A) → eqb i n ≡ false → get_elem? (put i a xs) n ≡ get_elem? xs n
  get-put_other i n a [] h = refl
  get-put_other zero zero a (x ∷ xs) h = absurd (ground (arith, h))
  get-put_other zero (suc n) a (x ∷ xs) h = refl
  get-put_other (suc i) zero a (x ∷ xs) h = refl
  get-put_other (suc i) (suc n) a (x ∷ xs) h = get-put_other i n a xs (ground (arith, h))

  -- Some place of the list has a P.
  abbrev pub HasAt : (A → Type 0) → List A → Type 0
  HasAt P xs = (n : ℕ) × (a : A) × (get_elem? xs n ≡ some a) × P a

module _ {A : Type 0} (R : Ranked A) where
  abbrev swap_found : ℕ → ℕ → List A → Option A → Option A → List A
  swap_found i j xs (some a) (some b) =
      put i (R.set_rank (suc i) b) (put j (R.set_rank (suc j) a) xs)
  swap_found i j xs _ _ = xs

  -- Two entries change places and ranks. The sort keeps to the indices of the list.
  unfoldable pub swap : ℕ → ℕ → List A → List A
  swap i j xs = swap_found i j xs (get_elem? xs i) (get_elem? xs j)

  unfoldable pub swap_all : List (ℕ × ℕ) → List A → List A
  unfolding swap
  swap_all [] xs = xs
  swap_all ((i, j) ∷ rest) xs = swap_all rest (swap i j xs)

  -- The ranks count up from `n`.
  abbrev pub IsRankedFrom : ℕ → List A → Type 0
  IsRankedFrom n [] = Unit {0}
  IsRankedFrom n (x ∷ xs) = (R.rank_of x ≡ suc n) × IsRankedFrom (suc n) xs

  put-IsRankedFrom :
      (n i : ℕ) (a : A) (xs : List A)
      → R.rank_of a ≡ suc (n + i)
      → IsRankedFrom n xs
      → IsRankedFrom n (put i a xs)
  put-IsRankedFrom n i a [] e h = tt
  put-IsRankedFrom n zero a (x ∷ xs) e (r, h) = (omega (arith, e), h)
  put-IsRankedFrom n (suc i) a (x ∷ xs) e (r, h) =
      (r, put-IsRankedFrom (suc n) i a xs (omega (arith, e)) h)

  swap_found-IsRankedFrom :
      (i j : ℕ) (xs : List A) (x y : Option A)
      → IsRankedFrom 0 xs
      → IsRankedFrom 0 (swap_found i j xs x y)
  swap_found-IsRankedFrom i j xs none none h = h
  swap_found-IsRankedFrom i j xs none (some b) h = h
  swap_found-IsRankedFrom i j xs (some a) none h = h
  swap_found-IsRankedFrom i j xs (some a) (some b) h =
      put-IsRankedFrom 0 i _ _ (omega (arith, R.rank_of-set_rank (suc i) b))
        (put-IsRankedFrom 0 j _ _ (omega (arith, R.rank_of-set_rank (suc j) a)) h)

  pub swap_all-IsRankedFrom :
      (swaps : List (ℕ × ℕ)) (xs : List A) → IsRankedFrom 0 xs → IsRankedFrom 0 (swap_all swaps xs)
  unfolding swap_all swap
  swap_all-IsRankedFrom [] xs h = h
  swap_all-IsRankedFrom ((i, j) ∷ rest) xs h =
      swap_all-IsRankedFrom rest _
        (swap_found-IsRankedFrom i j xs (get_elem? xs i) (get_elem? xs j) h)

  module _ (P : A → Type 0) (keeps : (n : ℕ) (a : A) → P a → P (R.set_rank n a)) where
    swap_found-All :
        (i j : ℕ) (xs : List A) (x y : Option A)
        → get_elem? xs i ≡ x
        → get_elem? xs j ≡ y
        → All P xs
        → All P (swap_found i j xs x y)
    swap_found-All i j xs none none e f h = h
    swap_found-All i j xs none (some b) e f h = h
    swap_found-All i j xs (some a) none e f h = h
    swap_found-All i j xs (some a) (some b) e f h =
        put-All P i _ _ (keeps (suc i) b (get-All P xs j b h f))
          (put-All P j _ _ (keeps (suc j) a (get-All P xs i a h e)) h)

    pub swap_all-All : (swaps : List (ℕ × ℕ)) (xs : List A) → All P xs → All P (swap_all swaps xs)
    unfolding swap_all swap
    swap_all-All [] xs h = h
    swap_all-All ((i, j) ∷ rest) xs h =
        swap_all-All rest _ (swap_found-All i j xs (get_elem? xs i) (get_elem? xs j) refl refl h)

    swap_found-HasAt :
        (i j : ℕ) (xs : List A) (x y : Option A)
        → get_elem? xs i ≡ x
        → get_elem? xs j ≡ y
        → HasAt P xs
        → HasAt P (swap_found i j xs x y)
    swap_found-HasAt i j xs none none e f h = h
    swap_found-HasAt i j xs none (some b) e f h = h
    swap_found-HasAt i j xs (some a) none e f h = h
    swap_found-HasAt i j xs (some a) (some b) e f (n, x, found, p) =
        let a' = R.set_rank (suc j) a in
        let b' = R.set_rank (suc i) b in
        let inner = put j a' xs in
        elim (Bool-cases (eqb i j)) [
          | inl same ↦
              let ij : i ≡ j = (eqb_iff i j).0 same in
              let at_i : get_elem? (put i b' inner) i ≡ some b' =
                get-put_here i b' a' inner
                  (subst (λ k. get_elem? inner k ≡ some a') (sym ij) (get-put_here j a' b xs f)) in
              elim (Bool-cases (eqb i n)) [
                | inl here ↦
                    let x_b : x ≡ b =
                      some-injective x b
                        (sym found ∙ ap (get_elem? xs) (sym ((eqb_iff i n).0 here) ∙ ij) ∙ f) in
                    (i, b', at_i, keeps (suc i) b (subst P x_b p))
                | inr there ↦ (
                  n,
                  x,
                  get-put_other i n b' inner there
                      ∙ get-put_other j n a' xs (subst (λ k. eqb k n ≡ false) ij there)
                      ∙ found,
                  p,
                )
              ]
          | inr differ ↦
              let at_i : get_elem? (put i b' inner) i ≡ some b' =
                get-put_here i b' a inner (get-put_other j i a' xs (ground (arith, differ)) ∙ e) in
              let at_j : get_elem? (put i b' inner) j ≡ some a' =
                get-put_other i j b' inner differ ∙ get-put_here j a' b xs f in
              elim (Bool-cases (eqb i n)) [
                | inl here ↦
                    let x_a : x ≡ a =
                      some-injective x a
                        (sym found ∙ ap (get_elem? xs) (sym ((eqb_iff i n).0 here)) ∙ e) in
                    (j, a', at_j, keeps (suc j) a (subst P x_a p))
                | inr not_i ↦ elim (Bool-cases (eqb j n)) [
                  | inl here ↦
                      let x_b : x ≡ b =
                        some-injective x b
                          (sym found ∙ ap (get_elem? xs) (sym ((eqb_iff j n).0 here)) ∙ f) in
                      (i, b', at_i, keeps (suc i) b (subst P x_b p))
                  | inr not_j ↦ (
                    n,
                    x,
                    get-put_other i n b' inner not_i ∙ get-put_other j n a' xs not_j ∙ found,
                    p,
                  )
                ]
              ]
        ]

    pub swap_all-HasAt :
        (swaps : List (ℕ × ℕ)) (xs : List A) → HasAt P xs → HasAt P (swap_all swaps xs)
    unfolding swap_all swap
    swap_all-HasAt [] xs h = h
    swap_all-HasAt ((i, j) ∷ rest) xs h =
        swap_all-HasAt rest _
          (swap_found-HasAt i j xs (get_elem? xs i) (get_elem? xs j) refl refl h)

  length-swap_found :
      (i j : ℕ) (xs : List A) (x y : Option A) → length (swap_found i j xs x y) ≡ length xs
  length-swap_found i j xs none none = refl
  length-swap_found i j xs none (some b) = refl
  length-swap_found i j xs (some a) none = refl
  length-swap_found i j xs (some a) (some b) =
      length-put i (R.set_rank (suc i) b) (put j (R.set_rank (suc j) a) xs)
      ∙ length-put j (R.set_rank (suc j) a) xs

  pub length-swap_all :
      (swaps : List (ℕ × ℕ)) (xs : List A) → length (swap_all swaps xs) ≡ length xs
  unfolding swap_all swap
  length-swap_all [] xs = refl
  length-swap_all ((i, j) ∷ rest) xs =
      length-swap_all rest (swap i j xs)
      ∙ length-swap_found i j xs (get_elem? xs i) (get_elem? xs j)
