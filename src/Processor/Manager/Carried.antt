-- ===== src/Processor/Manager/Carried.antt =====
-- LoadConfig hands the statistics of a nest on, and gives no two nests the same.
use fletchling.Prelude.{
  ◌≡◌, ◌≤◌, ◌<◌, ◌⊎◌, inl, inr, refl, sym, ap, ◌∙◌, subst, ℤ, int_eq, Option, none, some, List, [],
  ◌∷◌, ◌++◌, String, length, length-append, if◌then◌else◌, ◌==◌, Bool-cases, arith,
}
use mathlib.Core.List.{append_assoc, append-nil}
use fletchling.Prelude.Float.{Floats}
use fletchling.Prelude.Time.{Time}
use fletchling.Prelude.Map.{lookup, lookup-insert, lookup-nil}
use fletchling.DbStore
use fletchling.DbStore.Rows.{RowsError, Returned, Cursor, get_nests}
use fletchling.Geo.Fences.{Shapes, Geometry, FenceRTree, insert_geometry}
use fletchling.Models.Nest.{Nest, NestStatsInfo}
use fletchling.Models.Loading.{new_nest_from_db_store}
use fletchling.Processor.Matcher.{
  NestMatcher, Added, new_nest_matcher, get_nest_by_id, add_nest, add_new, indexed, kept_or_added,
}
use fletchling.Processor.Manager.Loading.{
  Held, Infos, Matcher, held_id, held_geometry, old_nest, hold, load_nest, load_nests, loaded,
  load_config,
}

module _ (F : Floats) (S : Shapes) where
  abbrev Found : Matcher F S → ℤ → Held F S → Type 0
  Found m id h = get_nest_by_id S (Held F S) id m ≡ some h

  -- Every nest has a place in the store, and none that another has.
  pub record IsOwned (old : Option (Matcher F S)) (infos : Infos F S) : Type 0 where
    pub placed :
        (id : ℤ) (h : Held F S) → old_nest F S old id ≡ some h → h.nest_stats_info < length infos
    pub apart :
        (id id' : ℤ) (h h' : Held F S)
        → old_nest F S old id ≡ some h
        → old_nest F S old id' ≡ some h'
        → h.nest_stats_info ≡ h'.nest_stats_info
        → id ≡ id'

  -- What a matcher has after an addition: what it had, and the nest if it was taken.
  get_nest_by_id-added :
      (m : Matcher F S) (h : Held F S)
      → let m' =
          kept_or_added S
            (Held F S)
            (held_id F S)
            (held_geometry F S)
            m
            (add_nest S (Held F S) (held_id F S) (held_geometry F S) h m) in
        (m' ≡ m)
        ⊎ ((id : ℤ)
            → get_nest_by_id S (Held F S) id m'
              ≡ (if h.nest.id == id then some h else get_nest_by_id S (Held F S) id m))
  unfolding add_nest get_nest_by_id
  get_nest_by_id-added m h =
      new (lookup h.nest.id m.nests) (insert_geometry S (Held F S) h.nest.geometry h m.nests_rtree)
    where
      new :
          (o : Option (Held F S)) (t : Option (FenceRTree S (Held F S)))
          → let m' = kept_or_added S (Held F S) (held_id F S) (held_geometry F S) m (elim o [
            | some w ↦ Added.refused fletchling.Processor.Matcher.already_exists
            | none ↦ indexed S (Held F S) (held_id F S) (held_geometry F S) m h t
          ]) in
            (m' ≡ m)
            ⊎ ((id : ℤ)
                → lookup id m'.nests ≡ (if h.nest.id == id then some h else lookup id m.nests))
      new (some w) t = inl refl
      new none none = inl refl
      new none (some t) = inr (λ id. lookup-insert h.nest.id id h m.nests)

  module _ (old : Option (Matcher F S)) (before : Infos F S) (old_owned : IsOwned old before) where
    -- The place of a nest's statistics is that of the old nest with its id, or a new one.
    abbrev pub Place : Infos F S → ℤ → Held F S → Type 0
    Place infos id h =
        ((o : Held F S) × (old_nest F S old id ≡ some o) × (h.nest_stats_info ≡ o.nest_stats_info))
        ⊎ ((old_nest F S old id ≡ none)
            × (length before ≤ h.nest_stats_info)
            × (h.nest_stats_info < length infos))

    pub record IsCarried (infos : Infos F S) (m : Matcher F S) : Type 0 where
      pub more : Infos F S
      pub grown : infos ≡ before ++ more
      pub place : (id : ℤ) (h : Held F S) → Found m id h → Place infos id h
      pub owned : IsOwned (some m) infos

    new-IsCarried : IsCarried before (new_nest_matcher S (Held F S))
    unfolding get_nest_by_id
    new-IsCarried = record {
      more = [];
      grown = sym (append-nil before);
      place = λ id h e. cc (lookup-nil {V = Held F S} id, e);
      owned = record {
        placed = λ id h e. cc (lookup-nil {V = Held F S} id, e);
        apart = λ id id' h h' e e' s. cc (lookup-nil {V = Held F S} id, e);
      };
    }

    -- A store that grows keeps what it has.
    grown-IsCarried :
        (infos : Infos F S) (m : Matcher F S) (info : NestStatsInfo F)
        → IsCarried infos m
        → IsCarried (infos ++ info ∷ []) m
    grown-IsCarried infos m info c =
        let n = length-append infos (info ∷ []) in
        record {
          more = c.more ++ info ∷ [];
          grown = ap (λ l. l ++ info ∷ []) c.grown ∙ append_assoc before c.more (info ∷ []);
          place = λ id h e. elim (c.place id h e) [
            | inl kept ↦ inl kept
            | inr (new, low, high) ↦ inr (new, low, omega (arith, high, n))
          ];
          owned = record {
            placed = λ id h e. omega (arith, c.owned.placed id h e, n);
            apart = c.owned.apart;
          };
        }

    module _ (infos : Infos F S) (m m' : Matcher F S) (c : IsCarried infos m) (h : Held F S)
        (there : Place infos h.nest.id h) (small : h.nest_stats_info < length infos)
        (alone : (id : ℤ) (g : Held F S)
          → Found m id g
          → h.nest_stats_info ≡ g.nest_stats_info
          → h.nest.id ≡ id)
        (added : (id : ℤ)
          → get_nest_by_id S (Held F S) id m'
            ≡ (if h.nest.id == id then some h else get_nest_by_id S (Held F S) id m)) where
      -- What is found is the new nest or was there.
      split : (id : ℤ) (g : Held F S) → Found m' id g → ((h.nest.id ≡ id) × (h ≡ g)) ⊎ Found m id g
      split id g e = elim (Bool-cases (h.nest.id == id)) [
        | inl same ↦
            let here : some h ≡ some g = sym (rw same at (added id)) ∙ e in
            inl ((int_eq.same_iff h.nest.id id).0 same, cc here)
        | inr other ↦ inr (sym (rw other at (added id)) ∙ e)
      ]

      added-IsCarried : IsCarried infos m'
      added-IsCarried = record {
        more = c.more;
        grown = c.grown;
        place = λ id g e. elim (split id g e) [
          | inl (i, s) ↦ subst (Place infos id) s (subst (λ k. Place infos k h) i there)
          | inr was ↦ c.place id g was
        ];
        owned = record {
          placed = λ id g e. elim (split id g e) [
            | inl (i, s) ↦ subst (λ k. k.nest_stats_info < length infos) s small
            | inr was ↦ c.owned.placed id g was
          ];
          apart = λ id id' g g' e e' s. elim (split id g e) [
            | inl (i, t) ↦ elim (split id' g' e') [
              | inl (i', t') ↦ sym i ∙ i'
              | inr was' ↦ sym i ∙ alone id' g' was' (ap (λ k. k.nest_stats_info) t ∙ s)
            ]
            | inr was ↦ elim (split id' g' e') [
              | inl (i', t') ↦ sym (alone id g was (ap (λ k. k.nest_stats_info) t' ∙ sym s)) ∙ i'
              | inr was' ↦ c.owned.apart id id' g g' was was' s
            ]
          ];
        };
      }

    abbrev load_held :
        Infos F S → Matcher F S → Nest F (Geometry S) → Option (Held F S) → Infos F S × Matcher F S
    load_held infos m nest o =
        let (h, infos') = hold F S infos nest o in
        (
          infos',
          kept_or_added S (Held F S) (held_id F S) (held_geometry F S) m
              (add_nest S (Held F S) (held_id F S) (held_geometry F S) h m),
        )

    before-le :
        (infos : Infos F S) (m : Matcher F S) → IsCarried infos m → length before ≤ length infos
    before-le infos m c = omega (arith, ap length c.grown, length-append before c.more)

    load_held-IsCarried :
        (infos : Infos F S) (m : Matcher F S) (nest : Nest F (Geometry S)) (o : Option (Held F S))
        → IsCarried infos m
        → old_nest F S old nest.id ≡ o
        → IsCarried (load_held infos m nest o).0 (load_held infos m nest o).1
    load_held-IsCarried infos m nest (some o) c e =
        let h : Held F S = record { nest = nest; nest_stats_info = o.nest_stats_info } in
        let within = old_owned.placed nest.id o e in
        elim (get_nest_by_id-added m h) [
          | inl same ↦ subst (IsCarried infos) (sym same) c
          | inr added ↦
              added-IsCarried infos m (load_held infos m nest (some o)).1 c h (inl (o, e, refl))
                (omega (arith, within, before-le infos m c))
                (λ id g was s. elim (c.place id g was) [
                  | inl (o', e', s') ↦ old_owned.apart nest.id id o o' e e' (s ∙ s')
                  | inr (new, low, high) ↦ absurd (omega (arith, within, low, s))
                ])
                added
        ]
    load_held-IsCarried infos m nest none c e =
        let h : Held F S = record { nest = nest; nest_stats_info = length infos } in
        let infos' = infos ++ nest.stats_info ∷ [] in
        let n = length-append infos (nest.stats_info ∷ []) in
        elim (get_nest_by_id-added m h) [
          | inl same ↦
              subst (IsCarried infos') (sym same) (grown-IsCarried infos m nest.stats_info c)
          | inr added ↦
              added-IsCarried infos' m (load_held infos m nest none).1
                (grown-IsCarried infos m nest.stats_info c) h
                (inr (e, before-le infos m c, omega (arith, n))) (omega (arith, n))
                (λ id g was s. absurd (omega (arith, c.owned.placed id g was, s))) added
        ]

    load_nest-IsCarried :
        (infos : Infos F S) (m : Matcher F S) (o : Option (Nest F (Geometry S)))
        → IsCarried infos m
        → IsCarried (load_nest F S old (infos, m) o).0 (load_nest F S old (infos, m) o).1
    load_nest-IsCarried infos m none c = c
    load_nest-IsCarried infos m (some nest) c =
        load_held-IsCarried infos m nest (old_nest F S old nest.id) c refl

    module _ (geometry_of : String → Option (Geometry S)) (now : Time) where
      load_nests-IsCarried :
          (rows : List (DbStore.Nest F)) (infos : Infos F S) (m : Matcher F S)
          → IsCarried infos m
          → IsCarried
              (load_nests F S geometry_of now old rows (infos, m)).0
              (load_nests F S geometry_of now old rows (infos, m)).1
      unfolding load_nests
      load_nests-IsCarried [] infos m c = c
      load_nests-IsCarried (row ∷ rows) infos m c =
          let r = load_nest F S old (infos, m) (new_nest_from_db_store F geometry_of now row) in
          load_nests-IsCarried rows r.0 r.1
            (load_nest-IsCarried infos m (new_nest_from_db_store F geometry_of now row) c)

      loaded-IsCarried :
          (r : Returned (Option (List (DbStore.Nest F)))) (e : Option RowsError)
          (v : Option (List (DbStore.Nest F))) (infos : Infos F S) (m : Matcher F S)
          → r.error ≡ e
          → r.value ≡ v
          → loaded F S geometry_of now old before r ≡ some (infos, m)
          → IsCarried infos m
      loaded-IsCarried r (some e) v infos m he hv h = cc (rw he at h)
      loaded-IsCarried r none none infos m he hv h =
          let p : ◌≡◌ {A = Infos F S × Matcher F S} (before, new_nest_matcher S (Held F S))
              (infos, m) =
            cc (rw hv at (rw he at h)) in
          subst (λ q. IsCarried q.0 q.1) p new-IsCarried
      loaded-IsCarried r none (some rows) infos m he hv h =
          let p : load_nests F S geometry_of now old rows (before, new_nest_matcher S (Held F S))
              ≡ (infos, m) =
            cc (rw hv at (rw he at h)) in
          subst (λ q. IsCarried q.0 q.1) p
            (load_nests-IsCarried rows before (new_nest_matcher S (Held F S)) new-IsCarried)

      -- If every nest of the old matcher, if there is one, has a place in the store of statistics
      -- and no two have the same, then a LoadConfig that succeeds, whatever rows it reads and
      -- skips, keeps what is in the store, gives each nest that it loads the place of the old
      -- nest with its id, or a new place if there is none, and again each nest has a place and no
      -- two have the same.
      pub load_config-IsCarried :
          (answer : Option (Cursor (DbStore.Nest F))) (infos : Infos F S) (m : Matcher F S)
          → load_config F S geometry_of now old before answer ≡ some (infos, m)
          → IsCarried infos m
      unfolding load_config
      load_config-IsCarried answer infos m h =
          loaded-IsCarried (get_nests answer) (get_nests answer).error (get_nests answer).value
            infos m refl refl h
