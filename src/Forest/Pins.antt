-- ===== src/Forest/Pins.antt =====
-- What a charge does to each run: nothing, or it hollows it, where the run may be evicted.
use figwal.Common.{
  ℕ, zero, suc, ◌+◌, ◌-◌, ◌≡◌, refl, sym, ◌∙◌, arith, Bool, true, false, not, ◌&&◌, Option, none,
  some, List, [], ◌∷◌, ltb, ◌==◌, Bool-cases, Option-cases, inl, inr, ◌⊎◌,
}
use mathlib.Core.Path.{subst}
use figwal.Forest.{
  Run, Coord, Cache, Budget, World, hollow_first, coldest, evict_at, evict_coldest, coldest_owner,
  evict_owner, with_owners, owners, paid_back, charge_loop, charge, evictables_of, eff_epoch,
  has_epoch, evictable,
}
use figwal.Forest.Meter.{evict_owner-owners}

victim_lem : (a b c : Bool) → ((a && not b) && c) ≡ true → (a ≡ true) × (b ≡ false)
victim_lem a b c h = ground arith

module _ {U : Type 0} where
  -- A run as it was, or a resident run that is not pinned, without its units
  abbrev pub Spared : Run U → Run U → Type 0
  Spared r r' =
      (r' ≡ r)
      ⊎ ((r.resident ≡ true)
          × (r.pinned ≡ false)
          × (r' ≡ record r { units = []; resident = false }))

  -- Run by run
  abbrev pub Runs : List (Run U) → List (Run U) → Type 0
  Runs [] rs' = rs' ≡ []
  Runs (r ∷ rs) rs' =
      (r' : Run U) × (rest : List (Run U)) × (rs' ≡ r' ∷ rest) × Spared r r' × Runs rs rest

  -- Owner by owner, each with its number and its count of recompositions
  abbrev pub Owners : List (Cache U) → List (Cache U) → Type 0
  Owners [] cs' = cs' ≡ []
  Owners (c ∷ cs) cs' =
      (c' : Cache U) × (rest : List (Cache U)) × (cs' ≡ c' ∷ rest)
      × (c'.id ≡ c.id)
      × (c'.recomposes ≡ c.recomposes)
      × Runs c.runs c'.runs
      × Owners cs rest

  Spared-trans : (a b c : Run U) → Spared a b → Spared b c → Spared a c
  Spared-trans a b c (inl p) q = subst (λ t. Spared t c) p q
  Spared-trans a b c (inr (there, free, p)) (inl q) = inr (there, free, q ∙ p)
  Spared-trans a b c (inr (there, free, p)) (inr (there', free', q)) = cc

  Runs-refl : (rs : List (Run U)) → Runs rs rs
  Runs-refl [] = refl
  Runs-refl (r ∷ rs) = (r, rs, refl, inl refl, Runs-refl rs)

  Runs-trans : (xs bs cs : List (Run U)) → Runs xs bs → Runs bs cs → Runs xs cs
  Runs-trans [] bs cs p q = subst (λ t. Runs t cs) p q
  Runs-trans (a ∷ xs) bs cs (b, bs', e, ab, rest) q =
      let (c, cs', e', bc, rest') = subst (λ t. Runs t cs) e q in
      (c, cs', e', Spared-trans a b c ab bc, Runs-trans xs bs' cs' rest rest')

  Owners-refl : (cs : List (Cache U)) → Owners cs cs
  Owners-refl [] = refl
  Owners-refl (c ∷ cs) = (c, cs, refl, refl, refl, Runs-refl c.runs, Owners-refl cs)

  Owners-trans : (xs bs cs : List (Cache U)) → Owners xs bs → Owners bs cs → Owners xs cs
  Owners-trans [] bs cs p q = subst (λ t. Owners t cs) p q
  Owners-trans (a ∷ xs) bs cs (b, bs', e, i, n, ab, rest) q =
      let (c, cs', e', i', n', bc, rest') = subst (λ t. Owners t cs) e q in
      (
        c,
        cs',
        e',
        i' ∙ i,
        n' ∙ n,
        Runs-trans a.runs b.runs c.runs ab bc,
        Owners-trans xs bs' cs' rest rest',
      )

  module _ (recency : ℕ → Coord → ℕ) where
    hollow_first-Runs : (id e : ℕ) (rs : List (Run U)) → Runs rs (hollow_first recency id e rs).1
    unfolding hollow_first
    hollow_first-Runs id e [] = refl
    hollow_first-Runs id e (r ∷ rest) =
        elim (Bool-cases (evictable r && eff_epoch recency id r == e)) [
          | inl this ↦
              let (there, free) =
                victim_lem r.resident r.pinned (eff_epoch recency id r == e) this in
              rw this (_, rest, refl, inr (there, free, refl), Runs-refl rest)
          | inr later ↦ rw later (r, _, refl, inl refl, hollow_first-Runs id e rest)
        ]

    evict_at-Runs : (c : Cache U) (o : Option ℕ) → Runs c.runs (evict_at recency c o).1.runs
    evict_at-Runs c none = Runs-refl c.runs
    evict_at-Runs c (some e) = hollow_first-Runs c.id e c.runs

    evict_at_owner :
        (c : Cache U) (o : Option ℕ)
        → ((evict_at recency c o).1.id ≡ c.id)
          × ((evict_at recency c o).1.recomposes ≡ c.recomposes)
    evict_at_owner c none = (refl, refl)
    evict_at_owner c (some e) = (refl, refl)

    evict_owner-Owners : (e : ℕ) (cs : List (Cache U)) → Owners cs (evict_owner recency e cs).1
    unfolding evict_owner evict_coldest
    evict_owner-Owners e [] = refl
    evict_owner-Owners e (c ∷ cs) = elim (Bool-cases (has_epoch e (coldest recency c))) [
      | inl here ↦
          let (i, n) = evict_at_owner c (coldest recency c) in
          rw here (_, cs, refl, i, n, evict_at-Runs c (coldest recency c), Owners-refl cs)
      | inr later ↦ rw later (c, _, refl, refl, refl, Runs-refl c.runs, evict_owner-Owners e cs)
    ]

    evicted-Owners :
        (e : ℕ) (w : World U) (b : Budget)
        → Owners (owners w) (owners (with_owners w b (evict_owner recency e (owners w)).1))
    evicted-Owners e w b =
        subst (λ cs. Owners (owners w) cs) (sym (evict_owner-owners recency e w b))
          (evict_owner-Owners e (owners w))

    charge_loop-Owners :
        (fuel : ℕ) (w : World U) → Owners (owners w) (owners (charge_loop recency fuel w))
    unfolding charge_loop
    charge_loop-Owners zero w = Owners-refl (owners w)
    charge_loop-Owners (suc fuel) w = elim (Bool-cases (ltb w.budget.limit w.budget.bytes)) [
      | inr fits ↦ rw fits (Owners-refl (owners w))
      | inl over ↦ elim (Option-cases (coldest_owner recency (owners w))) [
        | inl none_left ↦ rw (over, none_left) (Owners-refl (owners w))
        | inr (e, at) ↦
            let r = evict_owner recency e (owners w) in
            let w' = with_owners w (paid_back w.budget r.0) r.1 in
            elim (Bool-cases (ltb 0 r.0)) [
              | inl some_freed ↦
                  rw (over, at, some_freed)
                    (Owners-trans (owners w) (owners w') (owners (charge_loop recency fuel w'))
                      (evicted-Owners e w (paid_back w.budget r.0)) (charge_loop-Owners fuel w'))
              | inr none_freed ↦ rw (over, at, none_freed) (evicted-Owners e w w.budget)
            ]
      ]
    ]

    -- A charge leaves every owner its number and its runs, in their order; each run is as it was, or
    -- was resident and not pinned and has lost its units and its residence, and nothing else of it
    -- has changed.
    pub charge-Owners :
        (w : World U) (added removed : ℕ)
        → Owners (owners w) (owners (charge recency w added removed))
    unfolding charge
    charge-Owners w added removed =
        let w' = record w {
          budget = record w.budget { bytes = w.budget.bytes + added - removed };
        } in
        elim (Bool-cases (w.budget.limit == 0)) [
          | inl unbounded ↦ rw unbounded (Owners-refl (owners w))
          | inr bounded ↦ rw bounded (charge_loop-Owners (evictables_of (owners w')) w')
        ]
