-- ===== src/Forest/Meter.antt =====
-- The meter of a budget: its bytes are those of the resident runs of its owners.
use figwal.Common.{
  ℕ, zero, suc, ◌+◌, ◌-◌, ◌≡◌, refl, sym, ap, ◌∙◌, arith, Option, none, some, List, [], ◌∷◌, ltb,
  ◌==◌, Bool-cases, Option-cases, ge_of_not_ltb, inl, inr,
}
use figwal.Forest.{
  Coord, Run, Cache, Budget, World, hollow_first, coldest, evict_at, evict_coldest, coldest_owner,
  evict_owner, with_owners, owners, paid_back, charge_loop, charge, evictables_of, resident_bytes,
  has_epoch,
}

module _ {U : Type 0} where
  abbrev pub total : List (Cache U) → ℕ
  total [] = 0
  total (c ∷ cs) = resident_bytes c.runs + total cs

  abbrev pub Metered : World U → Type 0
  Metered w = w.budget.bytes ≡ total (owners w)

  module _ (recency : ℕ → Coord → ℕ) where
    pub hollow_first-bytes :
        (id e : ℕ) (rs : List (Run U))
        → (hollow_first recency id e rs).0 + resident_bytes (hollow_first recency id e rs).1
          ≡ resident_bytes rs
    unfolding hollow_first
    hollow_first-bytes id e [] = omega arith
    hollow_first-bytes id e (r ∷ rest) = ground (arith, hollow_first-bytes id e rest)

    pub evict_coldest-bytes :
        (c : Cache U)
        → (evict_coldest recency c).0 + resident_bytes (evict_coldest recency c).1.runs
          ≡ resident_bytes c.runs
    unfolding evict_coldest
    evict_coldest-bytes c = go (coldest recency c)
      where
        go :
            (o : Option ℕ)
            → (evict_at recency c o).0 + resident_bytes (evict_at recency c o).1.runs
              ≡ resident_bytes c.runs
        go none = omega arith
        go (some e) = hollow_first-bytes c.id e c.runs

    pub evict_owner-bytes :
        (e : ℕ) (cs : List (Cache U))
        → (evict_owner recency e cs).0 + total (evict_owner recency e cs).1 ≡ total cs
    unfolding evict_owner
    evict_owner-bytes e [] = omega arith
    evict_owner-bytes e (c ∷ cs) = elim (Bool-cases (has_epoch e (coldest recency c))) [
      | inl here ↦ rw here (omega (arith, evict_coldest-bytes c))
      | inr later ↦ rw later (omega (arith, evict_owner-bytes e cs))
    ]

    -- as many owners as before
    pub evict_owner-owners :
        (e : ℕ) (w : World U) (b : Budget)
        → owners (with_owners w b (evict_owner recency e (owners w)).1)
          ≡ (evict_owner recency e (owners w)).1
    unfolding evict_owner
    evict_owner-owners e w b = elim (Bool-cases (has_epoch e (coldest recency w.self))) [
      | inl here ↦ rw here refl
      | inr later ↦ rw later refl
    ]

    pub evict_owner-budget :
        (e : ℕ) (w : World U) (b : Budget)
        → (with_owners w b (evict_owner recency e (owners w)).1).budget ≡ b
    unfolding evict_owner
    evict_owner-budget e w b = elim (Bool-cases (has_epoch e (coldest recency w.self))) [
      | inl here ↦ rw here refl
      | inr later ↦ rw later refl
    ]

    evicted-Metered :
        (e : ℕ) (w : World U) (b : Budget)
        → Metered w
        → b.bytes ≡ w.budget.bytes - (evict_owner recency e (owners w)).0
        → Metered (with_owners w b (evict_owner recency e (owners w)).1)
    evicted-Metered e w b m eb =
        let r = evict_owner recency e (owners w) in
        let bytes = evict_owner-bytes e (owners w) in
        let left : b.bytes ≡ total r.1 = omega (arith, m) in
        ap (λ (t : Budget). t.bytes) (evict_owner-budget e w b)
        ∙ left
        ∙ ap total (sym (evict_owner-owners e w b))

    pub charge_loop-Metered :
        (fuel : ℕ) (w : World U) → Metered w → Metered (charge_loop recency fuel w)
    unfolding charge_loop
    charge_loop-Metered zero w m = m
    charge_loop-Metered (suc fuel) w m = elim (Bool-cases (ltb w.budget.limit w.budget.bytes)) [
      | inr fits ↦ rw fits m
      | inl over ↦ elim (Option-cases (coldest_owner recency (owners w))) [
        | inl none_left ↦ rw (over, none_left) m
        | inr (e, at) ↦
            let f = (evict_owner recency e (owners w)).0 in
            elim (Bool-cases (ltb 0 f)) [
              | inl some_freed ↦
                  rw (over, at, some_freed)
                    (charge_loop-Metered fuel
                      (with_owners w (paid_back w.budget f) (evict_owner recency e (owners w)).1)
                      (evicted-Metered e w (paid_back w.budget f) m refl))
              | inr none_freed ↦
                  rw (over, at, none_freed)
                    (evicted-Metered e w w.budget m (omega (arith, ge_of_not_ltb 0 f none_freed)))
            ]
      ]
    ]

    -- The runs have changed by `added - removed` bytes: a charge of them keeps the meter true.
    pub charge-Metered :
        (w : World U) (added removed : ℕ)
        → w.budget.bytes + added - removed ≡ total (owners w)
        → Metered (charge recency w added removed)
    unfolding charge
    charge-Metered w added removed m =
        let w' = record w {
          budget = record w.budget { bytes = w.budget.bytes + added - removed };
        } in
        elim (Bool-cases (w.budget.limit == 0)) [
          | inl unbounded ↦ rw unbounded m
          | inr bounded ↦ rw bounded (charge_loop-Metered (evictables_of (owners w')) w' m)
        ]
