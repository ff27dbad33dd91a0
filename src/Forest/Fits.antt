-- ===== src/Forest/Fits.antt =====
-- A charge ends within the limit, or with nothing left to evict.
use mathlib.Core.Path.{subst}
use figwal.Common.{
  ℕ, zero, suc, ◌+◌, ◌-◌, ◌≤◌, ◌<◌, ◌≡◌, refl, sym, ap, ◌∙◌, arith, Bool, true, false, ◌&&◌, Option,
  none, some, List, [], ◌∷◌, ltb, ◌==◌, if◌then◌else◌, Bool-cases, Option-cases, ge_of_not_ltb,
  lt→ltb, inl, inr, All, ◌⊎◌,
}
use figwal.Forest.{
  Coord, Run, Cache, Budget, World, evictable, coldest_run, hollow_first, coldest, evict_at,
  evict_coldest, coldest_owner, evict_owner, with_owners, owners, paid_back, charge_loop, charge,
  evictables, evictables_of, eff_epoch, has_epoch, colder, coldest_of,
}
use figwal.Forest.Meter.{evict_owner-owners, evict_owner-budget}

colder-cases : (x e : ℕ) (o : Option ℕ) → colder x o ≡ some e → (x ≡ e) ⊎ (o ≡ some e)
colder-cases x e none h = inl (cc)
colder-cases x e (some best) h = picked (ltb best x) h
  where
    picked : (b : Bool) → some (if b then best else x) ≡ some e → (x ≡ e) ⊎ (some best ≡ some e)
    picked true h = inr h
    picked false h = inl (cc)

coldest_of-cases : (e : ℕ) (o p : Option ℕ) → coldest_of o p ≡ some e → (o ≡ some e) ⊎ (p ≡ some e)
coldest_of-cases e none p h = inr h
coldest_of-cases e (some x) p h = elim (colder-cases x e p h) [
  | inl this ↦ inl (ap some this)
  | inr later ↦ inr later
]

coldest_of-none : (o p : Option ℕ) → o ≡ none → p ≡ none → coldest_of o p ≡ none
coldest_of-none none p e h = h
coldest_of-none (some x) p e h = cc

in_rest : (x e : ℕ) (o : Option ℕ) → (x == e) ≡ false → colder x o ≡ some e → o ≡ some e
in_rest x e o differs h = elim (colder-cases x e o h) [
  | inl is ↦ absurd_eq x e differs is
  | inr later ↦ later
]
  where
    absurd_eq : (x e : ℕ) → (x == e) ≡ false → x ≡ e → o ≡ some e
    absurd_eq x e differs is = let same : (x == e) ≡ true = ground arith in cc

epoch_of : (o : Option ℕ) (e : ℕ) → has_epoch e o ≡ true → o ≡ some e
epoch_of none e h = cc
epoch_of (some best) e h = ap some (ground arith)

in_others : (o p : Option ℕ) (e : ℕ) → has_epoch e o ≡ false → coldest_of o p ≡ some e → p ≡ some e
in_others none p e h c = c
in_others (some x) p e h c = in_rest x e p h c

pub positive_limit : (limit : ℕ) → 0 < limit → (limit == 0) ≡ false
positive_limit limit h = ground arith

module _ {U : Type 0} where
  -- Every run that may be evicted has bytes.
  abbrev pub Positive : List (Run U) → Type 0
  Positive = All (λ (r : Run U). evictable r ≡ true → 0 < r.bytes)

  abbrev pub AllPositive : List (Cache U) → Type 0
  AllPositive = All (λ (c : Cache U). Positive c.runs)

  module _ (recency : ℕ → Coord → ℕ) where
    none_evictable :
        (id : ℕ) (rs : List (Run U)) → evictables rs ≡ 0 → coldest_run recency id rs ≡ none
    unfolding coldest_run
    none_evictable id [] h = refl
    none_evictable id (r ∷ rest) h = elim (Bool-cases (evictable r)) [
      | inl may ↦ absurd (omega (arith, ap (λ b. (if b then 1 else 0) + evictables rest) may))
      | inr stays ↦ rw stays (none_evictable id rest (omega arith))
    ]

    pub none_evictable_of :
        (cs : List (Cache U)) → evictables_of cs ≡ 0 → coldest_owner recency cs ≡ none
    unfolding coldest_owner
    none_evictable_of [] h = refl
    none_evictable_of (c ∷ cs) h =
        coldest_of-none (coldest recency c) (coldest_owner recency cs)
          (none_evictable c.id c.runs (omega arith)) (none_evictable_of cs (omega arith))

    -- The run of the coldest epoch is there, and is hollowed.
    hollow_first-frees :
        (id e : ℕ) (rs : List (Run U))
        → Positive rs
        → coldest_run recency id rs ≡ some e
        → (0 < (hollow_first recency id e rs).0)
          × (evictables rs ≡ suc (evictables (hollow_first recency id e rs).1))
    unfolding coldest_run hollow_first
    hollow_first-frees id e [] p h = cc
    hollow_first-frees id e (r ∷ rest) (p, ps) h = elim (Bool-cases (evictable r)) [
      | inr stays ↦
          let ih = hollow_first-frees id e rest ps (sym (rw stays refl) ∙ h) in
          rw (stays, stays) (ih.0, omega (arith, ih.1))
      | inl may ↦ elim (Bool-cases (eff_epoch recency id r == e)) [
        | inl this ↦ rw (may, this) (p may, omega arith)
        | inr other ↦
            let there =
              in_rest (eff_epoch recency id r) e (coldest_run recency id rest) other
                (sym (rw may refl) ∙ h) in
            let ih = hollow_first-frees id e rest ps there in
            rw (may, other)
              (ih.0, omega (arith, ih.1, ap {B = ℕ} (λ (b : Bool). if b then 1 else 0) may))
      ]
    ]

    hollow_first-Positive :
        (id e : ℕ) (rs : List (Run U)) → Positive rs → Positive (hollow_first recency id e rs).1
    unfolding hollow_first
    hollow_first-Positive id e [] p = p
    hollow_first-Positive id e (r ∷ rest) (p, ps) =
        elim (Bool-cases (evictable r && eff_epoch recency id r == e)) [
          | inl this ↦ rw this (λ h. cc, ps)
          | inr later ↦ rw later (p, hollow_first-Positive id e rest ps)
        ]

    evict_coldest-frees :
        (c : Cache U) (e : ℕ)
        → Positive c.runs
        → coldest recency c ≡ some e
        → (0 < (evict_coldest recency c).0)
          × (evictables c.runs ≡ suc (evictables (evict_coldest recency c).1.runs))
    unfolding evict_coldest
    evict_coldest-frees c e p h = rw h (hollow_first-frees c.id e c.runs p h)

    evict_coldest-Positive :
        (c : Cache U) → Positive c.runs → Positive (evict_coldest recency c).1.runs
    unfolding evict_coldest
    evict_coldest-Positive c p = go (coldest recency c)
      where
        go : (o : Option ℕ) → Positive (evict_at recency c o).1.runs
        go none = p
        go (some e) = hollow_first-Positive c.id e c.runs p

    evict_owner-Positive :
        (e : ℕ) (cs : List (Cache U)) → AllPositive cs → AllPositive (evict_owner recency e cs).1
    unfolding evict_owner
    evict_owner-Positive e [] p = p
    evict_owner-Positive e (c ∷ cs) (p, ps) = elim (Bool-cases (has_epoch e (coldest recency c))) [
      | inl here ↦ rw here (evict_coldest-Positive c p, ps)
      | inr later ↦ rw later (p, evict_owner-Positive e cs ps)
    ]

    evict_owner-frees :
        (e : ℕ) (cs : List (Cache U))
        → AllPositive cs
        → coldest_owner recency cs ≡ some e
        → (0 < (evict_owner recency e cs).0)
          × (evictables_of cs ≡ suc (evictables_of (evict_owner recency e cs).1))
    unfolding evict_owner coldest_owner
    evict_owner-frees e [] p h = cc
    evict_owner-frees e (c ∷ cs) (p, ps) h = elim (Bool-cases (has_epoch e (coldest recency c))) [
      | inl here ↦
          let one = evict_coldest-frees c e p (epoch_of (coldest recency c) e here) in
          rw here (one.0, omega (arith, one.1))
      | inr later ↦
          let ih =
            evict_owner-frees e cs ps
              (in_others (coldest recency c) (coldest_owner recency cs) e later h) in
          rw later (ih.0, omega (arith, ih.1))
    ]

    charge_loop-Fits :
        (fuel : ℕ) (w : World U) (limit : ℕ)
        → evictables_of (owners w) ≤ fuel
        → AllPositive (owners w)
        → w.budget.limit ≡ limit
        → ((charge_loop recency fuel w).budget.bytes ≤ limit)
          ⊎ (coldest_owner recency (owners (charge_loop recency fuel w)) ≡ none)
    unfolding charge_loop
    charge_loop-Fits zero w limit f p el = inr (none_evictable_of (owners w) (omega arith))
    charge_loop-Fits (suc fuel) w limit f p el =
        elim (Bool-cases (ltb w.budget.limit w.budget.bytes)) [
          | inr fits ↦
              rw fits (inl (omega (arith, el, ge_of_not_ltb w.budget.limit w.budget.bytes fits)))
          | inl over ↦ elim (Option-cases (coldest_owner recency (owners w))) [
            | inl none_left ↦ rw (over, none_left) (inr none_left)
            | inr (e, at) ↦
                let r = evict_owner recency e (owners w) in
                let frees = evict_owner-frees e (owners w) p at in
                let next = with_owners w (paid_back w.budget r.0) r.1 in
                let same_owners : owners next ≡ r.1 =
                  evict_owner-owners recency e w (paid_back w.budget r.0) in
                rw (over, at, lt→ltb 0 r.0 frees.0)
                  (charge_loop-Fits fuel next limit
                    (omega (arith, frees.1, ap evictables_of same_owners))
                    (subst AllPositive (sym same_owners) (evict_owner-Positive e (owners w) p))
                    (ap (λ (b : Budget). b.limit)
                        (evict_owner-budget recency e w (paid_back w.budget r.0))
                      ∙ el))
          ]
        ]

    -- Where every run that may be evicted has bytes, a charge against a limit ends within the limit,
    -- or with no run left that may be evicted.
    pub charge-Fits :
        (w : World U) (added removed : ℕ)
        → AllPositive (owners w)
        → 0 < w.budget.limit
        → ((charge recency w added removed).budget.bytes ≤ w.budget.limit)
          ⊎ (coldest_owner recency (owners (charge recency w added removed)) ≡ none)
    unfolding charge
    charge-Fits w added removed p bounded =
        let w' = record w {
          budget = record w.budget { bytes = w.budget.bytes + added - removed };
        } in
        rw (positive_limit w.budget.limit bounded)
          (charge_loop-Fits (evictables_of (owners w')) w' w.budget.limit (omega arith) p refl)
