-- ===== src/Forest/Keeps.antt =====
-- Properties of the runs of a cache that charges, insertions and updates keep.
use mathlib.Core.Path.{subst}
use figwal.Common.{
  ℕ, zero, suc, ◌+◌, ◌-◌, ◌≡◌, refl, sym, ◌∙◌, true, ◌&&◌, Option, none, some, List, [], ◌∷◌, ltb,
  leb, ◌==◌, Bool-cases, Option-cases, inl, inr, All,
}
use figwal.Values.{same}
use figwal.Forest.{
  Coord, Run, Cache, Budget, World, evictable, hollowed, hollow_first, coldest, evict_at,
  evict_coldest, coldest_owner, evict_owner, with_owners, owners, paid_back, charge_loop, charge,
  evictables_of, eff_epoch, has_epoch, insert, same_coord,
}
use figwal.Forest.Window.{find_run, update_run}

-- A property of the receiver's runs that hollowing keeps is kept by every charge.
module _ {U : Type 0} (P : Run U → Type 0) (keeps : (r : Run U) → P r → P (hollowed r))
    (recency : ℕ → Coord → ℕ) where
  hollow_first-All :
      (id e : ℕ) (rs : List (Run U)) → All P rs → All P (hollow_first recency id e rs).1
  unfolding hollow_first
  hollow_first-All id e [] p = p
  hollow_first-All id e (r ∷ rest) (p, ps) =
      elim (Bool-cases (evictable r && eff_epoch recency id r == e)) [
        | inl this ↦ rw this (keeps r p, ps)
        | inr later ↦ rw later (p, hollow_first-All id e rest ps)
      ]

  evict_at-All : (c : Cache U) (o : Option ℕ) → All P c.runs → All P (evict_at recency c o).1.runs
  evict_at-All c none p = p
  evict_at-All c (some e) p = hollow_first-All c.id e c.runs p

  evicted-All :
      (e : ℕ) (w : World U) (b : Budget)
      → All P w.self.runs
      → All P (with_owners w b (evict_owner recency e (owners w)).1).self.runs
  unfolding evict_owner evict_coldest
  evicted-All e w b p = elim (Bool-cases (has_epoch e (coldest recency w.self))) [
    | inl here ↦ rw here (evict_at-All w.self (coldest recency w.self) p)
    | inr later ↦ rw later p
  ]

  charge_loop-All :
      (fuel : ℕ) (w : World U) → All P w.self.runs → All P (charge_loop recency fuel w).self.runs
  unfolding charge_loop
  charge_loop-All zero w p = p
  charge_loop-All (suc fuel) w p = elim (Bool-cases (ltb w.budget.limit w.budget.bytes)) [
    | inr fits ↦ rw fits p
    | inl over ↦ elim (Option-cases (coldest_owner recency (owners w))) [
      | inl none_left ↦ rw (over, none_left) p
      | inr (e, at) ↦
          let r = evict_owner recency e (owners w) in
          elim (Bool-cases (ltb 0 r.0)) [
            | inl some_freed ↦
                rw (over, at, some_freed)
                  (charge_loop-All fuel (with_owners w (paid_back w.budget r.0) r.1)
                    (evicted-All e w (paid_back w.budget r.0) p))
            | inr none_freed ↦ rw (over, at, none_freed) (evicted-All e w w.budget p)
          ]
    ]
  ]

  pub charge-All :
      (w : World U) (added removed : ℕ)
      → All P w.self.runs
      → All P (charge recency w added removed).self.runs
  unfolding charge
  charge-All w added removed p =
      let w' = record w { budget = record w.budget { bytes = w.budget.bytes + added - removed } } in
      elim (Bool-cases (w.budget.limit == 0)) [
        | inl unbounded ↦ rw unbounded p
        | inr bounded ↦ rw bounded (charge_loop-All (evictables_of (owners w')) w' p)
      ]

module _ {U : Type 0} (P : Run U → Type 0) where
  pub insert-All : (r : Run U) (rs : List (Run U)) → P r → All P rs → All P (insert r rs)
  unfolding insert
  insert-All r [] p ps = (p, ps)
  insert-All r (x ∷ rest) p (q, ps) =
      elim (Bool-cases (same x.coord.node r.coord.node && leb r.coord.from x.coord.from)) [
        | inl here ↦ rw here (p, (q, ps))
        | inr later ↦ rw later (q, insert-All r rest p ps)
      ]

  pub update_run-All :
      (coord : Coord) (r : Run U) (rs : List (Run U))
      → P r
      → All P rs
      → All P (update_run coord r rs)
  unfolding update_run
  update_run-All coord r [] p ps = ps
  update_run-All coord r (x ∷ rest) p (q, ps) = elim (Bool-cases (same_coord x.coord coord)) [
    | inl here ↦ rw here (p, ps)
    | inr later ↦ rw later (q, update_run-All coord r rest p ps)
  ]

  pub find_run-All :
      (coord : Coord) (x : Run U) (rs : List (Run U))
      → All P rs
      → find_run coord rs ≡ some x
      → P x × (same_coord x.coord coord ≡ true)
  unfolding find_run
  find_run-All coord x [] ps h = cc
  find_run-All coord x (r ∷ rest) (p, ps) h = elim (Bool-cases (same_coord r.coord coord)) [
    | inl here ↦ moved r (some_eq r x (sym (rw here refl) ∙ h)) p here
    | inr later ↦ find_run-All coord x rest ps (sym (rw later refl) ∙ h)
  ]
    where
      some_eq : (a b : Run U) → some a ≡ some b → a ≡ b
      some_eq a b e = cc

      moved :
          (r : Run U)
          → r ≡ x
          → P r
          → same_coord r.coord coord ≡ true
          → P x × (same_coord x.coord coord ≡ true)
      moved r e p s = (subst P e p, subst (λ (t : Run U). same_coord t.coord coord ≡ true) e s)
