-- ===== src/Disk/State/Search.antt =====
-- `searchSealed` of disk/sealed.go finds the first sealed segment that ends at or behind an index.
use native.Mathlib.Nat.{le_trans}
use figwal.Common.{
  ℕ, zero, suc, ◌+◌, ◌/◌, ◌≤◌, ◌<◌, arith, List, length, ltb, leb, Bool-cases, inl, inr, ltb→lt,
  leb→le, ge_of_not_ltb, lt_of_not_leb,
}
use figwal.Disk.State.{SealedSeg, last_at, search_loop, search_sealed}

-- The segments end in ascending order.
abbrev pub Ascending : List SealedSeg → Type 0
Ascending sealed = (i j : ℕ) → i ≤ j → j < length sealed → last_at sealed i ≤ last_at sealed j

-- `r` parts the segments: those before it end before `idx`, those from it on do not.
pub record Parts (sealed : List SealedSeg) (idx r : ℕ) : Type 0 where
  pub within : r ≤ length sealed
  pub before : (j : ℕ) → j < r → last_at sealed j < idx
  pub behind : (j : ℕ) → r ≤ j → j < length sealed → idx ≤ last_at sealed j

mid_bounds : (lo hi : ℕ) → lo < hi → (lo ≤ (lo + hi) / 2) × ((lo + hi) / 2 < hi)
mid_bounds lo hi h = omega arith

search_loop-Parts :
    (fuel : ℕ) (sealed : List SealedSeg) (idx lo hi : ℕ)
    → Ascending sealed
    → hi ≤ lo + fuel
    → lo ≤ hi
    → hi ≤ length sealed
    → ((j : ℕ) → j < lo → last_at sealed j < idx)
    → ((j : ℕ) → hi ≤ j → j < length sealed → idx ≤ last_at sealed j)
    → Parts sealed idx (search_loop fuel sealed idx lo hi)
unfolding search_loop
search_loop-Parts zero sealed idx lo hi asc f le len below above = record {
  within = omega arith;
  before = below;
  behind = λ j h k. above j (omega arith) k;
}
search_loop-Parts (suc fuel) sealed idx lo hi asc f le len below above =
    let mid = (lo + hi) / 2 in
    elim (Bool-cases (ltb lo hi)) [
      | inr done ↦ rw done (record {
        within = omega arith;
        before = below;
        behind = λ j h k. above j (omega (arith, ge_of_not_ltb lo hi done)) k;
      })
      | inl more ↦
          let (m1, m2) = mid_bounds lo hi (ltb→lt lo hi more) in
          elim (Bool-cases (leb idx (last_at sealed mid))) [
            | inl left ↦
                rw (more, left)
                  (search_loop-Parts fuel sealed idx lo mid asc (omega arith) (omega arith)
                    (omega arith) below
                    (λ j h k. le_trans (leb→le idx (last_at sealed mid) left) (asc mid j h k)))
            | inr right ↦
                rw (more, right)
                  (search_loop-Parts fuel sealed idx (mid + 1) hi asc (omega arith) (omega arith)
                    len
                    (λ j h.
                      let small : last_at sealed j ≤ last_at sealed mid =
                        asc j mid (omega arith) (omega arith) in
                      omega (arith, small, lt_of_not_leb idx (last_at sealed mid) right))
                    above)
          ]
    ]

-- In a list of segments that end in ascending order the search parts them at the index: everything
-- before the result ends before it, everything from the result on ends at it or later.
pub search_sealed-Parts :
    (sealed : List SealedSeg) (idx : ℕ)
    → Ascending sealed
    → Parts sealed idx (search_sealed sealed idx)
unfolding search_sealed
search_sealed-Parts sealed idx asc =
    search_loop-Parts (length sealed) sealed idx 0 (length sealed) asc (omega arith) (omega arith)
      (omega arith) (λ j h. absurd (omega arith)) (λ j h k. absurd (omega arith))
