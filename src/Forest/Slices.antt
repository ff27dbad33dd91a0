-- ===== src/Forest/Slices.antt =====
-- Both slicings of a run's units give the same.
use figwal.Common.{
  ℕ, suc, ◌-◌, ◌≤◌, ◌≡◌, refl, ap, ◌∙◌, arith, true, false, some, List, [], ◌∷◌, ltb, leb,
  Bool-cases, inl, inr, ge_of_not_ltb, take, drop, le→ltb,
}
use figwal.Forest.Window.{first_above, slice, skip_to, up_to, slice_units}

leb_of_not_ltb : (a b : ℕ) → ltb a b ≡ false → leb b a ≡ true
leb_of_not_ltb a b h = ground arith

leb_of_ltb : (a b : ℕ) → ltb a b ≡ true → leb b a ≡ false
leb_of_ltb a b h = ground arith

suc_minus : (a b : ℕ) → suc a - suc b ≡ a - b
suc_minus a b = omega arith

minus_zero : (n : ℕ) → n - 0 ≡ n
minus_zero n = omega arith

module _ {U : Type 0} (key : U → ℕ) where
  take-first_above : (to : ℕ) (us : List U) → take (first_above key to us) us ≡ up_to key to us
  unfolding first_above up_to
  take-first_above to [] = refl
  take-first_above to (u ∷ us) = elim (Bool-cases (ltb to (key u))) [
    | inl past ↦ rw (past, leb_of_ltb to (key u) past) refl
    | inr within ↦
        rw (within, leb_of_not_ltb to (key u) within) (ap (λ t. u ∷ t) (take-first_above to us))
  ]

  first_above-le :
      (us : List U) (from to : ℕ) → from ≤ to → first_above key from us ≤ first_above key to us
  unfolding first_above
  first_above-le [] from to le = omega arith
  first_above-le (u ∷ us) from to le = ground (arith, first_above-le us from to le)

  cut_out :
      (us : List U) (from to : ℕ)
      → from ≤ to
      → take (first_above key to us - first_above key from us) (drop (first_above key from us) us)
        ≡ slice_units key us from to
  unfolding slice_units first_above skip_to
  cut_out [] from to le = unfold up_to in refl
  cut_out (u ∷ us) from to le = elim (Bool-cases (ltb from (key u))) [
    | inl past ↦
        rw (past, leb_of_ltb from (key u) past)
          (ap (λ n. take n (u ∷ us)) (minus_zero (first_above key to (u ∷ us)))
            ∙ take-first_above to (u ∷ us))
    | inr within ↦
        let low : ltb to (key u) ≡ false =
          le→ltb to (key u) (omega (arith, ge_of_not_ltb from (key u) within)) in
        rw (within, leb_of_not_ltb from (key u) within, low)
          (ap (λ n. take n (drop (first_above key from us) us))
              (suc_minus (first_above key to us) (first_above key from us))
            ∙ cut_out us from to le)
  ]

  -- Where its bounds are in order, the slice of a resident run, by binary search, does not panic
  -- and is the one by the loops of sliceUnits.
  pub slice_lem :
      (us : List U) (from to : ℕ)
      → from ≤ to
      → slice key us from to ≡ some (slice_units key us from to)
  unfolding slice
  slice_lem us from to le =
      let ordered : ltb (first_above key to us) (first_above key from us) ≡ false =
        le→ltb (first_above key to us) (first_above key from us) (first_above-le us from to le) in
      rw ordered (ap some (cut_out us from to le))
