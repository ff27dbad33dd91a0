-- ===== src/Xwal/Frames/Numbers.antt =====
-- The number of a frame: what the loop on digits reads is the decimal number, unless it is too large.
use figwal.Common.{
  ℕ, ◌+◌, ◌-◌, ◌*◌, ◌/◌, ◌≤◌, ◌<◌, ◌≡◌, refl, arith, Bool, true, false, none, some, [], ◌∷◌, ◌++◌,
  ltb, leb, if◌then◌else◌, length, length-append, Bool-cases, inl, inr, lt→ltb, le→ltb, ltb→lt,
  ge_of_not_ltb, All,
}
use figwal.Segment.Bytes.{Bytes}
use figwal.Xwal.Frames.{is_digit, digits_loop, main_prefix, fast_decode_main_lt, max_uint64}

-- The decimal number that digits write behind `n`
abbrev pub decimal : ℕ → Bytes → ℕ
decimal n [] = n
decimal n (b ∷ ds) = decimal (n * 10 + (b - 48)) ds

abbrev pub AllDigits : Bytes → Type 0
AllDigits = All (λ b. is_digit b ≡ true)

decimal-below : (n : ℕ) (ds : Bytes) → n ≤ decimal n ds
decimal-below n [] = omega arith
decimal-below n (b ∷ ds) = omega (arith, decimal-below (n * 10 + (b - 48)) ds)

digit_bound : (b : ℕ) → is_digit b ≡ true → b - 48 ≤ 9
digit_bound b h = ground arith

too_large : (top n d : ℕ) → d ≤ top → ltb ((top - d) / 10) n ≡ true → top < n * 10 + d
too_large top n d le h = omega (arith, ltb→lt ((top - d) / 10) n h)

fits : (top n d : ℕ) → d ≤ top → ltb ((top - d) / 10) n ≡ false → n * 10 + d ≤ top
fits top n d le h = omega (arith, ge_of_not_ltb ((top - d) / 10) n h)

digits_loop-decimal :
    (top n : ℕ) (ds : Bytes) (b : ℕ) (rest : Bytes)
    → 9 ≤ top
    → n ≤ top
    → AllDigits ds
    → is_digit b ≡ false
    → digits_loop top n (ds ++ (b ∷ rest))
      ≡ (if ltb top (decimal n ds) then none else some (decimal n ds, b ∷ rest))
unfolding digits_loop
digits_loop-decimal top n [] b rest nine le ds no_digit = rw (no_digit, le→ltb top n le) refl
digits_loop-decimal top n (c ∷ ds) b rest nine le (digit, digits) no_digit =
    let d = c - 48 in
    let small : d ≤ top = omega (arith, digit_bound c digit) in
    elim (Bool-cases (ltb ((top - d) / 10) n)) [
      | inl over ↦
          let past : ltb top (decimal (n * 10 + d) ds) ≡ true =
            lt→ltb top _
              (omega (arith, decimal-below (n * 10 + d) ds, too_large top n d small over)) in
          rw (digit, over, past) refl
      | inr within ↦
          rw (digit, within)
            (digits_loop-decimal top (n * 10 + d) ds b rest nine (fits top n d small within) digits
              no_digit)
    ]

abbrev pub numbered_frame : Bytes → Bytes → Bytes
numbered_frame ds rest = main_prefix ++ (ds ++ (44 ∷ rest))

module _ (valid : Bytes → Bool) where
  -- On a valid frame that begins with a main LT of some digits and a comma, the fast decoder gives
  -- the decimal number of the digits, or nothing where that is not below 2 ^ 64.
  pub fast_decode_main_lt-decimal :
      (d : ℕ) (ds rest : Bytes)
      → AllDigits (d ∷ ds)
      → valid (numbered_frame (d ∷ ds) rest) ≡ true
      → fast_decode_main_lt valid (numbered_frame (d ∷ ds) rest)
        ≡ (if ltb max_uint64 (decimal 0 (d ∷ ds)) then none else some (decimal 0 (d ∷ ds)))
  unfolding fast_decode_main_lt
  fast_decode_main_lt-decimal d ds rest digits ok_json =
      let long : leb (length (numbered_frame (d ∷ ds) rest)) 5 ≡ false = ground arith in
      let shorter : ltb (length (44 ∷ rest)) (length (d ∷ ds ++ (44 ∷ rest))) ≡ true =
        lt→ltb _ _ (omega (arith, length-append ds (44 ∷ rest))) in
      let read =
        digits_loop-decimal max_uint64 0 (d ∷ ds) 44 rest (omega arith) (omega arith) digits refl in
      rw (long, ok_json, read)
        (elim (Bool-cases (ltb max_uint64 (decimal 0 (d ∷ ds)))) [
          | inl over ↦ rw over refl
          | inr within ↦ rw (within, shorter) refl
        ])
