-- ===== src/Xwal/Markers/Numerals.antt =====
-- The number of an id that was minted with it
use figwal.Common.{
  pos, ℕ, zero, suc, ◌+◌, ◌-◌, ◌*◌, ◌/◌, ◌%◌, ◌≤◌, ◌<◌, ◌≡◌, refl, sym, ap, ◌∙◌, arith, true, false,
  none, some, [], ◌∷◌, ◌++◌, Bool-cases, inl, inr, ltb, leb, ◌==◌, le→ltb, ge_of_not_ltb,
  All-append, ◌&&◌,
}
use mathlib.Core.List.{reverse, reverse-append}
use figwal.Segment.Bytes.{Bytes}
use figwal.Names.{contains}
use figwal.Names.RoundTrip.{Octets}
use figwal.Xwal.Frames.Numbers.{AllDigits}
use figwal.Xwal.Markers.Texts.{clean}
use figwal.Xwal.Frames.{is_digit, max_int64}
use figwal.Xwal.Markers.{digits_value, atoi, num_suffix, itoa_loop, itoa}

-- One more digit at the end
digits_value-append :
    (n m b : ℕ) (s : Bytes)
    → digits_value n s ≡ some m
    → is_digit b ≡ true
    → digits_value n (s ++ (b ∷ [])) ≡ some (m * 10 + (b - 48))
unfolding digits_value
digits_value-append n m b [] e d = rw d (ap some (ground (arith, e)))
digits_value-append n m b (c ∷ s) e d = elim (Bool-cases (is_digit c)) [
  | inl digit ↦
      let rest = digits_value-append (n * 10 + (c - 48)) m b s (sym (rw digit refl) ∙ e) d in
      rw (digit, rest) refl
  | inr other ↦ let impossible : none ≡ some m = sym (rw other refl) ∙ e in cc
]

digits_value-itoa : (fuel n : ℕ) → n < fuel → digits_value 0 (itoa_loop fuel n) ≡ some n
unfolding itoa_loop digits_value
digits_value-itoa zero n lt = absurd (omega arith)
digits_value-itoa (suc fuel) n lt = elim (Bool-cases (ltb n 10)) [
  | inl small ↦
      let digit : is_digit (48 + n) ≡ true = ground (arith, small) in
      rw (small, digit) (ap some (omega arith))
  | inr large ↦
      let ge = ge_of_not_ltb n 10 large in
      let front = digits_value-itoa fuel (n / 10) (omega arith) in
      let digit : is_digit (48 + n % 10) ≡ true = ground arith in
      rw large (
        digits_value-append 0 (n / 10) (48 + n % 10) (itoa_loop fuel (n / 10)) front digit
        ∙ ap some (omega arith))
]

-- The decimal numeral begins with a digit.
itoa_begins :
    (fuel n : ℕ)
    → n < fuel
    → (b : ℕ) × (s : Bytes) × (itoa_loop fuel n ≡ b ∷ s) × (is_digit b ≡ true)
unfolding itoa_loop
itoa_begins zero n lt = absurd (omega arith)
itoa_begins (suc fuel) n lt = elim (Bool-cases (ltb n 10)) [
  | inl small ↦ (48 + n, [], rw small refl, ground (arith, small))
  | inr large ↦
      let ge = ge_of_not_ltb n 10 large in
      let (b, s, e, d) = itoa_begins fuel (n / 10) (omega arith) in
      (b, s ++ ((48 + n % 10) ∷ []), rw (large, e) refl, d)
]

-- The number of an id is that which it was minted with.
pub num_suffix-itoa : (prefix n : ℕ) → n ≤ max_int64 → num_suffix (prefix ∷ itoa n) prefix ≡ pos n
unfolding num_suffix atoi
num_suffix-itoa prefix n le =
    let (b, s, e, d) = itoa_begins (suc n) n (omega arith) in
    let same : (prefix == prefix) ≡ true = ground arith in
    let no_plus : (b == 43) ≡ false = ground (arith, d) in
    let no_minus : (b == 45) ≡ false = ground (arith, d) in
    let value : digits_value 0 (b ∷ s) ≡ some n =
      ap (digits_value 0) (sym e) ∙ digits_value-itoa (suc n) n (omega arith) in
    rw (e, same, no_plus, no_minus, value, le→ltb max_int64 n le) refl

itoa_loop-AllDigits : (fuel n : ℕ) → n < fuel → AllDigits (itoa_loop fuel n)
unfolding itoa_loop
itoa_loop-AllDigits zero n lt = absurd (omega arith)
itoa_loop-AllDigits (suc fuel) n lt = elim (Bool-cases (ltb n 10)) [
  | inl small ↦ rw small (ground (arith, small), tt)
  | inr large ↦
      let ge = ge_of_not_ltb n 10 large in
      let last : is_digit (48 + n % 10) ≡ true = ground arith in
      rw large (
        All-append (λ b. is_digit b ≡ true) (itoa_loop fuel (n / 10)) ((48 + n % 10) ∷ [])
          (itoa_loop-AllDigits fuel (n / 10) (omega arith)) (last, tt))
]

pub itoa-AllDigits : (n : ℕ) → AllDigits (itoa n)
itoa-AllDigits n = itoa_loop-AllDigits (suc n) n (omega arith)

pub digits_lack : (s : Bytes) (c : ℕ) → AllDigits s → is_digit c ≡ false → contains s c ≡ false
digits_lack [] c all h = refl
digits_lack (b ∷ s) c (digit, all) h =
    let other : (b == c) ≡ false = ground (arith, digit, h) in rw other (digits_lack s c all h)

pub digits-Octets : (s : Bytes) → AllDigits s → Octets s
digits-Octets [] all = tt
digits-Octets (b ∷ s) (digit, all) = (ground (arith, digit), digits-Octets s all)

itoa_loop_ends :
    (fuel n : ℕ)
    → n < fuel
    → (front : Bytes) × (b : ℕ) × (itoa_loop fuel n ≡ front ++ (b ∷ [])) × (is_digit b ≡ true)
unfolding itoa_loop
itoa_loop_ends zero n lt = absurd (omega arith)
itoa_loop_ends (suc fuel) n lt = elim (Bool-cases (ltb n 10)) [
  | inl small ↦ ([], 48 + n, rw small refl, ground (arith, small))
  | inr large ↦ (itoa_loop fuel (n / 10), 48 + n % 10, rw large refl, ground arith)
]

-- An id that was minted is a clean value.
pub minted-clean : (prefix n : ℕ) → (prefix == 10) ≡ false → clean (prefix ∷ itoa n) ≡ true
minted-clean prefix n p =
    let (front, b, e, d) = itoa_loop_ends (suc n) n (omega arith) in
    let no_newline : contains (prefix ∷ itoa n) 10 ≡ false =
      rw p (digits_lack (itoa n) 10 (itoa-AllDigits n) refl) in
    let back : reverse (prefix ∷ itoa n) ≡ b ∷ reverse (prefix ∷ front) =
      ap (λ t. reverse (prefix ∷ t)) e ∙ reverse-append (prefix ∷ front) (b ∷ []) in
    let graphic : (leb 33 b && leb b 126) ≡ true = ground (arith, d) in
    rw (no_newline, back, graphic) refl
