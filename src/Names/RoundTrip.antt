-- ===== src/Names/RoundTrip.antt =====
-- A directory name stands for the key that it was made from.
use mathlib.Core.Path.{subst}
use figwal.Common.{
  ℕ, ◌/◌, ◌%◌, ◌<◌, ◌≡◌, refl, sym, ap, ◌∙◌, arith, Bool, true, false, not, none, some, [], ◌∷◌,
  ◌==◌, if◌then◌else◌, All, Bool-cases, inl, inr,
}
use figwal.Segment.Bytes.{Bytes}
use figwal.Names.{
  contains, contains_any, percent, fs_reserved, hex, escaped, fs_name_loop, fs_name, unhex, joined,
  escape_of, advance, key_name_loop, key_name,
}

-- The bytes of a Go string
abbrev pub Octets : Bytes → Type 0
Octets = All (λ c. c < 256)

unhex-hex : (d : ℕ) → d < 16 → unhex (hex d) ≡ some d
unhex-hex d h = ground arith

digits_of : (c : ℕ) → c < 256 → joined (unhex (hex (c / 16))) (unhex (hex (c % 16))) ≡ some c
digits_of c h =
    rw (unhex-hex (c / 16) (omega arith), unhex-hex (c % 16) (omega arith)) (ap some (omega arith))

not_percent : (c : ℕ) → contains fs_reserved c ≡ false → (c == percent) ≡ false
not_percent c h = ground arith

no_escape : (c : ℕ) (rest : Bytes) → (c == percent) ≡ false → escape_of c rest ≡ none
no_escape c [] h = refl
no_escape c (a ∷ []) h = refl
no_escape c (a ∷ b ∷ rest) h = rw h refl

rest_false : (a b : Bool) → a ≡ false → (if a then true else b) ≡ false → b ≡ false
rest_false true b e h = cc
rest_false false b e h = h

key_name_loop-plain :
    (c : ℕ) (rest : Bytes)
    → (c == percent) ≡ false
    → key_name_loop (c ∷ rest) ≡ c ∷ key_name_loop rest
unfolding key_name_loop
key_name_loop-plain c [] h = refl
key_name_loop-plain c (a ∷ []) h = refl
key_name_loop-plain c (a ∷ b ∷ rest) h =
    ap (λ o. advance o c (key_name_loop rest) (key_name_loop (a ∷ b ∷ rest)))
      (no_escape c (a ∷ b ∷ rest) h)

key_name_loop-escaped :
    (c : ℕ) (rest : Bytes) → c < 256 → key_name_loop (escaped c rest) ≡ c ∷ key_name_loop rest
unfolding key_name_loop
key_name_loop-escaped c rest h = elim (Bool-cases (contains fs_reserved c)) [
  | inl reserved ↦ rw reserved (
      ap
        (λ o.
          advance o percent (key_name_loop rest)
            (key_name_loop (hex (c / 16) ∷ hex (c % 16) ∷ rest)))
        (digits_of c h))
  | inr plain ↦ rw plain (key_name_loop-plain c rest (not_percent c plain))
]

key_name_loop-fs_name_loop : (key : Bytes) → Octets key → key_name_loop (fs_name_loop key) ≡ key
unfolding fs_name_loop key_name_loop
key_name_loop-fs_name_loop [] h = refl
key_name_loop-fs_name_loop (c ∷ key) (h, hs) =
    key_name_loop-escaped c (fs_name_loop key) h
    ∙ ap (λ t. c ∷ t) (key_name_loop-fs_name_loop key hs)

fs_name_loop-clean : (key : Bytes) → contains_any key fs_reserved ≡ false → fs_name_loop key ≡ key
unfolding fs_name_loop
fs_name_loop-clean [] h = refl
fs_name_loop-clean (c ∷ key) h = elim (Bool-cases (contains fs_reserved c)) [
  | inl reserved ↦ cc
  | inr plain ↦ rw plain (
      ap (λ t. c ∷ t)
        (fs_name_loop-clean key
          (rest_false (contains fs_reserved c) (contains_any key fs_reserved) plain h)))
]

key_name_loop-clean : (name : Bytes) → contains name percent ≡ false → key_name_loop name ≡ name
unfolding key_name_loop
key_name_loop-clean [] h = refl
key_name_loop-clean (c ∷ rest) h = elim (Bool-cases (c == percent)) [
  | inl is ↦ cc
  | inr other ↦
      key_name_loop-plain c rest other
      ∙ ap (λ t. c ∷ t)
          (key_name_loop-clean rest (rest_false (c == percent) (contains rest percent) other h))
]

fs_name_windows : (key : Bytes) → fs_name true key ≡ fs_name_loop key
unfolding fs_name
fs_name_windows key = elim (Bool-cases (contains_any key fs_reserved)) [
  | inl some_there ↦ rw some_there refl
  | inr clean ↦ rw clean (sym (fs_name_loop-clean key clean))
]

key_name_windows : (name : Bytes) → key_name true name ≡ key_name_loop name
unfolding key_name
key_name_windows name = elim (Bool-cases (contains name percent)) [
  | inl some_there ↦ rw some_there refl
  | inr clean ↦ rw clean (sym (key_name_loop-clean name clean))
]

-- The directory name of a node key gives the key back, on every platform.
pub key_name-fs_name :
    (encode : Bool) (key : Bytes) → Octets key → key_name encode (fs_name encode key) ≡ key
unfolding fs_name key_name
key_name-fs_name false key h = refl
key_name-fs_name true key h =
    key_name_windows (fs_name true key)
    ∙ ap key_name_loop (fs_name_windows key)
    ∙ key_name_loop-fs_name_loop key h

-- The bytes that Windows reserves, but for the '%' that the encoding itself writes.
abbrev pub admissible : ℕ → Bool
admissible c = if c == percent then true else not (contains fs_reserved c)

hex-admissible : (d : ℕ) → d < 16 → admissible (hex d) ≡ true
hex-admissible d h = ground arith

admissible-plain : (c : ℕ) → contains fs_reserved c ≡ false → admissible c ≡ true
admissible-plain c h = elim (Bool-cases (c == percent)) [
  | inl is ↦ rw is refl
  | inr other ↦ rw other (ap not h)
]

fs_name_loop-admissible :
    (key : Bytes) → Octets key → All (λ c. admissible c ≡ true) (fs_name_loop key)
unfolding fs_name_loop
fs_name_loop-admissible [] h = tt
fs_name_loop-admissible (c ∷ key) (h, hs) =
    let rest = fs_name_loop-admissible key hs in
    elim (Bool-cases (contains fs_reserved c)) [
      | inl reserved ↦ rw reserved (
        refl,
        (hex-admissible (c / 16) (omega arith), (hex-admissible (c % 16) (omega arith), rest)),
      )
      | inr plain ↦ rw plain (admissible-plain c plain, rest)
    ]

-- On Windows a directory name holds none of the bytes that Windows reserves, but for '%', which
-- it allows.
pub fs_name-admissible :
    (key : Bytes) → Octets key → All (λ c. admissible c ≡ true) (fs_name true key)
fs_name-admissible key h =
    subst (All (λ c. admissible c ≡ true)) (sym (fs_name_windows key))
      (fs_name_loop-admissible key h)
