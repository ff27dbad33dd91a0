-- ===== src/Xwal/Lookups.antt =====
-- Lookup of a channel: what the foreign-key index answers is the newest record of a main LT.
pub mod Scans
pub mod Answers
pub mod Failure
use mathlib.Core.Path.{subst}
use figwal.Common.{
  ℕ, zero, suc, ◌+◌, ◌-◌, ◌≤◌, ◌<◌, ◌≡◌, ◌≢◌, refl, sym, ap, ◌∙◌, arith, Bool, true, false, not,
  ◌&&◌, ◌||◌, Option, none, some, List, [], ◌∷◌, ltb, leb, ◌==◌, if◌then◌else◌, eqb_refl,
  Bool-cases, Option-cases, inl, inr, ◌⊎◌, ltb→lt, lt→ltb, le→ltb, ge_of_not_ltb, leb→le,
  lt_of_not_leb,
}
use figwal.Result.{Error, Result, ok, err}
use figwal.Segment.Bytes.{Bytes}
use figwal.Xwal.Channels.{
  Records, Channel, fk_at, last_of, skip_above, visited, or_add, noted, Ended, stopped, finished,
  failed, note_with, index_scan, after_scan, scanning, lookup_with, lookup,
}

-- The indices of the records fall, from `top` on, and none is 0.
abbrev pub Descending : ℕ → Records → Type 0
Descending top [] = top ≡ top
Descending top ((idx, f) ∷ rest) = (0 < idx) × (idx ≤ top) × Descending (idx - 1) rest

abbrev pub if_is : Result ℕ → ℕ → ℕ → Option ℕ → Option ℕ
if_is (err e) k idx later = later
if_is (ok m) k idx later = if m == k then some idx else later

module _ (decode : Bytes → Result ℕ) where
  -- The records have main LTs, which do not rise from `top` on.
  abbrev pub Falling : ℕ → Records → Type 0
  Falling top [] = top ≡ top
  Falling top ((idx, f) ∷ rest) = (m : ℕ) × (decode f ≡ ok m) × (m ≤ top) × Falling m rest

  -- The index of the newest record of a main LT
  unfoldable pub newest : Records → ℕ → Option ℕ
  newest [] k = none
  newest ((idx, f) ∷ rest) k = let later = newest rest k in if_is (decode f) k idx later

  pub newest-below : (top k : ℕ) (rs : Records) → Falling top rs → top < k → newest rs k ≡ none
  unfolding newest
  newest-below top k [] h lt = refl
  newest-below top k ((idx, f) ∷ rest) (m, d, le, h) lt =
      let apart : (m == k) ≡ false = ground arith in
      rw (d, apart) (newest-below m k rest h (omega arith))

  -- Every main LT is in the index with its newest record, or not in it, and then the scan of `todo`
  -- meets its newest record.
  abbrev pub Knows : Records → List (ℕ × ℕ) → Records → Type 0
  Knows rs fk todo =
      (k : ℕ)
      → ((idx : ℕ) × (fk_at fk k ≡ some idx) × (newest rs k ≡ some idx))
        ⊎ ((fk_at fk k ≡ none) × (newest rs k ≡ newest todo k))

  abbrev pub Complete : Records → List (ℕ × ℕ) → ℕ → Type 0
  Complete rs fk floor = (k : ℕ) → floor ≤ k → fk_at fk k ≡ newest rs k

  noted_apart :
      (rs : Records) (fk : List (ℕ × ℕ)) (idx m : ℕ) (f : Bytes) (rest : Records) (o : Option ℕ)
      (k : ℕ)
      → decode f ≡ ok m
      → (m == k) ≡ false
      → Knows rs fk ((idx, f) ∷ rest)
      → ((i : ℕ) × (fk_at (or_add o m idx fk) k ≡ some i) × (newest rs k ≡ some i))
        ⊎ ((fk_at (or_add o m idx fk) k ≡ none) × (newest rs k ≡ newest rest k))
  unfolding newest
  noted_apart rs fk idx m f rest o k d apart knows =
      let same : fk_at (or_add o m idx fk) k ≡ fk_at fk k = kept o in
      elim (knows k) [
        | inl (i, known, is) ↦ inl (i, same ∙ known, is)
        | inr (unknown, met) ↦ inr (same ∙ unknown, met ∙ rw (d, apart) refl)
      ]
    where
      kept : (o : Option ℕ) → fk_at (or_add o m idx fk) k ≡ fk_at fk k
      kept none = rw apart refl
      kept (some i) = refl

  noted_present :
      (rs : Records) (fk : List (ℕ × ℕ)) (idx m : ℕ) (f : Bytes) (rest : Records) (o : Option ℕ)
      → decode f ≡ ok m
      → fk_at fk m ≡ o
      → Knows rs fk ((idx, f) ∷ rest)
      → (i : ℕ) × (fk_at (or_add o m idx fk) m ≡ some i) × (newest rs m ≡ some i)
  unfolding newest
  noted_present rs fk idx m f rest none d at knows = elim (knows m) [
    | inl (i, known, is) ↦ cc
    | inr (unknown, met) ↦ (idx, rw (eqb_refl m) refl, met ∙ rw (d, eqb_refl m) refl)
  ]
  noted_present rs fk idx m f rest (some i) d at knows = elim (knows m) [
    | inl (j, known, is) ↦ (j, known, is)
    | inr (unknown, met) ↦ cc
  ]

  pub noted-Knows :
      (rs : Records) (fk : List (ℕ × ℕ)) (idx m : ℕ) (f : Bytes) (rest : Records)
      → decode f ≡ ok m
      → Knows rs fk ((idx, f) ∷ rest)
      → Knows rs (or_add (fk_at fk m) m idx fk) rest
  noted-Knows rs fk idx m f rest d knows k = elim (Bool-cases (m == k)) [
    | inl same ↦
        let e : m ≡ k = ground arith in
        inl (
          subst
            (λ k'.
              (i : ℕ) × (fk_at (or_add (fk_at fk m) m idx fk) k' ≡ some i)
              × (newest rs k' ≡ some i))
            e (noted_present rs fk idx m f rest (fk_at fk m) d refl knows))
    | inr apart ↦ noted_apart rs fk idx m f rest (fk_at fk m) k d apart knows
  ]

  pub Knows-at :
      (rs : Records) (fk : List (ℕ × ℕ)) (todo : Records) (k : ℕ)
      → newest todo k ≡ none
      → Knows rs fk todo
      → fk_at fk k ≡ newest rs k
  Knows-at rs fk todo k absent knows = elim (knows k) [
    | inl (i, known, is) ↦ known ∙ sym is
    | inr (unknown, met) ↦ unknown ∙ sym (met ∙ absent)
  ]

  -- Where a scan stops at a record, the index is complete from its main LT on.
  pub noted-Complete :
      (rs : Records) (fk : List (ℕ × ℕ)) (idx m : ℕ) (f : Bytes) (rest : Records)
      → decode f ≡ ok m
      → Falling m rest
      → Knows rs fk ((idx, f) ∷ rest)
      → Complete rs (or_add (fk_at fk m) m idx fk) m
  noted-Complete rs fk idx m f rest d falls knows k le = elim (Bool-cases (m == k)) [
    | inl same ↦
        let e : m ≡ k = ground arith in
        subst (λ k'. fk_at (or_add (fk_at fk m) m idx fk) k' ≡ newest rs k') e
          (let (i, a, b) = noted_present rs fk idx m f rest (fk_at fk m) d refl knows in a ∙ sym b)
    | inr apart ↦
        let lt : m < k = ground arith in
        Knows-at rs _ rest k (newest-below m k rest falls lt)
          (noted-Knows rs fk idx m f rest d knows)
  ]
