-- ===== src/Xwal/Lookups/Scans.antt =====
-- What a lookup's scan does to the foreign-key index.
use mathlib.Core.Path.{subst}
use figwal.Common.{
  ℕ, ◌-◌, ◌≤◌, ◌<◌, ◌≡◌, refl, sym, ◌∙◌, arith, true, false, Option, none, List, [], ◌∷◌, ltb, leb,
  ◌==◌, if◌then◌else◌, Bool-cases, Option-cases, inl, inr, ◌⊎◌, ltb→lt, lt→ltb, le→ltb,
  ge_of_not_ltb, leb→le,
}
use figwal.Result.{Result, ok, err}
use figwal.Segment.Bytes.{Bytes}
use figwal.Xwal.Channels.{
  Records, Channel, last_of, skip_above, visited, noted, Ended, stopped, finished, index_scan,
}
use figwal.Xwal.Lookups.{
  Descending, Falling, newest, Knows, Complete, noted-Knows, noted-Complete, Knows-at, if_is,
}

skip_above-skip_above :
    (n m : ℕ) (rs : Records) → n ≤ m → skip_above n (skip_above m rs) ≡ skip_above n rs
unfolding skip_above
skip_above-skip_above n m [] le = refl
skip_above-skip_above n m ((idx, f) ∷ rest) le = elim (Bool-cases (ltb m idx)) [
  | inl above ↦
      let lt = ltb→lt m idx above in
      rw (above, lt→ltb n idx (omega arith)) (skip_above-skip_above n m rest le)
  | inr here ↦ rw here refl
]

skip_above-Descending :
    (n top : ℕ) (rs : Records) → Descending top rs → Descending n (skip_above n rs)
unfolding skip_above
skip_above-Descending n top [] h = refl
skip_above-Descending n top ((idx, f) ∷ rest) (pos, le, h) = elim (Bool-cases (ltb n idx)) [
  | inl above ↦ rw above (skip_above-Descending n (idx - 1) rest h)
  | inr here ↦ rw here (pos, ge_of_not_ltb n idx here, h)
]

-- Records that all lie at the index or below are all visited.
pub skip_above_all : (n : ℕ) (rs : Records) → Descending n rs → skip_above n rs ≡ rs
unfolding skip_above
skip_above_all n [] h = refl
skip_above_all n ((idx, f) ∷ rest) (pos, le, h) = rw (le→ltb n idx le) refl

module _ (decode : Bytes → Result ℕ) where
  skip_above-Falling :
      (n top : ℕ) (rs : Records)
      → Falling decode top rs
      → (top' : ℕ) × Falling decode top' (skip_above n rs)
  unfolding skip_above
  skip_above-Falling n top [] h = (top, refl)
  skip_above-Falling n top ((idx, f) ∷ rest) (m, d, le, h) = elim (Bool-cases (ltb n idx)) [
    | inl above ↦ rw above (skip_above-Falling n m rest h)
    | inr here ↦ rw here (top, (m, d, le, h))
  ]

  if_is-none :
      (r : Result ℕ) (k idx : ℕ) (later : Option ℕ) → if_is r k idx later ≡ none → later ≡ none
  if_is-none (err e) k idx later h = h
  if_is-none (ok m) k idx later h = elim (Bool-cases (m == k)) [
    | inl same ↦ cc
    | inr apart ↦ sym (rw apart refl) ∙ h
  ]

  newest-skip_above :
      (n k : ℕ) (rs : Records)
      → newest decode rs k ≡ none
      → newest decode (skip_above n rs) k ≡ none
  unfolding newest skip_above
  newest-skip_above n k [] h = refl
  newest-skip_above n k ((idx, f) ∷ rest) h = elim (Bool-cases (ltb n idx)) [
    | inl above ↦
        rw above (newest-skip_above n k rest (if_is-none (decode f) k idx (newest decode rest k) h))
    | inr here ↦ rw here h
  ]

  pub Complete-Knows :
      (rs : Records) (fk : List (ℕ × ℕ)) (n : ℕ)
      → Complete decode rs fk 0
      → Knows decode rs fk (visited n rs)
  Complete-Knows rs fk n c k = elim (Option-cases (newest decode rs k)) [
    | inl absent ↦
        inr (c k (omega arith) ∙ absent, absent ∙ sym (there (Bool-cases (n == 0)) absent))
    | inr (idx, is) ↦ inl (idx, c k (omega arith) ∙ is, is)
  ]
    where
      there :
          ((n == 0) ≡ true) ⊎ ((n == 0) ≡ false)
          → newest decode rs k ≡ none
          → newest decode (visited n rs) k ≡ none
      there (inl all) h = rw all h
      there (inr part) h = rw part (newest-skip_above n k rs h)

  Knows-all :
      (rs : Records) (fk : List (ℕ × ℕ)) (todo : Records)
      → Knows decode rs fk todo
      → Knows decode rs fk rs
  Knows-all rs fk todo knows k = elim (knows k) [
    | inl known ↦ inl known
    | inr (unknown, met) ↦ inr (unknown, refl)
  ]

  -- The index of a channel agrees with its records.
  pub record Indexed (ch : Channel) : Type 0 where
    pub top : ℕ
    pub falls : Falling decode top ch.records
    pub order : Descending (last_of ch.records) ch.records
    pub knows : ch.fk_scan ≡ true → Knows decode ch.records ch.fk (visited ch.fk_next ch.records)
    pub next : ch.fk_next ≤ last_of ch.records
    pub built : ch.fk_built ≡ true → Complete decode ch.records ch.fk 0
    pub floor : ch.fk_scan ≡ true → Complete decode ch.records ch.fk ch.fk_floor
    pub fresh : ch.fk_scan ≡ false → (ch.fk ≡ []) × (ch.fk_built ≡ false)

  -- What a scan for a main LT leaves
  pub record Scanned (main_lt : ℕ) (ch : Channel) (r : Ended × Channel) : Type 0 where
    pub records_eq : r.1.records ≡ ch.records
    pub scan_eq : r.1.fk_scan ≡ ch.fk_scan
    pub next_le : r.1.fk_next ≤ last_of ch.records
    pub ends :
        ((r.0 ≡ finished) × Complete decode ch.records r.1.fk 0)
        ⊎ ((r.0 ≡ stopped)
            × Complete decode ch.records r.1.fk r.1.fk_floor
            × (r.1.fk_floor ≤ main_lt)
            × (r.1.fk_built ≡ ch.fk_built)
            × Knows decode ch.records r.1.fk (visited r.1.fk_next ch.records))

  pub visited-Knows :
      (rs : Records) (fk : List (ℕ × ℕ)) (n : ℕ) (rest : Records)
      → skip_above n rs ≡ rest
      → Knows decode rs fk rest
      → Knows decode rs fk (visited n rs)
  visited-Knows rs fk n rest e knows = elim (Bool-cases (n == 0)) [
    | inl all ↦ rw all (Knows-all rs fk rest knows)
    | inr part ↦ rw (part, e) knows
  ]

  passed :
      (rs : Records) (bound idx : ℕ) (f : Bytes) (rest : Records)
      → 0 < idx
      → idx ≤ bound
      → ((n : ℕ) → n ≤ bound → skip_above n rs ≡ skip_above n ((idx, f) ∷ rest))
      → (n : ℕ) → n ≤ idx - 1
      → skip_above n rs ≡ skip_above n rest
  unfolding skip_above
  passed rs bound idx f rest pos low tails n le =
      tails n (omega arith) ∙ rw (lt→ltb n idx (omega arith)) refl

  index_scan-Scanned :
      (main_lt : ℕ) (ch : Channel) (todo : Records) (bound top : ℕ)
      → Falling decode top todo
      → Descending bound todo
      → bound ≤ last_of ch.records
      → ch.fk_next ≤ last_of ch.records
      → ((n : ℕ) → n ≤ bound → skip_above n ch.records ≡ skip_above n todo)
      → Knows decode ch.records ch.fk todo
      → Scanned main_lt ch (index_scan decode main_lt todo ch)
  unfolding index_scan newest
  index_scan-Scanned main_lt ch [] bound top falls desc within next tails knows = record {
    records_eq = refl;
    scan_eq = refl;
    next_le = next;
    ends = inl (refl, λ k le. Knows-at decode ch.records ch.fk [] k refl knows);
  }
  index_scan-Scanned main_lt ch ((idx, f) ∷ rest) bound top (m, d, le, falls) (pos, low, desc)
        within next tails knows =
      let next' : (if ltb 0 idx then idx - 1 else ch.fk_next) ≡ idx - 1 =
        rw (lt→ltb 0 idx pos) refl in
      let gone = passed ch.records bound idx f rest pos low tails in
      let knows' = noted-Knows decode ch.records ch.fk idx m f rest d knows in
      elim (Bool-cases (leb m main_lt)) [
        | inl stop ↦
            rw (d, stop)
              (record {
                records_eq = refl;
                scan_eq = refl;
                next_le = omega (arith, next');
                ends = inr (
                  refl,
                  noted-Complete decode ch.records ch.fk idx m f rest d falls knows,
                  leb→le m main_lt stop,
                  refl,
                  rw next' (
                      visited-Knows ch.records _ (idx - 1) rest
                        (gone (idx - 1) (omega arith) ∙ skip_above_all (idx - 1) rest desc) knows'),
                );
              })
        | inr more ↦
            let ih =
              index_scan-Scanned main_lt (noted ch idx m) rest (idx - 1) m falls desc (omega arith)
                (omega (arith, next')) gone knows' in
            rw (d, more)
              (record {
                records_eq = ih.records_eq;
                scan_eq = ih.scan_eq;
                next_le = ih.next_le;
                ends = ih.ends;
              })
      ]

  pub starts-Scanned :
      (main_lt : ℕ) (ch : Channel) (top : ℕ)
      → Falling decode top ch.records
      → Descending (last_of ch.records) ch.records
      → ch.fk_next ≤ last_of ch.records
      → Knows decode ch.records ch.fk (visited ch.fk_next ch.records)
      → Scanned main_lt ch (index_scan decode main_lt (visited ch.fk_next ch.records) ch)
  starts-Scanned main_lt ch top falls order next knows = elim (Bool-cases (ch.fk_next == 0)) [
    | inl all ↦ rw all (
        index_scan-Scanned main_lt ch ch.records (last_of ch.records) top falls order (omega arith)
          next (λ n le. refl) (Knows-all ch.records ch.fk (visited ch.fk_next ch.records) knows))
    | inr part ↦
        let (top', falls') = skip_above-Falling ch.fk_next top ch.records falls in
        let knows' : Knows decode ch.records ch.fk (skip_above ch.fk_next ch.records) =
          subst
            (λ b.
              Knows decode ch.records ch.fk
                (if b then ch.records else skip_above ch.fk_next ch.records))
            part knows in
        rw part (
          index_scan-Scanned main_lt ch (skip_above ch.fk_next ch.records) ch.fk_next top' falls'
            (skip_above-Descending ch.fk_next (last_of ch.records) ch.records order) next next
            (λ n le. sym (skip_above-skip_above n ch.fk_next ch.records le)) knows')
  ]
