-- ===== src/Xwal/Lookups/Answers.antt =====
-- A lookup of a channel as a whole.
use mathlib.Core.Path.{subst}
use figwal.Common.{
  ℕ, ◌≤◌, ◌≡◌, refl, sym, ap, ◌∙◌, arith, Bool, true, false, ◌&&◌, ◌||◌, Option, none, some, [],
  leb, if◌then◌else◌, Bool-cases, inl, inr, ◌⊎◌, leb→le,
}
use figwal.Result.{Result, ok}
use figwal.Segment.Bytes.{Bytes}
use figwal.Xwal.Channels.{
  Records, Channel, fk_at, last_of, visited, Ended, stopped, finished, failed, index_scan,
  after_scan, scanning, lookup_with, lookup,
}
use figwal.Xwal.Lookups.{Descending, Falling, newest, Knows, Complete}
use figwal.Xwal.Lookups.Scans.{
  Indexed, Scanned, skip_above_all, Complete-Knows, visited-Knows, starts-Scanned,
}

module _ (decode : Bytes → Result ℕ) where
  -- A lookup answers with the newest record of the main LT, and the index still agrees then.
  abbrev pub Answered : Channel → ℕ → Result (Option ℕ) × Channel → Type 0
  Answered ch main_lt r =
      (r.0 ≡ ok (newest decode ch.records main_lt))
      × (r.1.records ≡ ch.records)
      × Indexed decode r.1

  agrees_when :
      (ch : Channel) (rs : Records) (top : ℕ)
      → ch.records ≡ rs
      → ch.fk_scan ≡ true
      → Falling decode top rs
      → Descending (last_of rs) rs
      → ch.fk_next ≤ last_of rs
      → Knows decode rs ch.fk (visited ch.fk_next rs)
      → (ch.fk_built ≡ true → Complete decode rs ch.fk 0)
      → Complete decode rs ch.fk ch.fk_floor
      → Indexed decode ch
  agrees_when ch rs top e scan falls order next knows built floor = record {
    top = top;
    falls = subst (λ r. Falling decode top r) (sym e) falls;
    order = subst (λ r. Descending (last_of r) r) (sym e) order;
    knows = λ s. subst (λ r. Knows decode r ch.fk (visited ch.fk_next r)) (sym e) knows;
    next = subst (λ r. ch.fk_next ≤ last_of r) (sym e) next;
    built = λ b. subst (λ r. Complete decode r ch.fk 0) (sym e) (built b);
    floor = λ s. subst (λ r. Complete decode r ch.fk ch.fk_floor) (sym e) floor;
    fresh = λ no_scan. cc;
  }

  after_scan-Answered :
      (main_lt : ℕ) (ch : Channel) (top : ℕ) (r : Ended × Channel)
      → Falling decode top ch.records
      → Descending (last_of ch.records) ch.records
      → ch.fk_scan ≡ true
      → ch.fk_built ≡ false
      → Scanned decode main_lt ch r
      → Answered ch main_lt (after_scan decode main_lt r)
  after_scan-Answered main_lt ch top (failed e, ch') falls order scan unbuilt s = elim s.ends [
    | inl (end, c) ↦ cc
    | inr (end, c, below, built_eq, knows) ↦ cc
  ]
  after_scan-Answered main_lt ch top (stopped, ch') falls order scan unbuilt s = elim s.ends [
    | inl (end, c) ↦ cc
    | inr (end, c, below, built_eq, knows) ↦ (
      ap ok (c main_lt below),
      s.records_eq,
      agrees_when ch' ch.records top s.records_eq (s.scan_eq ∙ scan) falls order s.next_le knows
          (λ b. cc) c,
    )
  ]
  after_scan-Answered main_lt ch top (finished, ch') falls order scan unbuilt s = elim s.ends [
    | inl (end, c) ↦ (
      ap ok (c main_lt (omega arith)),
      s.records_eq,
      agrees_when (record ch' { fk_built = true }) ch.records top s.records_eq (s.scan_eq ∙ scan)
          falls order s.next_le (Complete-Knows decode ch.records ch'.fk ch'.fk_next c) (λ b. c)
          (λ k le. c k (omega arith)),
    )
    | inr (end, c, below, built_eq, knows) ↦ cc
  ]

  lookup_with-Answered :
      (main_lt : ℕ) (ch : Channel) (o : Option ℕ)
      → fk_at ch.fk main_lt ≡ o
      → Indexed decode ch
      → Answered ch main_lt (lookup_with decode ch main_lt o)
  lookup_with-Answered main_lt ch (some lt) at h = (
    ap ok (elim (Bool-cases ch.fk_scan) [
      | inl scan ↦ elim (h.knows scan main_lt) [
        | inl (i, known, is) ↦ sym at ∙ known ∙ sym is
        | inr (unknown, met) ↦ cc
      ]
      | inr off ↦
          let e : fk_at ch.fk main_lt ≡ none = ap (λ l. fk_at l main_lt) (h.fresh off).0 in cc
    ]),
    refl,
    h,
  )
  lookup_with-Answered main_lt ch none at h =
      elim (Bool-cases (ch.fk_built || (ch.fk_scan && leb ch.fk_floor main_lt))) [
        | inl known ↦ rw known (
          ap ok (elim (settled ch.fk_built (ch.fk_scan) (leb ch.fk_floor main_lt) known) [
            | inl b ↦ sym at ∙ h.built b main_lt (omega arith)
            | inr (s, le) ↦ sym at ∙ h.floor s main_lt (leb→le ch.fk_floor main_lt le)
          ]),
          refl,
          h,
        )
        | inr unknown ↦
            let unbuilt : ch.fk_built ≡ false = ground arith in
            rw unknown (elim (Bool-cases ch.fk_scan) [
              | inl scan ↦
                  from ch
                    (ap
                      (λ b.
                        if b
                        then ch
                        else record ch { fk_next = last_of ch.records; fk_scan = true })
                      scan)
                    (after_scan-Answered main_lt ch h.top
                      (index_scan decode main_lt (visited ch.fk_next ch.records) ch) h.falls h.order
                      scan unbuilt
                      (starts-Scanned decode main_lt ch h.top h.falls h.order h.next
                        (h.knows scan)))
              | inr off ↦
                  let begun = record ch { fk_next = last_of ch.records; fk_scan = true } in
                  let none_yet : ch.fk ≡ [] = (h.fresh off).0 in
                  from begun (ap (λ b. if b then ch else begun) off) (
                    after_scan-Answered main_lt begun h.top
                      (index_scan decode main_lt (visited (last_of ch.records) ch.records) begun)
                      h.falls h.order refl unbuilt
                      (starts-Scanned decode main_lt begun h.top h.falls h.order (omega arith) (
                        visited-Knows decode ch.records ch.fk (last_of ch.records) ch.records
                          (skip_above_all (last_of ch.records) ch.records h.order)
                          (λ k. inr (ap (λ l. fk_at l k) none_yet, refl)))))
            ])
      ]
    where
      from :
          (c : Channel)
          → scanning decode ch ≡ c
          → Answered ch main_lt (
              after_scan decode main_lt
                (index_scan decode main_lt (visited c.fk_next ch.records) c))
          → Answered ch main_lt (
              after_scan decode main_lt (
                index_scan decode main_lt
                  (visited (scanning decode ch).fk_next ch.records)
                  (scanning decode ch)))
      from c e a =
          subst
            (λ (c' : Channel). Answered ch main_lt (
              after_scan decode main_lt
                (index_scan decode main_lt (visited c'.fk_next ch.records) c')))
            (sym e) a

      settled : (b s l : Bool) → (b || (s && l)) ≡ true → (b ≡ true) ⊎ ((s ≡ true) × (l ≡ true))
      settled b s l e = ground arith

  pub lookup-Answered :
      (main_lt : ℕ) (ch : Channel)
      → Indexed decode ch
      → Answered ch main_lt (lookup decode ch main_lt)
  unfolding lookup
  lookup-Answered main_lt ch h = lookup_with-Answered main_lt ch (fk_at ch.fk main_lt) refl h
