-- ===== src/Disk/State/Routing.antt =====
-- The routing of an index to the segment that holds its entry.
use mathlib.Core.Path.{subst}
use figwal.Common.{
  ℕ, zero, suc, ◌+◌, ◌-◌, ◌≤◌, ◌<◌, ◌≡◌, refl, sym, ap, ◌∙◌, arith, Bool, true, false, ◌&&◌, Option,
  none, some, List, [], ◌∷◌, ◌++◌, length, get_elem?, flatten, length-append, inl, inr, ltb, leb,
  Bool-cases, Option-cases, ltb→lt, ge_of_not_ltb, get_elem?-append_left, get_elem?-append_right,
}
use figwal.Result.{ok}
use figwal.Segment.Bytes.{Bytes}
use figwal.Segment.Codec.{SegmentCodec, CodecLaws}
use figwal.Segment.State.{Segment}
use figwal.Segment.State.Holds.{Holds}
use figwal.Disk.State.{
  SealedSeg, Log, Fold, last_at, search_sealed, sealed_for, in_active, find_in, find_segment,
}
use figwal.Disk.State.Search.{Parts, search_sealed-Parts}
use figwal.Disk.State.Holds.{
  SealedRun, ActiveAt, ActiveRun, Owns, Covered, cover, last_bounds, SealedRun-Ascending,
}

within_of_some {ℓ} :
    {A : Type ℓ} (xs : List A) (k : ℕ) (x : A) → get_elem? xs k ≡ some x → k < length xs
within_of_some [] k x e = cc
within_of_some (y ∷ ys) zero x e = omega arith
within_of_some (y ∷ ys) (suc k) x e = omega (arith, within_of_some ys k x e)

leb-true : (a b : ℕ) → a ≤ b → leb a b ≡ true
leb-true a b h = ground arith

leb-false : (a b : ℕ) → b < a → leb a b ≡ false
leb-false a b h = ground arith

Parts-unique :
    (sealed : List SealedSeg) (idx r k : ℕ)
    → Parts sealed idx r
    → k < length sealed
    → ((j : ℕ) → j < k → last_at sealed j < idx)
    → idx ≤ last_at sealed k
    → r ≡ k
Parts-unique sealed idx r k parts len below reaches = elim (Bool-cases (ltb r k)) [
  | inl low ↦
      let lt = ltb→lt r k low in
      absurd (omega (arith, below r lt, parts.behind r (omega arith) (omega arith)))
  | inr ge ↦ elim (Bool-cases (ltb k r)) [
    | inl high ↦ absurd (omega (arith, parts.before k (ltb→lt k r high)))
    | inr le ↦ omega (arith, ge_of_not_ltb r k ge, ge_of_not_ltb k r le)
  ]
]

below_base : (base idx n : ℕ) → (leb base idx && ltb idx n) ≡ false → idx < n → idx < base
below_base base idx n h lt = ground arith

module _ (codec : SegmentCodec) (laws : CodecLaws codec) (caching : Bool)
    (on_open : Option Fold) where
  sealed_for-Covered :
      (base idx : ℕ) (pss : List (List Bytes)) (sealed : List SealedSeg)
      → SealedRun codec laws caching on_open base pss sealed
      → (c : Covered codec laws caching on_open base idx (flatten pss) sealed)
      → sealed_for sealed idx ≡ some c.ss
  unfolding sealed_for
  sealed_for-Covered base idx pss sealed run c =
      let parts =
        search_sealed-Parts sealed idx
          (SealedRun-Ascending codec laws caching on_open base pss sealed run) in
      let k_in : c.k < length sealed = within_of_some sealed c.k c.ss c.at_k in
      let reaches : idx ≤ last_at sealed c.k = omega (arith, c.last_k, c.holds.last_eq, c.until) in
      let eq : search_sealed sealed idx ≡ c.k =
        Parts-unique sealed idx (search_sealed sealed idx) c.k parts k_in c.below reaches in
      rw (eq, c.at_k) (rw (leb-true c.ss.base idx (omega (arith, c.holds.base_eq, c.from))))

  base-le :
      (base r : ℕ) (pss : List (List Bytes)) (sealed : List SealedSeg) (ss : SealedSeg)
      → SealedRun codec laws caching on_open base pss sealed
      → get_elem? sealed r ≡ some ss
      → base ≤ ss.base
  base-le base r pss [] ss run e = cc
  base-le base r [] (t ∷ rest) ss run e = elim run [ ]
  base-le base zero (ps ∷ pss) (t ∷ rest) ss (at, run) e =
      let same : t ≡ ss = cc in omega (arith, at.base_eq, ap (λ (u : SealedSeg). u.base) same)
  base-le base (suc r) (ps ∷ pss) (t ∷ rest) ss (at, run) e =
      omega (arith, base-le (base + length ps) r pss rest ss run e)

  sealed_for-outside :
      (base idx : ℕ) (pss : List (List Bytes)) (sealed : List SealedSeg)
      → SealedRun codec laws caching on_open base pss sealed
      → (leb base idx && ltb idx (base + length (flatten pss))) ≡ false
      → sealed_for sealed idx ≡ none
  unfolding sealed_for
  sealed_for-outside base idx pss sealed run out =
      elim (Option-cases (get_elem? sealed (search_sealed sealed idx))) [
        | inl past ↦ rw past
        | inr (ss, found) ↦
            let r = search_sealed sealed idx in
            let parts =
              search_sealed-Parts sealed idx
                (SealedRun-Ascending codec laws caching on_open base pss sealed run) in
            let within = within_of_some sealed r ss found in
            let reaches = parts.behind r (omega arith) within in
            let inside = (last_bounds codec laws caching on_open base r pss sealed run within).1 in
            let low : idx < base =
              below_base base idx (base + length (flatten pss)) out (omega arith) in
            rw found (
              rw (
                leb-false ss.base idx (omega (arith, low, base-le base r pss sealed ss run found))))
      ]

  -- What the routing of an index finds: the segment that holds its entry.
  pub record Found (l : Log) (base : ℕ) (es : List Bytes) (idx : ℕ) : Type 0 where
    pub seg : Segment
    pub ps : List Bytes
    pub found : find_segment codec caching on_open l idx ≡ ok (some seg)
    pub holds : Holds codec laws seg ps
    pub from : seg.base_index ≤ idx
    pub entry : get_elem? ps (idx - seg.base_index) ≡ get_elem? es (idx - base)

  in_active-inside :
      (base size idx : ℕ) (live : List Bytes) (a : Segment)
      → ActiveAt codec laws caching on_open base size live a
      → base ≤ idx
      → idx < base + length live
      → in_active codec caching on_open idx (some a) ≡ some a
  unfolding in_active
  in_active-inside base size idx live a at lo hi = ground (arith, at.base_eq, at.holds.count_eq)

  in_active-outside :
      (base size idx : ℕ) (live : List Bytes) (a : Option Segment)
      → ActiveRun codec laws caching on_open base size live a
      → (leb base idx && ltb idx (base + length live)) ≡ false
      → in_active codec caching on_open idx a ≡ none
  unfolding in_active
  in_active-outside base size idx live none run out = refl
  in_active-outside base size idx live (some a) at out =
      ground (arith, at.base_eq, at.holds.count_eq)

  find_sealed :
      (l : Log) (base idx : ℕ) (pss : List (List Bytes)) (live : List Bytes)
      → SealedRun codec laws caching on_open base pss l.sealed
      → Covered codec laws caching on_open base idx (flatten pss) l.sealed
      → base ≤ idx
      → idx < base + length (flatten pss)
      → Found l base (flatten pss ++ live) idx
  unfolding find_segment find_in
  find_sealed l base idx pss live run c lo hi = record {
    seg = c.holds.seg;
    ps = c.ps;
    found = rw (sealed_for-Covered base idx pss l.sealed run c, c.holds.opens);
    holds = c.holds.holds;
    from = omega (arith, c.holds.seg_base, c.from);
    entry =
        ap (λ n. get_elem? c.ps (idx - n)) c.holds.seg_base
        ∙ c.entry
        ∙ sym (get_elem?-append_left (flatten pss) live (idx - base) (omega arith));
  }

  find_active :
      (l : Log) (base idx : ℕ) (pss : List (List Bytes)) (live : List Bytes) (a : Option Segment)
      → SealedRun codec laws caching on_open base pss l.sealed
      → l.active ≡ a
      → ActiveRun codec laws caching on_open (base + length (flatten pss)) l.segment_size live a
      → base + length (flatten pss) ≤ idx
      → idx < base + length (flatten pss) + length live
      → Found l base (flatten pss ++ live) idx
  unfolding find_segment find_in
  find_active l base idx pss live none run ea al lo hi = absurd (omega (arith, ap length al))
  find_active l base idx pss live (some a) run ea at lo hi =
      let start = base + length (flatten pss) in
      let out : (leb base idx && ltb idx start) ≡ false = ground arith in
      let shift : idx - base ≡ length (flatten pss) + (idx - start) = omega arith in
      record {
        seg = a;
        ps = live;
        found = rw (sealed_for-outside base idx pss l.sealed run out) (
            ap ok (
              ap (in_active codec caching on_open idx) ea
              ∙ in_active-inside start l.segment_size idx live a at lo hi));
        holds = at.holds;
        from = omega (arith, at.base_eq);
        entry =
            ap (λ n. get_elem? live (idx - n)) at.base_eq
            ∙ sym (get_elem?-append_right (flatten pss) live (idx - start))
            ∙ ap (get_elem? (flatten pss ++ live)) (sym shift);
      }

  pub find_segment-Found :
      (l : Log) (base : ℕ) (es : List Bytes) (idx : ℕ)
      → (h : Owns codec laws caching on_open l base es) → base ≤ idx
      → idx < base + length es
      → Found l base es idx
  find_segment-Found l base es idx h lo hi =
      let total : length es ≡ length (flatten h.pss) + length h.live =
        ap length h.parts ∙ length-append (flatten h.pss) h.live in
      subst (λ t. Found l base t idx) (sym h.parts)
        (elim (Bool-cases (ltb idx (base + length (flatten h.pss)))) [
          | inl sealed ↦
              let inside = ltb→lt idx (base + length (flatten h.pss)) sealed in
              find_sealed l base idx h.pss h.live h.sealed_run
                (cover codec laws caching on_open base idx h.pss l.sealed h.sealed_run lo inside) lo
                inside
          | inr active ↦
              find_active l base idx h.pss h.live l.active h.sealed_run refl h.active_run
                (ge_of_not_ltb idx (base + length (flatten h.pss)) active) (omega arith)
        ])

  pub find_segment-none :
      (l : Log) (base : ℕ) (es : List Bytes) (idx : ℕ)
      → (h : Owns codec laws caching on_open l base es)
      → (leb base idx && ltb idx (base + length es)) ≡ false
      → find_segment codec caching on_open l idx ≡ ok none
  unfolding find_segment find_in
  find_segment-none l base es idx h out =
      let start = base + length (flatten h.pss) in
      let total : length es ≡ length (flatten h.pss) + length h.live =
        ap length h.parts ∙ length-append (flatten h.pss) h.live in
      let out_sealed : (leb base idx && ltb idx start) ≡ false = ground arith in
      let out_active : (leb start idx && ltb idx (start + length h.live)) ≡ false = ground arith in
      rw (sealed_for-outside base idx h.pss l.sealed h.sealed_run out_sealed)
        (ap ok (in_active-outside start l.segment_size idx h.live l.active h.active_run out_active))
