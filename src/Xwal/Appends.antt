-- ===== src/Xwal/Appends.antt =====
-- Appends to a related channel keep the foreign-key index true and the main LTs in order.
use mathlib.Core.Path.{subst}
use figwal.Common.{
  ℕ, ◌+◌, ◌-◌, ◌<◌, ◌≡◌, ◌≢◌, refl, sym, ap, ◌∙◌, arith, true, false, ◌||◌, Option, none, some,
  List, [], ◌∷◌, ltb, ◌==◌, if◌then◌else◌, eqb_refl, Bool-cases, inl, inr, ◌⊎◌, lt→ltb, ltb→lt,
  ge_of_not_ltb,
}
use figwal.Result.{Error, Result, ok, err, ok_injective}
use figwal.Segment.Bytes.{Bytes}
use figwal.Xwal.Channels.{
  Records, Channel, Wrote, wrote, rejected, unsynced, last_of, skip_above, visited, tail_main,
  refused, written, append_keyed, append, fk_at, lookup,
}
use figwal.Xwal.Lookups.{Descending, Falling, newest, Knows, Complete}
use figwal.Xwal.Lookups.Scans.{Indexed}

module _ (decode : Bytes → Result ℕ) where
  newest_here :
      (idx m k : ℕ) (f : Bytes) (rs : Records)
      → decode f ≡ ok m
      → (m == k) ≡ true
      → newest decode ((idx, f) ∷ rs) k ≡ some idx
  unfolding newest
  newest_here idx m k f rs d same = rw (d, same) refl

  newest_behind :
      (idx m k : ℕ) (f : Bytes) (rs : Records)
      → decode f ≡ ok m
      → (m == k) ≡ false
      → newest decode ((idx, f) ∷ rs) k ≡ newest decode rs k
  unfolding newest
  newest_behind idx m k f rs d apart = rw (d, apart) refl

  -- The newest record may refer to `m` or below.
  Falling-not_refused :
      (top m : ℕ) (rs : Records) (tail : Option ℕ)
      → Falling decode top rs
      → tail_main decode rs ≡ ok tail
      → refused decode m tail ≡ false
      → Falling decode m rs
  unfolding tail_main
  Falling-not_refused top m [] tail falls t r = refl
  Falling-not_refused top m ((idx, f) ∷ rest) tail (m', d, le, falls) t r =
      let e : some m' ≡ tail = ok_injective (some m') tail (sym (rw d refl) ∙ t) in
      let r' : ltb m m' ≡ false = ap (λ o. refused decode m o) e ∙ r in
      (m', d, ge_of_not_ltb m m' r', falls)

  -- Records that have main LTs have a last one that can be read.
  Falling-tail :
      (top : ℕ) (rs : Records) (e : Error) → Falling decode top rs → tail_main decode rs ≢ err e
  unfolding tail_main
  Falling-tail top [] e falls at = cc
  Falling-tail top ((idx, f) ∷ rest) e (m, d, le, falls) at = cc

  refused_below :
      (m : ℕ) (tail : Option ℕ)
      → refused decode m tail ≡ true
      → (last : ℕ) × (tail ≡ some last) × (m < last)
  refused_below m none h = cc
  refused_below m (some last) h = (last, refl, ltb→lt m last h)

  appended-Complete :
      (rs : Records) (fk : List (ℕ × ℕ)) (idx m floor : ℕ) (f : Bytes)
      → decode f ≡ ok m
      → Complete decode rs fk floor
      → Complete decode ((idx, f) ∷ rs) ((m, idx) ∷ fk) floor
  appended-Complete rs fk idx m floor f d c k le = elim (Bool-cases (m == k)) [
    | inl same ↦ rw same (sym (newest_here idx m k f rs d same))
    | inr apart ↦ rw apart (c k le ∙ sym (newest_behind idx m k f rs d apart))
  ]

  appended-Knows :
      (rs : Records) (fk : List (ℕ × ℕ)) (idx m n : ℕ) (f : Bytes)
      → decode f ≡ ok m
      → n < idx
      → Knows decode rs fk (visited n rs)
      → Knows decode ((idx, f) ∷ rs) ((m, idx) ∷ fk) (visited n ((idx, f) ∷ rs))
  unfolding skip_above
  appended-Knows rs fk idx m n f d lt knows k = elim (Bool-cases (m == k)) [
    | inl same ↦ inl (idx, rw same refl, newest_here idx m k f rs d same)
    | inr apart ↦ rw apart (elim (knows k) [
      | inl (i, known, is) ↦ inl (i, known, newest_behind idx m k f rs d apart ∙ is)
      | inr (unknown, met) ↦ inr (
        unknown,
        elim (Bool-cases (n == 0)) [
          | inl all ↦ rw all refl
          | inr part ↦
              let met' : newest decode rs k ≡ newest decode (skip_above n rs) k =
                subst
                  (λ b. newest decode rs k ≡ newest decode (if b then rs else skip_above n rs) k)
                  part met in
              rw (part, lt→ltb n idx lt) (newest_behind idx m k f rs d apart ∙ met')
        ],
      )
    ])
  ]

  appended-order :
      (rs : Records) (f : Bytes)
      → Descending (last_of rs) rs
      → Descending (last_of rs + 1) ((last_of rs + 1, f) ∷ rs)
  appended-order rs f order =
      let e : last_of rs ≡ last_of rs + 1 - 1 = omega arith in
      (omega arith, omega arith, subst (λ n. Descending n rs) e order)

  known_append :
      (ch : Channel) (m : ℕ) (f : Bytes)
      → decode f ≡ ok m
      → Falling decode m ch.records
      → ch.fk_scan ≡ true
      → Indexed decode ch
      → Indexed decode (record ch {
        records = (last_of ch.records + 1, f) ∷ ch.records;
        fk = (m, last_of ch.records + 1) ∷ ch.fk;
      })
  known_append ch m f d falls scan h =
      let next_le = h.next in
      record {
        top = m;
        falls = (m, d, omega arith, falls);
        order = appended-order ch.records f h.order;
        knows = λ s.
            appended-Knows ch.records ch.fk (last_of ch.records + 1) m ch.fk_next f d
              (omega (arith, next_le)) (h.knows s);
        next = omega (arith, next_le);
        built =
            λ b. appended-Complete ch.records ch.fk (last_of ch.records + 1) m 0 f d (h.built b);
        floor = λ s.
            appended-Complete ch.records ch.fk (last_of ch.records + 1) m ch.fk_floor f d
              (h.floor s);
        fresh = λ off. cc;
      }

  opened_append :
      (ch : Channel) (m : ℕ) (f : Bytes)
      → decode f ≡ ok m
      → Falling decode m ch.records
      → ch.fk_scan ≡ false
      → Indexed decode ch
      → Indexed decode (record ch { records = (last_of ch.records + 1, f) ∷ ch.records })
  opened_append ch m f d falls off h =
      let next_le = h.next in
      let (none_yet, unbuilt) = h.fresh off in
      record {
        top = m;
        falls = (m, d, omega arith, falls);
        order = appended-order ch.records f h.order;
        knows = λ s. cc;
        next = omega (arith, next_le);
        built = λ b. cc;
        floor = λ s. cc;
        fresh = h.fresh;
      }

  module _ {Body : Type 0} (encode : ℕ → Body → Bytes)
      (encoded : (m : ℕ) (body : Body) → decode (encode m body) ≡ ok m) where
    -- The channel with the record behind the others, and nothing else changed
    abbrev pub recorded : Channel → ℕ → Body → Channel
    recorded ch m body = record ch {
      records = (last_of ch.records + 1, encode m body) ∷ ch.records;
    }

    -- Why an append changes nothing: the log refused the record, or its main LT is below the last.
    abbrev pub TurnedDown : Channel → ℕ → Wrote → Error → Type 0
    TurnedDown ch m o e =
        (o ≡ rejected e)
        ⊎ ((last : ℕ) × (tail_main decode ch.records ≡ ok (some last)) × (m < last))

    -- What an append did: the record stands behind the others and the index agrees; or nothing has
    -- changed; or the sync behind the write failed, and the record stands there, with the index as
    -- it was.
    abbrev pub Joined : Channel → ℕ → Body → Wrote → Result ℕ × Channel → Type 0
    Joined ch m body o r =
        ((r.0 ≡ ok (last_of ch.records + 1))
          × (r.1.records ≡ (last_of ch.records + 1, encode m body) ∷ ch.records)
          × Indexed decode r.1)
        ⊎ (((e : Error) × (r.0 ≡ err e) × (r.1 ≡ ch) × TurnedDown ch m o e)
            ⊎ ((e : Error) × (o ≡ unsynced e)
                × (r.0 ≡ err e)
                × (r.1 ≡ recorded ch m body)
                × Falling decode m r.1.records
                × (ch.fk_scan ≡ false → Indexed decode r.1)))

    written-Joined :
        (ch : Channel) (m : ℕ) (body : Body) (o : Wrote)
        → Falling decode m ch.records
        → Indexed decode ch
        → Joined ch m body o (
            written decode encode o ch m body
              (if ch.fk_scan || ch.fk_built then (m, last_of ch.records + 1) ∷ ch.fk else ch.fk)
              o)
    written-Joined ch m body (rejected e) falls h = inr (inl (e, refl, refl, inl refl))
    written-Joined ch m body (unsynced e) falls h = inr (
        inr (
          e,
          refl,
          refl,
          refl,
          (m, encoded m body, omega arith, falls),
          λ off. opened_append ch m (encode m body) (encoded m body) falls off h,
        ))
    written-Joined ch m body wrote falls h = elim (Bool-cases ch.fk_scan) [
      | inl scan ↦
          let on : (ch.fk_scan || ch.fk_built) ≡ true = ground arith in
          rw on (inl (refl, refl, known_append ch m (encode m body) (encoded m body) falls scan h))
      | inr off ↦
          let unbuilt = (h.fresh off).1 in
          let no_index : (ch.fk_scan || ch.fk_built) ≡ false = ground arith in
          rw no_index
            (inl (refl, refl, opened_append ch m (encode m body) (encoded m body) falls off h))
    ]

    keyed-Joined :
        (ch : Channel) (m : ℕ) (body : Body) (o : Wrote) (t : Result (Option ℕ))
        → tail_main decode ch.records ≡ t
        → Indexed decode ch
        → Joined ch m body o (append_keyed decode encode o ch m body t)
    keyed-Joined ch m body o (err e) at h = absurd (Falling-tail h.top ch.records e h.falls at)
    keyed-Joined ch m body o (ok tail) at h = elim (Bool-cases (refused decode m tail)) [
      | inl no_way ↦
          let (last, is, below) = refused_below m tail no_way in
          rw no_way (inr (inl (_, refl, refl, inr (last, at ∙ ap ok is, below))))
      | inr fits ↦ rw fits (
          written-Joined ch m body o (Falling-not_refused h.top m ch.records tail h.falls at fits)
            h)
    ]

    -- An append to a keyed channel whose index agrees with the records, whose main LTs do not
    -- decrease, puts the record behind the others, and the index agrees again; or it fails and
    -- changes nothing, since the log refused the record or its main LT is below the last one; or the
    -- sync behind its write fails, and then the record stands behind the
    -- others, the main LTs do not decrease, and the index, which is as it was, agrees where no
    -- lookup has scanned the channel yet.
    pub append-Joined :
        (ch : Channel) (m : ℕ) (body : Body) (outcome : Wrote)
        → ch.unkeyed ≡ false
        → Indexed decode ch
        → Joined ch m body outcome (append decode encode outcome ch m body)
    unfolding append
    append-Joined ch m body o keyed h =
        subst
          (λ b. Joined ch m body o (
            if b
            then written decode encode o ch 0 body ch.fk o
            else append_keyed decode encode o ch m body (tail_main decode ch.records)))
          (sym keyed) (keyed-Joined ch m body o (tail_main decode ch.records) refl h)

    built_answer :
        (ch : Channel) (m : ℕ) (o : Option ℕ)
        → ch.fk_built ≡ true
        → fk_at ch.fk m ≡ o
        → (lookup decode ch m).0 ≡ ok o
    unfolding lookup
    built_answer ch m none built at = rw (at, built) refl
    built_answer ch m (some lt) built at = rw at refl

    unsynced_lem :
        (ch : Channel) (m : ℕ) (body : Body) (e : Error) (tail : Option ℕ)
        → ch.unkeyed ≡ false
        → tail_main decode ch.records ≡ ok tail
        → refused decode m tail ≡ false
        → append decode encode (unsynced e) ch m body ≡ (err e, recorded ch m body)
    unfolding append
    unsynced_lem ch m body e tail keyed at fits = simp (keyed, at, fits) refl

    -- Where the index of a keyed channel is whole and agrees with the records, and the sync behind
    -- the write of an append that is not refused fails, the newest record of the main LT is the one
    -- appended, but a lookup answers, without an error, the one that was newest before, or none.
    pub unsynced_append_hides :
        (ch : Channel) (m : ℕ) (body : Body) (e : Error) (tail : Option ℕ)
        → ch.unkeyed ≡ false
        → ch.fk_built ≡ true
        → Indexed decode ch
        → tail_main decode ch.records ≡ ok tail
        → refused decode m tail ≡ false
        → let (answer, ch') = append decode encode (unsynced e) ch m body in
          (answer ≡ err e)
          × (newest decode ch'.records m ≡ some (last_of ch.records + 1))
          × ((lookup decode ch' m).0 ≡ ok (newest decode ch.records m))
    unsynced_append_hides ch m body e tail keyed built h at fits =
        rw (unsynced_lem ch m body e tail keyed at fits) (
          refl,
          newest_here (last_of ch.records + 1) m m (encode m body) ch.records (encoded m body)
              (eqb_refl m),
          built_answer (recorded ch m body) m (newest decode ch.records m) built
              (h.built built m (omega arith)),
        )
