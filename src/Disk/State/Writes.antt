-- ===== src/Disk/State/Writes.antt =====
-- What a write does to the entries of a log: it appends one, or changes none.
use mathlib.Core.Path.{subst}
use figwal.Common.{
  ℕ, ◌+◌, ◌-◌, ◌≤◌, ◌<◌, ◌≡◌, refl, sym, ap, ◌∙◌, arith, Bool, true, false, Option, none, some,
  List, [], ◌∷◌, ◌++◌, length, inl, inr, if◌then◌else◌, Bool-cases, ◌==◌, get_elem?,
  get_elem?-append_left, get_elem?-append_right,
}
use figwal.Result.{Result, ok, err, full, payload_too_large}
use figwal.Segment.Bytes.{Bytes}
use figwal.Segment.Codec.{SegmentCodec, CodecLaws}
use figwal.Segment.State.{Segment}
use figwal.Disk.State.{
  Log, Fold, active_empty, open_active, sealed_off, rotate, append_to, ensure_active, too_large,
  after_rotation, after_append, after_open, expected_index, write, read_own,
}
use figwal.Disk.State.Holds.{Owns}
use figwal.Disk.State.Reads.{answer, entry_at, entry_at_in, read_own-Owns}
use figwal.Disk.State.Growth.{
  Folds, expected_index-Owns, Activated, AppendedTo, open_active-Activated, with_fresh,
  append_to-AppendedTo, sealed_off-Owns,
}

offset : (base idx n : ℕ) → idx ≡ base + n → idx - base ≡ n + 0
offset base idx n e = omega arith

eq_of_eqb : (a b : ℕ) → (a == b) ≡ true → a ≡ b
eq_of_eqb a b h = ground arith

nonempty_active :
    (o : Option Segment) (a : Segment) → active_empty o ≡ false → o ≡ some a → 0 < a.count
unfolding active_empty
nonempty_active none a h e = cc
nonempty_active (some b) a h e =
    let same : b ≡ a = cc in subst (λ (s : Segment). 0 < s.count) same (ground arith)

answer_last :
    (base idx : ℕ) (es : List Bytes) (p : Bytes)
    → idx ≡ base + length es
    → answer (es ++ (p ∷ [])) (entry_at base (es ++ (p ∷ [])) idx) ≡ ok p
answer_last base idx es p e =
    let at : entry_at base (es ++ (p ∷ [])) idx ≡ some p =
      entry_at_in base idx (es ++ (p ∷ [])) (omega arith)
      ∙ ap (get_elem? (es ++ (p ∷ []))) (offset base idx (length es) e)
      ∙ get_elem?-append_right es (p ∷ []) 0 in
    ap (answer (es ++ (p ∷ []))) at ∙ answer_some es p
  where
    answer_some : (es : List Bytes) (p : Bytes) → answer (es ++ (p ∷ [])) (some p) ≡ ok p
    answer_some [] p = refl
    answer_some (e ∷ es) p = refl

answer_append :
    (base j : ℕ) (es : List Bytes) (p : Bytes)
    → base ≤ j
    → j < base + length es
    → answer (es ++ (p ∷ [])) (entry_at base (es ++ (p ∷ [])) j) ≡ answer es (entry_at base es j)
answer_append base j [] p lo hi = absurd (omega arith)
answer_append base j (e ∷ es) p lo hi =
    let at : entry_at base (e ∷ (es ++ (p ∷ []))) j ≡ entry_at base (e ∷ es) j =
      entry_at_in base j (e ∷ (es ++ (p ∷ []))) lo
      ∙ get_elem?-append_left (e ∷ es) (p ∷ []) (j - base) (omega arith)
      ∙ sym (entry_at_in base j (e ∷ es) lo) in
    ap (answer (e ∷ (es ++ (p ∷ [])))) at
    ∙ same_answer e es (es ++ (p ∷ [])) (entry_at base (e ∷ es) j)
  where
    same_answer :
        (e : Bytes) (es fs : List Bytes) (o : Option Bytes) → answer (e ∷ fs) o ≡ answer (e ∷ es) o
    same_answer e es fs none = refl
    same_answer e es fs (some q) = refl

module _ (codec : SegmentCodec) (laws : CodecLaws codec) (caching : Bool)
    (on_open : Option Fold) where
  -- A write succeeds with `p` behind the entries, or fails with the entries as they were.
  abbrev Leaves : ℕ → List Bytes → Bytes → Result (Unit {0}) × Log → Type 0
  Leaves base es p (ok u, l) = Owns codec laws caching on_open l base (es ++ (p ∷ []))
  Leaves base es p (err e, l) = Owns codec laws caching on_open l base es

  frozen-Owns :
      (l : Log) (ro kids : Bool) (base : ℕ) (es : List Bytes)
      → Owns codec laws caching on_open l base es
      → Owns codec laws caching on_open (record l { read_only = ro; kids = kids }) base es
  frozen-Owns l ro kids base es h = record {
    pss = h.pss;
    live = h.live;
    parts = h.parts;
    positive = h.positive;
    sealed_run = h.sealed_run;
    active_run = h.active_run;
    fresh = h.fresh;
  }

  too_large-Leaves :
      (l : Log) (base : ℕ) (es : List Bytes) (p : Bytes) (r : Result ℕ × Log)
      → Owns codec laws caching on_open l base es
      → AppendedTo codec laws caching on_open l base es p r
      → Leaves base es p (too_large codec caching on_open r)
  unfolding too_large
  too_large-Leaves l base es p (ok off, l') h o = o
  too_large-Leaves l base es p (err full, l') h (_, same) =
      subst (λ m. Owns codec laws caching on_open m base es) (sym same) h
  too_large-Leaves l base es p (err e, l') h (_, same) =
      subst (λ m. Owns codec laws caching on_open m base es) (sym same) h

  after_rotation-Leaves :
      (l : Log) (base idx : ℕ) (es : List Bytes) (p : Bytes) (r : Result (Unit {0}) × Log)
      → Owns codec laws caching on_open l base es
      → l.active ≡ none
      → idx ≡ base + length es
      → laws.canonical p ≡ true
      → Activated codec laws caching on_open l idx r
      → Leaves base es p (after_rotation codec caching on_open p r)
  unfolding after_rotation
  after_rotation-Leaves l base idx es p (ok u, l') h en ei c (a, same, at) =
      let m = record l { active = some a } in
      let owns : Owns codec laws caching on_open m base es =
        with_fresh codec laws caching on_open l base idx es a h en ei at in
      subst
        (λ t.
          Leaves base es p (too_large codec caching on_open (append_to codec caching on_open t p)))
        (sym same)
        (too_large-Leaves m base es p (append_to codec caching on_open m p) owns
          (append_to-AppendedTo codec laws caching on_open m base es p a owns refl c))
  after_rotation-Leaves l base idx es p (err e, l') h en ei c same =
      subst (λ m. Owns codec laws caching on_open m base es) (sym same) h

  rotate-Leaves :
      (l : Log) (chain : List Log) (base idx : ℕ) (es : List Bytes) (p : Bytes) (a : Segment)
      → Owns codec laws caching on_open l base es
      → l.active ≡ some a
      → 0 < a.count
      → idx ≡ base + length es
      → laws.canonical p ≡ true
      → Folds codec laws caching on_open on_open
      → Leaves base es p
          (after_rotation codec caching on_open p (rotate codec caching on_open l chain idx))
  unfolding rotate sealed_off
  rotate-Leaves l chain base idx es p a h ea pos ei c f =
      let m = sealed_off codec caching on_open l (some a) in
      subst
        (λ o. Leaves base es p (
          after_rotation codec caching on_open p
            (open_active codec caching on_open (sealed_off codec caching on_open l o) chain idx)))
        (sym ea)
        (after_rotation-Leaves m base idx es p (open_active codec caching on_open m chain idx)
          (sealed_off-Owns codec laws caching on_open l base es a h ea pos) refl ei c
          (open_active-Activated codec laws caching on_open m chain idx f))

  after_append-Leaves :
      (l : Log) (chain : List Log) (base idx : ℕ) (es : List Bytes) (p : Bytes) (a : Segment)
      (r : Result ℕ × Log)
      → Owns codec laws caching on_open l base es
      → l.active ≡ some a
      → idx ≡ base + length es
      → laws.canonical p ≡ true
      → Folds codec laws caching on_open on_open
      → AppendedTo codec laws caching on_open l base es p r
      → Leaves base es p (after_append codec caching on_open l chain idx p r)
  unfolding after_append
  after_append-Leaves l chain base idx es p a (ok off, l') h ea ei c f o = o
  after_append-Leaves l chain base idx es p a (err full, l') h ea ei c f (_, same) =
      subst
        (λ m. Leaves base es p (
          if active_empty m.active
          then (err payload_too_large, m)
          else after_rotation codec caching on_open p (rotate codec caching on_open m chain idx)))
        (sym same)
        (elim (Bool-cases (active_empty l.active)) [
          | inl none_yet ↦ simp none_yet h
          | inr some_there ↦ simp some_there (
              rotate-Leaves l chain base idx es p a h ea (nonempty_active l.active a some_there ea)
                ei c f)
        ])
  after_append-Leaves l chain base idx es p a (err e, l') h ea ei c f (_, same) =
      subst (λ m. Owns codec laws caching on_open m base es) (sym same) h

  after_open-Leaves :
      (l : Log) (chain : List Log) (base idx : ℕ) (es : List Bytes) (p : Bytes)
      (r : Result (Unit {0}) × Log)
      → Owns codec laws caching on_open l base es
      → l.active ≡ none
      → idx ≡ base + length es
      → laws.canonical p ≡ true
      → Folds codec laws caching on_open on_open
      → Activated codec laws caching on_open l idx r
      → Leaves base es p (after_open codec caching on_open chain idx p r)
  unfolding after_open
  after_open-Leaves l chain base idx es p (ok u, l') h en ei c f (a, same, at) =
      let m = record l { active = some a } in
      let owns : Owns codec laws caching on_open m base es =
        with_fresh codec laws caching on_open l base idx es a h en ei at in
      subst
        (λ t.
          Leaves base es p (
            after_append codec caching on_open t chain idx p (append_to codec caching on_open t p)))
        (sym same)
        (after_append-Leaves m chain base idx es p a (append_to codec caching on_open m p) owns refl
          ei c f (append_to-AppendedTo codec laws caching on_open m base es p a owns refl c))
  after_open-Leaves l chain base idx es p (err e, l') h en ei c f same =
      subst (λ m. Owns codec laws caching on_open m base es) (sym same) h

  ensured-Leaves :
      (l : Log) (chain : List Log) (base idx : ℕ) (es : List Bytes) (p : Bytes) (o : Option Segment)
      → Owns codec laws caching on_open l base es
      → l.active ≡ o
      → idx ≡ base + length es
      → laws.canonical p ≡ true
      → Folds codec laws caching on_open on_open
      → Leaves base es p (
          after_open codec caching on_open chain idx p
            (ensure_active codec caching on_open l chain idx o))
  unfolding ensure_active after_open
  ensured-Leaves l chain base idx es p none h ea ei c f =
      after_open-Leaves l chain base idx es p (open_active codec caching on_open l chain idx) h ea
        ei c f (open_active-Activated codec laws caching on_open l chain idx f)
  ensured-Leaves l chain base idx es p (some a) h ea ei c f =
      after_append-Leaves l chain base idx es p a (append_to codec caching on_open l p) h ea ei c f
        (append_to-AppendedTo codec laws caching on_open l base es p a h ea c)

  -- What a write at `idx` may come to.
  abbrev pub Written : Log → ℕ → List Bytes → ℕ → Bytes → Result (Unit {0}) × Log → Type 0
  Written l base es idx p (ok u, l') =
      Owns codec laws caching on_open l' base (es ++ (p ∷ []))
      × (idx ≡ base + length es)
      × (l.read_only ≡ false)
      × (l.kids ≡ false)
  Written l base es idx p (err e, l') = Owns codec laws caching on_open l' base es

  written :
      (l : Log) (base idx : ℕ) (es : List Bytes) (p : Bytes) (r : Result (Unit {0}) × Log)
      → Leaves base es p r
      → idx ≡ base + length es
      → l.read_only ≡ false
      → l.kids ≡ false
      → Written l base es idx p r
  written l base idx es p (ok u, l') o ei er ek = (o, ei, er, ek)
  written l base idx es p (err e, l') o ei er ek = o

  -- A write to a log that holds `es` from `base` on either succeeds, and then the log is no branch
  -- point, the index was the one behind the entries and `p` is there behind them; or it fails, for
  -- whatever reason (branch point, wrong index, payload too large, failing header fold), and the
  -- log still holds exactly `es`. This covers the rotation to a new segment.
  pub write-Written :
      (l : Log) (chain : List Log) (base idx : ℕ) (es : List Bytes) (p : Bytes)
      → Owns codec laws caching on_open l base es
      → laws.canonical p ≡ true
      → Folds codec laws caching on_open on_open
      → Written l base es idx p (write codec caching on_open l chain idx p)
  unfolding write
  write-Written l chain base idx es p h c f = elim (Bool-cases l.read_only) [
    | inl frozen ↦ simp frozen h
    | inr open_ ↦ elim (Bool-cases l.kids) [
      | inl kids ↦ simp (open_, kids) (frozen-Owns l true true base es h)
      | inr no_kids ↦ elim (Bool-cases (idx == expected_index l)) [
        | inr wrong ↦ simp (open_, no_kids, wrong) h
        | inl right ↦
            let ei : idx ≡ base + length es =
              eq_of_eqb idx (expected_index l) right
              ∙ expected_index-Owns codec laws caching on_open l base es h in
            simp (open_, no_kids, right)
              (written l base idx es p _
                (ensured-Leaves l chain base idx es p l.active h refl ei c f) ei open_ no_kids)
      ]
    ]
  ]

  -- After a write that succeeds, its index reads back its payload, and every index below it reads
  -- as it did before.
  pub write-read :
      (l l' : Log) (chain : List Log) (base idx : ℕ) (es : List Bytes) (p : Bytes)
      → Owns codec laws caching on_open l base es
      → laws.canonical p ≡ true
      → Folds codec laws caching on_open on_open
      → write codec caching on_open l chain idx p ≡ (ok tt, l')
      → (read_own codec caching on_open l' idx ≡ ok p)
        × ((j : ℕ)
            → base ≤ j
            → j < idx
            → read_own codec caching on_open l' j ≡ read_own codec caching on_open l j)
  write-read l l' chain base idx es p h c f e =
      let w : Written l base es idx p (ok tt, l') =
        subst (Written l base es idx p) e (write-Written l chain base idx es p h c f) in
      let h' = w.0 in
      let ei = w.1 in
      (
        read_own-Owns codec laws caching on_open l' base (es ++ (p ∷ [])) idx h'
            ∙ answer_last base idx es p ei,
        λ j lo hi.
            read_own-Owns codec laws caching on_open l' base (es ++ (p ∷ [])) j h'
            ∙ answer_append base j es p lo (omega arith)
            ∙ sym (read_own-Owns codec laws caching on_open l base es j h),
      )
