-- ===== src/Disk/State/Growth.antt =====
-- The steps of a write and the entries of the log: opening, appending to and sealing the active
-- segment.
use mathlib.Core.Path.{subst}
use figwal.Common.{
  ℕ, ◌+◌, ◌<◌, ◌≡◌, refl, sym, ap, ◌∙◌, arith, Bool, true, Option, none, some, List, [], ◌∷◌, ◌++◌,
  length, flatten, length-append, flatten-append_one, append-nil, append_assoc,
}
use figwal.Result.{Result, ok, err, full, ok_of_bind}
use figwal.Segment.Bytes.{Bytes}
use figwal.Segment.Codec.{SegmentCodec, CodecLaws}
use figwal.Segment.State.{Segment, create, append}
use figwal.Segment.State.Append.{create-Holds, write_header-Holds, append-Appended, Appended}
use figwal.Disk.State.{
  SealedSeg, Log, Fold, wrap_open, open_sealed, headed_segment, header_inputs, open_active,
  with_active, sealed_off, append_to, append_active, last_sealed, last_of, last_index_own,
  last_index_log, expected_index,
}
use figwal.Disk.State.Holds.{SealedAt, SealedRun, ActiveAt, ActiveRun, Owns}
use figwal.Disk.State.Reads.{is_empty-Owns}

append_one-ne : (es : List Bytes) (p : Bytes) → ¬ (es ++ (p ∷ []) ≡ [])
append_one-ne es p e = omega (arith, ap length e, length-append es (p ∷ []))

module _ (codec : SegmentCodec) (laws : CodecLaws codec) (caching : Bool)
    (on_open : Option Fold) where
  -- The headers that the caller's fold gives are canonical.
  abbrev pub Folds : Option Fold → Type 0
  Folds none = Unit
  Folds (some fold) =
      (prev : Bytes) (payloads : List Bytes) (header : Bytes)
      → fold prev payloads ≡ ok header
      → laws.canonical header ≡ true

  last_sealed-run :
      (base : ℕ) (ps : List Bytes) (pss : List (List Bytes)) (ss : SealedSeg)
      (rest : List SealedSeg)
      → SealedRun codec laws caching on_open base (ps ∷ pss) (ss ∷ rest)
      → last_sealed (ss ∷ rest) + 1 ≡ base + length (flatten (ps ∷ pss))
  unfolding last_sealed
  last_sealed-run base ps [] ss [] (at, r) = omega (arith, at.last_eq, ap length (append-nil ps))
  last_sealed-run base ps (qs ∷ pss) ss [] (at, r) = elim r [ ]
  last_sealed-run base ps [] ss (t ∷ rest) (at, r) = elim r [ ]
  last_sealed-run base ps (qs ∷ pss) ss (t ∷ rest) (at, r) = omega (
    arith,
    last_sealed-run (base + length ps) qs pss t rest r,
    length-append ps (flatten (qs ∷ pss)),
  )

  last_sealed-owned :
      (base : ℕ) (pss : List (List Bytes)) (sealed : List SealedSeg)
      → SealedRun codec laws caching on_open base pss sealed
      → 0 < length (flatten pss)
      → last_sealed sealed + 1 ≡ base + length (flatten pss)
  last_sealed-owned base [] sealed r pos = absurd (omega arith)
  last_sealed-owned base (ps ∷ pss) [] r pos = elim r [ ]
  last_sealed-owned base (ps ∷ pss) (ss ∷ rest) r pos = last_sealed-run base ps pss ss rest r

  last_of-run :
      (base size : ℕ) (pss : List (List Bytes)) (sealed : List SealedSeg) (live : List Bytes)
      (active : Option Segment)
      → SealedRun codec laws caching on_open base pss sealed
      → ActiveRun codec laws caching on_open (base + length (flatten pss)) size live active
      → 0 < length (flatten pss) + length live
      → last_of sealed active + 1 ≡ base + (length (flatten pss) + length live)
  unfolding last_of
  last_of-run base size pss sealed live none r a pos =
      omega (arith, ap length a, last_sealed-owned base pss sealed r)
  last_of-run base size pss sealed [] (some a) r at pos =
      ground (arith, at.holds.count_eq, at.base_eq, last_sealed-owned base pss sealed r)
  last_of-run base size pss sealed (p ∷ live) (some a) r at pos =
      ground (arith, at.holds.count_eq, at.base_eq)

  total_length :
      (l : Log) (base : ℕ) (es : List Bytes) (h : Owns codec laws caching on_open l base es)
      → length es ≡ length (flatten h.pss) + length h.live
  total_length l base es h = ap length h.parts ∙ length-append (flatten h.pss) h.live

  -- The index that a write has to name is the one behind the entries.
  pub expected_index-Owns :
      (l : Log) (base : ℕ) (es : List Bytes)
      → Owns codec laws caching on_open l base es
      → expected_index l ≡ base + length es
  unfolding expected_index last_index_own
  expected_index-Owns l base [] h =
      rw (is_empty-Owns codec laws caching on_open l base [] h) (sym (h.fresh refl) ∙ omega arith)
  expected_index-Owns l base (e ∷ es) h =
      rw (is_empty-Owns codec laws caching on_open l base (e ∷ es) h) (
        last_of-run base l.segment_size h.pss l.sealed h.live l.active h.sealed_run h.active_run
          (omega (arith, total_length l base (e ∷ es) h))
        ∙ ap (λ n. base + n) (sym (total_length l base (e ∷ es) h)))

  last_of-none :
      (base size : ℕ) (pss : List (List Bytes)) (sealed : List SealedSeg) (live : List Bytes)
      (active : Option Segment)
      → SealedRun codec laws caching on_open base pss sealed
      → ActiveRun codec laws caching on_open (base + length (flatten pss)) size live active
      → length (flatten pss) + length live ≡ 0
      → last_of sealed active ≡ 0
  unfolding last_of last_sealed
  last_of-none base size [] [] live none r a e = refl
  last_of-none base size [] [] live (some a) r at e = ground (arith, at.holds.count_eq)
  last_of-none base size [] (ss ∷ rest) live active r a e = elim r [ ]
  last_of-none base size (ps ∷ pss) [] live active r a e = elim r [ ]
  last_of-none base size (ps ∷ pss) (ss ∷ rest) live active (at, r) a e =
      absurd (omega (arith, at.nonempty, length-append ps (flatten pss)))

  -- `LastIndex` names the last entry, or the index before the first where there is none.
  pub last_index_log-Owns :
      (l : Log) (base : ℕ) (es : List Bytes)
      → Owns codec laws caching on_open l base es
      → last_index_log l + 1 ≡ base + length es
  unfolding last_index_log last_index_own
  last_index_log-Owns l base [] h =
      let total = total_length l base [] h in
      let own : last_of l.sealed l.active ≡ 0 =
        last_of-none base l.segment_size h.pss l.sealed h.live l.active h.sealed_run h.active_run
          (omega arith) in
      let start = h.fresh refl in ground arith
  last_index_log-Owns l base (e ∷ es) h =
      let total = total_length l base (e ∷ es) h in
      let own : last_of l.sealed l.active + 1 ≡ base + (length (flatten h.pss) + length h.live) =
        last_of-run base l.segment_size h.pss l.sealed h.live l.active h.sealed_run h.active_run
          (omega arith) in
      let pos = h.positive in ground arith

  SealedRun-append :
      (base : ℕ) (pss : List (List Bytes)) (sealed : List SealedSeg) (ps : List Bytes)
      (ss : SealedSeg)
      → SealedRun codec laws caching on_open base pss sealed
      → SealedAt codec laws caching on_open (base + length (flatten pss)) ps ss
      → SealedRun codec laws caching on_open base (pss ++ (ps ∷ [])) (sealed ++ (ss ∷ []))
  SealedRun-append base [] [] ps ss r at =
      let e : base + length (flatten {A = Bytes} []) ≡ base = omega arith in
      (subst (λ n. SealedAt codec laws caching on_open n ps ss) e at, tt)
  SealedRun-append base (qs ∷ pss) [] ps ss r at = elim r [ ]
  SealedRun-append base [] (t ∷ rest) ps ss r at = elim r [ ]
  SealedRun-append base (qs ∷ pss) (t ∷ rest) ps ss (q, r) at =
      let e : base + length (qs ++ flatten pss) ≡ base + length qs + length (flatten pss) =
        omega (arith, length-append qs (flatten pss)) in
      (
        q,
        SealedRun-append (base + length qs) pss rest ps ss r
            (subst (λ n. SealedAt codec laws caching on_open n ps ss) e at),
      )

  headed_segment-ActiveAt :
      (fold? : Option Fold) (l : Log) (chain : List Log) (base size : ℕ) (s : Segment)
      → Folds fold?
      → headed_segment codec caching on_open fold? l chain (create base size) ≡ ok s
      → ActiveAt codec laws caching on_open base size [] s
  unfolding headed_segment
  headed_segment-ActiveAt none l chain base size s f e =
      let same : create base size ≡ s = cc in
      subst (ActiveAt codec laws caching on_open base size []) same (
        unfold create in
        record {
          holds = create-Holds codec laws base size;
          base_eq = refl;
          writable = refl;
          size_eq = refl;
        })
  headed_segment-ActiveAt (some fold) l chain base size s f e =
      let ((prev, payloads), e1, e2) =
        ok_of_bind (header_inputs codec caching on_open fold l l.sealed chain) _ e in
      let (header, e3, e4) = ok_of_bind (fold prev payloads) _ e2 in
      let c = f prev payloads header e3 in
      let (frame, ef) = laws.frame_ok 0 header c in
      let (s', ew, holds, _, eb, em, ro) =
        write_header-Holds codec laws base size header frame c ef in
      let same : s' ≡ s = cc in
      subst (ActiveAt codec laws caching on_open base size []) same
        (record { holds = holds; base_eq = eb; writable = ro; size_eq = em })

  -- Opening an active segment behind the entries changes nothing else, and may fail.
  abbrev pub Activated : Log → ℕ → Result (Unit {0}) × Log → Type 0
  Activated l idx (ok u, l') =
      (a : Segment) × (l' ≡ record l { active = some a })
      × ActiveAt codec laws caching on_open idx l.segment_size [] a
  Activated l idx (err e, l') = l' ≡ l

  pub open_active-Activated :
      (l : Log) (chain : List Log) (idx : ℕ)
      → Folds on_open
      → Activated l idx (open_active codec caching on_open l chain idx)
  unfolding open_active
  open_active-Activated l chain idx f =
      activated (headed_segment codec caching on_open on_open l chain (create idx l.segment_size))
        refl
    where
      activated :
          (r : Result Segment)
          → headed_segment codec caching on_open on_open l chain (create idx l.segment_size) ≡ r
          → Activated l idx (with_active codec caching on_open l r)
      activated (ok s) e =
          (s, refl, headed_segment-ActiveAt on_open l chain idx l.segment_size s f e)
      activated (err x) e = refl

  -- A fresh active segment takes its place behind sealed ones that hold everything.
  pub with_fresh :
      (l : Log) (base idx : ℕ) (es : List Bytes) (a : Segment)
      → Owns codec laws caching on_open l base es
      → l.active ≡ none
      → idx ≡ base + length es
      → ActiveAt codec laws caching on_open idx l.segment_size [] a
      → Owns codec laws caching on_open (record l { active = some a }) base es
  with_fresh l base idx es a h en ei at =
      let live_nil : h.live ≡ [] =
        subst
          (ActiveRun codec laws caching on_open (base + length (flatten h.pss)) l.segment_size
            h.live)
          en h.active_run in
      let total = total_length l base es h in
      let e : idx ≡ base + length (flatten h.pss) = omega (arith, ap length live_nil) in
      record {
        pss = h.pss;
        live = [];
        parts = h.parts ∙ ap (λ t. flatten h.pss ++ t) live_nil;
        positive = h.positive;
        sealed_run = h.sealed_run;
        active_run = subst (λ n. ActiveAt codec laws caching on_open n l.segment_size [] a) e at;
        fresh = h.fresh;
      }

  abbrev pub AppendedTo : Log → ℕ → List Bytes → Bytes → Result ℕ × Log → Type 0
  AppendedTo l base es p (ok off, l') = Owns codec laws caching on_open l' base (es ++ (p ∷ []))
  AppendedTo l base es p (err e, l') = (e ≡ full) × (l' ≡ l)

  append_segment-AppendedTo :
      (l : Log) (base : ℕ) (es : List Bytes) (p f : Bytes) (a : Segment) (r : Result ℕ × Segment)
      → (h : Owns codec laws caching on_open l base es) → l.active ≡ some a
      → ActiveAt codec laws caching on_open (base + length (flatten h.pss)) l.segment_size h.live a
      → Appended codec laws a h.live p f r
      → AppendedTo l base es p (r.0, record l { active = some (r.1) })
  append_segment-AppendedTo l base es p f a (ok off, a') h ea at (eo, holds, bound, eb, er, em) =
      record {
        pss = h.pss;
        live = h.live ++ (p ∷ []);
        parts = ap (λ t. t ++ (p ∷ [])) h.parts ∙ append_assoc (flatten h.pss) h.live (p ∷ []);
        positive = h.positive;
        sealed_run = h.sealed_run;
        active_run = record {
          holds = holds;
          base_eq = eb ∙ at.base_eq;
          writable = er ∙ at.writable;
          size_eq = em ∙ at.size_eq;
        };
        fresh = λ e. absurd (append_one-ne es p e);
      }
  append_segment-AppendedTo l base es p f a (err e, a') h ea at (ee, same, _, _) =
      (ee, ap (λ o. record l { active = o }) (ap some same ∙ sym ea))

  append_active-AppendedTo :
      (l : Log) (base : ℕ) (es : List Bytes) (p : Bytes) (a : Segment)
      → Owns codec laws caching on_open l base es
      → l.active ≡ some a
      → laws.canonical p ≡ true
      → AppendedTo l base es p (append_active codec caching on_open p l (some a))
  unfolding append_active
  append_active-AppendedTo l base es p a h ea c =
      let at : ActiveAt codec laws caching on_open (base + length (flatten h.pss)) l.segment_size
          h.live a =
        subst
          (ActiveRun codec laws caching on_open (base + length (flatten h.pss)) l.segment_size
            h.live)
          ea h.active_run in
      let (f, ef) = laws.frame_ok (a.base_index + a.count) p c in
      append_segment-AppendedTo l base es p f a (append codec a p) h ea at
        (append-Appended codec laws a h.live p f at.holds at.writable c ef)

  pub append_to-AppendedTo :
      (l : Log) (base : ℕ) (es : List Bytes) (p : Bytes) (a : Segment)
      → Owns codec laws caching on_open l base es
      → l.active ≡ some a
      → laws.canonical p ≡ true
      → AppendedTo l base es p (append_to codec caching on_open l p)
  unfolding append_to
  append_to-AppendedTo l base es p a h ea c =
      subst (λ o. AppendedTo l base es p (append_active codec caching on_open p l o)) (sym ea)
        (append_active-AppendedTo l base es p a h ea c)

  -- Sealing the active segment, which holds an entry at least, keeps the entries.
  pub sealed_off-Owns :
      (l : Log) (base : ℕ) (es : List Bytes) (a : Segment)
      → Owns codec laws caching on_open l base es
      → l.active ≡ some a
      → 0 < a.count
      → Owns codec laws caching on_open (sealed_off codec caching on_open l (some a)) base es
  unfolding sealed_off wrap_open open_sealed
  sealed_off-Owns l base es a h ea pos =
      let at : ActiveAt codec laws caching on_open (base + length (flatten h.pss)) l.segment_size
          h.live a =
        subst
          (ActiveRun codec laws caching on_open (base + length (flatten h.pss)) l.segment_size
            h.live)
          ea h.active_run in
      record {
        pss = h.pss ++ (h.live ∷ []);
        live = [];
        parts =
            h.parts
            ∙ sym (flatten-append_one h.pss h.live)
            ∙ sym (append-nil (flatten (h.pss ++ (h.live ∷ []))));
        positive = h.positive;
        sealed_run =
            SealedRun-append base h.pss l.sealed h.live (wrap_open a) h.sealed_run (record {
              base_eq = at.base_eq;
              last_eq = ground (arith, at.base_eq, at.holds.count_eq);
              nonempty = omega (arith, at.holds.count_eq);
              seg = a;
              opens = refl;
              holds = at.holds;
              seg_base = at.base_eq;
            });
        active_run = refl;
        fresh = h.fresh;
      }
