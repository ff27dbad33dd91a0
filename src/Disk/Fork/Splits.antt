-- ===== src/Disk/Fork/Splits.antt =====
-- A fork splits the entries of a log at an index and loses none.
use mathlib.Core.Path.{subst}
use figwal.Common.{
  ℕ, suc, ◌+◌, ◌-◌, ◌≤◌, ◌≡◌, refl, sym, ap, ◌∙◌, arith, Bool, true, false, ◌&&◌, ◌||◌, Option,
  none, some, List, [], ◌∷◌, ◌++◌, length, length-append, append-nil, flatten, All, All-append,
  Bool-cases, inl, inr, ltb, leb, ◌==◌, if◌then◌else◌, ltb→lt, ge_of_not_ltb,
}
use figwal.Result.{ok, ok_of_bind, ok_injective}
use figwal.Segment.Bytes.{Bytes}
use figwal.Segment.Codec.{SegmentCodec, CodecLaws}
use figwal.Segment.State.{Segment}
use figwal.Segment.State.Append.{write_header-Holds}
use figwal.Disk.State.{
  SealedSeg, Log, Fold, wrap_open, first_index_own, last_index_own, open_sealed, state_at,
  state_at_own, find_segment, read_run, or_not_found, sealed_off,
}
use figwal.Disk.State.Holds.{SealedRun, ActiveRun, Owns}
use figwal.Disk.State.Reads.{is_empty-Owns}
use figwal.Disk.State.Firsts.{first_index_own-Owns, last_index_own-Owns}
use figwal.Disk.State.Growth.{Folds, sealed_off-Owns}
use figwal.Disk.Fork.{
  SegFile, data_moves, fork_range, sealed_for_fork, empty_watermark, fork_watermark,
  watermark_files,
}
use figwal.Disk.Fork.Cuts.{Titled, TitledSeg, FileAt}

module _ (codec : SegmentCodec) (laws : CodecLaws codec) (caching : Bool)
    (on_open : Option Fold) where
  -- In header mode, all segments of a log have headers that the codec frames.
  pub record TitledLog (l : Log) : Type 0 where
    pub sealed_titles : All (TitledSeg codec laws caching on_open) l.sealed
    pub active_title :
        (a : Segment) → l.active ≡ some a → Titled codec laws caching on_open a.header

  -- A log whose entries are all in sealed segments
  pub record Sealed (l : Log) (base : ℕ) (es : List Bytes) : Type 0 where
    pub owns : Owns codec laws caching on_open l base es
    pub whole : flatten owns.pss ≡ es
    pub titled : All (TitledSeg codec laws caching on_open) l.sealed

  no_live :
      (l : Log) (base : ℕ) (es : List Bytes)
      → (h : Owns codec laws caching on_open l base es) → h.live ≡ []
      → flatten h.pss ≡ es
  no_live l base es h e =
      sym (append-nil (flatten h.pss)) ∙ ap (λ t. flatten h.pss ++ t) (sym e) ∙ sym h.parts

  wrapped_title :
      (a : Segment)
      → Titled codec laws caching on_open a.header
      → TitledSeg codec laws caching on_open (wrap_open a)
  unfolding open_sealed wrap_open
  wrapped_title a t s e =
      subst (λ (x : Segment). Titled codec laws caching on_open x.header) (ok_injective a s e) t

  pub sealed_for_fork-Sealed :
      (l : Log) (base : ℕ) (es : List Bytes) (o : Option Segment)
      → l.active ≡ o
      → Owns codec laws caching on_open l base es
      → TitledLog l
      → Sealed (sealed_for_fork l o (sealed_off codec caching on_open l)) base es
  unfolding sealed_off
  sealed_for_fork-Sealed l base es none e h t = record {
    owns = h;
    whole = no_live l base es h (
        subst
          (ActiveRun codec laws caching on_open (base + length (flatten h.pss)) l.segment_size
            h.live)
          e h.active_run);
    titled = t.sealed_titles;
  }
  sealed_for_fork-Sealed l base es (some a) e h t = elim (Bool-cases (ltb 0 a.count)) [
    | inl used ↦
        let h' =
          sealed_off-Owns codec laws caching on_open l base es a h e (ltb→lt 0 a.count used) in
        rw used (record {
          owns = h';
          whole =
              no_live (record l { sealed = l.sealed ++ (wrap_open a ∷ []); active = none }) base es
                h' h'.active_run;
          titled =
              All-append (TitledSeg codec laws caching on_open) l.sealed (wrap_open a ∷ [])
                t.sealed_titles (wrapped_title a (t.active_title a e), tt);
        })
    | inr unused ↦
        let at =
          subst
            (ActiveRun codec laws caching on_open (base + length (flatten h.pss)) l.segment_size
              h.live)
            e h.active_run in
        let none_live : length h.live ≡ 0 =
          omega (arith, at.holds.count_eq, ge_of_not_ltb 0 a.count unused) in
        rw unused (record {
          owns = h;
          whole = no_live l base es h (nil_of_length h.live none_live);
          titled = t.sealed_titles;
        })
  ]
    where
      nil_of_length : (xs : List Bytes) → length xs ≡ 0 → xs ≡ []
      nil_of_length [] e = refl
      nil_of_length (x ∷ xs) e = absurd (omega (arith, e))

  -- The index of a fork is at the entries or right behind them.
  pub range_bounds :
      (l : Log) (base at : ℕ) (es : List Bytes)
      → Owns codec laws caching on_open l base es
      → fork_range l at ≡ true
      → (base ≤ at) × (at ≤ base + length es)
  range_bounds l base at [] h g =
      let e = is_empty-Owns codec laws caching on_open l base [] h in
      let start = h.fresh refl in
      let here : (at == (if l.fork_base == 0 then 1 else l.fork_base)) ≡ true =
        sym (rw e refl) ∙ g in
      ground arith
  range_bounds l base at (e ∷ es) h g =
      let full = is_empty-Owns codec laws caching on_open l base (e ∷ es) h in
      let first = first_index_own-Owns codec laws caching on_open l base e es h in
      let last = last_index_own-Owns codec laws caching on_open l base e es h in
      let here : ((ltb (first_index_own l) at || (ltb 0 l.fork_base && at == first_index_own l))
            && leb at (last_index_own l + 1))
          ≡ true =
        sym (rw full refl) ∙ g in
      ground arith

  state_at_own-Titled :
      (fold : Fold) (l : Log) (idx : ℕ) (w : Bytes)
      → Folds codec laws caching on_open (some fold)
      → state_at_own codec caching on_open fold l idx ≡ ok w
      → laws.canonical w ≡ true
  unfolding state_at_own
  state_at_own-Titled fold l idx w f e =
      let (found, e1, e2) = ok_of_bind (find_segment codec caching on_open l idx) _ e in
      let (s, e3, e4) = ok_of_bind (or_not_found codec caching on_open found) _ e2 in
      let (payloads, e5, e6) =
        ok_of_bind (read_run codec caching on_open s (suc idx - s.base_index) 0) _ e4 in
      f s.header payloads w e6

  state_at-Titled :
      (fold : Fold) (l : Log) (chain : List Log) (idx : ℕ) (w : Bytes)
      → Folds codec laws caching on_open (some fold)
      → state_at codec caching on_open fold l chain idx ≡ ok w
      → laws.canonical w ≡ true
  unfolding state_at
  state_at-Titled fold l [] idx w f e = state_at_own-Titled fold l idx w f e
  state_at-Titled fold l (p ∷ chain) idx w f e = elim (Bool-cases (ltb idx l.fork_base)) [
    | inl inherited ↦ state_at-Titled fold p chain idx w f (sym (rw inherited refl) ∙ e)
    | inr own ↦ state_at_own-Titled fold l idx w f (sym (rw own refl) ∙ e)
  ]

  pub fork_watermark-Titled :
      (o : Option Fold) (l : Log) (chain : List Log) (at : ℕ) (empty : Bool) (w : Bytes)
      → o ≡ on_open
      → Folds codec laws caching on_open o
      → ((a : Segment) → l.active ≡ some a → Titled codec laws caching on_open a.header)
      → fork_watermark codec caching on_open o l chain at empty ≡ ok w
      → Titled codec laws caching on_open w
  fork_watermark-Titled none l chain at empty w eo f t e fold on = cc
  fork_watermark-Titled (some fold') l chain at false w eo f t e fold on =
      state_at-Titled fold' l chain (at - 1) w f e
  fork_watermark-Titled (some fold') l chain at true w eo f t e fold on =
      from_empty chain l.active refl e
    where
      from_empty :
          (chain : List Log) (o : Option Segment)
          → l.active ≡ o
          → empty_watermark codec caching on_open fold' chain at o ≡ ok w
          → laws.canonical w ≡ true
      from_empty chain (some a) ea e =
          subst (λ h. laws.canonical h ≡ true) (ok_injective a.header w e) (t a ea fold on)
      from_empty [] none ea e = f [] [] w e
      from_empty (p ∷ chain) none ea e = elim (Bool-cases (ltb 1 at)) [
        | inl later ↦ state_at-Titled fold' p chain (at - 1) w f (sym (rw later refl) ∙ e)
        | inr first ↦ f [] [] w (sym (rw first refl) ∙ e)
      ]

  -- The files that hold a header only
  pub watermark_files-FileAt :
      (o : Option Fold) (at max : ℕ) (w : Bytes)
      → ((fold : Fold) → o ≡ some fold → laws.canonical w ≡ true)
      → (files : List SegFile) × (watermark_files codec caching on_open o at max w ≡ ok files)
        × All (FileAt codec laws caching on_open at []) files
  watermark_files-FileAt none at max w t = ([], refl, tt)
  watermark_files-FileAt (some fold) at max w t =
      let (f, e) = laws.frame_ok 0 w (t fold refl) in
      let (s, es, holds, he, be, me, re) =
        write_header-Holds codec laws at max w f (t fold refl) e in
      (
        record { base = at; file = s.file } ∷ [],
        rw es refl,
        (record { seg = s; holds = holds; seg_base = be; base_eq = refl; file_eq = refl }, tt),
      )

  -- Where no segment moves or is split, all entries lie below the index.
  pub still_below :
      (at base : ℕ) (pss : List (List Bytes)) (sealed : List SealedSeg)
      → SealedRun codec laws caching on_open base pss sealed
      → data_moves at sealed ≡ false
      → base ≤ at
      → base + length (flatten pss) ≤ at
  unfolding data_moves
  still_below at base [] [] r m le = omega (arith, le)
  still_below at base [] (ss ∷ rest) r m le = elim r [ ]
  still_below at base (ps ∷ pss) [] r m le = elim r [ ]
  still_below at base (ps ∷ pss) (ss ∷ rest) (here, r) m le =
      let last_eq = here.last_eq in
      elim (Bool-cases (ltb ss.last at)) [
        | inl below ↦
            let lt = ltb→lt ss.last at below in
            let skip : data_moves at (ss ∷ rest) ≡ data_moves at rest =
              rw (data_moves, below) refl in
            omega (
              arith,
              length-append ps (flatten pss),
              still_below at (base + length ps) pss rest r (sym skip ∙ m)
                  (omega (arith, last_eq, lt)),
            )
        | inr reaches ↦
            let moves : data_moves at (ss ∷ rest) ≡ true = elim (Bool-cases (leb at ss.base)) [
              | inl whole ↦ rw (data_moves, reaches, whole) refl
              | inr part ↦ rw (data_moves, reaches, part) refl
            ] in
            let impossible : true ≡ false = sym moves ∙ m in cc
      ]
