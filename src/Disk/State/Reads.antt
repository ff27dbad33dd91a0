-- ===== src/Disk/State/Reads.antt =====
-- What a log answers to a read, by the entries that it holds.
use figwal.Common.{
  ℕ, ◌+◌, ◌-◌, ◌≤◌, ◌<◌, ◌≡◌, refl, sym, ap, ◌∙◌, arith, Bool, true, false, ◌&&◌, Option, none,
  some, List, [], ◌∷◌, ◌++◌, length, get_elem?, flatten, inl, inr, ltb, leb, if◌then◌else◌,
  Bool-cases, leb→le, get_elem?_past, get_elem?_within,
}
use figwal.Result.{Result, ok, err, not_found, empty}
use figwal.Segment.Bytes.{Bytes}
use figwal.Segment.Codec.{SegmentCodec, CodecLaws}
use figwal.Segment.State.{Segment}
use figwal.Segment.State.Reads.{read_index-Holds}
use figwal.Disk.State.{SealedSeg, Log, Fold, is_empty, empty_log, active_empty, read_own}
use figwal.Disk.State.Holds.{SealedRun, ActiveRun, Owns}
use figwal.Disk.State.Routing.{find_segment-Found, find_segment-none}

-- The entry at an index, of entries that count from `base`.
abbrev pub entry_at : ℕ → List Bytes → ℕ → Option Bytes
entry_at base es idx = if leb base idx then get_elem? es (idx - base) else none

abbrev pub answer : List Bytes → Option Bytes → Result Bytes
answer [] o = err empty
answer (e ∷ es) none = err not_found
answer (e ∷ es) (some p) = ok p

past_end :
    (base idx n : ℕ) → (leb base idx && ltb idx (base + n)) ≡ false → base ≤ idx → n ≤ idx - base
past_end base idx n out lo = ground arith

in_bounds :
    (base idx n : ℕ) → (leb base idx && ltb idx (base + n)) ≡ true → (base ≤ idx) × (idx < base + n)
in_bounds base idx n h = ground arith

pub entry_at_in :
    (base idx : ℕ) (es : List Bytes) → base ≤ idx → entry_at base es idx ≡ get_elem? es (idx - base)
entry_at_in base idx es h = ground arith

entry_at_out :
    (base idx : ℕ) (es : List Bytes)
    → (leb base idx && ltb idx (base + length es)) ≡ false
    → entry_at base es idx ≡ none
entry_at_out base idx es out = elim (Bool-cases (leb base idx)) [
  | inl lo ↦
      rw lo
        (get_elem?_past es (idx - base) (past_end base idx (length es) out (leb→le base idx lo)))
  | inr hi ↦ rw hi
]

abbrev no_entries : List Bytes → Bool
no_entries [] = true
no_entries (e ∷ es) = false

module _ (codec : SegmentCodec) (laws : CodecLaws codec) (caching : Bool)
    (on_open : Option Fold) where
  empty_log-run :
      (base end size : ℕ) (pss : List (List Bytes)) (sealed : List SealedSeg) (live : List Bytes)
      (active : Option Segment)
      → SealedRun codec laws caching on_open base pss sealed
      → ActiveRun codec laws caching on_open end size live active
      → empty_log sealed active ≡ no_entries (flatten pss ++ live)
  unfolding empty_log active_empty
  empty_log-run base end size [] [] live none r a = rw a
  empty_log-run base end size [] [] [] (some a) r at = ground (arith, at.holds.count_eq)
  empty_log-run base end size [] [] (p ∷ live) (some a) r at = ground (arith, at.holds.count_eq)
  empty_log-run base end size [] (ss ∷ rest) live active r a = elim r [ ]
  empty_log-run base end size (ps ∷ pss) [] live active r a = elim r [ ]
  empty_log-run base end size ([] ∷ pss) (ss ∷ rest) live active (at, r) a =
      absurd (omega (arith, at.nonempty))
  empty_log-run base end size ((p ∷ ps) ∷ pss) (ss ∷ rest) live active (at, r) a = refl

  pub is_empty-Owns :
      (l : Log) (base : ℕ) (es : List Bytes)
      → Owns codec laws caching on_open l base es
      → is_empty l ≡ no_entries es
  unfolding is_empty
  is_empty-Owns l base es h =
      empty_log-run base (base + length (flatten h.pss)) l.segment_size h.pss l.sealed h.live
        l.active h.sealed_run h.active_run
      ∙ ap no_entries (sym h.parts)

  read_found :
      (l : Log) (base : ℕ) (e : Bytes) (es : List Bytes) (idx : ℕ)
      → (h : Owns codec laws caching on_open l base (e ∷ es)) → base ≤ idx
      → idx < base + length (e ∷ es)
      → (p : Bytes) × (get_elem? (e ∷ es) (idx - base) ≡ some p)
        × (read_own codec caching on_open l idx ≡ ok p)
  unfolding read_own
  read_found l base e es idx h lo hi =
      let f = find_segment-Found codec laws caching on_open l base (e ∷ es) idx h lo hi in
      let (p, at) = get_elem?_within (e ∷ es) (idx - base) (omega arith) in
      (
        p,
        at,
        rw (is_empty-Owns l base (e ∷ es) h, f.found)
            ((read_index-Holds codec laws caching f.seg f.ps (idx - f.seg.base_index) f.holds).0
              ∙ rw (f.entry, at)),
      )

  -- A read of a log's own index answers the entry there; `not_found` where the log holds entries
  -- but none at the index, and `empty` where it holds none at all.
  pub read_own-Owns :
      (l : Log) (base : ℕ) (es : List Bytes) (idx : ℕ)
      → (h : Owns codec laws caching on_open l base es)
      → read_own codec caching on_open l idx ≡ answer es (entry_at base es idx)
  unfolding read_own
  read_own-Owns l base [] idx h = rw (is_empty-Owns l base [] h)
  read_own-Owns l base (e ∷ es) idx h =
      elim (Bool-cases (leb base idx && ltb idx (base + length (e ∷ es)))) [
        | inl inside ↦
            let (lo, hi) = in_bounds base idx (length (e ∷ es)) inside in
            let (p, at, r) = read_found l base e es idx h lo hi in
            r ∙ ap (answer (e ∷ es)) (sym (entry_at_in base idx (e ∷ es) lo ∙ at))
        | inr outside ↦
            rw
              (
                is_empty-Owns l base (e ∷ es) h,
                find_segment-none codec laws caching on_open l base (e ∷ es) idx h outside,
              )
              (ap (answer (e ∷ es)) (sym (entry_at_out base idx (e ∷ es) outside)))
      ]
