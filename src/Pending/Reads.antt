-- ===== src/Pending/Reads.antt =====
-- A read of a buffered log answers from the view or from disk, as from one list of records.
use figwal.Common.{
  ℕ, ◌+◌, ◌-◌, ◌≤◌, ◌<◌, ◌≡◌, refl, sym, ap, ◌∙◌, arith, Bool, true, false, List, [], ◌∷◌, ◌++◌,
  length, length-append, get_elem?, get_elem?-append_left, get_elem?-append_right, get_elem?_past,
  get_elem?_within, ltb, leb, if◌then◌else◌, Bool-cases, inl, inr, ltb→lt, lt→ltb, ge_of_not_ltb,
  leb→le, Option, some, none,
}
use figwal.Result.{Result, ok, err, not_found}
use figwal.Segment.Bytes.{Bytes}
use figwal.Segment.Codec.{SegmentCodec, CodecLaws}
use figwal.Disk.State
use figwal.Disk.State.Holds.{Owns}
use figwal.Disk.State.Reads.{entry_at, entry_at_in, answer, read_own-Owns}
use figwal.Pending.{Log, view_at, read, read_behind, or_not_found}
use figwal.Pending.Holds.{Buffers}

abbrev pub found : Option Bytes → Result Bytes
found none = err not_found
found (some p) = ok p

abbrev no_payload : Option Bytes
no_payload = none

both_none : (b : Bool) → (if b then none else none) ≡ no_payload
both_none true = refl
both_none false = refl

pub view_below :
    (first end idx : ℕ) (ps : List Bytes)
    → (0 < length ps → first ≡ end)
    → idx < end
    → view_at (record { first = first; entries = ps }) idx ≡ none
unfolding view_at
view_below first end idx [] f lt = both_none (ltb idx first)
view_below first end idx (p ∷ ps) f lt =
    let e = f (omega arith) in rw (lt→ltb idx first (omega arith)) refl

pub view_above :
    (first base idx : ℕ) (front ps : List Bytes)
    → (0 < length ps → first ≡ base + length front)
    → base + length front ≤ idx
    → view_at (record { first = first; entries = ps }) idx ≡ get_elem? (front ++ ps) (idx - base)
unfolding view_at
view_above first base idx front [] f le =
    both_none (ltb idx first)
    ∙ sym (get_elem?_past (front ++ []) (idx - base) (omega (arith, length-append front [])))
view_above first base idx front (p ∷ ps) f le =
    let e : first ≡ base + length front = f (omega arith) in
    let out : ltb idx first ≡ false = ground (arith) in
    let shift : idx - base ≡ length front + (idx - first) = omega arith in
    rw out (
      sym (get_elem?-append_right front (p ∷ ps) (idx - first))
      ∙ ap (get_elem? (front ++ (p ∷ ps))) (sym shift))

pub entry_at-append :
    (base idx : ℕ) (es tail : List Bytes)
    → idx < base + length es
    → entry_at base (es ++ tail) idx ≡ entry_at base es idx
entry_at-append base idx es tail lt = elim (Bool-cases (leb base idx)) [
  | inl lo ↦ rw lo (get_elem?-append_left es tail (idx - base) (omega (arith, leb→le base idx lo)))
  | inr hi ↦ rw hi refl
]

pub entry_at_past :
    (base idx : ℕ) (es : List Bytes) → base + length es ≤ idx → entry_at base es idx ≡ none
entry_at_past base idx es le =
    entry_at_in base idx es (omega arith) ∙ get_elem?_past es (idx - base) (omega arith)

module _ (codec : SegmentCodec) (laws : CodecLaws codec) (caching : Bool)
    (on_open : Option State.Fold) where
  own_branch :
      (l : State.Log) (chain : List State.Log) (idx : ℕ)
      → l.fork_base ≤ idx
      → State.read codec caching on_open l chain idx ≡ State.read_own codec caching on_open l idx
  unfolding State.read
  own_branch l [] idx le = refl
  own_branch l (p ∷ chain) idx le =
      let out : ltb idx l.fork_base ≡ false = ground arith in rw out refl

  or_not_found-answer :
      (es : List Bytes) (o : Option Bytes)
      → (es ≡ [] → o ≡ none)
      → or_not_found codec caching on_open (answer es o) ≡ found o
  unfolding or_not_found
  or_not_found-answer [] o h = ap found (sym (h refl))
  or_not_found-answer (e ∷ es) none h = refl
  or_not_found-answer (e ∷ es) (some p) h = refl

  pub read_behind-some :
      (l : Log) (idx : ℕ) (o : Option Bytes) (p : Bytes)
      → o ≡ some p
      → read_behind codec caching on_open l idx o ≡ ok p
  unfolding read_behind
  read_behind-some l idx o p e = rw e refl

  pub read_behind-none :
      (l : Log) (base idx : ℕ) (es : List Bytes) (o : Option Bytes)
      → Owns codec laws caching on_open l.inner base es
      → l.inner.fork_base ≤ idx
      → o ≡ none
      → read_behind codec caching on_open l idx o ≡ found (entry_at base es idx)
  unfolding read_behind
  read_behind-none l base idx es o h le e =
      rw
        (
          e,
          own_branch l.inner l.chain idx le,
          read_own-Owns codec laws caching on_open l.inner base es idx h,
        )
        (or_not_found-answer es (entry_at base es idx)
          (λ n. ap (λ t. entry_at base t idx) n ∙ both_none (leb base idx)))

  -- A read of a buffered log answers the record at the index, whether it is on disk, pending or
  -- both, and `not_found` where the log has no record at the index. The index is one of the log's
  -- own, not of a log that it is a fork of.
  pub read-Buffers :
      (l : Log) (base idx : ℕ) (all : List Bytes)
      → Buffers codec laws caching on_open l base all
      → l.inner.fork_base ≤ idx
      → read codec caching on_open l idx ≡ found (entry_at base all idx)
  unfolding read
  read-Buffers l base idx all h own =
      let ps = l.pend.entries in
      let first = l.pend.first in
      elim (Bool-cases (ltb idx (base + length h.front))) [
        | inl below ↦
            let lt = ltb→lt idx (base + length h.front) below in
            read_behind-none l base idx h.es (view_at l.pend idx) h.owns own
              (view_below first (base + length h.front) idx ps h.first_eq lt)
            ∙ ap found (sym (entry_at-append base idx h.es h.tail (omega (arith, h.meets))))
            ∙ ap (λ t. found (entry_at base t idx)) (sym h.on_disk)
        | inr above ↦
            let le = ge_of_not_ltb idx (base + length h.front) above in
            let seen : view_at l.pend idx ≡ get_elem? all (idx - base) =
              view_above first base idx h.front ps h.first_eq le
              ∙ ap (λ t. get_elem? t (idx - base)) (sym h.pending) in
            let here : entry_at base all idx ≡ get_elem? all (idx - base) =
              entry_at_in base idx all (omega arith) in
            elim (Bool-cases (ltb idx (base + length all))) [
              | inl inside ↦
                  let (p, at) =
                    get_elem?_within all (idx - base)
                      (omega (arith, ltb→lt idx (base + length all) inside)) in
                  read_behind-some l idx (view_at l.pend idx) p (seen ∙ at)
                  ∙ ap found (sym (here ∙ at))
              | inr outside ↦
                  let past : length all ≤ idx - base =
                    omega (arith, ge_of_not_ltb idx (base + length all) outside) in
                  let gone = get_elem?_past all (idx - base) past in
                  read_behind-none l base idx h.es (view_at l.pend idx) h.owns own (seen ∙ gone)
                  ∙ ap found (
                      entry_at_past base idx h.es
                        (omega (arith, past, ap length h.on_disk, length-append h.es h.tail))
                      ∙ sym (here ∙ gone))
            ]
      ]
