-- ===== src/Pending/Holds.antt =====
-- The records that a buffered log stands for: those on disk and those pending, as one list.
use mathlib.Core.Path.{ap₂, subst}
use figwal.Common.{
  ℕ, ◌+◌, ◌≤◌, ◌<◌, ◌≡◌, refl, sym, ap, ◌∙◌, arith, Bool, true, Option, List, [], ◌∷◌, ◌++◌, length,
  take, All, All-append, length-append, append_assoc, take-append, Bool-cases, inl, inr, ◌==◌,
}
use figwal.Result.{Result, ok, err}
use figwal.Segment.Bytes.{Bytes}
use figwal.Segment.Codec.{SegmentCodec, CodecLaws}
use figwal.Disk.State
use figwal.Disk.State.Holds.{Owns}
use figwal.Disk.State.Growth.{last_index_log-Owns}
use figwal.Pending.{Log, total_bytes, next_index, next_behind, write_pending, pushed}

pub total_bytes-append :
    (ps qs : List Bytes) → total_bytes (ps ++ qs) ≡ total_bytes ps + total_bytes qs
unfolding total_bytes
total_bytes-append [] qs = omega arith
total_bytes-append (p ∷ ps) qs = omega (arith, total_bytes-append ps qs)

-- Two prefixes of one list that are equally long are equal.
pub prefix_unique :
    (xs ys xs' ys' : List Bytes) → xs ++ xs' ≡ ys ++ ys' → length xs ≡ length ys → xs ≡ ys
prefix_unique xs ys xs' ys' e n = sym (take-append xs xs') ∙ ap₂ take n e ∙ take-append ys ys'

pub eq_of_eqb : (a b : ℕ) → (a == b) ≡ true → a ≡ b
eq_of_eqb a b h = ground arith

module _ (codec : SegmentCodec) (laws : CodecLaws codec) (caching : Bool)
    (on_open : Option State.Fold) where
  -- The log stands for the records `all` from `base` on: the disk log holds a first part of them,
  -- the view a last part, and the two overlap or meet.
  pub record Buffers (l : Log) (base : ℕ) (all : List Bytes) : Type 0 where
    pub es : List Bytes
    pub tail : List Bytes
    pub front : List Bytes
    pub owns : Owns codec laws caching on_open l.inner base es
    pub on_disk : all ≡ es ++ tail
    pub pending : all ≡ front ++ l.pend.entries
    pub meets : length front ≤ length es
    pub first_eq : 0 < length l.pend.entries → l.pend.first ≡ base + length front
    pub bytes_eq : l.pending_bytes ≡ total_bytes l.pend.entries
    pub canonicals : All (λ p. laws.canonical p ≡ true) l.pend.entries

  next_behind-eq :
      (inner : State.Log) (base first : ℕ) (es tail front ps : List Bytes)
      → Owns codec laws caching on_open inner base es
      → es ++ tail ≡ front ++ ps
      → length front ≤ length es
      → (0 < length ps → first ≡ base + length front)
      → next_behind inner first ps ≡ base + length (front ++ ps)
  unfolding next_behind
  next_behind-eq inner base first es tail front [] h e m f = omega (
    arith,
    last_index_log-Owns codec laws caching on_open inner base es h,
    ap length e,
    length-append es tail,
    length-append front [],
  )
  next_behind-eq inner base first es tail front (p ∷ ps) h e m f =
      omega (arith, f (omega arith), length-append front (p ∷ ps))

  -- The next index is the one behind all records.
  pub next_index-Buffers :
      (l : Log) (base : ℕ) (all : List Bytes)
      → Buffers l base all
      → next_index l ≡ base + length all
  unfolding next_index
  next_index-Buffers l base all h =
      next_behind-eq l.inner base l.pend.first h.es h.tail h.front l.pend.entries h.owns
        (sym h.on_disk ∙ h.pending) h.meets h.first_eq
      ∙ ap (λ t. base + length t) (sym h.pending)

  pushed-Buffers :
      (l : Log) (base idx first : ℕ) (all ps : List Bytes) (p : Bytes)
      → (h : Buffers l base all) → l.pend.entries ≡ ps
      → l.pend.first ≡ first
      → idx ≡ base + length all
      → laws.canonical p ≡ true
      → Buffers
          (record l { pend = pushed first ps p idx; pending_bytes = l.pending_bytes + length p })
          base
          (all ++ (p ∷ []))
  unfolding pushed total_bytes
  pushed-Buffers l base idx first all [] p h ep ef ei c = record {
    es = h.es;
    tail = h.tail ++ (p ∷ []);
    front = all;
    owns = h.owns;
    on_disk = ap (λ t. t ++ (p ∷ [])) h.on_disk ∙ append_assoc h.es h.tail (p ∷ []);
    pending = refl;
    meets =
        omega
          (arith, h.meets, ap length h.pending, length-append h.front l.pend.entries, ap length ep);
    first_eq = λ _. ei;
    bytes_eq = omega (arith, h.bytes_eq, ap total_bytes ep);
    canonicals = (c, tt);
  }
  pushed-Buffers l base idx first all (q ∷ ps) p h ep ef ei c = record {
    es = h.es;
    tail = h.tail ++ (p ∷ []);
    front = h.front;
    owns = h.owns;
    on_disk = ap (λ t. t ++ (p ∷ [])) h.on_disk ∙ append_assoc h.es h.tail (p ∷ []);
    pending =
        ap (λ t. t ++ (p ∷ [])) (h.pending ∙ ap (λ t. h.front ++ t) ep)
        ∙ append_assoc h.front (q ∷ ps) (p ∷ []);
    meets = h.meets;
    first_eq = λ _. omega (arith, ef, h.first_eq, ap length ep);
    bytes_eq = omega (arith, h.bytes_eq, ap total_bytes ep, total_bytes-append (q ∷ ps) (p ∷ []));
    canonicals =
        All-append (λ p. laws.canonical p ≡ true) (q ∷ ps) (p ∷ [])
          (subst (All (λ p. laws.canonical p ≡ true)) ep h.canonicals) (c, tt);
  }

  -- What a write to the view may come to.
  abbrev pub Noted : ℕ → List Bytes → ℕ → Bytes → Result (Unit {0}) × Log → Type 0
  Noted base all idx p (ok u, l') = Buffers l' base (all ++ (p ∷ [])) × (idx ≡ base + length all)
  Noted base all idx p (err e, l') = Buffers l' base all

  pub write_pending-Noted :
      (l : Log) (base idx : ℕ) (all : List Bytes) (p : Bytes)
      → Buffers l base all
      → laws.canonical p ≡ true
      → Noted base all idx p (write_pending l idx p)
  unfolding write_pending
  write_pending-Noted l base idx all p h c = elim (Bool-cases l.inner.read_only) [
    | inl frozen ↦ simp frozen h
    | inr open_ ↦ elim (Bool-cases (idx == next_index l)) [
      | inr wrong ↦ simp (open_, wrong) h
      | inl right ↦
          let ei : idx ≡ base + length all =
            eq_of_eqb idx (next_index l) right ∙ next_index-Buffers l base all h in
          simp (open_, right)
            (pushed-Buffers l base idx l.pend.first all l.pend.entries p h refl refl ei c, ei)
    ]
  ]
