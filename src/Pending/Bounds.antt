-- ===== src/Pending/Bounds.antt =====
-- The bound on unsynced bytes that a buffered log keeps.
use mathlib.Core.Path.{subst}
use figwal.Common.{
  ℕ, ◌+◌, ◌≤◌, ◌<◌, ◌≡◌, refl, sym, ap, ◌∙◌, arith, Bool, true, false, List, [], ◌∷◌, length,
  length-append, take, take_all, drop_all, ltb, Bool-cases, inl, inr, ge_of_not_ltb, Option, ◌==◌,
}
use figwal.Result.{Result, ok, err}
use figwal.Segment.Bytes.{Bytes}
use figwal.Segment.Codec.{SegmentCodec, CodecLaws}
use figwal.Disk.State
use figwal.Pending.{
  Log, total_bytes, sync_batch, trimmed, batch_size, sync_through, write, write_pending, after_push,
  pushed, next_index, next_behind,
}
use figwal.Pending.Holds.{Buffers, eq_of_eqb, Noted, write_pending-Noted}

module _ (codec : SegmentCodec) (caching : Bool) (on_open : Option State.Fold) where
  -- A success leaves at most `bound` bytes in the view, as counted and as they are, and the log's own bound as it was.
  abbrev pub Bounded : ℕ → Result (Unit {0}) × Log → Type 0
  Bounded bound (ok u, l) =
      (l.max_lag ≡ bound) × (l.pending_bytes ≤ bound) × (total_bytes l.pend.entries ≤ bound)
  Bounded bound (err e, l) = Unit

  trimmed-Bounded :
      (fsync : Bool) (l : Log) (n : ℕ) (r : Result (Unit {0}) × State.Log)
      → l.pending_bytes ≡ total_bytes (take n l.pend.entries)
      → length l.pend.entries ≤ n
      → Bounded l.max_lag (trimmed codec caching on_open fsync l n r)
  unfolding trimmed total_bytes
  trimmed-Bounded fsync l n (err e, inner) h all = tt
  trimmed-Bounded false l n (ok u, inner) h all = tt
  trimmed-Bounded true l n (ok u, inner) h all =
      (refl, omega (arith, h), omega (arith, ap total_bytes (drop_all n l.pend.entries all)))

  sync_through-Bounded :
      (fsync : Bool) (l : Log) (target : ℕ)
      → l.pending_bytes ≡ total_bytes l.pend.entries
      → target + 1 ≡ l.pend.first + length l.pend.entries
      → 0 < length l.pend.entries
      → Bounded l.max_lag (sync_through codec caching on_open fsync l target)
  unfolding sync_through batch_size
  sync_through-Bounded fsync l target h e pos =
      let whole : batch_size target l.pend.first l.pend.entries ≡ length l.pend.entries =
        ground arith in
      let some_left : (length l.pend.entries == 0) ≡ false = ground arith in
      rw (whole, some_left)
        (trimmed-Bounded fsync l (length l.pend.entries)
          (sync_batch codec caching on_open l.chain (State.last_index_log l.inner) l.pend.first
            (take (length l.pend.entries) l.pend.entries) l.inner)
          (h ∙ ap total_bytes (sym (take_all (length l.pend.entries) l.pend.entries (omega arith))))
          (omega arith))

-- What a record's entering the view leaves: the view ends behind its index.
abbrev Ends : ℕ → ℕ → Result (Unit {0}) × Log → Type 0
Ends bound idx (ok u, l) =
    (l.max_lag ≡ bound)
    × (idx + 1 ≡ l.pend.first + length l.pend.entries)
    × (0 < length l.pend.entries)
Ends bound idx (err e, l) = Unit

pushed-ends :
    (inner : State.Log) (first idx : ℕ) (ps : List Bytes) (p : Bytes)
    → idx ≡ next_behind inner first ps
    → (idx + 1 ≡ (pushed first ps p idx).first + length (pushed first ps p idx).entries)
      × (0 < length (pushed first ps p idx).entries)
unfolding pushed next_behind
pushed-ends inner first idx [] p e = (refl, omega arith)
pushed-ends inner first idx (q ∷ ps) p e =
    (omega (arith, e, length-append ps (p ∷ [])), omega arith)

write_pending-Ends : (l : Log) (idx : ℕ) (p : Bytes) → Ends l.max_lag idx (write_pending l idx p)
unfolding write_pending next_index
write_pending-Ends l idx p = elim (Bool-cases l.inner.read_only) [
  | inl frozen ↦ simp frozen tt
  | inr open_ ↦ elim (Bool-cases (idx == next_index l)) [
    | inr wrong ↦ simp (open_, wrong) tt
    | inl right ↦
        let (e, pos) =
          pushed-ends l.inner l.pend.first idx l.pend.entries p
            (eq_of_eqb idx (next_index l) right) in
        simp (open_, right) (refl, e, pos)
  ]
]

module _ (codec : SegmentCodec) (laws : CodecLaws codec) (caching : Bool)
    (on_open : Option State.Fold) where
  after_push-Bounded :
      (fsync : Bool) (base idx bound : ℕ) (all : List Bytes) (p : Bytes)
      (r : Result (Unit {0}) × Log)
      → Noted codec laws caching on_open base all idx p r
      → Ends bound idx r
      → Bounded codec caching on_open bound (after_push codec caching on_open fsync idx r)
  unfolding after_push
  after_push-Bounded fsync base idx bound all p (err e, l) h ends = tt
  after_push-Bounded fsync base idx bound all p (ok u, l) (h, ei) (same, e, pos) =
      elim (Bool-cases (ltb l.max_lag l.pending_bytes)) [
        | inl behind ↦ simp behind (
            subst
              (λ m.
                Bounded codec caching on_open m (sync_through codec caching on_open fsync l idx))
              same (sync_through-Bounded codec caching on_open fsync l idx h.bytes_eq e pos))
        | inr in_bound ↦ simp in_bound (
          same,
          omega (arith, same, ge_of_not_ltb l.max_lag l.pending_bytes in_bound),
          omega (arith, same, h.bytes_eq, ge_of_not_ltb l.max_lag l.pending_bytes in_bound),
        )
      ]

  -- A write of a canonical payload that succeeds leaves at most the log's `max_lag` bytes in the records that are still
  -- pending, as in the counter of these bytes, and does not change that bound.
  pub write-Bounded :
      (fsync : Bool) (l l' : Log) (base idx : ℕ) (all : List Bytes) (p : Bytes)
      → Buffers codec laws caching on_open l base all
      → laws.canonical p ≡ true
      → write codec caching on_open fsync l idx p ≡ (ok tt, l')
      → (l'.max_lag ≡ l.max_lag)
        × (l'.pending_bytes ≤ l.max_lag)
        × (total_bytes l'.pend.entries ≤ l.max_lag)
  unfolding write
  write-Bounded fsync l l' base idx all p h c e =
      subst (Bounded codec caching on_open l.max_lag) e (
        after_push-Bounded fsync base idx l.max_lag all p (write_pending l idx p)
          (write_pending-Noted codec laws caching on_open l base idx all p h c)
          (write_pending-Ends l idx p))
