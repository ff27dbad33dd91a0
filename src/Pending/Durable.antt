-- ===== src/Pending/Durable.antt =====
-- Syncing and writing a buffered log keeps every record, and a sync that succeeds makes them durable.
use mathlib.Core.Path.{subst}
use figwal.Common.{
  ℕ, zero, suc, ◌+◌, ◌-◌, ◌≤◌, ◌<◌, ◌≡◌, ◌≢◌, refl, sym, ap, ◌∙◌, arith, Bool, true, false, List,
  [], ◌∷◌, ◌++◌, min, length, take, drop, length-append, length-take, length-drop, take-append-drop,
  append_assoc, ltb, Bool-cases, inl, inr, ◌==◌, Option, ◌⊎◌, ltb→lt, ge_of_not_ltb,
}
use figwal.Result.{Error, Result, ok, err, log_read_only, out_of_order}
use figwal.Segment.Bytes.{Bytes}
use figwal.Segment.Codec.{SegmentCodec, CodecLaws}
use figwal.Disk.State
use figwal.Disk.State.Growth.{Folds, last_index_log-Owns}
use figwal.Pending.{
  Log, total_bytes, sync_batch, trimmed, batch_size, sync_through, write, write_pending, after_push,
  next_index,
}
use figwal.Pending.Holds.{
  Buffers, eq_of_eqb, total_bytes-append, Noted, write_pending-Noted, next_index-Buffers,
}
use figwal.Pending.Sync.{Allowed, OnDisk, weaken, Batched, sync_batch-Batched}

All-drop : (f : Bytes → Bool) (n : ℕ) (ps : List Bytes) → Allowed f ps → Allowed f (drop n ps)
All-drop f zero ps h = h
All-drop f (suc n) [] h = h
All-drop f (suc n) (p ∷ ps) (h, hs) = All-drop f n ps hs

All-take : (f : Bytes → Bool) (n : ℕ) (ps : List Bytes) → Allowed f ps → Allowed f (take n ps)
All-take f zero ps h = tt
All-take f (suc n) [] h = tt
All-take f (suc n) (p ∷ ps) (h, hs) = (h, All-take f n ps hs)

batch_size_le : (target first : ℕ) (ps : List Bytes) → batch_size target first ps ≤ length ps
unfolding batch_size
batch_size_le target first ps = ground arith

-- The batch reaches the target, or the end of the view.
batch_size_reaches :
    (target first : ℕ) (ps : List Bytes)
    → min (length ps) (target + 1 - first) ≤ batch_size target first ps
unfolding batch_size
batch_size_reaches target first ps = ground arith

module _ (codec : SegmentCodec) (laws : CodecLaws codec) (caching : Bool)
    (on_open : Option State.Fold) where
  -- How many of the records a sync up to `target` owes to the disk.
  abbrev pub owed : ℕ → List Bytes → ℕ → ℕ
  owed base all target = min (length all) (target + 1 - base)

  -- What a sync may come to: it keeps all records, and where it succeeds the disk log holds those
  -- up to the target.
  abbrev pub Synced : ℕ → List Bytes → ℕ → Result (Unit {0}) × Log → Type 0
  Synced base all target (ok u, l) =
      Buffers codec laws caching on_open l base all
      × OnDisk codec laws caching on_open l.inner base all (owed base all target)
  Synced base all target (err e, l) = Buffers codec laws caching on_open l base all

  -- The view stays as it was while the disk log catches up.
  caught_up :
      (l : Log) (base : ℕ) (all : List Bytes) (inner : State.Log)
      → (h : Buffers codec laws caching on_open l base all)
      → OnDisk codec laws caching on_open inner base all (length h.front)
      → Buffers codec laws caching on_open (record l { inner = inner }) base all
  caught_up l base all inner h d = record {
    es = d.es;
    tail = d.tail;
    front = h.front;
    owns = d.owns;
    on_disk = d.on_disk;
    pending = h.pending;
    meets = d.enough;
    first_eq = h.first_eq;
    bytes_eq = h.bytes_eq;
    canonicals = h.canonicals;
  }

  trim :
      (l : Log) (base n : ℕ) (all : List Bytes) (inner : State.Log)
      → (h : Buffers codec laws caching on_open l base all) → n ≤ length l.pend.entries
      → OnDisk codec laws caching on_open inner base all (length h.front + n)
      → Buffers codec laws caching on_open
          (record l {
            inner = inner;
            pend = record { first = l.pend.first + n; entries = drop n l.pend.entries };
            pending_bytes = l.pending_bytes - total_bytes (take n l.pend.entries);
          })
          base
          all
  trim l base n all inner h le d =
      let ps = l.pend.entries in
      let split : take n ps ++ drop n ps ≡ ps = take-append-drop n ps in
      let front_length : length (h.front ++ take n ps) ≡ length h.front + n =
        omega (arith, length-append h.front (take n ps), length-take n ps) in
      record {
        es = d.es;
        tail = d.tail;
        front = h.front ++ take n ps;
        owns = d.owns;
        on_disk = d.on_disk;
        pending =
            h.pending
            ∙ ap (λ t. h.front ++ t) (sym split)
            ∙ sym (append_assoc h.front (take n ps) (drop n ps));
        meets = omega (arith, d.enough, front_length);
        first_eq =
            λ some_left. omega (arith, h.first_eq (omega (arith, length-drop n ps)), front_length);
        bytes_eq =
            omega
              (arith, h.bytes_eq, total_bytes-append (take n ps) (drop n ps), ap total_bytes split);
        canonicals = All-drop laws.canonical n ps h.canonicals;
      }

  trimmed-Synced :
      (fsync : Bool) (l : Log) (base target n : ℕ) (all : List Bytes)
      (r : Result (Unit {0}) × State.Log)
      → (h : Buffers codec laws caching on_open l base all) → n ≤ length l.pend.entries
      → owed base all target ≤ length h.front + n
      → Batched codec laws caching on_open base all (length h.front) (length h.front + n) r
      → Synced base all target (trimmed codec caching on_open fsync l n r)
  unfolding trimmed
  trimmed-Synced fsync l base target n all (err e, inner) h le o d = caught_up l base all inner h d
  trimmed-Synced false l base target n all (ok u, inner) h le o d = caught_up l base all inner h (
      weaken codec laws caching on_open inner base (length h.front + n) (length h.front) all d
        (omega arith))
  trimmed-Synced true l base target n all (ok u, inner) h le o d = (
    trim l base n all inner h le d,
    weaken codec laws caching on_open inner base (length h.front + n) (owed base all target) all d
        o,
  )

  owed_covered :
      (l : Log) (base target : ℕ) (all : List Bytes)
      → (h : Buffers codec laws caching on_open l base all)
      → owed base all target ≤ length h.front + batch_size target l.pend.first l.pend.entries
  owed_covered l base target all h =
      let total : length all ≡ length h.front + length l.pend.entries =
        ap length h.pending ∙ length-append h.front l.pend.entries in
      elim (Bool-cases (ltb 0 (length l.pend.entries))) [
        | inl some_left ↦ omega (
          arith,
          total,
          h.first_eq (ltb→lt 0 (length l.pend.entries) some_left),
          batch_size_reaches target l.pend.first l.pend.entries,
        )
        | inr none_left ↦ omega (arith, total, ge_of_not_ltb 0 (length l.pend.entries) none_left)
      ]

  batch-Batched :
      (l : Log) (base n : ℕ) (all : List Bytes)
      → (h : Buffers codec laws caching on_open l base all)
      → Folds codec laws caching on_open on_open
      → 0 < n
      → n ≤ length l.pend.entries
      → Batched codec laws caching on_open base all (length h.front) (length h.front + n) (
          sync_batch codec caching on_open l.chain
            (State.last_index_log l.inner)
            l.pend.first
            (take n l.pend.entries)
            l.inner)
  batch-Batched l base n all h fo pos bound =
      let ps = l.pend.entries in
      let durable = State.last_index_log l.inner in
      let inner_end = last_index_log-Owns codec laws caching on_open l.inner base h.es h.owns in
      let kept : OnDisk codec laws caching on_open l.inner base all (length h.es) = record {
        es = h.es;
        tail = h.tail;
        owns = h.owns;
        on_disk = h.on_disk;
        enough = omega arith;
      } in
      subst
        (λ k.
          Batched codec laws caching on_open base all (length h.front) (length h.front + k)
            (sync_batch codec caching on_open l.chain durable l.pend.first (take n ps) l.inner))
        (omega (arith, length-take n ps))
        (sync_batch-Batched codec laws caching on_open l.inner l.chain base durable l.pend.first
          (length h.front) (length h.es) all h.front (take n ps) (drop n ps) kept fo
          (All-take laws.canonical n ps h.canonicals)
          (h.pending ∙ ap (λ t. h.front ++ t) (sym (take-append-drop n ps)))
          (h.first_eq (omega arith)) (omega arith) h.meets h.meets)

  -- A sync up to `target`, whether or not its writes and its fsync succeed, loses no record and
  -- keeps their order: the log still stands for the same records. Where it succeeds, the disk log
  -- itself holds all of them up to `target`.
  pub sync_through-Synced :
      (fsync : Bool) (l : Log) (base target : ℕ) (all : List Bytes)
      → Buffers codec laws caching on_open l base all
      → Folds codec laws caching on_open on_open
      → Synced base all target (sync_through codec caching on_open fsync l target)
  unfolding sync_through
  sync_through-Synced fsync l base target all h fo =
      let n = batch_size target l.pend.first l.pend.entries in
      let ps = l.pend.entries in
      let bound : n ≤ length ps = batch_size_le target l.pend.first ps in
      let cover = owed_covered l base target all h in
      let kept : OnDisk codec laws caching on_open l.inner base all (length h.es) = record {
        es = h.es;
        tail = h.tail;
        owns = h.owns;
        on_disk = h.on_disk;
        enough = omega arith;
      } in
      elim (Bool-cases (n == 0)) [
        | inl nothing ↦ simp nothing (
          h,
          weaken codec laws caching on_open l.inner base (length h.es) (owed base all target) all
              kept (omega (arith, cover, h.meets, eq_of_eqb n 0 nothing)),
        )
        | inr something ↦ simp something (
            trimmed-Synced fsync l base target n all
              (sync_batch codec caching on_open l.chain (State.last_index_log l.inner) l.pend.first
                (take n ps) l.inner)
              h bound cover (batch-Batched l base n all h fo (ground (arith, something)) bound))
      ]

  -- Why a record is refused: its log is read-only, or its index is not the one behind all records.
  abbrev pub Refused : Log → ℕ → List Bytes → ℕ → Type 0
  Refused l base all idx = (l.inner.read_only ≡ true) ⊎ (idx ≢ base + length all)

  -- The record entered the view, went past the bound, and the sync that followed failed.
  abbrev pub Unsynced : Bool → Log → ℕ → Bytes → Error → Log → Type 0
  Unsynced fsync l idx p e l' =
      (l1 : Log) × (write_pending l idx p ≡ (ok tt, l1))
      × (l1.max_lag < l1.pending_bytes)
      × (sync_through codec caching on_open fsync l1 idx ≡ (err e, l'))

  -- What a write may come to: success puts the record behind all others; an error either refuses
  -- the record for a reason and changes nothing, or is the error of the sync behind the record.
  abbrev pub Accepted : Bool → Log → ℕ → List Bytes → ℕ → Bytes → Result (Unit {0}) × Log → Type 0
  Accepted fsync l base all idx p (ok u, l') =
      Buffers codec laws caching on_open l' base (all ++ (p ∷ [])) × (idx ≡ base + length all)
  Accepted fsync l base all idx p (err e, l') =
      ((l' ≡ l) × Refused l base all idx)
      ⊎ (Buffers codec laws caching on_open l' base (all ++ (p ∷ [])) × Unsynced fsync l idx p e l')

  push_outcome :
      (l : Log) (base idx : ℕ) (all : List Bytes) (p : Bytes)
      → Buffers codec laws caching on_open l base all
      → laws.canonical p ≡ true
      → ((e : Error) × (write_pending l idx p ≡ (err e, l)) × Refused l base all idx)
        ⊎ ((l1 : Log) × (write_pending l idx p ≡ (ok tt, l1))
            × Buffers codec laws caching on_open l1 base (all ++ (p ∷ []))
            × (idx ≡ base + length all))
  unfolding write_pending
  push_outcome l base idx all p h c = elim (Bool-cases l.inner.read_only) [
    | inl frozen ↦ inl (log_read_only, simp frozen refl, inl frozen)
    | inr open_ ↦ elim (Bool-cases (idx == next_index l)) [
      | inr wrong ↦
          let behind = next_index-Buffers codec laws caching on_open l base all h in
          inl (
            out_of_order,
            simp (open_, wrong) refl,
            inr (λ e. apart idx (next_index l) wrong (e ∙ sym behind)),
          )
      | inl right ↦
          let e : write_pending l idx p ≡ (ok tt, (write_pending l idx p).1) =
            simp (open_, right) refl in
          let (held, is) =
            subst (Noted codec laws caching on_open base all idx p) e
              (write_pending-Noted codec laws caching on_open l base idx all p h c) in
          inr ((write_pending l idx p).1, e, held, is)
    ]
  ]
    where
      apart : (a b : ℕ) → (a == b) ≡ false → a ≢ b
      apart a b e same = ground arith

  Synced-Accepted :
      (fsync : Bool) (l l1 : Log) (base idx : ℕ) (all : List Bytes) (p : Bytes)
      (r : Result (Unit {0}) × Log)
      → idx ≡ base + length all
      → write_pending l idx p ≡ (ok tt, l1)
      → l1.max_lag < l1.pending_bytes
      → sync_through codec caching on_open fsync l1 idx ≡ r
      → Synced base (all ++ (p ∷ [])) idx r
      → Accepted fsync l base all idx p r
  Synced-Accepted fsync l l1 base idx all p (ok u, l') e pushed over ran (h, d) = (h, e)
  Synced-Accepted fsync l l1 base idx all p (err x, l') e pushed over ran h =
      inr (h, (l1, pushed, over, ran))

  -- A write of a canonical payload succeeds, and the log stands for the records with the new one
  -- behind them, its index the one behind; or it refuses the record and changes nothing, where the log is read-only or the
  -- index is not the one behind all records; or the record went past the bound, the sync that
  -- followed failed, and the log stands for the records with the new one behind them.
  pub write-Accepted :
      (fsync : Bool) (l : Log) (base idx : ℕ) (all : List Bytes) (p : Bytes)
      → Buffers codec laws caching on_open l base all
      → laws.canonical p ≡ true
      → Folds codec laws caching on_open on_open
      → Accepted fsync l base all idx p (write codec caching on_open fsync l idx p)
  unfolding write after_push
  write-Accepted fsync l base idx all p h c fo = elim (push_outcome l base idx all p h c) [
    | inl (e, refused, why) ↦ rw refused (inl (refl, why))
    | inr (l1, pushed, held, is) ↦ elim (Bool-cases (ltb l1.max_lag l1.pending_bytes)) [
      | inr in_bound ↦ rw (pushed, in_bound) (held, is)
      | inl over ↦
          rw (pushed, over)
            (Synced-Accepted fsync l l1 base idx all p
              (sync_through codec caching on_open fsync l1 idx) is pushed
              (ltb→lt l1.max_lag l1.pending_bytes over) refl
              (sync_through-Synced fsync l1 base idx (all ++ (p ∷ [])) held fo))
    ]
  ]
