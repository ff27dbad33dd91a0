-- ===== src/Pending/Sync.antt =====
-- SyncThrough: which records it brings to disk, whether or not it succeeds.
use mathlib.Core.Path.{subst}
use figwal.Common.{
  ℕ, suc, ◌+◌, ◌≤◌, ◌<◌, ◌≡◌, sym, ap, ◌∙◌, arith, Bool, true, List, [], ◌∷◌, ◌++◌, max, length,
  All, length-append, append_assoc, leb, Bool-cases, inl, inr, leb→le, Option,
}
use figwal.Result.{Result, ok, err}
use figwal.Segment.Bytes.{Bytes}
use figwal.Segment.Codec.{SegmentCodec, CodecLaws}
use figwal.Disk.State
use figwal.Disk.State.Holds.{Owns}
use figwal.Disk.State.Growth.{Folds}
use figwal.Disk.State.Writes.{Written, write-Written}
use figwal.Pending.{sync_batch, put_entry}
use figwal.Pending.Holds.{prefix_unique}

abbrev pub Allowed : (Bytes → Bool) → List Bytes → Type 0
Allowed ok_payload = All (λ p. ok_payload p ≡ true)

module _ (codec : SegmentCodec) (laws : CodecLaws codec) (caching : Bool)
    (on_open : Option State.Fold) where
  -- The disk log holds a first part of the records `all`, at least `n` of them.
  pub record OnDisk (inner : State.Log) (base : ℕ) (all : List Bytes) (n : ℕ) : Type 0 where
    pub es : List Bytes
    pub tail : List Bytes
    pub owns : Owns codec laws caching on_open inner base es
    pub on_disk : all ≡ es ++ tail
    pub enough : n ≤ length es

  abbrev pub Batched : ℕ → List Bytes → ℕ → ℕ → Result (Unit {0}) × State.Log → Type 0
  Batched base all m n (ok u, inner) = OnDisk inner base all n
  Batched base all m n (err e, inner) = OnDisk inner base all m

  put-Written :
      (inner : State.Log) (base idx : ℕ) (all done es tail rest : List Bytes) (p : Bytes) (m : ℕ)
      (r : Result (Unit {0}) × State.Log)
      → Written codec laws caching on_open inner base es idx p r
      → all ≡ es ++ tail
      → all ≡ done ++ (p ∷ rest)
      → idx ≡ base + length done
      → m ≤ length es
      → Batched base all m (max m (suc (length done))) r
  put-Written inner base idx all done es tail rest p m (ok u, inner') (o, ei, er, ek) d e f le =
      let same : es ≡ done = prefix_unique es done tail (p ∷ rest) (sym d ∙ e) (omega arith) in
      record {
        es = es ++ (p ∷ []);
        tail = rest;
        owns = o;
        on_disk = e ∙ ap (λ t. t ++ (p ∷ rest)) (sym same) ∙ sym (append_assoc es (p ∷ []) rest);
        enough = omega (arith, length-append es (p ∷ []));
      }
  put-Written inner base idx all done es tail rest p m (err x, inner') o d e f le = record {
    es = es;
    tail = tail;
    owns = o;
    on_disk = d;
    enough = le;
  }

  put_entry-Batched :
      (inner : State.Log) (chain : List State.Log) (base durable idx k : ℕ)
      (all done rest : List Bytes) (p : Bytes)
      → OnDisk inner base all k
      → Folds codec laws caching on_open on_open
      → laws.canonical p ≡ true
      → all ≡ done ++ (p ∷ rest)
      → idx ≡ base + length done
      → durable < base + k
      → Batched base all k
          (max k (suc (length done)))
          (put_entry codec caching on_open inner chain durable idx p)
  unfolding put_entry
  put_entry-Batched inner chain base durable idx k all done rest p h fo c e f du =
      elim (Bool-cases (leb idx durable)) [
        | inl there ↦ simp there (record {
          es = h.es;
          tail = h.tail;
          owns = h.owns;
          on_disk = h.on_disk;
          enough = omega (arith, h.enough, leb→le idx durable there);
        })
        | inr missing ↦ simp missing (
            put-Written inner base idx all done h.es h.tail rest p k
              (State.write codec caching on_open inner chain idx p)
              (write-Written codec laws caching on_open inner chain base idx h.es p h.owns c fo)
              h.on_disk e f h.enough)
      ]

  pub weaken :
      (inner : State.Log) (base k m : ℕ) (all : List Bytes)
      → OnDisk inner base all k
      → m ≤ k
      → OnDisk inner base all m
  weaken inner base k m all h le = record {
    es = h.es;
    tail = h.tail;
    owns = h.owns;
    on_disk = h.on_disk;
    enough = omega (arith, h.enough);
  }

  pub sync_batch-Batched :
      (inner : State.Log) (chain : List State.Log) (base durable idx m k : ℕ)
      (all done ps rest : List Bytes)
      → OnDisk inner base all k
      → Folds codec laws caching on_open on_open
      → Allowed laws.canonical ps
      → all ≡ done ++ (ps ++ rest)
      → idx ≡ base + length done
      → durable < base + k
      → m ≤ k
      → length done ≤ k
      → Batched base all m
          (length done + length ps)
          (sync_batch codec caching on_open chain durable idx ps inner)
  unfolding sync_batch
  sync_batch-Batched inner chain base durable idx m k all done [] rest h fo c e f du mk dk =
      weaken inner base k (length done + 0) all h (omega arith)
  sync_batch-Batched inner chain base durable idx m k all done (p ∷ ps) rest h fo (c, cs) e f du mk
        dk =
      step (put_entry codec caching on_open inner chain durable idx p)
        (put_entry-Batched inner chain base durable idx k all done (ps ++ rest) p h fo c e f du)
        (λ inner' h'.
          subst
            (λ n.
              Batched base all m n
                (sync_batch codec caching on_open chain durable (idx + 1) ps inner'))
            (omega (arith, length-append done (p ∷ [])))
            (sync_batch-Batched inner' chain base durable (idx + 1) m (max k (suc (length done)))
              all (done ++ (p ∷ [])) ps rest h' fo cs
              (e ∙ sym (append_assoc done (p ∷ []) (ps ++ rest)))
              (omega (arith, length-append done (p ∷ []))) (omega arith) (omega arith)
              (omega (arith, length-append done (p ∷ [])))))
    where
      step :
          (r : Result (Unit {0}) × State.Log)
          → Batched base all k (max k (suc (length done))) r
          → ((inner' : State.Log)
              → OnDisk inner' base all (max k (suc (length done)))
              → Batched base all m
                  (length done + suc (length ps))
                  (sync_batch codec caching on_open chain durable (idx + 1) ps inner'))
          → Batched base all m (length done + suc (length ps)) (elim r.0 [
            | ok u ↦ sync_batch codec caching on_open chain durable (idx + 1) ps r.1
            | err x ↦ (err x, r.1)
          ])
      step (ok u, inner') h' go = go inner' h'
      step (err x, inner') h' go = weaken inner' base k m all h' mk
