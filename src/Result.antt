-- ===== src/Result.antt =====
-- The errors of the packages `segment`, `disk`, `log` and `xwal`, and Go's (value, error) pair.
use figwal.Common.{◌≡◌, refl}

-- `eof` stands for the end of file that `ReadAt` and `io.ReadFull` report, `other` for an error
-- that the source builds on the spot with `fmt.Errorf` or `errors.New`.
pub data Error : Type 0 where
  full out_of_range segment_read_only corrupt eof other : Error
  out_of_order not_found empty payload_too_large log_read_only fork_mismatch : Error
  shared_mutation codec_mismatch fork_pending fork_conflict invalid_fork_name : Error

-- What a Go function with a result and an error returns: one of the two.
pub data Result {ℓ} (A : Type ℓ) : Type ℓ where
  ok : A → Result A
  err : Error → Result A

infixl 5 ◌>>=◌
-- `if err != nil { return err }` behind a call
abbrev pub ◌>>=◌ {ℓ κ} : {V : Type ℓ} {W : Type κ} (r : Result V) (next : V → Result W) → Result W
err failure >>= next = err failure
ok value >>= next = next value

infixl 5 ◌>>◌
abbrev pub ◌>>◌ {ℓ κ} : {V : Type ℓ} {W : Type κ} (r : Result V) (next : Result W) → Result W
err failure >> next = err failure
ok value >> next = next

-- A chain that succeeds has succeeded in both of its parts.
pub ok_of_bind {ℓ κ} :
    {V : Type ℓ} {W : Type κ} (r : Result V) (next : V → Result W) {w : W}
    → (r >>= next) ≡ ok w
    → (v : V) × (r ≡ ok v) × (next v ≡ ok w)
ok_of_bind (err failure) next e = cc
ok_of_bind (ok value) next e = (value, refl, e)

pub ok_injective {ℓ} : {V : Type ℓ} (v w : V) → ok v ≡ ok w → v ≡ w
ok_injective v w e = cc
