-- ===== src/Disk/Fork/Lists.antt =====
-- Lists of parts that are cut inside or behind the first one.
use figwal.Common.{
  ℕ, zero, suc, ◌-◌, ◌≤◌, ◌≡◌, refl, ap, ◌∙◌, arith, List, [], ◌∷◌, ◌++◌, length, take, drop,
}
use figwal.Segment.Bytes.{Bytes}

-- Where a list of parts is cut behind the first one
pub take_behind :
    (n : ℕ) (xs ys : List Bytes) → length xs ≤ n → take n (xs ++ ys) ≡ xs ++ take (n - length xs) ys
take_behind n [] ys le = ap (λ k. take k ys) (omega arith)
take_behind zero (x ∷ xs) ys le = absurd (omega arith)
take_behind (suc n) (x ∷ xs) ys le =
    ap (λ t. x ∷ t) (take_behind n xs ys (omega arith) ∙ ap (λ k. xs ++ take k ys) (omega arith))

pub drop_behind :
    (n : ℕ) (xs ys : List Bytes) → length xs ≤ n → drop n (xs ++ ys) ≡ drop (n - length xs) ys
drop_behind n [] ys le = ap (λ k. drop k ys) (omega arith)
drop_behind zero (x ∷ xs) ys le = absurd (omega arith)
drop_behind (suc n) (x ∷ xs) ys le =
    drop_behind n xs ys (omega arith) ∙ ap (λ k. drop k ys) (omega arith)

pub take_within : (n : ℕ) (xs ys : List Bytes) → n ≤ length xs → take n (xs ++ ys) ≡ take n xs
take_within zero xs ys le = refl
take_within (suc n) [] ys le = absurd (omega arith)
take_within (suc n) (x ∷ xs) ys le = ap (λ t. x ∷ t) (take_within n xs ys (omega arith))

pub drop_within : (n : ℕ) (xs ys : List Bytes) → n ≤ length xs → drop n (xs ++ ys) ≡ drop n xs ++ ys
drop_within zero xs ys le = refl
drop_within (suc n) [] ys le = absurd (omega arith)
drop_within (suc n) (x ∷ xs) ys le = drop_within n xs ys (omega arith)
