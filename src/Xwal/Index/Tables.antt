-- ===== src/Xwal/Index/Tables.antt =====
-- Association lists, and the results of a scan.
use figwal.Common.{
  ◌≡◌, refl, sym, ap, ◌∙◌, true, false, Bool-cases, inl, inr, some, List, [], ◌∷◌, if◌then◌else◌,
}
use figwal.Result.{Result, ok, err}
use figwal.Segment.Bytes.{Bytes}
use figwal.Values.{same}
use figwal.Values.Paths.{same_refl, same-eq}
use figwal.Xwal.Index.{Shape, look, assign, and_then}

module _ {ℓ} {A : Type ℓ} where
  pub look-assign :
      (m : List (Bytes × A)) (j k : Bytes) (v : A)
      → look k (assign m j v) ≡ (if same j k then some v else look k m)
  look-assign [] j k v = refl
  look-assign ((i, w) ∷ m) j k v = elim (Bool-cases (same i j)) [
    | inl here ↦
        let e = same-eq i j here in
        let both : same i k ≡ same j k = ap (λ t. same t k) e in
        elim (Bool-cases (same j k)) [
          | inl hit ↦ rw (here, both, hit) refl
          | inr miss ↦ rw (here, both, miss) refl
        ]
    | inr other ↦ elim (Bool-cases (same i k)) [
      | inl first ↦
          let e = same-eq i k first in
          let not_j : same j k ≡ false = unlike i j k e other in rw (other, first, not_j) refl
      | inr later ↦ rw (other, later) (look-assign m j k v)
    ]
  ]
    where
      unlike : (i j k : Bytes) → i ≡ k → same i j ≡ false → same j k ≡ false
      unlike i j k e differ = elim (Bool-cases (same j k)) [
        | inl hit ↦
            let all : same i i ≡ false = ap (same i) (e ∙ sym (same-eq j k hit)) ∙ differ in
            let impossible : true ≡ false = sym (same_refl i) ∙ all in cc
        | inr other ↦ other
      ]

  pub look-assign_hit : (m : List (Bytes × A)) (k : Bytes) (v : A) → look k (assign m k v) ≡ some v
  look-assign_hit m k v = look-assign m k k v ∙ rw (same_refl k) refl

-- The steps of a scan that succeeds
pub both_steps :
    (r : Result (Unit {0}) × Shape) (next : Shape → Result (Unit {0}) × Shape) (y : Shape)
    → and_then r next ≡ (ok tt, y)
    → (x : Shape) × (r ≡ (ok tt, x)) × (next x ≡ (ok tt, y))
both_steps (err e, x) next y h = let impossible : err e ≡ ok tt = ap (λ r. r.0) h in cc
both_steps (ok tt, x) next y h = (x, refl, h)
