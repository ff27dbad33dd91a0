-- ===== src/Forest/Stretches.antt =====
-- What the layer below holds: units by their coordinate, and the stretch of a range of them.
use mathlib.Core.Path.{subst}
use figwal.Common.{
  ℕ, zero, suc, ◌+◌, ◌≤◌, ◌<◌, ◌≡◌, refl, sym, ap, ◌∙◌, arith, true, false, List, [], ◌∷◌, ◌++◌,
  append_assoc, append-nil, leb, All, All-append, ◌⊎◌, inl, inr,
}
use figwal.Segment.Bytes.{Bytes}
use figwal.Forest.Window.{skip_to, up_to, slice_units}

module _ {U : Type 0} (content : Bytes → ℕ → List U) where
  -- The units of the `n` coordinates behind `lo`
  abbrev pub stretch : Bytes → ℕ → ℕ → List U
  stretch node lo zero = []
  stretch node lo (suc n) = content node (suc lo) ++ stretch node (suc lo) n

  pub stretch-append :
      (node : Bytes) (lo m n : ℕ)
      → stretch node lo (m + n) ≡ stretch node lo m ++ stretch node (lo + m) n
  stretch-append node lo zero n =
      ap (λ k. stretch node lo k) (omega arith) ∙ ap (λ k. stretch node k n) (omega arith)
  stretch-append node lo (suc m) n =
      ap (λ k. stretch node lo k) (suc_out m n)
      ∙ ap (λ t. content node (suc lo) ++ t)
          (stretch-append node (suc lo) m n
            ∙ ap (λ k. stretch node (suc lo) m ++ stretch node k n) (omega arith))
      ∙ sym (
          append_assoc (content node (suc lo)) (stretch node (suc lo) m)
            (stretch node (lo + suc m) n))
    where
      suc_out : (m k : ℕ) → suc m + k ≡ suc (m + k)
      suc_out m k = omega arith

  module _ (key : U → ℕ)
      (keyed : (node : Bytes) (k : ℕ) → All (λ u. key u ≡ k) (content node k)) where
    Within : ℕ → ℕ → List U → Type 0
    Within lo hi = All (λ u. (lo < key u) × (key u ≤ hi))

    keyed_inside :
        (us : List U) (k lo hi : ℕ) → lo < k → k ≤ hi → All (λ u. key u ≡ k) us → Within lo hi us
    unfolding Within
    keyed_inside [] k lo hi l h a = tt
    keyed_inside (u ∷ us) k lo hi l h (e, a) =
        ((omega (arith, e), omega (arith, e)), keyed_inside us k lo hi l h a)

    stretch-Within :
        (node : Bytes) (lo n a b : ℕ) → a ≤ lo → lo + n ≤ b → Within a b (stretch node lo n)
    unfolding Within
    stretch-Within node lo zero a b h k = tt
    stretch-Within node lo (suc n) a b h k =
        All-append (λ u. (a < key u) × (key u ≤ b)) (content node (suc lo))
          (stretch node (suc lo) n)
          (unfold Within in
            keyed_inside (content node (suc lo)) (suc lo) a b (omega arith) (omega arith)
              (keyed node (suc lo)))
          (stretch-Within node (suc lo) n a b (omega arith) (omega arith))

    skip_to-low :
        (from lo : ℕ) (us vs : List U)
        → Within lo from us
        → skip_to key from (us ++ vs) ≡ skip_to key from vs
    unfolding skip_to Within
    skip_to-low from lo [] vs w = refl
    skip_to-low from lo (u ∷ us) vs ((a, b), w) =
        let yes : leb (key u) from ≡ true = ground arith in rw yes (skip_to-low from lo us vs w)

    skip_to-high : (from hi : ℕ) (us : List U) → Within from hi us → skip_to key from us ≡ us
    unfolding skip_to Within
    skip_to-high from hi [] w = refl
    skip_to-high from hi (u ∷ us) ((a, b), w) =
        let no : leb (key u) from ≡ false = ground arith in rw no refl

    up_to-low :
        (to lo : ℕ) (us vs : List U)
        → Within lo to us
        → up_to key to (us ++ vs) ≡ us ++ up_to key to vs
    unfolding up_to Within
    up_to-low to lo [] vs w = refl
    up_to-low to lo (u ∷ us) vs ((a, b), w) =
        let yes : leb (key u) to ≡ true = ground arith in
        rw yes (ap (λ t. u ∷ t) (up_to-low to lo us vs w))

    up_to-high : (to hi : ℕ) (us : List U) → Within to hi us → up_to key to us ≡ []
    unfolding up_to Within
    up_to-high to hi [] w = refl
    up_to-high to hi (u ∷ us) ((a, b), w) =
        let no : leb (key u) to ≡ false = ground arith in rw no refl

    low_part :
        (node : Bytes) (lo n to : ℕ) → (n ≡ 0) ⊎ (lo + n ≤ to) → Within lo to (stretch node lo n)
    unfolding Within
    low_part node lo n to (inl e) =
        subst (λ k. All (λ u. (lo < key u) × (key u ≤ to)) (stretch node lo k)) (sym e) tt
    low_part node lo n to (inr le) = stretch-Within node lo n lo to (omega arith) le

    high_part :
        (node : Bytes) (lo n to : ℕ) → (n ≡ 0) ⊎ (to ≤ lo) → up_to key to (stretch node lo n) ≡ []
    unfolding up_to
    high_part node lo n to (inl e) = ap (λ k. up_to key to (stretch node lo k)) e
    high_part node lo n to (inr le) =
        up_to-high to (lo + n) (stretch node lo n)
          (stretch-Within node lo n to (lo + n) le (omega arith))

    -- The slice of a stretch is the part of it in the range asked for.
    pub slice_units-stretch :
        (node : Bytes) (lo below here above from to : ℕ)
        → (below ≡ 0) ⊎ (lo + below ≤ from)
        → from ≤ lo + below
        → lo + below + here ≤ to
        → (above ≡ 0) ⊎ (to ≤ lo + below + here)
        → slice_units key (stretch node lo (below + (here + above))) from to
          ≡ stretch node (lo + below) here
    unfolding slice_units
    slice_units-stretch node lo below here above from to a b c d =
        let mid = stretch node (lo + below) here in
        let end = stretch node (lo + below + here) above in
        let rest : stretch node (lo + below) (here + above) ≡ mid ++ end =
          stretch-append node (lo + below) here above in
        let skipped : skip_to key from (stretch node lo (below + (here + above))) ≡ mid ++ end =
          ap (skip_to key from) (stretch-append node lo below (here + above))
          ∙ skip_to-low from lo (stretch node lo below) (stretch node (lo + below) (here + above))
              (low_part node lo below from a)
          ∙ skip_to-high from (lo + below + (here + above))
              (stretch node (lo + below) (here + above))
              (stretch-Within node (lo + below) (here + above) from _ b (omega arith))
          ∙ rest in
        ap (up_to key to) skipped
        ∙ up_to-low to (lo + below) mid end (low_part node (lo + below) here to (inr c))
        ∙ ap (λ t. mid ++ t) (high_part node (lo + below + here) above to d)
        ∙ append-nil mid
