-- ===== src/Xwal/Cuts.antt =====
-- The boundary of a fork and the coherent cut: the records at or below the index found are exactly
-- those whose main LT is at or below the limit.
use figwal.Common.{
  ℕ, ◌+◌, ◌-◌, ◌≤◌, ◌≡◌, refl, ap, ◌∙◌, arith, Option, none, some, [], ◌∷◌, leb, if◌then◌else◌,
  Bool-cases, inl, inr, leb→le, lt_of_not_leb, All,
}
use figwal.Result.{Result, ok}
use figwal.Segment.Bytes.{Bytes}
use figwal.Xwal.Channels.{Records, Channel, lookup_at_or_below, coherent_target, or_zero}
use figwal.Xwal.Lookups.{Descending, Falling}

module _ (decode : Bytes → Result ℕ) where
  -- A record lies at or below `cut` just where its main LT is at or below `limit`.
  abbrev pub Divides : ℕ → ℕ → Records → Type 0
  Divides cut limit = All (λ (r : ℕ × Bytes).
      (m : ℕ) × (decode r.1 ≡ ok m) × ((r.0 ≤ cut → m ≤ limit) × (m ≤ limit → r.0 ≤ cut)))

  all_below :
      (cut limit top bound : ℕ) (rs : Records)
      → Falling decode top rs
      → Descending bound rs
      → top ≤ limit
      → bound ≤ cut
      → Divides cut limit rs
  all_below cut limit top bound [] falls order a b = tt
  all_below cut limit top bound ((idx, f) ∷ rest) (m, d, le, falls) (pos, low, order) a b = (
    (m, d, ((λ h. omega arith), (λ h. omega arith))),
    all_below cut limit m (idx - 1) rest falls order (omega arith) (omega arith),
  )

  -- What a scan answers, and the cut that it means
  abbrev pub Cuts : ℕ → ℕ → Records → Result (Option ℕ) → Type 0
  Cuts bound limit rs r =
      (o : Option ℕ) × (r ≡ ok o)
      × (cut : ℕ) × (or_zero decode (ok o) ≡ ok cut)
      × (cut ≤ bound)
      × Divides cut limit rs

  pub lookup_at_or_below-Cuts :
      (limit top bound : ℕ) (rs : Records)
      → Falling decode top rs
      → Descending bound rs
      → Cuts bound limit rs (lookup_at_or_below decode rs limit)
  unfolding lookup_at_or_below
  lookup_at_or_below-Cuts limit top bound [] falls order = (none, refl, 0, refl, omega arith, tt)
  lookup_at_or_below-Cuts limit top bound ((idx, f) ∷ rest) (m, d, le, falls) (pos, low, order) =
      elim (Bool-cases (leb m limit)) [
        | inl within ↦
            let h = leb→le m limit within in
            (
              some idx,
              rw (d, within) refl,
              idx,
              refl,
              low,
              (
                (m, d, (λ k. h, λ k. omega arith)),
                all_below idx limit m (idx - 1) rest falls order h (omega arith),
              ),
            )
        | inr above ↦
            let h = lt_of_not_leb m limit above in
            let (o, r, cut, c, le_cut, divides) =
              lookup_at_or_below-Cuts limit m (idx - 1) rest falls order in
            (
              o,
              rw (d, above) r,
              cut,
              c,
              omega (arith, le_cut),
              ((m, d, (λ k. omega (arith, k, le_cut, pos), λ k. omega (arith, k, h))), divides),
            )
      ]

  -- The coherent target is a cut of the pending records: it takes exactly those whose main LT is
  -- durable, and for a reducible channel those one ahead.
  pub coherent_target-Divides :
      (ch : Channel) (main_tail top bound : ℕ) (pending : Records)
      → Falling decode top pending
      → Descending bound pending
      → (cut : ℕ) × (coherent_target decode ch pending main_tail ≡ ok cut)
        × (cut ≤ bound)
        × Divides cut (if ch.reducible then main_tail + 1 else main_tail) pending
  unfolding coherent_target
  coherent_target-Divides ch main_tail top bound pending falls order =
      let limit = if ch.reducible then main_tail + 1 else main_tail in
      let (o, r, cut, c, le, divides) =
        lookup_at_or_below-Cuts limit top bound pending falls order in
      (cut, ap (λ x. or_zero decode x) r ∙ c, le, divides)
