-- ===== src/Forest/Charges.antt =====
-- The meter stays true under the operations of a cache and under the idle sweep.
use figwal.Common.{
  ℕ, zero, suc, ◌+◌, ◌≡◌, refl, sym, ap, ◌∙◌, arith, ℤ, Bool, true, false, ◌&&◌, Option, none, some,
  List, [], ◌∷◌, ltb, leb, Bool-cases, ge_of_not_ltb, inl, inr,
}
use figwal.Values.{same}
use figwal.Forest.{
  Coord, Run, Cache, World, coldest, evict_coldest, owners, resident_bytes, same_coord, trim_loop,
  trim_round, trim_owners, cutoff_of, trim_idle, at, replace, insert, resident_part, dropped,
  drop_run, sizes, put_at, bumped, put, close, evictables,
}
use figwal.Forest.Meter.{total, Metered, charge-Metered, evict_coldest-bytes}

module _ {U : Type 0} where
  resident_bytes-insert :
      (r : Run U) (rs : List (Run U))
      → resident_bytes (insert r rs) ≡ resident_part r + resident_bytes rs
  unfolding insert
  resident_bytes-insert r [] = refl
  resident_bytes-insert r (x ∷ rest) =
      elim (Bool-cases (same x.coord.node r.coord.node && leb r.coord.from x.coord.from)) [
        | inl here ↦ rw here refl
        | inr later ↦ rw later (omega (arith, resident_bytes-insert r rest))
      ]

  -- The run that `at` finds is the one that is replaced.
  resident_bytes-replace :
      (coord : Coord) (new old : Run U) (rs : List (Run U))
      → at coord rs ≡ some old
      → resident_bytes (replace coord new rs) + resident_part old
        ≡ resident_part new + resident_bytes rs
  unfolding at replace
  resident_bytes-replace coord new old [] h = cc
  resident_bytes-replace coord new old (r ∷ rest) h =
      elim (Bool-cases (same r.coord.node coord.node && leb coord.from r.coord.from)) [
        | inr later ↦
            rw later
              (omega (arith, resident_bytes-replace coord new old rest (sym (rw later refl) ∙ h)))
        | inl here ↦ elim (Bool-cases (same_coord r.coord coord)) [
          | inl is ↦
              let e : r ≡ old = some_injective r old (sym (rw (here, is) refl) ∙ h) in
              rw (here, is) (omega (arith, ap (λ (t : Run U). resident_part t) e))
          | inr differs ↦ absurd_none old (sym (rw (here, differs) refl) ∙ h)
        ]
      ]
    where
      some_injective : (a b : Run U) → some a ≡ some b → a ≡ b
      some_injective a b e = cc

      absurd_none :
          (a : Run U)
          → none ≡ some a
          → resident_bytes (replace coord new (r ∷ rest)) + resident_part old
            ≡ resident_part new + resident_bytes (r ∷ rest)
      absurd_none a e = cc

  dropped-Metered :
      (w : World U) (coord : Coord) (o : Option (Run U))
      → at coord w.self.runs ≡ o
      → Metered w
      → Metered (dropped w coord o)
  dropped-Metered w coord none e m = m
  dropped-Metered w coord (some r) e m = elim (Bool-cases r.resident) [
    | inr hollow ↦ rw hollow m
    | inl there ↦
        let gone = record r { units = []; resident = false; pinned = false } in
        let moved = resident_bytes-replace coord gone r w.self.runs e in
        let part : resident_part r ≡ r.bytes = rw there refl in
        rw there (omega (arith, m, moved, part))
  ]

  -- Drop keeps the meter true.
  pub drop_run-Metered : (w : World U) (coord : Coord) → Metered w → Metered (drop_run w coord)
  unfolding drop_run
  drop_run-Metered w coord m = dropped-Metered w coord (at coord w.self.runs) refl m

  -- Close leaves a budget of exactly the other owners' bytes.
  pub close_lem : (w : World U) → Metered w → (close w).bytes ≡ total w.others
  unfolding close
  close_lem w m = omega (arith, m)

  module _ (recency : ℕ → Coord → ℕ) where
    put_at-Metered :
        (size : U → ℕ) (w : World U) (r : Run U) (o : Option (Run U))
        → at r.coord w.self.runs ≡ o
        → r.resident ≡ true
        → Metered w
        → Metered (put_at recency size w r o)
    put_at-Metered size w r none e there m =
        let part : resident_part r ≡ r.bytes = rw there refl in
        charge-Metered recency (record w { self = record w.self { runs = insert r w.self.runs } })
          r.bytes 0 (omega (arith, m, resident_bytes-insert r w.self.runs, part))
    put_at-Metered size w r (some old) e there m =
        let part : resident_part r ≡ r.bytes = rw there refl in
        charge-Metered recency
          (record w { self = record w.self { runs = replace r.coord r w.self.runs } }) r.bytes
          (resident_part old)
          (omega (arith, m, resident_bytes-replace r.coord r old w.self.runs e, part))

    -- Put keeps the meter true, whether the run is new or replaces one, and whatever it evicts.
    pub put-Metered :
        (size : U → ℕ) (w : World U) (coord : Coord) (units : List U) (pinned : Bool)
        → Metered w
        → Metered (put recency size w coord units pinned)
    unfolding put
    put-Metered size w coord units pinned m =
        put_at-Metered size (bumped recency size w)
          (record {
            coord = coord;
            units = units;
            bytes = sizes recency size units;
            epoch = w.budget.epoch + 1;
            pinned = pinned;
            resident = true;
          })
          (at coord w.self.runs) refl refl m

    trim_round-bytes :
        (cutoff : ℕ) (c : Cache U) (o : Option ℕ) (r : ℕ × Cache U) (more : ℕ × ℕ × Cache U)
        → r.0 + resident_bytes r.1.runs ≡ resident_bytes c.runs
        → more.1 + resident_bytes more.2.runs ≡ resident_bytes r.1.runs
        → (trim_round recency cutoff c o r more).1
            + resident_bytes (trim_round recency cutoff c o r more).2.runs
          ≡ resident_bytes c.runs
    trim_round-bytes cutoff c none r more h g = omega arith
    trim_round-bytes cutoff c (some e) r more h g = elim (Bool-cases (leb cutoff e)) [
      | inl fresh ↦ rw fresh (omega arith)
      | inr stale ↦ elim (Bool-cases (ltb 0 r.0)) [
        | inl some_freed ↦ rw (stale, some_freed) (omega (arith, h, g))
        | inr none_freed ↦ rw (stale, none_freed) (omega (arith, h, ge_of_not_ltb 0 r.0 none_freed))
      ]
    ]

    trim_loop-bytes :
        (fuel cutoff : ℕ) (c : Cache U)
        → (trim_loop recency fuel cutoff c).1
            + resident_bytes (trim_loop recency fuel cutoff c).2.runs
          ≡ resident_bytes c.runs
    unfolding trim_loop
    trim_loop-bytes zero cutoff c = omega arith
    trim_loop-bytes (suc fuel) cutoff c =
        let r = evict_coldest recency c in
        trim_round-bytes cutoff c (coldest recency c) r (trim_loop recency fuel cutoff r.1)
          (evict_coldest-bytes recency c) (trim_loop-bytes fuel cutoff r.1)

    trim_owners-bytes :
        (cutoff : ℕ) (cs : List (Cache U))
        → (trim_owners recency cutoff cs).1 + total (trim_owners recency cutoff cs).2 ≡ total cs
    unfolding trim_owners
    trim_owners-bytes cutoff [] = omega arith
    trim_owners-bytes cutoff (c ∷ cs) =
        omega (arith, trim_loop-bytes (evictables c.runs) cutoff c, trim_owners-bytes cutoff cs)

    -- The idle sweep keeps the meter true, and the bytes that it reports are those that the meter
    -- has lost.
    pub trim_idle-Metered :
        (w : World U) (keep : ℤ)
        → Metered w
        → Metered (trim_idle recency w keep).1
          × ((trim_idle recency w keep).1.budget.bytes + (trim_idle recency w keep).0.1
              ≡ w.budget.bytes)
    unfolding trim_idle trim_owners
    trim_idle-Metered w keep m =
        let all = trim_owners-bytes (cutoff_of w.budget.epoch keep) (owners w) in
        (omega (arith, m, all), omega (arith, m, all))
