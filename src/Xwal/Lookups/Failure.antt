-- ===== src/Xwal/Lookups/Failure.antt =====
-- A lookup whose scan fails at the newest record.
use figwal.Common.{
  ℕ, ◌≡◌, refl, arith, Bool, true, false, none, [], ◌∷◌, leb, ◌==◌, Bool-cases, inl, inr, le→ltb,
}
use figwal.Result.{Error, Result, ok, err}
use figwal.Segment.Bytes.{Bytes}
use figwal.Xwal.Channels.{Records, Channel, skip_above, visited, index_scan, lookup}

-- A channel as it is opened
abbrev pub opened : Records → Bool → Channel
opened rs reducible = record {
  records = rs;
  reducible = reducible;
  unkeyed = false;
  fk = [];
  fk_built = false;
  fk_next = 0;
  fk_floor = 0;
  fk_scan = false;
}

visited_from_last :
    (idx : ℕ) (f : Bytes) (rest : Records) → visited idx ((idx, f) ∷ rest) ≡ (idx, f) ∷ rest
unfolding skip_above
visited_from_last idx f rest = elim (Bool-cases (idx == 0)) [
  | inl all ↦ rw all refl
  | inr part ↦ rw (part, le→ltb idx idx (omega arith)) refl
]

module _ (decode : Bytes → Result ℕ) where
  -- Where the first lookup of a channel fails at the newest record, it answers the error, and every
  -- later lookup, of any main LT, answers that there is no record, without an error and without a
  -- look at the log.
  pub failed_scan_hides :
      (rs : Records) (reducible : Bool) (idx main_lt : ℕ) (f : Bytes) (e : Error)
      → decode f ≡ err e
      → let ch : Channel = (lookup decode (opened ((idx, f) ∷ rs) reducible) main_lt).1 in
        ((lookup decode (opened ((idx, f) ∷ rs) reducible) main_lt).0 ≡ err e)
        × ((k : ℕ) → lookup decode ch k ≡ (ok none, ch))
  unfolding lookup index_scan
  failed_scan_hides rs reducible idx main_lt f e d =
      rw (visited_from_last idx f rs, d) (refl, λ k. rw (zero_least k) refl)
    where
      zero_least : (k : ℕ) → leb 0 k ≡ true
      zero_least k = ground arith
