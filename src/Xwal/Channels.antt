-- ===== src/Xwal/Channels.antt =====
-- `channel` of xwal/xwal.go and its operations: appends, the foreign-key index behind Lookup, the
-- boundary of a fork and the coherent cut. A channel's log is the records that its scans visit, the
-- newest first, each with its index; the index 0 is none. `decode` is decodeMainLT, `encode` is
-- encodeChannelFrame, with a frame's payload, meta and time stamp as one value.
use figwal.Common.{
  ℕ, ◌+◌, ◌-◌, Bool, true, false, ◌&&◌, ◌||◌, Option, none, some, List, [], ◌∷◌, ltb, leb, ◌==◌,
  if◌then◌else◌,
}
use figwal.Result.{Error, Result, ok, err, other}
use figwal.Segment.Bytes.{Bytes}

abbrev pub Records : Type 0
Records = List (ℕ × Bytes)

-- What a call of a log's Write comes to: the record is in the log; or it was refused with an error;
-- or it is in the log, went past the bound on pending bytes, and the sync that followed failed.
pub data Wrote : Type 0 where
  wrote : Wrote
  rejected unsynced : Error → Wrote

-- `fk` is a Go map as a list of entries; the first one of a key counts.
pub record Channel : Type 0 where
  pub records : Records
  pub reducible : Bool
  pub unkeyed : Bool
  pub fk : List (ℕ × ℕ)
  pub fk_built : Bool
  pub fk_next : ℕ
  pub fk_floor : ℕ
  pub fk_scan : Bool

abbrev pub fk_at : List (ℕ × ℕ) → ℕ → Option ℕ
fk_at [] m = none
fk_at ((k, idx) ∷ rest) m = if k == m then some idx else fk_at rest m

-- LastIndex
abbrev pub last_of : Records → ℕ
last_of [] = 0
last_of ((idx, f) ∷ rest) = idx

-- What ScanFromEnd visits from an index down
unfoldable pub skip_above : ℕ → Records → Records
skip_above from [] = []
skip_above from ((idx, f) ∷ rest) =
    let later = skip_above from rest in if ltb from idx then later else (idx, f) ∷ rest

abbrev pub visited : ℕ → Records → Records
visited from rs = if from == 0 then rs else skip_above from rs

abbrev pub or_add : Option ℕ → ℕ → ℕ → List (ℕ × ℕ) → List (ℕ × ℕ)
or_add none m idx fk = (m, idx) ∷ fk
or_add (some i) m idx fk = fk

-- What the scan of `lookup` makes of a record with the main LT `m`
abbrev pub noted : Channel → ℕ → ℕ → Channel
noted ch idx m = record ch {
  fk = or_add (fk_at ch.fk m) m idx ch.fk;
  fk_floor = m;
  fk_next = if ltb 0 idx then idx - 1 else ch.fk_next;
}

-- How a scan ends: stopped by its callback, at its end, or with an error
pub data Ended : Type 0 where
  stopped finished : Ended
  failed : Error → Ended

module _ (decode : Bytes → Result ℕ) where
  abbrev pub note_with : Channel → ℕ → Result ℕ → ℕ → (Channel → Ended × Channel) → Ended × Channel
  note_with ch idx (err e) main_lt go = (failed e, ch)
  note_with ch idx (ok m) main_lt go =
      if leb m main_lt then (stopped, noted ch idx m) else go (noted ch idx m)

  -- The scan of `lookup`
  unfoldable pub index_scan : ℕ → Records → Channel → Ended × Channel
  index_scan main_lt [] ch = (finished, ch)
  index_scan main_lt ((idx, f) ∷ rest) ch =
      note_with ch idx (decode f) main_lt (λ ch'. index_scan main_lt rest ch')

  abbrev pub after_scan : ℕ → Ended × Channel → Result (Option ℕ) × Channel
  after_scan main_lt (failed e, ch) = (err e, ch)
  after_scan main_lt (stopped, ch) = (ok (fk_at ch.fk main_lt), ch)
  after_scan main_lt (finished, ch) = (ok (fk_at ch.fk main_lt), record ch { fk_built = true })

  abbrev pub scanning : Channel → Channel
  scanning ch =
      if ch.fk_scan then ch else record ch { fk_next = last_of ch.records; fk_scan = true }

  abbrev pub lookup_with : Channel → ℕ → Option ℕ → Result (Option ℕ) × Channel
  lookup_with ch main_lt (some lt) = (ok (some lt), ch)
  lookup_with ch main_lt none =
      if ch.fk_built || (ch.fk_scan && leb ch.fk_floor main_lt)
      then (ok none, ch)
      else after_scan main_lt
          (index_scan main_lt (visited (scanning ch).fk_next ch.records) (scanning ch))

  unfoldable pub lookup : Channel → ℕ → Result (Option ℕ) × Channel
  lookup ch main_lt = lookup_with ch main_lt (fk_at ch.fk main_lt)

  abbrev pub at_most : ℕ → ℕ → Result ℕ → Result (Option ℕ) → Result (Option ℕ)
  at_most idx limit (err e) later = err e
  at_most idx limit (ok m) later = if leb m limit then ok (some idx) else later

  -- The scan of lookupAtOrBelow: the first record met whose main LT is at or below the limit
  unfoldable pub lookup_at_or_below : Records → ℕ → Result (Option ℕ)
  lookup_at_or_below [] main_lt = ok none
  lookup_at_or_below ((idx, f) ∷ rest) main_lt =
      let later = lookup_at_or_below rest main_lt in at_most idx main_lt (decode f) later

  abbrev pub or_zero : Result (Option ℕ) → Result ℕ
  or_zero (err e) = err e
  or_zero (ok none) = ok 0
  or_zero (ok (some idx)) = ok idx

  -- coherentTarget, whose loop goes down the pending records as the scan above does
  unfoldable pub coherent_target : Channel → Records → ℕ → Result ℕ
  coherent_target ch pending main_tail =
      or_zero (lookup_at_or_below pending (if ch.reducible then main_tail + 1 else main_tail))

  abbrev pub tail_with : Result ℕ → Result (Option ℕ)
  tail_with (err e) = err e
  tail_with (ok m) = ok (some m)

  -- tailMain
  unfoldable pub tail_main : Records → Result (Option ℕ)
  tail_main [] = ok none
  tail_main ((idx, f) ∷ rest) = tail_with (decode f)

  abbrev pub refused : ℕ → Option ℕ → Bool
  refused main_lt none = false
  refused main_lt (some last) = ltb main_lt last

  module _ {Body : Type 0} (encode : ℕ → Body → Bytes) (outcome : Wrote) where
    -- A write at the index behind the last one; `fk` is the index where it succeeds.
    abbrev pub written : Channel → ℕ → Body → List (ℕ × ℕ) → Wrote → Result ℕ × Channel
    written ch m body fk (rejected e) = (err e, ch)
    written ch m body fk (unsynced e) =
        (err e, record ch { records = (last_of ch.records + 1, encode m body) ∷ ch.records })
    written ch m body fk wrote =
        let next = last_of ch.records + 1 in
        (ok next, record ch { records = (next, encode m body) ∷ ch.records; fk = fk })

    abbrev pub append_keyed : Channel → ℕ → Body → Result (Option ℕ) → Result ℕ × Channel
    append_keyed ch m body (err e) = (err e, ch)
    append_keyed ch m body (ok tail) =
        if refused m tail
        then (err other, ch)
        else written ch m body
            (if ch.fk_scan || ch.fk_built then (m, last_of ch.records + 1) ∷ ch.fk else ch.fk)
            outcome

    -- Append, to a channel that is not the main one
    unfoldable pub append : Channel → ℕ → Body → Result ℕ × Channel
    append ch m body =
        if ch.unkeyed
        then written ch 0 body ch.fk outcome
        else append_keyed ch m body (tail_main ch.records)
