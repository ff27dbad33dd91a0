-- ===== src/Xwal/Runs.antt =====
-- Concrete channels and frames, and the theorems about them at concrete inputs.
use figwal.Common.{ℕ, ◌≡◌, ◌≤◌, refl, arith, Bool, true, Option, none, some, [], ◌∷◌}
use figwal.Result.{Result, ok, err, corrupt}
use figwal.Segment.Bytes.{Bytes}
use figwal.Xwal.Frames.{
  fast_decode_main_lt, fast_decode_frame, digits_loop, json_value_end, string_end, nested_end,
}
use figwal.Xwal.Frames.Numbers.{fast_decode_main_lt-decimal, numbered_frame}
use figwal.Xwal.Channels.{
  Records, Channel, wrote, unsynced, append, lookup, coherent_target, index_scan, skip_above,
  tail_main,
}
use figwal.Xwal.Lookups.{newest}
use figwal.Xwal.Lookups.Failure.{opened, failed_scan_hides}
use figwal.Xwal.Lookups.Scans.{Indexed}
use figwal.Xwal.Lookups.Answers.{Answered, lookup-Answered}
use figwal.Xwal.Appends.{Joined, append-Joined, unsynced_append_hides}
use figwal.Xwal.Cuts.{Divides, coherent_target-Divides}

abbrev anything : Bytes → Bool
anything f = true

abbrev unread : Bytes → Option Bytes
unread f = none

-- {"m":42,"p":"a","t":7}
abbrev plain_frame : Bytes
plain_frame =
    123 ∷ 34 ∷ 109 ∷ 34 ∷ 58 ∷ 52 ∷ 50 ∷ 44 ∷ 34 ∷ 112 ∷ 34 ∷ 58 ∷ 34 ∷ 97 ∷ 34 ∷ 44 ∷ 34 ∷ 116 ∷ 34
    ∷ 58 ∷ 55 ∷ 125 ∷ []

reads_plain :
    fast_decode_frame anything unread plain_frame
    ≡ some (record { main_lt = 42; payload = 34 ∷ 97 ∷ 34 ∷ []; meta = []; ts = 7 })
unfolding fast_decode_frame digits_loop json_value_end string_end
reads_plain = refl

-- {"a":"}"} is cut at its last brace.
cuts_object : json_value_end (123 ∷ 34 ∷ 97 ∷ 34 ∷ 58 ∷ 34 ∷ 125 ∷ 34 ∷ 125 ∷ 44 ∷ []) ≡ some 9
unfolding json_value_end nested_end
cuts_object = refl

fast_decode_main_lt-decimal_example :
    fast_decode_main_lt anything (numbered_frame (52 ∷ 50 ∷ []) (34 ∷ [])) ≡ some 42
fast_decode_main_lt-decimal_example =
    fast_decode_main_lt-decimal anything 52 (50 ∷ []) (34 ∷ []) (refl, (refl, tt)) refl

-- Frames of one byte, the main LT
abbrev one_byte : Bytes → Result ℕ
one_byte [] = err corrupt
one_byte (m ∷ f) = ok m

abbrev framed : ℕ → Bytes → Bytes
framed m p = m ∷ p

abbrev three_records : Records
three_records = (3, 9 ∷ []) ∷ (2, 4 ∷ []) ∷ (1, 4 ∷ []) ∷ []

abbrev related : Channel
related = opened three_records true

related-Indexed : Indexed one_byte related
related-Indexed = record {
  top = 9;
  falls = (9, refl, omega arith, (4, refl, omega arith, (4, refl, omega arith, refl)));
  order = (omega arith, omega arith, (omega arith, omega arith, (omega arith, omega arith, refl)));
  knows = λ s. cc;
  next = omega arith;
  built = λ b. cc;
  floor = λ s. cc;
  fresh = λ off. (refl, refl);
}

lookup-Answered_example : Answered one_byte related 4 (lookup one_byte related 4)
lookup-Answered_example = lookup-Answered one_byte 4 related related-Indexed

finds_newest : (lookup one_byte related 4).0 ≡ ok (some 2)
unfolding lookup index_scan skip_above
finds_newest = refl

append-Joined_example :
    Joined one_byte framed
      (λ m body. refl)
      related
      9
      []
      wrote
      (append one_byte framed wrote related 9 [])
append-Joined_example =
    append-Joined one_byte framed (λ m body. refl) related 9 [] wrote refl related-Indexed

-- The channel behind a lookup whose scan went to the end, which leaves the index whole
abbrev whole : Channel
whole = (lookup one_byte related 0).1

unsynced_append_hides_example :
    ((append one_byte framed (unsynced corrupt) whole 9 []).0 ≡ err corrupt)
    × (newest one_byte (append one_byte framed (unsynced corrupt) whole 9 []).1.records 9 ≡ some 4)
    × ((lookup one_byte (append one_byte framed (unsynced corrupt) whole 9 []).1 9).0
        ≡ ok (newest one_byte whole.records 9))
unfolding lookup index_scan skip_above tail_main
unsynced_append_hides_example =
    unsynced_append_hides one_byte framed (λ m body. refl) whole 9 [] corrupt (some 9) refl refl
      (lookup-Answered one_byte 0 related related-Indexed).2 refl refl

refuses_older : (append one_byte framed wrote related 4 []).1 ≡ related
unfolding append tail_main
refuses_older = refl

coherent_target-Divides_example :
    (cut : ℕ) × (coherent_target one_byte related three_records 4 ≡ ok cut)
    × (cut ≤ 3)
    × Divides one_byte cut 5 three_records
coherent_target-Divides_example =
    coherent_target-Divides one_byte related 4 9 3 three_records
      (9, refl, omega arith, (4, refl, omega arith, (4, refl, omega arith, refl)))
      (omega arith, omega arith, (omega arith, omega arith, (omega arith, omega arith, refl)))

failed_scan_hides_example :
    ((lookup one_byte (opened ((2, []) ∷ (1, 4 ∷ []) ∷ []) true) 4).0 ≡ err corrupt)
    × ((k : ℕ)
        → lookup one_byte (lookup one_byte (opened ((2, []) ∷ (1, 4 ∷ []) ∷ []) true) 4).1 k
          ≡ (ok none, (lookup one_byte (opened ((2, []) ∷ (1, 4 ∷ []) ∷ []) true) 4).1))
failed_scan_hides_example = failed_scan_hides one_byte ((1, 4 ∷ []) ∷ []) true 2 4 [] corrupt refl
