-- ===== src/Xwal/Frames.antt =====
-- The fast decoders of frames in xwal/xwal.go: fastDecodeMainLT, fastDecodeFrame and jsonValueEnd.
-- A position in the frame is what is left of it there. `valid` is json.Valid, `unbase64` decodes
-- standard base64.
pub mod Numbers
pub mod Agree
use figwal.Common.{
  ℕ, zero, suc, ◌+◌, ◌-◌, ◌*◌, ◌/◌, ◌^◌, Bool, true, false, not, ◌&&◌, ◌||◌, Option, none, some,
  List, [], ◌∷◌, ◌++◌, ltb, leb, ◌==◌, if◌then◌else◌, length, take, drop,
}
use figwal.Result.{Result, ok, err}
use figwal.Segment.Bytes.{Bytes}

-- What is left behind a prefix
abbrev pub behind_prefix : Bytes → Bytes → Option Bytes
behind_prefix [] f = some f
behind_prefix (c ∷ cs) [] = none
behind_prefix (c ∷ cs) (b ∷ f) = let rest = behind_prefix cs f in if b == c then rest else none

-- {"m":  and  ,"p":  and  ,"p64":  and  ,"t":  and  ,"x":
abbrev pub main_prefix : Bytes
main_prefix = 123 ∷ 34 ∷ 109 ∷ 34 ∷ 58 ∷ []

abbrev pub payload_prefix : Bytes
payload_prefix = 44 ∷ 34 ∷ 112 ∷ 34 ∷ 58 ∷ []

abbrev pub opaque_prefix : Bytes
opaque_prefix = 44 ∷ 34 ∷ 112 ∷ 54 ∷ 52 ∷ 34 ∷ 58 ∷ []

abbrev pub ts_prefix : Bytes
ts_prefix = 44 ∷ 34 ∷ 116 ∷ 34 ∷ 58 ∷ []

abbrev pub meta_prefix : Bytes
meta_prefix = 44 ∷ 34 ∷ 120 ∷ 34 ∷ 58 ∷ []

abbrev pub is_digit : ℕ → Bool
is_digit b = leb 48 b && leb b 57

-- The loop on digits, from the number read so far: the number and what is left, or none where the
-- number would go past `top`.
unfoldable pub digits_loop : ℕ → ℕ → Bytes → Option (ℕ × Bytes)
digits_loop top n [] = some (n, [])
digits_loop top n (b ∷ f) =
    let d = b - 48 in
    let later = digits_loop top (n * 10 + d) f in
    if is_digit b then (if ltb ((top - d) / 10) n then none else later) else some (n, b ∷ f)

abbrev pub max_uint64 : ℕ
max_uint64 = 2 ^ 64 - 1

abbrev pub max_int64 : ℕ
max_int64 = 2 ^ 63 - 1

-- A number of one digit at least
abbrev pub some_digits : Bytes → Option (ℕ × Bytes) → Option (ℕ × Bytes)
some_digits f none = none
some_digits f (some (n, rest)) = if ltb (length rest) (length f) then some (n, rest) else none

abbrev pub number_at : ℕ → Bytes → Option (ℕ × Bytes)
number_at top f = some_digits f (digits_loop top 0 f)

module _ (valid : Bytes → Bool) where
  abbrev pub behind_main : Bytes → Option Bytes
  behind_main f = if not (leb (length f) 5) && valid f then behind_prefix main_prefix f else none

  -- A comma behind the number
  abbrev pub before_comma : Option (ℕ × Bytes) → Option ℕ
  before_comma none = none
  before_comma (some (n, [])) = none
  before_comma (some (n, b ∷ rest)) = if b == 44 then some n else none

  abbrev pub main_lt_at : Option Bytes → Option ℕ
  main_lt_at none = none
  main_lt_at (some f) = before_comma (number_at max_uint64 f)

  -- fastDecodeMainLT
  unfoldable pub fast_decode_main_lt : Bytes → Option ℕ
  fast_decode_main_lt f = main_lt_at (behind_main f)

  abbrev pub or_unmarshal : Option ℕ → Result ℕ → Result ℕ
  or_unmarshal none r = r
  or_unmarshal (some m) r = ok m

  -- decodeMainLT; `unmarshal` is json.Unmarshal into a struct with the member `m`.
  unfoldable pub decode_main_lt : (Bytes → Result ℕ) → Bytes → Result ℕ
  decode_main_lt unmarshal f = or_unmarshal (fast_decode_main_lt f) (unmarshal f)

abbrev pub plus : ℕ → Option ℕ → Option ℕ
plus n none = none
plus n (some k) = some (n + k)

-- jsonValueEnd: how many bytes the value takes. A string, behind its opening quote; `skip` says that
-- the byte is behind a backslash.
unfoldable pub string_end : Bool → Bytes → Option ℕ
string_end skip [] = none
string_end skip (b ∷ f) =
    let escaped = string_end true f in
    let later = string_end false f in
    if skip
    then plus 1 later
    else if b == 92
    then plus 1 escaped
    else if b == 34
    then some 1
    else plus 1 later

abbrev pub opens : ℕ → Bool
opens b = b == 123 || b == 91

abbrev pub closes : ℕ → Bool
closes b = b == 125 || b == 93

-- An object or an array, with the depth so far; a closing bracket comes behind an opening one.
unfoldable pub nested_end : ℕ → Bool → Bool → Bytes → Option ℕ
nested_end depth in_string skip [] = none
nested_end depth in_string skip (b ∷ f) =
    let go =
      λ (depth' : ℕ) (in_string' skip' : Bool). plus 1 (nested_end depth' in_string' skip' f) in
    if skip
    then go depth in_string false
    else if in_string
    then (if b == 92 then go depth true true else go depth (not (b == 34)) false)
    else if b == 34
    then go depth true false
    else if opens b
    then go (depth + 1) false false
    else if closes b
    then (if depth == 1 then some 1 else go (depth - 1) false false)
    else go depth false false

-- Any other value ends before a comma or a brace.
unfoldable pub scalar_end : Bytes → Option ℕ
scalar_end [] = none
scalar_end (b ∷ f) =
    let later = scalar_end f in if b == 44 || b == 125 then some 0 else plus 1 later

abbrev pub not_empty : Option ℕ → Option ℕ
not_empty none = none
not_empty (some k) = if ltb 0 k then some k else none

unfoldable pub json_value_end : Bytes → Option ℕ
json_value_end [] = none
json_value_end (b ∷ f) =
    if b == 34
    then plus 1 (string_end false f)
    else if opens b
    then nested_end 0 false false (b ∷ f)
    else not_empty (scalar_end (b ∷ f))

-- A frame's main LT, payload, meta and time stamp
pub record Frame : Type 0 where
  pub main_lt : ℕ
  pub payload : Bytes
  pub meta : Bytes
  pub ts : ℕ

-- A lone closing brace
abbrev pub closed : Bytes → Bool
closed [] = false
closed (b ∷ []) = b == 125
closed (b ∷ c ∷ f) = false

-- A value and what is left behind it
abbrev pub value_cut : Bytes → Option ℕ → Option (Bytes × Bytes)
value_cut f none = none
value_cut f (some k) = some (take k f, drop k f)

abbrev pub value_at : Bytes → Option (Bytes × Bytes)
value_at f = value_cut f (json_value_end f)

abbrev pub meta_value : ℕ → Bytes → ℕ → Option (Bytes × Bytes) → Option Frame
meta_value m p ts none = none
meta_value m p ts (some (x, rest)) =
    if closed rest then some (record { main_lt = m; payload = p; meta = x; ts = ts }) else none

abbrev pub meta_behind : ℕ → Bytes → ℕ → Option Bytes → Option Frame
meta_behind m p ts none = none
meta_behind m p ts (some f) = meta_value m p ts (value_at f)

-- The optional meta; the prefix is not the frame's end.
abbrev pub meta_at : ℕ → Bytes → ℕ → Bytes → Option Frame
meta_at m p ts f =
    meta_behind m p ts (if ltb 5 (length f) then behind_prefix meta_prefix f else none)

abbrev pub ts_value : ℕ → Bytes → Option (ℕ × Bytes) → Option Frame
ts_value m p none = none
ts_value m p (some (ts, rest)) =
    if closed rest
    then some (record { main_lt = m; payload = p; meta = []; ts = ts })
    else meta_at m p ts rest

-- The optional time stamp
abbrev pub ts_at : ℕ → Bytes → Bytes → Option Bytes → Option Frame
ts_at m p f none = meta_at m p 0 f
ts_at m p f (some g) =
    if ltb 5 (length f) then ts_value m p (number_at max_int64 g) else meta_at m p 0 f

abbrev pub behind_payload : ℕ → Bytes → Bytes → Option Frame
behind_payload m p f =
    if closed f
    then some (record { main_lt = m; payload = p; meta = []; ts = 0 })
    else ts_at m p f (behind_prefix ts_prefix f)

module _ (valid : Bytes → Bool) (unbase64 : Bytes → Option Bytes) where
  abbrev pub quoted_tail : Bytes → Option Bytes
  quoted_tail [] = none
  quoted_tail (b ∷ []) = if b == 34 then some [] else none
  quoted_tail (b ∷ c ∷ f) = elim (quoted_tail (c ∷ f)) [ none ↦ none | some g ↦ some (b ∷ g) ]

  -- What stands between two quotes
  abbrev pub unquoted : Bytes → Option Bytes
  unquoted [] = none
  unquoted (b ∷ f) = if b == 34 then quoted_tail f else none

  abbrev pub decoded_text : Option Bytes → Option Bytes
  decoded_text none = none
  decoded_text (some text) = unbase64 text

  abbrev pub opaque_payload : ℕ → Bytes → Option Bytes → Option Frame
  opaque_payload m rest none = none
  opaque_payload m rest (some p) = behind_payload m p rest

  abbrev pub payload_value : ℕ → Bool → Option (Bytes × Bytes) → Option Frame
  payload_value m is_opaque none = none
  payload_value m is_opaque (some (v, rest)) =
      if is_opaque
      then opaque_payload m rest (decoded_text (unquoted v))
      else behind_payload m v rest

  abbrev pub opaque_at : ℕ → Option Bytes → Option Frame
  opaque_at m none = none
  opaque_at m (some f) = payload_value m true (value_at f)

  -- The payload, plain or opaque
  abbrev pub payload_at : ℕ → Bytes → Option Bytes → Option Frame
  payload_at m f (some g) = payload_value m false (value_at g)
  payload_at m f none = opaque_at m (behind_prefix opaque_prefix f)

  abbrev pub behind_number : Option (ℕ × Bytes) → Option Frame
  behind_number none = none
  behind_number (some (m, f)) = payload_at m f (behind_prefix payload_prefix f)

  abbrev pub frame_at : Option Bytes → Option Frame
  frame_at none = none
  frame_at (some f) = behind_number (number_at max_uint64 f)

  -- fastDecodeFrame
  unfoldable pub fast_decode_frame : Bytes → Option Frame
  fast_decode_frame f = frame_at (behind_main valid f)
