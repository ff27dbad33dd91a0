-- ===== src/Xwal/Frames/Agree.antt =====
-- The two fast decoders agree on the main LT.
use figwal.Common.{
  ℕ, ◌≡◌, refl, sym, ap, ◌∙◌, Bool, true, false, Option, none, some, [], ◌∷◌, ltb, ◌==◌,
  if◌then◌else◌, length, Bool-cases, inl, inr,
}
use figwal.Segment.Bytes.{Bytes}
use figwal.Xwal.Frames.{
  number_at, behind_prefix, behind_main, main_lt_at, before_comma, fast_decode_main_lt, Frame,
  closed, value_at, meta_value, meta_behind, meta_at, ts_value, ts_at, behind_payload, decoded_text,
  unquoted, opaque_payload, payload_value, opaque_at, payload_at, behind_number, frame_at,
  fast_decode_frame, payload_prefix, opaque_prefix, meta_prefix, ts_prefix, max_uint64, max_int64,
}

-- A frame, if there is one, has this main LT.
abbrev Has : ℕ → Option Frame → Type 0
Has m o = (fr : Frame) → o ≡ some fr → fr.main_lt ≡ m

some_main : (a b : Frame) → some a ≡ some b → b.main_lt ≡ a.main_lt
some_main a b e = cc

if_Has : (m : ℕ) (b : Bool) (s t : Option Frame) → Has m s → Has m t → Has m (if b then s else t)
if_Has m true s t p q = p
if_Has m false s t p q = q

none-Has : (m : ℕ) → Has m none
none-Has m fr e = cc

some-Has : (fr : Frame) → Has fr.main_lt (some fr)
some-Has fr fr' e = some_main fr fr' e

meta_value-Has :
    (m : ℕ) (p : Bytes) (ts : ℕ) (o : Option (Bytes × Bytes)) → Has m (meta_value m p ts o)
meta_value-Has m p ts none = none-Has m
meta_value-Has m p ts (some (x, rest)) =
    if_Has m (closed rest) (some (record { main_lt = m; payload = p; meta = x; ts = ts })) none
      (some-Has _) (none-Has m)

meta_behind-Has : (m : ℕ) (p : Bytes) (ts : ℕ) (o : Option Bytes) → Has m (meta_behind m p ts o)
meta_behind-Has m p ts none = none-Has m
meta_behind-Has m p ts (some f) = meta_value-Has m p ts (value_at f)

meta_at-Has : (m : ℕ) (p : Bytes) (ts : ℕ) (f : Bytes) → Has m (meta_at m p ts f)
meta_at-Has m p ts f =
    meta_behind-Has m p ts (if ltb 5 (length f) then behind_prefix meta_prefix f else none)

ts_value-Has : (m : ℕ) (p : Bytes) (o : Option (ℕ × Bytes)) → Has m (ts_value m p o)
ts_value-Has m p none = none-Has m
ts_value-Has m p (some (ts, rest)) =
    if_Has m (closed rest) (some (record { main_lt = m; payload = p; meta = []; ts = ts }))
      (meta_at m p ts rest) (some-Has _) (meta_at-Has m p ts rest)

ts_at-Has : (m : ℕ) (p f : Bytes) (o : Option Bytes) → Has m (ts_at m p f o)
ts_at-Has m p f none = meta_at-Has m p 0 f
ts_at-Has m p f (some g) =
    if_Has m (ltb 5 (length f)) (ts_value m p (number_at max_int64 g)) (meta_at m p 0 f)
      (ts_value-Has m p (number_at max_int64 g)) (meta_at-Has m p 0 f)

behind_payload-Has : (m : ℕ) (p f : Bytes) → Has m (behind_payload m p f)
behind_payload-Has m p f =
    if_Has m (closed f) (some (record { main_lt = m; payload = p; meta = []; ts = 0 }))
      (ts_at m p f (behind_prefix ts_prefix f)) (some-Has _)
      (ts_at-Has m p f (behind_prefix ts_prefix f))

-- What begins with a prefix that begins with a comma has a comma first.
comma_first :
    (m : ℕ) (cs f g : Bytes)
    → behind_prefix (44 ∷ cs) f ≡ some g
    → (valid : Bytes → Bool) → before_comma valid (some (m, f)) ≡ some m
comma_first m cs [] g e valid = cc
comma_first m cs (b ∷ f) g e valid = elim (Bool-cases (b == 44)) [
  | inl comma ↦ rw comma refl
  | inr other ↦ let no_match : none ≡ some g = sym (rw other refl) ∙ e in cc
]

module _ (valid : Bytes → Bool) (unbase64 : Bytes → Option Bytes) where
  opaque_payload-Has :
      (m : ℕ) (rest : Bytes) (o : Option Bytes) → Has m (opaque_payload valid unbase64 m rest o)
  opaque_payload-Has m rest none = none-Has m
  opaque_payload-Has m rest (some p) = behind_payload-Has m p rest

  payload_value-Has :
      (m : ℕ) (b : Bool) (o : Option (Bytes × Bytes)) → Has m (payload_value valid unbase64 m b o)
  payload_value-Has m b none = none-Has m
  payload_value-Has m true (some (v, rest)) =
      opaque_payload-Has m rest (decoded_text valid unbase64 (unquoted valid unbase64 v))
  payload_value-Has m false (some (v, rest)) = behind_payload-Has m v rest

  payload_at-agrees :
      (m : ℕ) (f : Bytes) (o o' : Option Bytes) (fr : Frame)
      → behind_prefix payload_prefix f ≡ o
      → behind_prefix opaque_prefix f ≡ o'
      → payload_at valid unbase64 m f o ≡ some fr
      → before_comma valid (some (m, f)) ≡ some fr.main_lt
  payload_at-agrees m f (some g) o' fr e e' h =
      comma_first m (34 ∷ 112 ∷ 34 ∷ 58 ∷ []) f g e valid
      ∙ ap some (sym (payload_value-Has m false (value_at g) fr h))
  payload_at-agrees m f none none fr e e' h =
      let no_frame : none ≡ some fr = sym (ap (λ x. opaque_at valid unbase64 m x) e') ∙ h in cc
  payload_at-agrees m f none (some g) fr e e' h =
      let read : payload_value valid unbase64 m true (value_at g) ≡ some fr =
        sym (ap (λ x. opaque_at valid unbase64 m x) e') ∙ h in
      comma_first m (34 ∷ 112 ∷ 54 ∷ 52 ∷ 34 ∷ 58 ∷ []) f g e' valid
      ∙ ap some (sym (payload_value-Has m true (value_at g) fr read))

  number-agrees :
      (o : Option (ℕ × Bytes)) (fr : Frame)
      → behind_number valid unbase64 o ≡ some fr
      → before_comma valid o ≡ some fr.main_lt
  number-agrees none fr h = cc
  number-agrees (some (m, f)) fr h =
      payload_at-agrees m f (behind_prefix payload_prefix f) (behind_prefix opaque_prefix f) fr refl
        refl h

  frame-agrees :
      (o : Option Bytes) (fr : Frame)
      → frame_at valid unbase64 o ≡ some fr
      → main_lt_at valid o ≡ some fr.main_lt
  frame-agrees none fr h = cc
  frame-agrees (some f) fr h = number-agrees (number_at max_uint64 f) fr h

  -- Where the fast decoder of frames takes a frame, the fast decoder of main LTs takes it as well,
  -- with the same main LT.
  pub fast_decode_frame-agrees :
      (f : Bytes) (fr : Frame)
      → fast_decode_frame valid unbase64 f ≡ some fr
      → fast_decode_main_lt valid f ≡ some fr.main_lt
  unfolding fast_decode_frame fast_decode_main_lt
  fast_decode_frame-agrees f fr h = frame-agrees (behind_main valid f) fr h
