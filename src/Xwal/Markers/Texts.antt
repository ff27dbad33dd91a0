-- ===== src/Xwal/Markers/Texts.antt =====
-- A node marker reads back as it was written.
use mathlib.Core.List.{reverse, reverse-append, reverse-reverse}
use figwal.Common.{
  ℕ, ◌≡◌, refl, sym, ap, ◌∙◌, arith, Bool, true, false, not, ◌&&◌, [], ◌∷◌, ◌++◌, leb, ◌==◌,
  Bool-cases, inl, inr,
}
use figwal.Segment.Bytes.{Bytes}
use figwal.Names.{contains}
use figwal.Xwal.Markers.{
  NodeMarker, from_line, kind_line, trunk_line, marker_text, space_ahead, space_behind, strip,
  trim_space, lines, cut, with_line, read_lines, no_marker, read_marker,
}

abbrev pub begins_graphic : Bytes → Bool
begins_graphic [] = true
begins_graphic (b ∷ s) = leb 33 b && leb b 126

-- A value without a newline that does not end in white space: its last byte is a graphic character.
abbrev pub clean : Bytes → Bool
clean v = not (contains v 10) && begins_graphic (reverse v)

contains-append :
    (a v : Bytes) (c : ℕ)
    → contains a c ≡ false
    → contains v c ≡ false
    → contains (a ++ v) c ≡ false
contains-append [] v c ea ev = ev
contains-append (b ∷ a) v c ea ev = elim (Bool-cases (b == c)) [
  | inl here ↦ let impossible : true ≡ false = sym (rw here refl) ∙ ea in cc
  | inr other ↦ rw other (contains-append a v c (sym (rw other refl) ∙ ea) ev)
]

lines-append : (a s : Bytes) → contains a 10 ≡ false → lines (a ++ (10 ∷ s)) ≡ a ∷ lines s
unfolding lines
lines-append [] s e = refl
lines-append (b ∷ a) s e = elim (Bool-cases (b == 10)) [
  | inl here ↦ let impossible : true ≡ false = sym (rw here refl) ∙ e in cc
  | inr other ↦ let rest = lines-append a s (sym (rw other refl) ∙ e) in rw (other, rest) refl
]

no_space_behind : (b : ℕ) (s : Bytes) → (leb 33 b && leb b 126) ≡ true → space_behind (b ∷ s) ≡ 0
no_space_behind b [] h = ground arith
no_space_behind b (c ∷ []) h = ground arith
no_space_behind b (c ∷ d ∷ s) h = ground arith

strip-stays :
    (space : Bytes → ℕ) (b : ℕ) (s : Bytes) → space (b ∷ s) ≡ 0 → strip space 0 (b ∷ s) ≡ b ∷ s
unfolding strip
strip-stays space b s e = rw e refl

strip_end :
    (r p : Bytes) → begins_graphic r ≡ true → strip space_behind 0 (r ++ (61 ∷ p)) ≡ r ++ (61 ∷ p)
strip_end [] p h = strip-stays space_behind 61 p (no_space_behind 61 p refl)
strip_end (b ∷ r) p h =
    strip-stays space_behind b (r ++ (61 ∷ p)) (no_space_behind b (r ++ (61 ∷ p)) h)

-- A line of three letters at least and an equals sign
trim_line :
    (p q v : Bytes)
    → reverse p ≡ 61 ∷ q
    → strip space_ahead 0 (p ++ v) ≡ p ++ v
    → begins_graphic (reverse v) ≡ true
    → trim_space (p ++ v) ≡ p ++ v
trim_line p q v e ahead h =
    let back : reverse (p ++ v) ≡ reverse v ++ (61 ∷ q) =
      reverse-append p v ∙ ap (λ t. reverse v ++ t) e in
    ap (λ t. reverse (strip space_behind 0 (reverse t))) ahead
    ∙ ap (λ t. reverse (strip space_behind 0 t)) back
    ∙ ap reverse (strip_end (reverse v) q h)
    ∙ ap reverse (sym back)
    ∙ reverse-reverse (p ++ v)

from_trim :
    (v : Bytes) → begins_graphic (reverse v) ≡ true → trim_space (from_line ++ v) ≡ from_line ++ v
from_trim v h =
    trim_line from_line (109 ∷ 111 ∷ 114 ∷ 102 ∷ []) v refl (strip-stays space_ahead 102 _ refl) h

kind_trim :
    (v : Bytes) → begins_graphic (reverse v) ≡ true → trim_space (kind_line ++ v) ≡ kind_line ++ v
kind_trim v h =
    trim_line kind_line (100 ∷ 110 ∷ 105 ∷ 107 ∷ []) v refl (strip-stays space_ahead 107 _ refl) h

trunk_trim :
    (v : Bytes) → begins_graphic (reverse v) ≡ true → trim_space (trunk_line ++ v) ≡ trunk_line ++ v
trunk_trim v h =
    trim_line trunk_line (107 ∷ 110 ∷ 117 ∷ 114 ∷ 116 ∷ []) v refl
      (strip-stays space_ahead 116 _ refl) h

clean-newline : (v : Bytes) → clean v ≡ true → contains v 10 ≡ false
clean-newline v h = ground (arith, h)

clean-graphic : (v : Bytes) → clean v ≡ true → begins_graphic (reverse v) ≡ true
clean-graphic v h = ground (arith, h)

from_read :
    (n : NodeMarker) (v : Bytes)
    → clean v ≡ true
    → with_line n (cut (trim_space (from_line ++ v))) ≡ record n { from = v }
unfolding cut
from_read n v h = rw (from_trim v (clean-graphic v h)) refl

kind_read :
    (n : NodeMarker) (v : Bytes)
    → clean v ≡ true
    → with_line n (cut (trim_space (kind_line ++ v))) ≡ record n { kind = v }
unfolding cut
kind_read n v h = rw (kind_trim v (clean-graphic v h)) refl

trunk_read :
    (n : NodeMarker) (v : Bytes)
    → clean v ≡ true
    → with_line n (cut (trim_space (trunk_line ++ v))) ≡ record n { trunk = v }
unfolding cut
trunk_read n v h = rw (trunk_trim v (clean-graphic v h)) refl

text_lines :
    (a b c : Bytes)
    → contains a 10 ≡ false
    → contains b 10 ≡ false
    → contains c 10 ≡ false
    → lines (a ++ (10 ∷ (b ++ (10 ∷ (c ++ (10 ∷ [])))))) ≡ a ∷ b ∷ c ∷ [] ∷ []
unfolding lines
text_lines a b c ea eb ec =
    lines-append a _ ea
    ∙ ap (λ t. a ∷ t) (lines-append b _ eb ∙ ap (λ t. b ∷ t) (lines-append c [] ec))

prefixed : (p v : Bytes) → contains p 10 ≡ false → clean v ≡ true → contains (p ++ v) 10 ≡ false
prefixed p v e h = contains-append p v 10 e (clean-newline v h)

-- The marker of a node reads back as it was written, where none of its values has a newline or ends
-- in anything but a graphic character.
pub read_marker-marker_text :
    (n : NodeMarker)
    → clean n.from ≡ true
    → clean n.kind ≡ true
    → clean n.trunk ≡ true
    → read_marker (marker_text n) ≡ n
unfolding read_marker marker_text read_lines strip cut
read_marker-marker_text n f k t =
    ap (read_lines no_marker) (
      text_lines (from_line ++ n.from) (kind_line ++ n.kind) (trunk_line ++ n.trunk)
        (prefixed from_line n.from refl f) (prefixed kind_line n.kind refl k)
        (prefixed trunk_line n.trunk refl t))
    ∙ rw (from_read no_marker n.from f, kind_read _ n.kind k, trunk_read _ n.trunk t) refl
