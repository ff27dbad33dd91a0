-- ===== src/Xwal/Markers/Runs.antt =====
-- A marker and ids at concrete inputs.
use figwal.Common.{◌≡◌, refl, [], ◌∷◌}
use figwal.Xwal.Markers.{
  NodeMarker, marker_text, read_marker, read_lines, lines, cut, strip, num_suffix, atoi,
  digits_value, itoa_loop, itoa, pos, negsuc,
}
use figwal.Xwal.Markers.Texts.{read_marker-marker_text}

-- The node n0, of the kind k, with the trunk t1
abbrev a_marker : NodeMarker
a_marker = record { from = 110 ∷ 48 ∷ []; kind = 107 ∷ []; trunk = 116 ∷ 49 ∷ [] }

read_marker-marker_text_example : read_marker (marker_text a_marker) ≡ a_marker
read_marker-marker_text_example = read_marker-marker_text a_marker refl refl refl

-- A value that ends in a space loses it.
abbrev spaced_marker : NodeMarker
spaced_marker = record { from = 97 ∷ 32 ∷ []; kind = 107 ∷ []; trunk = [] }

loses_space :
    read_marker (marker_text spaced_marker) ≡ record { from = 97 ∷ []; kind = 107 ∷ []; trunk = [] }
unfolding read_marker marker_text read_lines lines cut strip
loses_space = refl

-- n12, n-3, n+4 and n1x
suffixes :
    (num_suffix (110 ∷ 49 ∷ 50 ∷ []) 110 ≡ pos 12)
    × (num_suffix (110 ∷ 45 ∷ 51 ∷ []) 110 ≡ negsuc 2)
    × (num_suffix (110 ∷ 43 ∷ 52 ∷ []) 110 ≡ pos 4)
    × (num_suffix (110 ∷ 49 ∷ 120 ∷ []) 110 ≡ negsuc 0)
    × (itoa 305 ≡ 51 ∷ 48 ∷ 53 ∷ [])
unfolding num_suffix atoi digits_value itoa_loop
suffixes = (refl, refl, refl, refl, refl)
