-- ===== src/Xwal/Markers.antt =====
-- The texts that name a node on disk: the marker file .node of a node (writeNodeMarker and
-- readNodeMarker of xwal/index.go) and the numbers in node and trunk ids (strconv.Itoa, and
-- numSuffix of xwal/trunks.go). Of Go's library here are strings.TrimSpace, strings.Cut,
-- strings.Split and strconv.Atoi, on bytes.
pub mod Texts
pub mod Numerals
pub mod Runs
use mathlib.Core.List.{reverse}
use figwal.Common.{
  ℕ, zero, suc, ◌+◌, ◌-◌, ◌*◌, ◌/◌, ◌%◌, Bool, true, false, not, ◌&&◌, ◌||◌, Option, none, some,
  List, [], ◌∷◌, ◌++◌, ltb, leb, ◌==◌, if◌then◌else◌, ℤ, pos, negsuc,
}
use figwal.Segment.Bytes.{Bytes}
use figwal.Values.{same}
use figwal.Xwal.Frames.{is_digit, max_int64}

-- nodeMarker
pub record NodeMarker : Type 0 where
  pub from : Bytes
  pub kind : Bytes
  pub trunk : Bytes

-- from=
abbrev pub from_line : Bytes
from_line = 102 ∷ 114 ∷ 111 ∷ 109 ∷ 61 ∷ []

-- kind=
abbrev pub kind_line : Bytes
kind_line = 107 ∷ 105 ∷ 110 ∷ 100 ∷ 61 ∷ []

-- trunk=
abbrev pub trunk_line : Bytes
trunk_line = 116 ∷ 114 ∷ 117 ∷ 110 ∷ 107 ∷ 61 ∷ []

-- What writeNodeMarker writes
unfoldable pub marker_text : NodeMarker → Bytes
marker_text n =
    (from_line ++ n.from)
    ++ (10 ∷ ((kind_line ++ n.kind) ++ (10 ∷ ((trunk_line ++ n.trunk) ++ (10 ∷ [])))))

-- The white space of unicode.IsSpace, by the length of its encoding
abbrev pub space1 : ℕ → Bool
space1 a = (leb 9 a && leb a 13) || a == 32

abbrev pub space2 : ℕ → ℕ → Bool
space2 a b = a == 194 && (b == 133 || b == 160)

abbrev pub space3 : ℕ → ℕ → ℕ → Bool
space3 a b c =
    (a == 225 && (b == 154 && c == 128))
    || ((a == 226
          && ((b == 128 && ((leb 128 c && leb c 138) || (c == 168 || (c == 169 || c == 175))))
              || (b == 129 && c == 159)))
        || (a == 227 && (b == 128 && c == 128)))

-- The length of the white space that a text begins with
abbrev pub space_ahead : Bytes → ℕ
space_ahead [] = 0
space_ahead (a ∷ []) = if space1 a then 1 else 0
space_ahead (a ∷ b ∷ []) = if space1 a then 1 else if space2 a b then 2 else 0
space_ahead (a ∷ b ∷ c ∷ s) =
    if space1 a then 1 else if space2 a b then 2 else if space3 a b c then 3 else 0

-- The same for the end of a text, which is given backwards
abbrev pub space_behind : Bytes → ℕ
space_behind [] = 0
space_behind (a ∷ []) = if space1 a then 1 else 0
space_behind (b ∷ a ∷ []) = if space1 b then 1 else if space2 a b then 2 else 0
space_behind (c ∷ b ∷ a ∷ s) =
    if space1 c then 1 else if space2 b c then 2 else if space3 a b c then 3 else 0

-- Drops `skip` bytes, and white space as `space` finds it from there on
unfoldable pub strip : (Bytes → ℕ) → ℕ → Bytes → Bytes
strip space skip [] = []
strip space (suc skip) (b ∷ s) = strip space skip s
strip space zero (b ∷ s) =
    let n = space (b ∷ s) in let rest = strip space (n - 1) s in if n == 0 then b ∷ s else rest

-- strings.TrimSpace
abbrev pub trim_space : Bytes → Bytes
trim_space s = reverse (strip space_behind 0 (reverse (strip space_ahead 0 s)))

abbrev pub longer : ℕ → List Bytes → List Bytes
longer b [] = (b ∷ []) ∷ []
longer b (l ∷ ls) = (b ∷ l) ∷ ls

-- strings.Split at newlines
unfoldable pub lines : Bytes → List Bytes
lines [] = [] ∷ []
lines (b ∷ s) = let rest = lines s in if b == 10 then [] ∷ rest else longer b rest

abbrev pub behind_first : ℕ → Option (Bytes × Bytes) → Option (Bytes × Bytes)
behind_first b none = none
behind_first b (some (k, v)) = some (b ∷ k, v)

-- strings.Cut at "="
unfoldable pub cut : Bytes → Option (Bytes × Bytes)
cut [] = none
cut (b ∷ s) = let rest = cut s in if b == 61 then some ([], s) else behind_first b rest

-- from, kind and trunk
abbrev pub with_field : NodeMarker → Bytes → Bytes → NodeMarker
with_field n k v =
    if same k (102 ∷ 114 ∷ 111 ∷ 109 ∷ [])
    then record n { from = v }
    else if same k (107 ∷ 105 ∷ 110 ∷ 100 ∷ [])
    then record n { kind = v }
    else if same k (116 ∷ 114 ∷ 117 ∷ 110 ∷ 107 ∷ [])
    then record n { trunk = v }
    else n

abbrev pub with_line : NodeMarker → Option (Bytes × Bytes) → NodeMarker
with_line n none = n
with_line n (some (k, v)) = with_field n k v

-- The loop over the lines of a marker
unfoldable pub read_lines : NodeMarker → List Bytes → NodeMarker
read_lines n [] = n
read_lines n (l ∷ ls) = read_lines (with_line n (cut (trim_space l))) ls

abbrev pub no_marker : NodeMarker
no_marker = record { from = []; kind = []; trunk = [] }

-- readNodeMarker, of the text of the file
unfoldable pub read_marker : Bytes → NodeMarker
read_marker s = read_lines no_marker (lines s)

-- The number that digits write behind `n`
unfoldable pub digits_value : ℕ → Bytes → Option ℕ
digits_value n [] = some n
digits_value n (b ∷ s) =
    let rest = digits_value (n * 10 + (b - 48)) s in if is_digit b then rest else none

abbrev pub in_range : Bool → Option ℕ → Option ℤ
in_range negative none = none
in_range true (some zero) = some (pos 0)
in_range true (some (suc n)) = if ltb max_int64 n then none else some (negsuc n)
in_range false (some n) = if ltb max_int64 n then none else some (pos n)

abbrev pub unsigned : Bytes → Option ℕ
unsigned [] = none
unsigned (b ∷ s) = digits_value 0 (b ∷ s)

-- strconv.Atoi
unfoldable pub atoi : Bytes → Option ℤ
atoi [] = none
atoi (b ∷ s) =
    if b == 43
    then in_range false (unsigned s)
    else if b == 45
    then in_range true (unsigned s)
    else in_range false (unsigned (b ∷ s))

abbrev pub or_minus_one : Option ℤ → ℤ
or_minus_one none = negsuc 0
or_minus_one (some n) = n

-- numSuffix
unfoldable pub num_suffix : Bytes → ℕ → ℤ
num_suffix [] prefix = negsuc 0
num_suffix (b ∷ []) prefix = negsuc 0
num_suffix (b ∷ c ∷ s) prefix = if b == prefix then or_minus_one (atoi (c ∷ s)) else negsuc 0

-- strconv.Itoa, with the fuel for the digits
unfoldable pub itoa_loop : ℕ → ℕ → Bytes
itoa_loop zero n = []
itoa_loop (suc fuel) n =
    let front = itoa_loop fuel (n / 10) in
    if ltb n 10 then (48 + n) ∷ [] else front ++ ((48 + n % 10) ∷ [])

abbrev pub itoa : ℕ → Bytes
itoa n = itoa_loop (suc n) n
