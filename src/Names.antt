-- ===== src/Names.antt =====
-- The directory names of node keys (xwal/fsname.go): the bytes that Windows reserves are
-- percent-encoded, and only there; `encode` is `fsEncode`, true on Windows. A key is its bytes.
pub mod RoundTrip
pub mod Runs
use figwal.Common.{
  ℕ, zero, suc, ◌+◌, ◌-◌, ◌*◌, ◌/◌, ◌%◌, Bool, true, false, not, ◌&&◌, ◌||◌, Option, none, some,
  List, [], ◌∷◌, ◌++◌, ltb, leb, ◌==◌, if◌then◌else◌, get_elem?,
}
use figwal.Segment.Bytes.{Bytes}

-- strings.IndexByte(s, c) >= 0
abbrev pub contains : Bytes → ℕ → Bool
contains [] c = false
contains (b ∷ s) c = if b == c then true else contains s c

-- strings.ContainsAny
abbrev pub contains_any : Bytes → Bytes → Bool
contains_any [] chars = false
contains_any (c ∷ s) chars = if contains chars c then true else contains_any s chars

abbrev pub percent : ℕ
percent = 37

-- < > : " | ? * %
abbrev pub fs_reserved : Bytes
fs_reserved = 60 ∷ 62 ∷ 58 ∷ 34 ∷ 124 ∷ 63 ∷ 42 ∷ percent ∷ []

-- The digit of "0123456789ABCDEF" at a position below 16.
abbrev pub hex : ℕ → ℕ
hex d = if ltb d 10 then 48 + d else 55 + d

-- The bytes that the loop of fsName writes for one byte of the key.
abbrev pub escaped : ℕ → Bytes → Bytes
escaped c rest =
    if contains fs_reserved c then percent ∷ hex (c / 16) ∷ hex (c % 16) ∷ rest else c ∷ rest

unfoldable pub fs_name_loop : Bytes → Bytes
fs_name_loop [] = []
fs_name_loop (c ∷ key) = escaped c (fs_name_loop key)

unfoldable pub fs_name : Bool → Bytes → Bytes
fs_name encode key =
    if not encode || not (contains_any key fs_reserved) then key else fs_name_loop key

-- fsNames
unfoldable pub fs_names : Bool → List Bytes → List Bytes
fs_names encode [] = []
fs_names encode (k ∷ keys) = fs_name encode k ∷ fs_names encode keys

-- `none` is the -1 for a byte that is no digit.
abbrev pub unhex : ℕ → Option ℕ
unhex c =
    if leb 48 c && leb c 57
    then some (c - 48)
    else if leb 65 c && leb c 70
    then some (c - 65 + 10)
    else none

-- `byte(hi<<4 | lo)`, of two digits
abbrev pub joined : Option ℕ → Option ℕ → Option ℕ
joined (some hi) (some lo) = some (hi * 16 + lo)
joined (some hi) none = none
joined none lo = none

-- What follows a '%': its two digits, where there are two and both are digits.
abbrev pub escape_of : ℕ → Bytes → Option ℕ
escape_of c (h ∷ l ∷ rest) = if c == percent then joined (unhex h) (unhex l) else none
escape_of c (h ∷ []) = none
escape_of c [] = none

-- `i += 2; continue` behind an escape, else the byte itself
abbrev pub advance : Option ℕ → ℕ → Bytes → Bytes → Bytes
advance (some b) c skip next = b ∷ skip
advance none c skip next = c ∷ next

-- The loop of keyName
unfoldable pub key_name_loop : Bytes → Bytes
key_name_loop [] = []
key_name_loop (c ∷ []) = c ∷ []
key_name_loop (c ∷ h ∷ []) = c ∷ h ∷ []
key_name_loop (c ∷ h ∷ l ∷ rest) =
    let skip = key_name_loop rest in
    let next = key_name_loop (h ∷ l ∷ rest) in advance (escape_of c (h ∷ l ∷ rest)) c skip next

unfoldable pub key_name : Bool → Bytes → Bytes
key_name encode name =
    if not encode || not (contains name percent) then name else key_name_loop name
