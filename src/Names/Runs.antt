-- ===== src/Names/Runs.antt =====
-- The key "@x::a%" and its directory name.
use figwal.Common.{◌≡◌, refl, arith, true, [], ◌∷◌}
use figwal.Segment.Bytes.{Bytes}
use figwal.Names.{percent, fs_name, fs_name_loop, key_name}
use figwal.Names.RoundTrip.{Octets, key_name-fs_name}

abbrev libretto : Bytes
libretto = 64 ∷ 120 ∷ 58 ∷ 58 ∷ 97 ∷ percent ∷ []

libretto-Octets : Octets libretto
libretto-Octets =
    (omega arith, (omega arith, (omega arith, (omega arith, (omega arith, (omega arith, tt))))))

-- "@x%3A%3Aa%25"
libretto_name :
    fs_name true libretto
    ≡ 64 ∷ 120 ∷ percent ∷ 51 ∷ 65 ∷ percent ∷ 51 ∷ 65 ∷ 97 ∷ percent ∷ 50 ∷ 53 ∷ []
unfolding fs_name fs_name_loop
libretto_name = refl

key_name-fs_name_example : key_name true (fs_name true libretto) ≡ libretto
key_name-fs_name_example = key_name-fs_name true libretto libretto-Octets
