-- ===== src/Forest/Lineage.antt =====
-- `split` of forest/cache.go: a range over a lineage, root first, as ranges in its nodes.
use figwal.Common.{
  ℕ, ◌-◌, ◌≤◌, ◌<◌, ◌≡◌, refl, ◌∙◌, arith, true, false, ◌&&◌, ◌||◌, List, [], ◌∷◌, ltb, leb, ◌==◌,
  if◌then◌else◌, Bool-cases, inl, inr, ltb→lt, ge_of_not_ltb, leb→le, lt_of_not_leb,
}
use figwal.Segment.Bytes.{Bytes}
use figwal.Forest.{Ref, Coord}

-- The end of a node's part: below the base of the next one, if that is one, or the end of the range.
abbrev pub part_end : ℕ → ℕ → ℕ
part_end base to = if ltb 0 base && ltb (base - 1) to then base - 1 else to

abbrev pub cut_before : Ref → ℕ → ℕ → List Coord → List Coord
cut_before r lo hi cuts =
    if ltb lo hi then record { node = r.node; from = lo; to = hi } ∷ cuts else cuts

unfoldable pub split : List Ref → ℕ → ℕ → List Coord
split [] lo to = []
split (r ∷ []) lo to = cut_before r lo to []
split (r ∷ next ∷ rest) lo to =
    let hi = part_end next.base to in
    let lo' = if ltb lo hi then hi else lo in
    let later = split (next ∷ rest) lo' to in cut_before r lo hi (if leb to lo' then [] else later)

-- The node that holds an index: the first whose successor begins behind it.
unfoldable pub holder : List Ref → ℕ → Bytes
holder [] idx = []
holder (r ∷ []) idx = r.node
holder (r ∷ next ∷ rest) idx =
    let later = holder (next ∷ rest) idx in
    if next.base == 0 || ltb idx next.base then r.node else later

-- The cuts follow one another from `lo` to `to`, none of them empty, and each lies in the node that
-- holds its indices.
abbrev pub Tiles : (ℕ → Bytes) → ℕ → ℕ → List Coord → Type 0
Tiles held lo to [] = lo ≡ to
Tiles held lo to (c ∷ cs) =
    (c.from ≡ lo)
    × (c.from < c.to)
    × ((idx : ℕ) → c.from < idx → idx ≤ c.to → held idx ≡ c.node)
    × Tiles held c.to to cs

Tiles-agree :
    (held other : ℕ → Bytes) (lo to : ℕ) (cs : List Coord)
    → ((idx : ℕ) → lo < idx → held idx ≡ other idx)
    → Tiles other lo to cs
    → Tiles held lo to cs
Tiles-agree held other lo to [] same t = t
Tiles-agree held other lo to (c ∷ cs) same (from, pos, holds, rest) = (
  from,
  pos,
  λ idx h k. same idx (omega (arith, from)) ∙ holds idx h k,
  Tiles-agree held other c.to to cs (λ idx h. same idx (omega (arith, from, pos))) rest,
)

part_end_le : (base to : ℕ) → part_end base to ≤ to
part_end_le base to = ground arith

held_here : (base to idx : ℕ) → idx ≤ part_end base to → (base == 0 || ltb idx base) ≡ true
held_here base to idx h = ground arith

held_later :
    (base to idx : ℕ)
    → part_end base to < to
    → part_end base to < idx
    → (base == 0 || ltb idx base) ≡ false
held_later base to idx h k = ground arith

-- A range over a lineage is cut into parts that cover it without gap or overlap, and each part is
-- read from the node that holds its indices.
pub split-Tiles :
    (r : Ref) (rest : List Ref) (lo to : ℕ)
    → lo ≤ to
    → Tiles (holder (r ∷ rest)) lo to (split (r ∷ rest) lo to)
unfolding split holder
split-Tiles r [] lo to le = elim (Bool-cases (ltb lo to)) [
  | inl some_left ↦ rw some_left (refl, ltb→lt lo to some_left, λ idx h k. refl, refl)
  | inr none_left ↦ rw none_left (omega (arith, ge_of_not_ltb lo to none_left))
]
split-Tiles r (next ∷ rest) lo to le =
    let hi = part_end next.base to in
    let hi_le : hi ≤ to = part_end_le next.base to in
    elim (Bool-cases (ltb lo hi)) [
      | inl some_here ↦
          let pos = ltb→lt lo hi some_here in
          rw some_here (
            refl,
            pos,
            λ idx h k. rw (held_here next.base to idx k) refl,
            elim (Bool-cases (leb to hi)) [
              | inl ends ↦ rw ends (omega (arith, leb→le to hi ends))
              | inr more ↦ rw more (
                  Tiles-agree _ (holder (next ∷ rest)) hi to _
                    (λ idx h. rw (held_later next.base to idx (lt_of_not_leb to hi more) h) refl)
                    (split-Tiles next rest hi to hi_le))
            ],
          )
      | inr none_here ↦
          let past = ge_of_not_ltb lo hi none_here in
          rw none_here (elim (Bool-cases (leb to lo)) [
            | inl ends ↦ rw ends (omega (arith, leb→le to lo ends))
            | inr more ↦
                let lt = lt_of_not_leb to lo more in
                rw more (
                  Tiles-agree _ (holder (next ∷ rest)) lo to _
                    (λ idx h. rw (held_later next.base to idx (omega arith) (omega arith)) refl)
                    (split-Tiles next rest lo to le))
          ])
    ]
