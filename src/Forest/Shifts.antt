-- ===== src/Forest/Shifts.antt =====
-- The slots that the loop of rangeInNode (forest/cache.go) reads, behind the insertions on its way:
-- what holds of the runs in them, and that a shift keeps it.
use mathlib.Core.Path.{subst}
use figwal.Common.{
  ℕ, zero, suc, ◌+◌, ◌-◌, ◌≤◌, ◌<◌, ◌≡◌, refl, arith, some, List, [], ◌∷◌, ltb, leb, Bool-cases,
  ltb→lt, ge_of_not_ltb, inl, inr, All, ◌⊎◌, take, length, get_elem?,
}
use figwal.Segment.Bytes.{Bytes}
use figwal.Forest.{Coord}
use figwal.Forest.Window.{chunks, insert_coord, shifted, at_most, run_chunk}

module _ {A : Type 0} where
  All-map : {P Q : A → Type 0} (xs : List A) → ((x : A) → P x → Q x) → All P xs → All Q xs
  All-map [] f h = tt
  All-map (x ∷ xs) f (p, ps) = (f x p, All-map xs f ps)

  All-take : (P : A → Type 0) (n : ℕ) (xs : List A) → All P xs → All P (take n xs)
  All-take P zero xs h = tt
  All-take P (suc n) [] h = tt
  All-take P (suc n) (x ∷ xs) (p, ps) = (p, All-take P n xs ps)

  pub All-get_elem? :
      (P : A → Type 0) (i : ℕ) (xs : List A) (x : A) → All P xs → get_elem? xs i ≡ some x → P x
  All-get_elem? P i [] x h e = cc
  All-get_elem? P zero (y ∷ xs) x (p, ps) e = let same : y ≡ x = cc in subst P same p
  All-get_elem? P (suc i) (y ∷ xs) x (p, ps) e = All-get_elem? P i xs x ps e

insert_coord-All :
    (P : Coord → Type 0) (c : Coord) (ds : List Coord) → P c → All P ds → All P (insert_coord c ds)
unfolding insert_coord
insert_coord-All P c [] p h = (p, tt)
insert_coord-All P c (d ∷ ds) p (q, qs) = elim (Bool-cases (leb c.from d.from)) [
  | inl here ↦ rw here (p, (q, qs))
  | inr later ↦ rw later (q, insert_coord-All P c ds p qs)
]

shifted-All :
    (P : Coord → Type 0) (free : ℕ) (cs window : List Coord)
    → All P cs
    → All P window
    → All P (shifted free cs window)
unfolding shifted
shifted-All P zero cs window h k = k
shifted-All P (suc free) [] window h k = k
shifted-All P (suc free) (c ∷ cs) window (p, ps) k =
    shifted-All P free cs (take (length window) (insert_coord c window)) ps
      (All-take P (length window) (insert_coord c window) (insert_coord-All P c window p k))

chunk_ends :
    (lo to : ℕ) → lo < to → (lo ≤ at_most (lo + run_chunk) to) × (at_most (lo + run_chunk) to ≤ to)
chunk_ends lo to h = ground arith

-- A coord of the node that ends at `to` or before
abbrev Within : Bytes → ℕ → Coord → Type 0
Within node to c = (c.node ≡ node) × (c.from ≤ c.to) × (c.to ≤ to)

chunks-All : (fuel : ℕ) (node : Bytes) (lo to : ℕ) → All (Within node to) (chunks fuel node lo to)
unfolding chunks
chunks-All zero node lo to = tt
chunks-All (suc fuel) node lo to = elim (Bool-cases (ltb lo to)) [
  | inr done ↦ rw done tt
  | inl more ↦
      let hi = at_most (lo + run_chunk) to in
      let (low, high) = chunk_ends lo to (ltb→lt lo to more) in
      rw more ((refl, low, high), chunks-All fuel node hi to)
]

-- No coord of the window has `p` inside it.
abbrev pub Clear : ℕ → List Coord → Type 0
Clear p window = All (λ d. (d.to ≤ p) ⊎ (p ≤ d.from)) window

-- A coord that the loop may meet at `pos`: it is over, or its end is inside no coord of the window.
abbrev pub Tidy : Bytes → List Coord → ℕ → Coord → Type 0
Tidy node window pos d = (d.node ≡ node) × (d.from ≤ d.to) × ((d.to ≤ pos) ⊎ Clear d.to window)

-- The window behind a run that was served at `pos`, when the chunks in front of it were inserted
module _ (node : Bytes) (free pos : ℕ) (window : List Coord) (c : Coord) (later : pos < c.to)
    (ordered : c.from ≤ c.to) where
  shifted-Clear :
      (p : ℕ)
      → c.from ≤ p
      → Clear p window
      → Clear p (shifted free (chunks (c.from - pos) node pos c.from) window)
  shifted-Clear p le clear =
      shifted-All (λ d. (d.to ≤ p) ⊎ (p ≤ d.from)) free (chunks (c.from - pos) node pos c.from)
        window
        (All-map (chunks (c.from - pos) node pos c.from)
          (λ e w. let end = w.2 in inl (omega (arith, end, le)))
          (chunks-All (c.from - pos) node pos c.from))
        clear

  pub shifted-served :
      Tidy node window pos c
      → Clear c.to (shifted free (chunks (c.from - pos) node pos c.from) window)
  shifted-served (n, o, inl over) = absurd (omega (arith, over, later))
  shifted-served (n, o, inr clear) = shifted-Clear c.to ordered clear

  pub shifted-Tidy :
      All (Tidy node window pos) window
      → All
          (Tidy node (shifted free (chunks (c.from - pos) node pos c.from) window) c.to)
          (shifted free (chunks (c.from - pos) node pos c.from) window)
  shifted-Tidy tidy =
      let win = shifted free (chunks (c.from - pos) node pos c.from) window in
      shifted-All (Tidy node win c.to) free (chunks (c.from - pos) node pos c.from) window
        (All-map (chunks (c.from - pos) node pos c.from)
          (λ e w. let end = w.2 in (w.0, w.1, inl (omega (arith, end, ordered))))
          (chunks-All (c.from - pos) node pos c.from))
        (All-map window (λ d t. kept d t) tidy)
    where
      kept :
          (d : Coord)
          → Tidy node window pos d
          → Tidy node (shifted free (chunks (c.from - pos) node pos c.from) window) c.to d
      kept d (n, o, inl over) = (n, o, inl (omega (arith, over, later)))
      kept d (n, o, inr clear) = elim (Bool-cases (ltb c.to d.to)) [
        | inr before ↦ (n, o, inl (ge_of_not_ltb c.to d.to before))
        | inl past ↦
            (n, o, inr (shifted-Clear d.to (omega (arith, ltb→lt c.to d.to past, ordered)) clear))
      ]

-- Coords of one node, from `lo` on, that follow one another without overlap.
abbrev pub Follow : Bytes → ℕ → List Coord → Type 0
Follow node lo [] = lo ≡ lo
Follow node lo (c ∷ cs) = (c.node ≡ node) × (lo ≤ c.from) × (c.from ≤ c.to) × Follow node c.to cs

abbrev Placed : Bytes → ℕ → List Coord → Coord → Type 0
Placed node lo window d = (d.node ≡ node) × (lo ≤ d.from) × (d.from ≤ d.to) × Clear d.to window

Follow-Placed :
    (node : Bytes) (lo : ℕ) (cs : List Coord) → Follow node lo cs → All (Placed node lo cs) cs
Follow-Placed node lo [] h = tt
Follow-Placed node lo (c ∷ cs) (n, low, ordered, rest) =
    let more = Follow-Placed node c.to cs rest in
    (
      (n, low, ordered, (inl (omega arith), All-map cs (λ d p. inr p.1) more)),
      All-map cs
          (λ d p.
            let at : c.to ≤ d.from = p.1 in
            let order : d.from ≤ d.to = p.2 in
            (p.0, omega (arith, at, low, ordered), order, (inl (omega (arith, at, order)), p.3)))
          more,
    )

-- Coords that follow one another are tidy wherever a range begins.
pub Follow-Tidy :
    (node : Bytes) (pos : ℕ) (cs : List Coord) → Follow node 0 cs → All (Tidy node cs pos) cs
Follow-Tidy node pos cs h = All-map cs (λ d p. (p.0, p.2, inr p.3)) (Follow-Placed node 0 cs h)
