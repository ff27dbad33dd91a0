-- ===== src/Disk/Front/Truncation.antt =====
-- What a truncation at the front leaves of the entries.
use mathlib.Core.Path.{subst}
use figwal.Common.{
  ℕ, zero, suc, ◌+◌, ◌-◌, ◌≤◌, ◌<◌, ◌≡◌, refl, sym, ap, ◌∙◌, arith, Bool, false, Option, none, some,
  List, [], ◌∷◌, ◌++◌, ◌⊎◌, length, length-append, length-drop, get_elem?, drop, flatten, ltb, All,
  Bool-cases, inl, inr, ltb→lt, ge_of_not_ltb,
}
use figwal.Segment.Bytes.{Bytes}
use figwal.Segment.Codec.{SegmentCodec, CodecLaws}
use figwal.Segment.State.{Segment}
use figwal.Disk.State.{SealedSeg, Log, Fold, read_own}
use figwal.Disk.State.Holds.{SealedRun, ActiveRun, Owns}
use figwal.Disk.State.Reads.{answer, entry_at, entry_at_in, read_own-Owns}
use figwal.Disk.Front.{kept, truncate_front}

drop-append_left :
    {A : Type 0} (k : ℕ) (xs ys : List A) → k ≤ length xs → drop k (xs ++ ys) ≡ drop k xs ++ ys
drop-append_left zero xs ys h = refl
drop-append_left (suc k) [] ys h = absurd (omega arith)
drop-append_left (suc k) (x ∷ xs) ys h = drop-append_left k xs ys (omega arith)

suc_out : (m k : ℕ) → suc m + k ≡ suc (m + k)
suc_out m k = omega arith

drop-drop_append :
    {A : Type 0} (k : ℕ) (xs ys : List A) → drop (length xs + k) (xs ++ ys) ≡ drop k ys
drop-drop_append k [] ys = ap (λ n. drop n ys) (omega arith)
drop-drop_append k (x ∷ xs) ys =
    ap (λ n. drop n (x ∷ (xs ++ ys))) (suc_out (length xs) k) ∙ drop-drop_append k xs ys

get_elem?-drop :
    {A : Type 0} (k i : ℕ) (xs : List A) → get_elem? (drop k xs) i ≡ get_elem? xs (k + i)
get_elem?-drop zero i xs = ap (get_elem? xs) (omega arith)
get_elem?-drop (suc k) i [] = refl
get_elem?-drop (suc k) i (x ∷ xs) =
    get_elem?-drop k i xs ∙ ap (get_elem? (x ∷ xs)) (sym (suc_out k i))

-- Which of the entries there are does not matter to an answer, if there are some.
answer_some :
    (es ds : List Bytes) (o : Option Bytes)
    → 0 < length es
    → 0 < length ds
    → answer ds o ≡ answer es o
answer_some [] ds o h g = absurd (omega arith)
answer_some (e ∷ es) [] o h g = absurd (omega arith)
answer_some (e ∷ es) (d ∷ ds) none h g = refl
answer_some (e ∷ es) (d ∷ ds) (some p) h g = refl

entry_at-drop :
    (base k idx : ℕ) (es : List Bytes)
    → base + k ≤ idx
    → entry_at (base + k) (drop k es) idx ≡ entry_at base es idx
entry_at-drop base k idx es le =
    entry_at_in (base + k) idx (drop k es) le
    ∙ get_elem?-drop k (idx - (base + k)) es
    ∙ ap (get_elem? es) (omega arith)
    ∙ sym (entry_at_in base idx es (omega arith))

-- The segments at the front that end below the index have left, and the others stay.
pub record Cut (before : ℕ) (sealed rest : List SealedSeg) : Type 0 where
  pub gone : List SealedSeg
  pub parts : sealed ≡ gone ++ rest
  pub ended : All (λ (ss : SealedSeg). ss.last < before) gone
  pub reaching : All (λ (ss : SealedSeg). before ≤ ss.last) rest

module _ (codec : SegmentCodec) (laws : CodecLaws codec) (caching : Bool)
    (on_open : Option Fold) where
  -- `k` entries have left, all of them below the index.
  record Shortened (base before : ℕ) (pss : List (List Bytes)) (sealed rest : List SealedSeg)
      : Type 0 where
    pub cut : Cut before sealed rest
    pub k : ℕ
    pub pss' : List (List Bytes)
    pub run : SealedRun codec laws caching on_open (base + k) pss' rest
    pub within : k ≤ length (flatten pss)
    pub parts : flatten pss' ≡ drop k (flatten pss)
    pub below : (k ≡ 0) ⊎ (base + k ≤ before)

  kept_all :
      (base before : ℕ) (pss : List (List Bytes)) (sealed : List SealedSeg)
      → SealedRun codec laws caching on_open base pss sealed
      → before ≤ base
      → kept before sealed ≡ sealed
  unfolding kept
  kept_all base before [] [] r h = refl
  kept_all base before [] (ss ∷ rest) r h = elim r [ ]
  kept_all base before (ps ∷ pss) [] r h = elim r [ ]
  kept_all base before (ps ∷ pss) (ss ∷ rest) (at, r) h =
      let stays : ltb ss.last before ≡ false = ground (arith, at.last_eq, at.nonempty) in
      rw stays (ap (λ t. ss ∷ t) (kept_all (base + length ps) before pss rest r (omega arith)))

  kept_to_end :
      (base before : ℕ) (pss : List (List Bytes)) (sealed : List SealedSeg)
      → SealedRun codec laws caching on_open base pss sealed
      → before ≤ base
      → All (λ (ss : SealedSeg). before ≤ ss.last) sealed
  kept_to_end base before [] [] r h = tt
  kept_to_end base before [] (ss ∷ rest) r h = elim r [ ]
  kept_to_end base before (ps ∷ pss) [] r h = elim r [ ]
  kept_to_end base before (ps ∷ pss) (ss ∷ rest) (at, r) h = (
    omega (arith, at.last_eq, at.nonempty),
    kept_to_end (base + length ps) before pss rest r (omega arith),
  )

  kept-Shortened :
      (base before : ℕ) (pss : List (List Bytes)) (sealed : List SealedSeg)
      → SealedRun codec laws caching on_open base pss sealed
      → Shortened base before pss sealed (kept before sealed)
  unfolding kept
  kept-Shortened base before [] [] r = record {
    cut = record { gone = []; parts = refl; ended = tt; reaching = tt };
    k = 0;
    pss' = [];
    run = tt;
    within = omega arith;
    parts = refl;
    below = inl refl;
  }
  kept-Shortened base before [] (ss ∷ rest) r = elim r [ ]
  kept-Shortened base before (ps ∷ pss) [] r = elim r [ ]
  kept-Shortened base before (ps ∷ pss) (ss ∷ rest) (at, r) =
      elim (Bool-cases (ltb ss.last before)) [
        | inl leaves ↦
            let s = kept-Shortened (base + length ps) before pss rest r in
            let end : base + length ps ≤ before =
              omega (arith, at.last_eq, ltb→lt ss.last before leaves) in
            rw leaves (record {
              cut = record {
                gone = ss ∷ s.cut.gone;
                parts = ap (λ t. ss ∷ t) s.cut.parts;
                ended = (ltb→lt ss.last before leaves, s.cut.ended);
                reaching = s.cut.reaching;
              };
              k = length ps + s.k;
              pss' = s.pss';
              run =
                  subst (λ n. SealedRun codec laws caching on_open n s.pss' (kept before rest))
                    (omega arith) s.run;
              within = omega (arith, s.within, length-append ps (flatten pss));
              parts = s.parts ∙ sym (drop-drop_append s.k ps (flatten pss));
              below = inr (elim s.below [ inl none_left ↦ omega arith | inr more ↦ omega arith ]);
            })
        | inr stays ↦
            let low : before ≤ base + length ps =
              omega (arith, at.last_eq, ge_of_not_ltb ss.last before stays) in
            rw (stays, kept_all (base + length ps) before pss rest r low)
              (record {
                cut = record {
                  gone = [];
                  parts = refl;
                  ended = tt;
                  reaching = (
                    ge_of_not_ltb ss.last before stays,
                    kept_to_end (base + length ps) before pss rest r low,
                  );
                };
                k = 0;
                pss' = ps ∷ pss;
                run =
                    subst (λ n. SealedRun codec laws caching on_open n (ps ∷ pss) (ss ∷ rest))
                      (omega arith) (at, r);
                within = omega arith;
                parts = refl;
                below = inl refl;
              })
      ]

  live_nonempty :
      (end size : ℕ) (live : List Bytes) (o : Option Segment) (a : Segment)
      → ActiveRun codec laws caching on_open end size live o
      → o ≡ some a
      → 0 < a.count
      → 0 < length live
  live_nonempty end size live none a r e pos = cc
  live_nonempty end size live (some b) a at e pos =
      let same : b ≡ a = cc in
      subst (λ (s : Segment). 0 < s.count → 0 < length live) same
        (λ h. omega (arith, h, at.holds.count_eq)) pos

  -- Where the active segment has entries, a truncation at the front takes away exactly the sealed
  -- segments that end below the index: those at the front, where all that stay reach the index. The
  -- log then holds its entries but for some first ones, not all and all below the index, under the
  -- indices they had.
  pub truncate_front-Owns :
      (l : Log) (base before : ℕ) (es : List Bytes) (a : Segment)
      → Owns codec laws caching on_open l base es
      → l.active ≡ some a
      → 0 < a.count
      → (k : ℕ) × Owns codec laws caching on_open (truncate_front l before) (base + k) (drop k es)
        × ((k ≡ 0) ⊎ (base + k ≤ before))
        × (k < length es)
        × Cut before l.sealed (truncate_front l before).sealed
  unfolding truncate_front
  truncate_front-Owns l base before es a h ea pos =
      let s = kept-Shortened base before h.pss l.sealed h.sealed_run in
      let some_live = live_nonempty _ l.segment_size h.live l.active a h.active_run ea pos in
      let split : drop s.k es ≡ drop s.k (flatten h.pss) ++ h.live =
        ap (drop s.k) h.parts ∙ drop-append_left s.k (flatten h.pss) h.live s.within in
      let len : length (flatten s.pss') ≡ length (flatten h.pss) - s.k =
        ap length s.parts ∙ length-drop s.k (flatten h.pss) in
      (
        s.k,
        record {
          pss = s.pss';
          live = h.live;
          parts = split ∙ ap (λ t. t ++ h.live) (sym s.parts);
          positive = omega (arith, h.positive);
          sealed_run = s.run;
          active_run =
              subst (λ n. ActiveRun codec laws caching on_open n l.segment_size h.live l.active)
                (omega (arith, len, s.within)) h.active_run;
          fresh = λ gone. absurd (
              omega (
                arith,
                some_live,
                ap length split,
                ap length gone,
                length-append (drop s.k (flatten h.pss)) h.live,
              ));
        },
        s.below,
        omega (arith, s.within, some_live, ap length h.parts, length-append (flatten h.pss) h.live),
        s.cut,
      )

  -- Where the active segment has entries, a truncation at the front leaves every read at or behind
  -- the index as it was.
  pub truncate_front-read :
      (l : Log) (base before idx : ℕ) (es : List Bytes) (a : Segment)
      → Owns codec laws caching on_open l base es
      → l.active ≡ some a
      → 0 < a.count
      → base ≤ idx
      → before ≤ idx
      → read_own codec caching on_open (truncate_front l before) idx
        ≡ read_own codec caching on_open l idx
  truncate_front-read l base before idx es a h ea pos lo le =
      let (k, h', below, left, cut) = truncate_front-Owns l base before es a h ea pos in
      let from : base + k ≤ idx = elim below [
        | inl none_left ↦ omega arith
        | inr more ↦ omega arith
      ] in
      read_own-Owns codec laws caching on_open (truncate_front l before) (base + k) (drop k es) idx
        h'
      ∙ answer_some es (drop k es) (entry_at (base + k) (drop k es) idx) (omega arith)
          (omega (arith, length-drop k es))
      ∙ ap (answer es) (entry_at-drop base k idx es from)
      ∙ sym (read_own-Owns codec laws caching on_open l base es idx h)
