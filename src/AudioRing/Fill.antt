-- ===== src/AudioRing/Fill.antt =====
-- `kerchunk_audio_repeat_fill` of src/kerchunk_audio_ring.c against its description, sample by sample.
use native.Mathlib.Nat.{mod-eq_of_lt, mod-eq-sub-mod}
use kerchunk.Prelude.{
  ℕ, zero, suc, ◌+◌, ◌-◌, ◌%◌, ◌≤◌, ◌<◌, ◌≡◌, refl, ap, ◌∙◌, sym, ℤ, pos, ltb, leb, ◌==◌,
  if◌then◌else◌, Option, some, List, [], ◌∷◌, ◌++◌, length, get_elem?, arith, take, drop, replicate,
  length-take, length-drop, length-replicate, length-append, Bool-cases, inl, inr,
}
use kerchunk.AudioRing.{tile, repeat_fill}

module _ {ℓ} {A : Type ℓ} where
  get_elem?-take : (n i : ℕ) (xs : List A) → i < n → get_elem? (take n xs) i ≡ get_elem? xs i
  get_elem?-take zero i xs h = elim h [ ]
  get_elem?-take (suc n) i [] h = refl
  get_elem?-take (suc n) zero (x ∷ xs) h = refl
  get_elem?-take (suc n) (suc i) (x ∷ xs) h = get_elem?-take n i xs (omega arith)

  get_elem?-drop : (n i : ℕ) (xs : List A) → get_elem? (drop n xs) i ≡ get_elem? xs (n + i)
  get_elem?-drop zero i xs = ap (get_elem? xs) (omega arith)
  get_elem?-drop (suc n) i [] = refl
  get_elem?-drop (suc n) i (x ∷ xs) =
      get_elem?-drop n i xs
      ∙ ap (get_elem? (x ∷ xs)) (let e : suc (n + i) ≡ suc n + i = omega arith in e)

  get_elem?-append :
      (xs ys : List A) (i : ℕ)
      → get_elem? (xs ++ ys) i
        ≡ (if ltb i (length xs) then get_elem? xs i else get_elem? ys (i - length xs))
  get_elem?-append [] ys i = ground arith
  get_elem?-append (x ∷ xs) ys zero = ground arith
  get_elem?-append (x ∷ xs) ys (suc i) = ground (arith, get_elem?-append xs ys i)

  get_elem?-replicate : (n i : ℕ) (a : A) → i < n → get_elem? (replicate n a) i ≡ some a
  get_elem?-replicate zero i a h = elim h [ ]
  get_elem?-replicate (suc n) zero a h = refl
  get_elem?-replicate (suc n) (suc i) a h = get_elem?-replicate n i a (omega arith)

length-tile :
    (rounds want : ℕ) (last : List ℤ)
    → want ≤ rounds
    → 0 < length last
    → length (tile rounds want last) ≡ want
unfolding tile
length-tile zero want last h p = omega arith
length-tile (suc rounds) want last h p =
    let chunk = if ltb want (length last) then want else length last in
    ground (
      arith,
      length-take chunk last,
      length-append (take chunk last) (tile rounds (want - chunk) last),
      length-tile rounds (want - chunk) last,
    )

get_elem?-tile :
    (rounds want i : ℕ) (last : List ℤ)
    → want ≤ rounds
    → 0 < length last
    → i < want
    → get_elem? (tile rounds want last) i ≡ get_elem? last (i % length last)
unfolding tile
get_elem?-tile zero want i last h p lt = absurd (omega arith)
get_elem?-tile (suc rounds) want i last h p lt =
    let n = length last in
    let chunk = if ltb want n then want else n in
    let rest = tile rounds (want - chunk) last in
    let len : length (take chunk last) ≡ chunk = ground (arith, length-take chunk last) in
    let step : tile (suc rounds) want last ≡ take chunk last ++ rest = ground arith in
    let split = ap (λ l. get_elem? l i) step ∙ get_elem?-append (take chunk last) rest i in
    elim (Bool-cases (ltb i n)) [
      | inl near ↦
          let e : i % n ≡ i = mod-eq_of_lt (ground arith) in
          split ∙ ground (arith, get_elem?-take chunk i last) ∙ sym (ap (get_elem? last) e)
      | inr far ↦
          let c : chunk ≡ n = ground arith in
          let e : i % n ≡ (i - n) % n = mod-eq-sub-mod (ground arith) in
          split
          ∙ ground (arith, get_elem?-tile rounds (want - chunk) (i - chunk) last)
          ∙ sym (ap (get_elem? last) e)
    ]

-- What each sample of the filled buffer is, by its index: silence where nothing was there to repeat,
-- the end of the last buffer where that is long enough, and its repetition where it is too short.
abbrev pub fill_sample : ℕ → List ℤ → ℕ → Option ℤ
fill_sample want last i =
    if length last == 0
    then some (pos 0)
    else (if leb want (length last)
        then get_elem? last (length last - want + i)
        else get_elem? last (i % length last))

-- The filled buffer has the length wanted, and each sample of it is the one described: the end of
-- the last buffer where that is long enough, its repetition where it is too short, silence where
-- it is empty.
pub repeat_fill_lem :
    (want i : ℕ) (last : List ℤ)
    → i < want
    → (length (repeat_fill want last) ≡ want)
      × (get_elem? (repeat_fill want last) i ≡ fill_sample want last i)
unfolding repeat_fill
repeat_fill_lem want i last h =
    let end = drop (length last - want) last in
    ground (
      arith,
      length-replicate want (pos 0),
      length-take want end,
      length-drop (length last - want) last,
      length-tile want want last,
      get_elem?-replicate want i (pos 0),
      get_elem?-take want i end,
      get_elem?-drop (length last - want) i last,
      get_elem?-tile want want i last,
    )
