-- ===== src/Wav/Chunks.antt =====
-- The search for the data among the chunks of a file, of src/kerchunk_wav.c.
use mathlib.Core.List.{append_assoc}
use kerchunk.Prelude.{
  ℕ, zero, suc, ◌+◌, ◌-◌, ◌*◌, ◌/◌, ◌%◌, ◌^◌, ◌<◌, ◌≡◌, ◌≢◌, refl, ap, ◌∙◌, false, List, [], ◌∷◌,
  ◌++◌, length, length-drop, arith, Bool-cases, inl, inr, drop, ltb, if◌then◌else◌,
}
use kerchunk.Wav.{File, found, no_data, out_of_rounds, find_data, le32, bytes32, data_id, id_at}

-- The search among the chunks ends: more rounds than there are bytes are enough.
pub find_data_ends :
    (rounds : ℕ) (rest : File) → length rest < rounds → find_data rounds rest ≢ out_of_rounds
unfolding find_data
find_data_ends zero rest h e = omega arith
find_data_ends (suc rounds) rest h e =
    let next = drop (8 + le32 rest 4) rest in
    let l : length next ≡ length rest - (8 + le32 rest 4) = length-drop (8 + le32 rest 4) rest in
    elim (Bool-cases (ltb (length rest) 8)) [
      | inl short ↦ ground arith
      | inr long ↦ elim (Bool-cases (id_at rest 0 data_id)) [
        | inl here ↦ ground arith
        | inr there ↦ find_data_ends rounds next (ground (arith, l)) (ground arith)
      ]
    ]

pub record Chunk : Type 0 where
  pub c0 : ℕ
  pub c1 : ℕ
  pub c2 : ℕ
  pub c3 : ℕ
  pub body : File

abbrev pub chunk_id : Chunk → File
chunk_id c = c.c0 ∷ c.c1 ∷ c.c2 ∷ c.c3 ∷ []

abbrev pub chunk_bytes : Chunk → File
chunk_bytes c = chunk_id c ++ (bytes32 (length c.body) ++ c.body)

unfoldable pub chunks_bytes : List Chunk → File
chunks_bytes [] = []
chunks_bytes (c ∷ cs) = chunk_bytes c ++ chunks_bytes cs

-- Chunks with other ids than that of the data, whose sizes fit their fields.
abbrev pub AllOthers : List Chunk → Type 0
AllOthers [] = Unit {0}
AllOthers (c ∷ cs) =
    ((id_at (chunk_id c) 0 data_id ≡ false) × (length c.body < 2 ^ 32)) × AllOthers cs

drop-append : (xs ys : File) → drop (length xs) (xs ++ ys) ≡ ys
drop-append [] ys = refl
drop-append (x ∷ xs) ys = drop-append xs ys

pub bytes32_value :
    (n : ℕ)
    → n < 2 ^ 32
    → n % 256 + 256 * (n / 256 % 256) + 65536 * (n / 65536 % 256) + 16777216 * (n / 16777216 % 256)
      ≡ n
bytes32_value n h = omega arith

unary8 : (n : ℕ) → 8 + n ≡ suc (suc (suc (suc (suc (suc (suc (suc n)))))))
unary8 n = omega arith

-- What the loop does at such a chunk.
past_chunk :
    (c : Chunk) (rounds : ℕ) (rest : File)
    → (id_at (chunk_id c) 0 data_id ≡ false)
    → length c.body < 2 ^ 32
    → find_data (suc rounds) (chunk_bytes c ++ rest) ≡ find_data rounds rest
unfolding find_data
past_chunk c rounds rest i s =
    let f = chunk_bytes c ++ rest in
    let long : ltb (length f) 8 ≡ false = ground arith in
    let size : le32 f 4 ≡ length c.body = ground (arith, bytes32_value (length c.body) s) in
    let behind : drop (8 + length c.body) f ≡ rest =
      ap (λ n. drop n f) (unary8 (length c.body)) ∙ drop-append c.body rest in
    ap
      (λ b.
        if b
        then no_data
        else if id_at f 0 data_id
        then found (le32 f 4) (drop 8 f)
        else find_data rounds (drop (8 + le32 f 4) f))
      long
    ∙ (ap (λ b. if b then found (le32 f 4) (drop 8 f) else find_data rounds (drop (8 + le32 f 4) f))
          i
        ∙ (ap (λ z. find_data rounds (drop (8 + z) f)) size ∙ ap (find_data rounds) behind))

-- The search passes over such chunks to the data.
pub find_data-chunks_bytes :
    (cs : List Chunk) (rounds n : ℕ) (body : File)
    → AllOthers cs
    → n < 2 ^ 32
    → length cs < rounds
    → find_data rounds (chunks_bytes cs ++ (data_id ++ (bytes32 n ++ body))) ≡ found n body
unfolding find_data chunks_bytes
find_data-chunks_bytes [] zero n body a s r = ground arith
find_data-chunks_bytes [] (suc rounds) n body a s r = ground (arith, bytes32_value n s)
find_data-chunks_bytes (c ∷ cs) zero n body a s r = ground arith
find_data-chunks_bytes (c ∷ cs) (suc rounds) n body a s r =
    let rest = data_id ++ (bytes32 n ++ body) in
    ap (find_data (suc rounds)) (append_assoc (chunk_bytes c) (chunks_bytes cs) rest)
    ∙ (past_chunk c rounds (chunks_bytes cs ++ rest) a.0.0 a.0.1
        ∙ find_data-chunks_bytes cs rounds n body a.1 s (omega arith))
