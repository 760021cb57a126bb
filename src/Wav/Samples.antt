-- ===== src/Wav/Samples.antt =====
-- The samples of src/kerchunk_wav.c as bytes and back.
use mathlib.Core.List.{append-nil}
use kerchunk.Prelude.{
  ◌+◌, ◌*◌, ◌/◌, ◌%◌, ◌<◌, ◌≤◌, ◌≡◌, refl, some, ℤ, pos_part, neg_part, List, [], ◌∷◌, ◌++◌, length,
  arith,
}
use kerchunk.Wav.{File, of_int16, to_int16, read_samples, sample_bytes, pcm_read, pcm_write}

-- Values of `int16_t`.
abbrev pub AllInt16 : List ℤ → Type 0
AllInt16 [] = Unit {0}
AllInt16 (x ∷ xs) = ((pos_part x < 32768) × (neg_part x ≤ 32768)) × AllInt16 xs

to_int16-of_int16 :
    (x : ℤ)
    → pos_part x < 32768
    → neg_part x ≤ 32768
    → to_int16 (of_int16 x % 256 + 256 * (of_int16 x / 256)) ≡ x
to_int16-of_int16 x p n = ground arith

pub length-sample_bytes : (xs : List ℤ) → length (sample_bytes xs) ≡ length xs * 2
unfolding sample_bytes
length-sample_bytes [] = omega arith
length-sample_bytes (x ∷ xs) = omega (arith, length-sample_bytes xs)

pub read_samples-sample_bytes :
    (xs : List ℤ) (rest : File)
    → AllInt16 xs
    → read_samples (length xs) (sample_bytes xs ++ rest) ≡ some xs
unfolding read_samples sample_bytes
read_samples-sample_bytes [] rest a = refl
read_samples-sample_bytes (x ∷ xs) rest a =
    ground (arith, read_samples-sample_bytes xs rest a.1, to_int16-of_int16 x a.0.0 a.0.1)

-- The samples alone, at least one, are read as they were written.
pub pcm_read-pcm_write :
    (xs : List ℤ)
    → AllInt16 xs
    → 0 < length xs
    → (f : File) × (pcm_write xs ≡ some f) × (pcm_read f ≡ some xs)
unfolding pcm_read pcm_write
pcm_read-pcm_write xs a p =
    let l = length-sample_bytes xs in
    let r = read_samples-sample_bytes xs [] a in
    (sample_bytes xs, ground arith, ground (arith, l, r, append-nil (sample_bytes xs)))
