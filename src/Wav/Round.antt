-- ===== src/Wav/Round.antt =====
-- Files of src/kerchunk_wav.c, written and read back.
use mathlib.Core.List.{append-nil}
use kerchunk.Prelude.{
  ℕ, ◌+◌, ◌*◌, ◌/◌, ◌%◌, ◌^◌, ◌<◌, ◌≤◌, ◌≡◌, refl, ap, sym, true, false, not, List, [], ◌∷◌, ◌++◌,
  length, length-append, arith, ltb, ◌==◌, some, ℤ, pos, is_pos,
}
use kerchunk.Wav.{
  File, le32, le16, bytes16, bytes32, riff_id, wave_id, fmt_id, data_id, id_at, header_ok,
  locate_data, read_samples, wav_read, wav_write, header_bytes, sample_bytes,
}
use kerchunk.Wav.Chunks.{Chunk, chunks_bytes, AllOthers, find_data-chunks_bytes, bytes32_value}
use kerchunk.Wav.Samples.{AllInt16, read_samples-sample_bytes}

header_bytes-header_ok :
    (size rate : ℕ) (rest : File)
    → size ≤ 104857600
    → header_ok (header_bytes size rate ++ rest) ≡ true
unfolding header_ok
header_bytes-header_ok size rate rest s = ground (arith, bytes32_value size (omega arith))

locate_data-header_bytes :
    (size rate : ℕ) (rest : File)
    → size ≤ 104857600
    → locate_data (header_bytes size rate ++ rest) ≡ (size, rest)
unfolding locate_data
locate_data-header_bytes size rate rest s = ap (λ n. (n, rest)) (bytes32_value size (omega arith))

below : (r : ℕ) → r < 2 ^ 31 → ltb r (2 ^ 31) ≡ true
below r fits = ground arith

-- The rate and the samples of a file of one channel whose header passes.
one_channel :
    (f : File) (size r : ℕ) (rest : File) (xs : List ℤ)
    → header_ok f ≡ true
    → locate_data f ≡ (size, rest)
    → le16 f 22 ≡ 1
    → le32 f 24 ≡ r
    → r < 2 ^ 31
    → read_samples (size / 2) rest ≡ some xs
    → wav_read f ≡ some (xs, pos r)
unfolding wav_read
one_channel f size r rest xs ok located one rate fits read =
    rw (ok, located, one, rate, read, below r fits) refl

read_back :
    (xs : List ℤ) → AllInt16 xs → read_samples (length xs * 2 / 2) (sample_bytes xs) ≡ some xs
read_back xs a =
    let half : length xs * 2 / 2 ≡ length xs = omega arith in
    rw (half, sym (append-nil (sample_bytes xs))) (read_samples-sample_bytes xs [] a)

-- Between one sample and 104857600 bytes of them, at a rate from 1 to below 2^31: what is written is read
-- as it was.
pub wav_read-wav_write :
    (xs : List ℤ) (rate : ℕ)
    → AllInt16 xs
    → 0 < length xs
    → length xs * 2 ≤ 104857600
    → 0 < rate
    → rate < 2 ^ 31
    → (f : File) × (wav_write xs (pos rate) ≡ some f) × (wav_read f ≡ some (xs, pos rate))
unfolding wav_write
wav_read-wav_write xs rate a p m r s =
    let n = length xs * 2 in
    let f = header_bytes n rate ++ sample_bytes xs in
    let small : n % 2 ^ 32 ≡ n = omega arith in
    let some_samples : length xs == 0 ≡ false = ground arith in
    let good : not (is_pos (pos rate)) ≡ false = ground arith in
    (
      f,
      rw (some_samples, good, small) refl,
      one_channel f n rate (sample_bytes xs) xs (header_bytes-header_ok n rate (sample_bytes xs) m)
          (locate_data-header_bytes n rate (sample_bytes xs) m) refl
          (bytes32_value rate (omega arith)) s (read_back xs a),
    )

-- A file with other chunks in front of its data, written out: one channel, a plain `fmt ` chunk.
abbrev pub fmt_bytes : ℕ → ℕ → File
fmt_bytes riff_size rate =
    riff_id
    ++ (bytes32 riff_size
        ++ (wave_id
            ++ (fmt_id
                ++ (bytes32 16
                    ++ (bytes16 1
                        ++ (bytes16 1
                            ++ (bytes32 rate
                                ++ (bytes32 (rate * 2) ++ (bytes16 2 ++ bytes16 16)))))))))

abbrev pub data_bytes : List ℤ → File
data_bytes xs = data_id ++ (bytes32 (length xs * 2) ++ sample_bytes xs)

abbrev pub long_file : ℕ → ℕ → Chunk → List Chunk → List ℤ → File
long_file riff_size rate c cs xs =
    fmt_bytes riff_size rate ++ (chunks_bytes (c ∷ cs) ++ data_bytes xs)

long_file-header_ok :
    (riff_size rate : ℕ) (c : Chunk) (cs : List Chunk) (rest : File)
    → length c.body ≤ 104857600
    → header_ok (fmt_bytes riff_size rate ++ (chunks_bytes (c ∷ cs) ++ rest)) ≡ true
unfolding header_ok chunks_bytes
long_file-header_ok riff_size rate c cs rest b =
    ground (arith, bytes32_value (length c.body) (omega arith))

-- There are bytes enough for the rounds of the search.
length-chunks_bytes : (cs : List Chunk) (rest : File) → length cs ≤ length (chunks_bytes cs ++ rest)
unfolding chunks_bytes
length-chunks_bytes [] rest = omega arith
length-chunks_bytes (c ∷ cs) rest =
    let whole = length-append (c.body ++ chunks_bytes cs) rest in
    let front = length-append c.body (chunks_bytes cs) in
    let behind = length-append (chunks_bytes cs) rest in
    omega (arith, whole, front, behind, length-chunks_bytes cs rest)

locate_data-long_file :
    (riff_size rate : ℕ) (c : Chunk) (cs : List Chunk) (n : ℕ) (body : File)
    → AllOthers (c ∷ cs)
    → n < 2 ^ 32
    → locate_data
        (fmt_bytes riff_size rate ++ (chunks_bytes (c ∷ cs) ++ (data_id ++ (bytes32 n ++ body))))
      ≡ (n, body)
unfolding locate_data chunks_bytes
locate_data-long_file riff_size rate c cs n body o m =
    let rest = data_id ++ (bytes32 n ++ body) in
    let f = fmt_bytes riff_size rate ++ (chunks_bytes (c ∷ cs) ++ rest) in
    let enough : length (c ∷ cs) < length f + 1 =
      omega (arith, length-chunks_bytes (c ∷ cs) rest) in
    let here : id_at f 36 data_id ≡ false = o.0.0 in
    let met = find_data-chunks_bytes (c ∷ cs) (length f + 1) n body o m enough in
    rw (here, met) refl

-- A file of one channel whose data is behind one other chunk or more, the first of at most 104857600 bytes,
-- is read whole, at a rate below 2^31; of the size of the data nothing is asked but that its field of 32
-- bits holds it.
pub wav_read-long_file :
    (riff_size rate : ℕ) (c : Chunk) (cs : List Chunk) (xs : List ℤ)
    → AllOthers (c ∷ cs)
    → length c.body ≤ 104857600
    → AllInt16 xs
    → length xs * 2 < 2 ^ 32
    → rate < 2 ^ 31
    → wav_read (long_file riff_size rate c cs xs) ≡ some (xs, pos rate)
wav_read-long_file riff_size rate c cs xs o b a m s =
    let f = long_file riff_size rate c cs xs in
    one_channel f (length xs * 2) rate (sample_bytes xs) xs
      (long_file-header_ok riff_size rate c cs (data_bytes xs) b)
      (locate_data-long_file riff_size rate c cs (length xs * 2) (sample_bytes xs) o m) refl
      (bytes32_value rate (omega arith)) s (read_back xs a)
