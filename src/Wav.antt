-- ===== src/Wav.antt =====
-- src/kerchunk_wav.c: WAV files of 16-bit samples. A file is its bytes; opening, reading what is there,
-- writing and allocating succeed. The resampler, in floating point, is left out.
pub mod Chunks
pub mod Samples
pub mod Round
use kerchunk.Prelude.{
  to_int32, ℕ, zero, suc, ◌+◌, ◌-◌, ◌*◌, ◌/◌, ◌%◌, ◌^◌, Bool, true, false, not, ◌&&◌, ◌||◌, ltb,
  leb, ◌==◌, if◌then◌else◌, ℤ, pos, negsuc, ◌+ℤ◌, is_pos, pos_part, sub_ℕ, Option, none, some, List,
  [], ◌∷◌, ◌++◌, length, get_or, drop, take,
}
use kerchunk.Text.{same_text}

abbrev pub File : Type 0
File = List ℕ

-- Little-endian fields at an offset, and their bytes.
abbrev pub le16 : File → ℕ → ℕ
le16 f i = get_or f i 0 + 256 * get_or f (i + 1) 0

abbrev pub le32 : File → ℕ → ℕ
le32 f i =
    get_or f i 0
    + 256 * get_or f (i + 1) 0
    + 65536 * get_or f (i + 2) 0
    + 16777216 * get_or f (i + 3) 0

abbrev pub bytes16 : ℕ → File
bytes16 n = n % 256 ∷ n / 256 % 256 ∷ []

abbrev pub bytes32 : ℕ → File
bytes32 n = n % 256 ∷ n / 256 % 256 ∷ n / 65536 % 256 ∷ n / 16777216 % 256 ∷ []

-- `int16_t` and `int` as bit patterns
abbrev pub of_int16 : ℤ → ℕ
of_int16 (pos n) = n % 65536
of_int16 (negsuc n) = 65535 - n % 65536

abbrev pub to_int16 : ℕ → ℤ
to_int16 n = if ltb n 32768 then pos n else negsuc (65535 - n)

abbrev pub riff_id : File
riff_id = b'R' ∷ b'I' ∷ b'F' ∷ b'F' ∷ []

abbrev pub wave_id : File
wave_id = b'W' ∷ b'A' ∷ b'V' ∷ b'E' ∷ []

abbrev pub fmt_id : File
fmt_id = b'f' ∷ b'm' ∷ b't' ∷ b' ' ∷ []

abbrev pub data_id : File
data_id = b'd' ∷ b'a' ∷ b't' ∷ b'a' ∷ []

-- `memcmp(p, id, 4) == 0` at an offset
abbrev pub id_at : File → ℕ → File → Bool
id_at f i id =
    get_or f i 0 == get_or id 0 0
    && get_or f (i + 1) 0 == get_or id 1 0
    && get_or f (i + 2) 0 == get_or id 2 0
    && get_or f (i + 3) 0 == get_or id 3 0

-- What the loop over the chunks meets.
pub data Search : Type 0 where
  found : ℕ → File → Search
  no_data out_of_rounds : Search

-- The loop, on what is behind the position in the file. A chunk has 8 bytes at least.
unfoldable pub find_data : ℕ → File → Search
find_data zero rest = out_of_rounds
find_data (suc rounds) rest =
    let next = find_data rounds (drop (8 + le32 rest 4) rest) in
    if ltb (length rest) 8
    then no_data
    else if id_at rest 0 data_id
    then found (le32 rest 4) (drop 8 rest)
    else next

-- The checks of the header in `kerchunk_wav_read`.
unfoldable pub header_ok : File → Bool
header_ok f =
    leb 44 (length f)
    && (id_at f 0 riff_id && id_at f 8 wave_id)
    && (le16 f 20 == 1 && le16 f 34 == 16)
    && (not (le16 f 22 == 0) && leb (le16 f 22) 2)
    && leb (le32 f 40) 104857600
    && leb (le32 f 16) 1024

-- The size of the data, and what is behind the position then; at the end of the file nothing is.
abbrev pub searched : ℕ → Search → ℕ × File
searched size (found n rest) = (n, rest)
searched size no_data = (size, [])
searched size out_of_rounds = (size, [])

unfoldable pub locate_data : File → ℕ × File
unfolding find_data
locate_data f =
    if id_at f 36 data_id
    then (le32 f 40, drop 44 f)
    else searched (le32 f 40) (find_data (length f + 1) (drop (20 + le32 f 16) f))

-- So many samples; `none` where the file ends before.
unfoldable pub read_samples : ℕ → File → Option (List ℤ)
read_samples zero f = some []
read_samples (suc n) [] = none
read_samples (suc n) (a ∷ []) = none
read_samples (suc n) (a ∷ b ∷ f) = elim (read_samples n f) [
  | none ↦ none
  | some xs ↦ some (to_int16 (a + 256 * b) ∷ xs)
]

-- `sum / channels` at two channels: C rounds towards 0.
abbrev pub half : ℤ → ℤ
half (pos n) = pos (n / 2)
half (negsuc n) = sub_ℕ 0 (suc n / 2)

unfoldable pub mix : List ℤ → List ℤ
mix [] = []
mix (a ∷ []) = []
mix (a ∷ b ∷ xs) = half (a +ℤ b) ∷ mix xs

abbrev pub mixed : Option (List ℤ) → Option (List ℤ)
mixed none = none
mixed (some xs) = some (mix xs)

abbrev pub at_rate : ℕ → Option (List ℤ) → Option (List ℤ × ℤ)
at_rate rate none = none
at_rate rate (some xs) = some (xs, to_int32 rate)

-- `kerchunk_wav_read`: the samples and the rate; `none` is -1.
unfoldable pub wav_read : File → Option (List ℤ × ℤ)
unfolding header_ok locate_data read_samples mix
wav_read f =
    if not (header_ok f)
    then none
    else (let (size, rest) = locate_data f in
        let channels = le16 f 22 in
        let samples = size / (channels * 2) in
        at_rate (le32 f 24) (
          if channels == 1
          then read_samples samples rest
          else mixed (read_samples (samples * channels) rest)))

unfoldable pub sample_bytes : List ℤ → File
sample_bytes [] = []
sample_bytes (x ∷ xs) = of_int16 x % 256 ∷ of_int16 x / 256 ∷ sample_bytes xs

-- The header that `kerchunk_wav_write` fills in.
abbrev pub header_bytes : ℕ → ℕ → File
header_bytes size rate =
    riff_id
    ++ (bytes32 ((size + 36) % 2 ^ 32)
        ++ (wave_id
            ++ (fmt_id
                ++ (bytes32 16
                    ++ (bytes16 1
                        ++ (bytes16 1
                            ++ (bytes32 rate
                                ++ (bytes32 (rate * 2 % 2 ^ 32)
                                    ++ (bytes16 2
                                        ++ (bytes16 16 ++ (data_id ++ bytes32 size)))))))))))

-- `kerchunk_wav_write`: what it writes; `none` is -1.
unfoldable pub wav_write : List ℤ → ℤ → Option File
unfolding sample_bytes
wav_write xs rate =
    if length xs == 0 || not (is_pos rate)
    then none
    else some (header_bytes (length xs * 2 % 2 ^ 32) (pos_part rate) ++ sample_bytes xs)

-- `kerchunk_pcm_read` and `kerchunk_pcm_write`
unfoldable pub pcm_read : File → Option (List ℤ)
unfolding read_samples
pcm_read f =
    if length f == 0 || not (length f % 2 == 0) then none else read_samples (length f / 2) f

unfoldable pub pcm_write : List ℤ → Option File
unfolding sample_bytes
pcm_write xs = if length xs == 0 then none else some (sample_bytes xs)
