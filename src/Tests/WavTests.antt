-- ===== src/Tests/WavTests.antt =====
-- Runs of src/kerchunk_wav.c.
use kerchunk.Prelude.{◌≡◌, ◌≢◌, refl, pos, negsuc, some, [], ◌∷◌, arith, List, ℤ}
use kerchunk.Wav.{File, wav_read, wav_write, find_data, out_of_rounds}
use kerchunk.Wav.Chunks.{Chunk, find_data_ends}
use kerchunk.Wav.Round.{wav_read-wav_write, long_file, wav_read-long_file}

abbrev three : List ℤ
three = pos 5 ∷ negsuc 32767 ∷ pos 32767 ∷ []

wav_read-wav_write_example :
    (f : File) × (wav_write three (pos 8000) ≡ some f) × (wav_read f ≡ some (three, pos 8000))
wav_read-wav_write_example =
    wav_read-wav_write three 8000
      ((omega arith, omega arith), ((omega arith, omega arith), ((omega arith, omega arith), tt)))
      (omega arith) (omega arith) (omega arith) (omega arith)

-- A `LIST` chunk of two bytes.
abbrev list_chunk : Chunk
list_chunk = record { c0 = b'L'; c1 = b'I'; c2 = b'S'; c3 = b'T'; body = 1 ∷ 2 ∷ [] }

wav_read-long_file_example :
    wav_read (long_file 60 8000 list_chunk [] three) ≡ some (three, pos 8000)
wav_read-long_file_example =
    wav_read-long_file 60 8000 list_chunk [] three ((refl, omega arith), tt) (omega arith)
      ((omega arith, omega arith), ((omega arith, omega arith), ((omega arith, omega arith), tt)))
      (omega arith) (omega arith)

-- A chunk of size 0, and a byte behind it.
abbrev empty_chunk : File
empty_chunk = b'L' ∷ b'I' ∷ b'S' ∷ b'T' ∷ 0 ∷ 0 ∷ 0 ∷ 0 ∷ 9 ∷ []

find_data_ends_example : find_data 10 empty_chunk ≢ out_of_rounds
find_data_ends_example = find_data_ends 10 empty_chunk (omega arith)
