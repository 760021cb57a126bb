-- ===== src/AudioRing.antt =====
-- src/kerchunk_audio_ring.c: the ring between the sound card's callback and the audio thread, and the
-- fill for a ring that ran dry. Positions are `size_t`. `src` has as many samples as `n` says.
pub mod Window
pub mod Fifo
pub mod Race
pub mod Fill
use kerchunk.Prelude.{
  ℕ, zero, suc, ◌+◌, ◌-◌, ◌%◌, ◌^◌, Bool, true, false, ℤ, pos, ltb, leb, ◌==◌, if◌then◌else◌,
  Option, none, some, List, [], ◌∷◌, ◌++◌, length, take, drop, replicate, min,
}

-- `KERCHUNK_AUDIO_RING_SIZE`; `& KERCHUNK_AUDIO_RING_MASK` is the remainder by it.
abbrev pub ring_size : ℕ
ring_size = 262144

-- `kerchunk_audio_ring_t`, the array as a function of the index.
pub record Ring : Type 0 where
  pub buf : ℕ → ℤ
  pub head : ℕ
  pub tail : ℕ

-- `kerchunk_audio_ring_init`
unfoldable pub init : Ring
init = record { buf = λ i. pos 0; head = 0; tail = 0 }

-- `(head - tail) & MASK` on `size_t`
unfoldable pub distance : ℕ → ℕ → ℕ
distance head tail = (head + 2 ^ 64 - tail) % 2 ^ 64 % ring_size

-- `kerchunk_audio_ring_readable`
unfoldable pub readable : Ring → ℕ
unfolding distance
readable r = distance r.head r.tail

-- `kerchunk_audio_ring_writable`
unfoldable pub writable : Ring → ℕ
unfolding readable
writable r = ring_size - 1 - readable r

abbrev pub store : (ℕ → ℤ) → ℕ → ℤ → ℕ → ℤ
store buf i x j = if i == j then x else buf j

-- The loop of `kerchunk_audio_ring_write`, from position `h + i` on.
unfoldable pub store_from : ℕ → List ℤ → (ℕ → ℤ) → ℕ → ℤ
store_from p [] buf = buf
store_from p (x ∷ xs) buf = store_from (p + 1) xs (store buf (p % ring_size) x)

-- The loop of `kerchunk_audio_ring_read`, from position `t + i` on.
unfoldable pub load_from : ℕ → ℕ → (ℕ → ℤ) → List ℤ
load_from p zero buf = []
load_from p (suc n) buf = buf (p % ring_size) ∷ load_from (p + 1) n buf

-- `kerchunk_audio_ring_write` by a producer that saw `space` writable samples.
unfoldable pub write_within : ℕ → List ℤ → Ring → Ring × ℕ
write_within space src r =
    let n = if ltb space (length src) then space else length src in
    (record r { buf = store_from r.head (take n src) r.buf; head = (r.head + n) % ring_size }, n)

-- `kerchunk_audio_ring_write`
unfoldable pub ring_write : List ℤ → Ring → Ring × ℕ
unfolding write_within writable
ring_write src r = write_within (writable r) src r

-- `kerchunk_audio_ring_read` by a consumer that saw `avail` readable samples.
unfoldable pub read_within : ℕ → ℕ → Ring → Ring × List ℤ
read_within avail want r =
    let n = if ltb avail want then avail else want in
    (record r { tail = (r.tail + n) % ring_size }, load_from r.tail n r.buf)

-- `kerchunk_audio_ring_read`: the samples are `dst`, and their number is the result.
unfoldable pub ring_read : ℕ → Ring → Ring × List ℤ
unfolding read_within readable
ring_read want r = read_within (readable r) want r

-- The last branch of `kerchunk_audio_repeat_fill`: the loop that tiles from the start. A round
-- copies one sample at least, so the samples wanted bound the rounds.
unfoldable pub tile : ℕ → ℕ → List ℤ → List ℤ
tile zero want last = []
tile (suc rounds) want last =
    let chunk = if ltb want (length last) then want else length last in
    let rest = tile rounds (want - chunk) last in if want == 0 then [] else take chunk last ++ rest

-- `kerchunk_audio_repeat_fill`: what `dst` holds; an absent `last_buf` is empty.
unfoldable pub repeat_fill : ℕ → List ℤ → List ℤ
unfolding tile
repeat_fill want last =
    if want == 0
    then []
    else (if length last == 0
        then replicate want (pos 0)
        else (if leb want (length last)
            then take want (drop (length last - want) last)
            else tile want want last))
