-- ===== src/AudioRing/Fifo.antt =====
-- The ring of src/kerchunk_audio_ring.c is a queue of at most one sample less than its size.
use mathlib.Core.Path.{ap₂}
use kerchunk.Prelude.{
  ℕ, ◌+◌, ◌-◌, ◌%◌, ◌≤◌, ◌<◌, ◌≡◌, refl, ap, ◌∙◌, sym, ℤ, ltb, if◌then◌else◌, List, [], ◌∷◌, ◌++◌,
  length, arith, take, drop, min, length-take, take_of_le, drop_of_le, Bool-cases, inl, inr,
}
use kerchunk.AudioRing.{
  Ring, ring_size, readable, writable, store_from, load_from, ring_write, ring_read,
}
use kerchunk.AudioRing.Window.{
  load_from-mod, store_from-mod, length-load_from, load_from-add, load_from-store_from,
  load_from-store_from_self, take-load_from, drop-load_from,
}

-- The samples that wait, the oldest first.
abbrev pub contents : Ring → List ℤ
contents r = load_from r.tail (readable r) r.buf

pub record IsValid (r : Ring) : Type 0 where
  pub head_lt : r.head < ring_size
  pub tail_lt : r.tail < ring_size

pub readable-lt : (r : Ring) → readable r < ring_size
unfolding readable
readable-lt r = omega arith

-- The head is as far in front of the tail as there are samples.
pub head_lem : (r : Ring) → IsValid r → (r.tail + readable r) % ring_size ≡ r.head
unfolding readable
head_lem r v = omega arith

-- Moving the head on adds to what can be read, and moving the tail on takes from it.
pub readable-head :
    (r : Ring) (n : ℕ)
    → IsValid r
    → n ≤ writable r
    → readable (record r { head = (r.head + n) % ring_size }) ≡ readable r + n
unfolding writable
readable-head r n v h = omega arith

pub readable-tail :
    (r : Ring) (n : ℕ)
    → IsValid r
    → n ≤ readable r
    → readable (record r { tail = (r.tail + n) % ring_size }) ≡ readable r - n
unfolding readable
readable-tail r n v h = omega arith

-- Storing behind the head is storing behind what waits.
store_from-head :
    (r : Ring) (xs : List ℤ)
    → IsValid r
    → store_from r.head xs r.buf ≡ store_from (r.tail + readable r) xs r.buf
store_from-head r xs v =
    store_from-mod r.head (r.tail + readable r) xs r.buf (omega (arith, head_lem r v))

-- It changes nothing that waits.
pub contents-store_from :
    (r : Ring) (xs : List ℤ)
    → IsValid r
    → length xs ≤ writable r
    → load_from r.tail (readable r) (store_from r.head xs r.buf) ≡ contents r
unfolding writable
contents-store_from r xs v h =
    ap (load_from r.tail (readable r)) (store_from-head r xs v)
    ∙ load_from-store_from r.tail (readable r) (r.tail + readable r) xs r.buf (omega arith)
        (omega (arith, readable-lt r))

-- Publishing samples that stand behind the head appends them.
pub contents-publish :
    (r : Ring) (xs : List ℤ)
    → IsValid r
    → length xs ≤ writable r
    → load_from r.head (length xs) r.buf ≡ xs
    → contents (record r { head = (r.head + length xs) % ring_size }) ≡ contents r ++ xs
contents-publish r xs v h e =
    ap (λ n. load_from r.tail n r.buf) (readable-head r (length xs) v h)
    ∙ load_from-add r.tail (readable r) (length xs) r.buf
    ∙ ap (λ l. contents r ++ l)
        (load_from-mod (r.tail + readable r) r.head (length xs) r.buf (omega (arith, head_lem r v))
          ∙ e)

-- Moving the tail on drops the oldest samples.
pub contents-consume :
    (r : Ring) (n : ℕ)
    → IsValid r
    → n ≤ readable r
    → contents (record r { tail = (r.tail + n) % ring_size }) ≡ drop n (contents r)
contents-consume r n v h =
    ap (λ k. load_from ((r.tail + n) % ring_size) k r.buf) (readable-tail r n v h)
    ∙ load_from-mod ((r.tail + n) % ring_size) (r.tail + n) (readable r - n) r.buf (omega arith)
    ∙ sym (drop-load_from n r.tail (readable r) r.buf h)

-- The queue that a ring stands for.
abbrev pub fifo_write : List ℤ → List ℤ → List ℤ × ℕ
fifo_write src q = let n = min (ring_size - 1 - length q) (length src) in (q ++ take n src, n)

abbrev pub fifo_read : ℕ → List ℤ → List ℤ × List ℤ
fifo_read want q = (drop want q, take want q)

writable-lt : (r : Ring) → writable r < ring_size
unfolding writable
writable-lt r = omega arith

write_count :
    (src : List ℤ) (r : Ring)
    → (if ltb (writable r) (length src) then writable r else length src)
      ≡ min (ring_size - 1 - length (contents r)) (length src)
unfolding writable
write_count src r = let len = length-load_from r.tail (readable r) r.buf in ground (arith, len)

read_count :
    (want : ℕ) (r : Ring)
    → let k = if ltb (readable r) want then readable r else want in
      (take k (contents r) ≡ take want (contents r))
      × (drop k (contents r) ≡ drop want (contents r))
read_count want r =
    let q = contents r in
    let n = readable r in
    let len : length q ≡ n = length-load_from r.tail (readable r) r.buf in
    elim (Bool-cases (ltb n want)) [
      | inl short ↦ rw short (
        take_of_le n q (omega arith) ∙ sym (take_of_le want q (ground arith)),
        drop_of_le n q (omega arith) ∙ sym (drop_of_le want q (ground arith)),
      )
      | inr whole ↦ rw whole (refl, refl)
    ]

abbrev stored : Ring → List ℤ → Ring
stored r xs = record r { buf = store_from r.head xs r.buf }

stored_self :
    (r : Ring) (xs : List ℤ)
    → length xs ≤ ring_size
    → load_from r.head (length xs) (stored r xs).buf ≡ xs
stored_self r xs h = load_from-store_from_self r.head xs r.buf h

contents-stored :
    (r : Ring) (xs : List ℤ)
    → IsValid r
    → length xs ≤ writable r
    → contents (stored r xs) ≡ contents r
unfolding readable
contents-stored r xs v h = contents-store_from r xs v h

writable-stored : (r : Ring) (xs : List ℤ) → writable (stored r xs) ≡ writable r
unfolding writable
writable-stored r xs = refl

-- Storing and publishing at most as much as fits appends it.
contents-write :
    (r : Ring) (xs : List ℤ)
    → IsValid r
    → length xs ≤ writable r
    → contents (record (stored r xs) { head = (r.head + length xs) % ring_size }) ≡ contents r ++ xs
contents-write r xs v h =
    let valid : IsValid (stored r xs) = record { head_lt = v.head_lt; tail_lt = v.tail_lt } in
    contents-publish (stored r xs) xs valid (omega (arith, writable-stored r xs))
      (stored_self r xs (omega (arith, writable-lt r)))
    ∙ ap (λ l. l ++ xs) (contents-stored r xs v h)

-- `kerchunk_audio_ring_write` is the queue's write.
pub ring_write_refines :
    (src : List ℤ) (r : Ring)
    → IsValid r
    → let (r', n) = ring_write src r in
      IsValid r'
      × (contents r' ≡ (fifo_write src (contents r)).0)
      × (n ≡ (fifo_write src (contents r)).1)
unfolding ring_write
ring_write_refines src r v =
    let k = if ltb (writable r) (length src) then writable r else length src in
    let fits : k ≤ writable r = ground arith in
    let there : k ≤ length src = ground arith in
    let len : length (take k src) ≡ k = omega (arith, length-take k src) in
    let same : k ≡ min (ring_size - 1 - length (contents r)) (length src) = write_count src r in
    (
      record { head_lt = omega arith; tail_lt = v.tail_lt },
      ap (λ n. contents (record (stored r (take k src)) { head = (r.head + n) % ring_size }))
            (sym len)
          ∙ contents-write r (take k src) v (omega arith)
          ∙ ap (λ n. contents r ++ take n src) same,
      same,
    )

-- `kerchunk_audio_ring_read` is the queue's read.
pub ring_read_refines :
    (want : ℕ) (r : Ring)
    → IsValid r
    → let (r', out) = ring_read want r in
      IsValid r'
      × (contents r' ≡ (fifo_read want (contents r)).0)
      × (out ≡ (fifo_read want (contents r)).1)
unfolding ring_read
ring_read_refines want r v =
    let k = if ltb (readable r) want then readable r else want in
    let there : k ≤ readable r = ground arith in
    let len = length-load_from r.tail (readable r) r.buf in
    let (took, left) = read_count want r in
    (
      record { head_lt = v.head_lt; tail_lt = omega arith },
      contents-consume r k v there ∙ left,
      sym (take-load_from k r.tail (readable r) r.buf there) ∙ took,
    )

pub data RingOp : Type 0 where
  put_samples : List ℤ → RingOp
  get_samples : ℕ → RingOp

-- What a call gives back.
pub data RingResult : Type 0 where
  put_count : ℕ → RingResult
  got : List ℤ → RingResult

-- The results of a sequence of calls, of the ring and of the queue, with the last state.
unfoldable pub run_ring : List RingOp → Ring → List RingResult × Ring
run_ring [] r = ([], r)
run_ring (put_samples src ∷ ops) r =
    let (r', n) = ring_write src r in let (out, last) = run_ring ops r' in (put_count n ∷ out, last)
run_ring (get_samples want ∷ ops) r =
    let (r', xs) = ring_read want r in let (out, last) = run_ring ops r' in (got xs ∷ out, last)

unfoldable pub run_fifo : List RingOp → List ℤ → List RingResult × List ℤ
run_fifo [] q = ([], q)
run_fifo (put_samples src ∷ ops) q =
    let (q', n) = fifo_write src q in let (out, last) = run_fifo ops q' in (put_count n ∷ out, last)
run_fifo (get_samples want ∷ ops) q =
    let (q', xs) = fifo_read want q in let (out, last) = run_fifo ops q' in (got xs ∷ out, last)

-- Any calls on a valid ring give the results of the bounded queue that it stands for, counts of
-- accepted samples included, and leave the ring standing for the queue's last state.
pub run_ring_refines :
    (ops : List RingOp) (r : Ring)
    → IsValid r
    → ((run_ring ops r).0 ≡ (run_fifo ops (contents r)).0)
      × (contents (run_ring ops r).1 ≡ (run_fifo ops (contents r)).1)
unfolding run_ring run_fifo
run_ring_refines [] r v = (refl, refl)
run_ring_refines (put_samples src ∷ ops) r v =
    let (v', c, n) = ring_write_refines src r v in
    let (out, last) = run_ring_refines ops (ring_write src r).0 v' in
    (
      ap₂ (λ k q. put_count k ∷ q) n (out ∙ ap (λ q. (run_fifo ops q).0) c),
      last ∙ ap (λ q. (run_fifo ops q).1) c,
    )
run_ring_refines (get_samples want ∷ ops) r v =
    let (v', c, n) = ring_read_refines want r v in
    let (out, last) = run_ring_refines ops (ring_read want r).0 v' in
    (
      ap₂ (λ k q. got k ∷ q) n (out ∙ ap (λ q. (run_fifo ops q).0) c),
      last ∙ ap (λ q. (run_fifo ops q).1) c,
    )
