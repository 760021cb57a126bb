-- ===== src/Queue/Frames.antt =====
-- What `kerchunk_queue_drain` of src/kerchunk_queue.c delivers: whole frames, and every sample of an
-- item once and in order.
use mathlib.Core.List.{append_assoc, append-nil}
use kerchunk.Prelude.{
  ℕ, zero, suc, ◌+◌, ◌-◌, ◌≤◌, ◌<◌, ◌≡◌, refl, sym, ◌∙◌, ap, ◌⊎◌, Bool, true, false, not, ◌||◌,
  ◌==◌, ℤ, pos, ltb, leb, if◌then◌else◌, List, [], ◌∷◌, ◌++◌, length, length-append, arith,
  Bool-cases, inl, inr, Option-cases, take, drop, replicate, take-append-drop, length-take,
  length-drop, length-replicate,
}
use kerchunk.Queue.Items.{Item, Queue}
use kerchunk.Queue.Playback.{
  samples, take_samples, pop_head, load_from, load_next_item, end_item, copy_frame, drain,
}
use kerchunk.Queue.Invariant.{IsValid, load_from-IsValid}

copy_frame-length :
    (n : ℕ) (q : Queue) → IsValid q → q.draining ≡ true → length (copy_frame n q).1 ≡ n
unfolding copy_frame
copy_frame-length n q v d =
    let buf = samples q.drain_buf in
    let left = q.drain_len - q.drain_pos in
    let k = if ltb left n then left else n in
    let rest = drop q.drain_pos buf in
    ground (
      arith,
      length-append (take k rest) (replicate (n - k) (pos 0)),
      length-take k rest,
      length-drop q.drain_pos buf,
      length-replicate (n - k) (pos 0),
    )

load_from-nil :
    (memory : Bool) (l : List Item) (q : Queue)
    → q.items ≡ l
    → (load_from memory l q).1 ≡ false
    → (load_from memory l q).0.items ≡ []
unfolding load_from
load_from-nil memory [] q e h = e
load_from-nil memory (x ∷ rest) q e h = elim (Option-cases (take_samples memory x)) [
  | inl skipped ↦
      rw (skipped, load_from)
        (load_from-nil memory rest (pop_head rest q) refl (rw (skipped, load_from) at h))
  | inr (buf, taken) ↦ cc (rw (taken, load_from) at h)
]

-- A frame is whole or there is none: the result is the frame's length, and it is all that was asked
-- for or 0. It is 0 only when nothing is left: no gap, no item, no batch.
pub drain_whole :
    (memory : Bool) (n : ℕ) (q : Queue)
    → 0 < n
    → IsValid q
    → let (q', got, out) = drain memory n q in
      (length out ≡ got)
      × ((got ≡ n)
          ⊎ ((got ≡ 0)
              × (q'.items ≡ [])
              × (q'.gap_remaining ≡ 0)
              × (q'.draining ≡ false)
              × (q'.batch_active ≡ false)))
unfolding drain load_next_item
drain_whole memory n q p v =
    let q' = record q { draining = false } in
    let w : IsValid q' = ground arith in
    let l = (load_from memory q.items q').0 in
    ground (
      arith,
      load_from-IsValid memory q.items q' refl refl w,
      load_from-nil memory q.items q' refl,
      copy_frame-length n q v,
      copy_frame-length n l,
      length-replicate n (pos 0),
    )

drop-nil {ℓ} : {A : Type ℓ} (n : ℕ) → drop {A = A} n [] ≡ []
drop-nil zero = refl
drop-nil (suc n) = refl

drop-add {ℓ} : {A : Type ℓ} (a b : ℕ) (xs : List A) → drop (a + b) xs ≡ drop b (drop a xs)
drop-add zero b xs = let e : zero + b ≡ b = omega arith in ap (λ k. drop k xs) e
drop-add (suc a) b [] = drop-nil (suc a + b) ∙ sym (drop-nil b)
drop-add (suc a) b (x ∷ xs) =
    let e : suc a + b ≡ suc (a + b) = omega arith in ap (λ k. drop k (x ∷ xs)) e ∙ drop-add a b xs

take_all {ℓ} : {A : Type ℓ} (n : ℕ) (xs : List A) → length xs ≤ n → take n xs ≡ xs
take_all zero [] h = refl
take_all zero (x ∷ xs) h = absurd (omega arith)
take_all (suc n) [] h = refl
take_all (suc n) (x ∷ xs) h = ap (λ l. x ∷ l) (take_all n xs (omega arith))

-- The samples of the current item that are still to be sent.
abbrev pub left : Queue → List ℤ
left q = drop q.drain_pos (samples q.drain_buf)

-- The frames of `n` samples that are drained until the current item is over.
unfoldable pub play : Bool → ℕ → ℕ → Queue → List ℤ
play memory n zero q = []
play memory n (suc fuel) q =
    let (q', _, out) = drain memory n q in
    let rest = play memory n fuel q' in if q.draining then out ++ rest else []

drain_in_item :
    (memory : Bool) (n : ℕ) (q : Queue)
    → 0 < n
    → q.draining ≡ true
    → q.gap_remaining ≡ 0
    → q.drain_pos < q.drain_len
    → drain memory n q ≡ ((copy_frame n q).0, n, (copy_frame n q).1)
unfolding drain
drain_in_item memory n q p d g l =
    let e : (n == 0) ≡ false = ground arith in
    let f : ltb 0 q.gap_remaining ≡ false = ground arith in
    let h : (not q.draining || leb q.drain_len q.drain_pos) ≡ false = ground arith in rw (e, f, h)

-- A frame from the middle of an item is its next samples.
copy_frame_inside :
    (n : ℕ) (q : Queue)
    → n < q.drain_len - q.drain_pos
    → let (q', out) = copy_frame n q in
      (q' ≡ record q { drain_pos = q.drain_pos + n }) × (out ≡ take n (left q))
unfolding copy_frame
copy_frame_inside n q h =
    let e : ltb (q.drain_len - q.drain_pos) n ≡ false = ground arith in
    let f : leb q.drain_len (q.drain_pos + n) ≡ false = ground arith in
    let z : n - n ≡ 0 = omega arith in rw (e, f, z) (refl, append-nil (take n (left q)))

-- The last frame is the rest, padded with silence.
copy_frame_last :
    (n : ℕ) (q : Queue)
    → q.drain_len - q.drain_pos ≤ n
    → length (samples q.drain_buf) ≡ q.drain_len
    → let (q', out) = copy_frame n q in
      (q'.draining ≡ false) × (out ≡ left q ++ replicate (n - (q.drain_len - q.drain_pos)) (pos 0))
unfolding copy_frame end_item
copy_frame_last n q h b =
    let k = q.drain_len - q.drain_pos in
    let e : (if ltb k n then k else n) ≡ k = ground arith in
    let f : leb q.drain_len (q.drain_pos + k) ≡ true = ground arith in
    let whole : length (left q) ≤ k =
      omega (arith, length-drop q.drain_pos (samples q.drain_buf)) in
    rw (e, f) (refl, ap (λ l. l ++ replicate (n - k) (pos 0)) (take_all k (left q) whole))

abbrev advance : ℕ → Queue → Queue
advance n q = record q { drain_pos = q.drain_pos + n }

advance-IsValid :
    (n : ℕ) (q : Queue) → IsValid q → n < q.drain_len - q.drain_pos → IsValid (advance n q)
advance-IsValid n q v h = ground arith

play_step :
    (memory : Bool) (n fuel : ℕ) (q : Queue)
    → 0 < n
    → q.draining ≡ true
    → q.gap_remaining ≡ 0
    → q.drain_pos < q.drain_len
    → play memory n (suc fuel) q ≡ (copy_frame n q).1 ++ play memory n fuel (copy_frame n q).0
unfolding play
play_step memory n fuel q p d g l =
    ap (λ b. if b then (drain memory n q).2 ++ play memory n fuel (drain memory n q).0 else []) d
    ∙ ap (λ r. r.2 ++ play memory n fuel r.0) (drain_in_item memory n q p d g l)

play_off : (memory : Bool) (n fuel : ℕ) (q : Queue) → q.draining ≡ false → play memory n fuel q ≡ []
unfolding play
play_off memory n zero q d = refl
play_off memory n (suc fuel) q d = rw d

-- An item is sent completely: the frames drained from a point within an item until it is over are
-- its remaining samples, in order, followed by less than a frame of silence.
pub play_lem :
    (memory : Bool) (n fuel : ℕ) (q : Queue)
    → 0 < n
    → IsValid q
    → q.draining ≡ true
    → q.gap_remaining ≡ 0
    → q.drain_pos < q.drain_len
    → q.drain_len - q.drain_pos < fuel
    → (z : ℕ) × (z < n) × (play memory n fuel q ≡ left q ++ replicate z (pos 0))
play_lem memory n zero q p v d g l m = absurd (omega arith)
play_lem memory n (suc fuel) q p v d g l m =
    let k = q.drain_len - q.drain_pos in
    let now = play_step memory n fuel q p d g l in
    elim (Bool-cases (ltb n k)) [
      | inl more ↦
          let (e, out) = copy_frame_inside n q (ground arith) in
          let q' = advance n q in
          let (z, small, rest) =
            play_lem memory n fuel q' p (advance-IsValid n q v (ground arith)) d g (ground arith)
              (ground arith) in
          let l' = left q in
          (
            z,
            small,
            now
                ∙ (λ i. out i ++ play memory n fuel (e i))
                ∙ ap (λ r. take n l' ++ r)
                    (rest
                      ∙ ap (λ r. r ++ replicate z (pos 0))
                          (drop-add q.drain_pos n (samples q.drain_buf)))
                ∙ sym (append_assoc (take n l') (drop n l') (replicate z (pos 0)))
                ∙ ap (λ r. r ++ replicate z (pos 0)) (take-append-drop n l'),
          )
      | inr last ↦
          let (off, out) = copy_frame_last n q (ground arith) (v.buffered d) in
          (
            n - k,
            omega arith,
            now
                ∙ ap (λ r. (copy_frame n q).1 ++ r) (play_off memory n fuel (copy_frame n q).0 off)
                ∙ append-nil (copy_frame n q).1
                ∙ out,
          )
    ]
