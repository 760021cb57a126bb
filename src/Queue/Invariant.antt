-- ===== src/Queue/Invariant.antt =====
-- What holds of the queue of src/kerchunk_queue.c between two operations, and that every operation
-- keeps it.
use mathlib.Core.Path.{subst}
use kerchunk.Prelude.{
  Option-cases, ℕ, suc, ◌+◌, ◌≤◌, ◌<◌, ◌≡◌, refl, ap, Bool, true, false, ℤ, Option, none, some,
  List, [], ◌∷◌, ◌++◌, length, length-append, arith, inl, inr,
}
use kerchunk.Queue.Items.{
  ItemType, Item, Queue, max_queue_depth, init, insert_after, insert_priority, insert_item,
  add_item, new_item, tag_first, tag_item,
}
use kerchunk.Queue.Playback.{
  samples, take_samples, pop_head, begin_item, load_from, load_next_item, copy_frame, drain, flush,
  preempt,
}

-- Every id was given out, none twice.
abbrev pub Below : ℕ → List Item → Type 0
Below n [] = Unit {0}
Below n (x ∷ l) = (x.id < n) × Below n l

-- The count is the length and within the limit, all ids are older than the next one, and the drain
-- buffer holds the samples that are left to send.
pub record IsValid (q : Queue) : Type 0 where
  pub counted : q.count ≡ length q.items
  pub limited : q.count ≤ max_queue_depth
  pub old_ids : Below q.next_id q.items
  pub buffered : q.draining ≡ true → length (samples q.drain_buf) ≡ q.drain_len
  pub inside : q.draining ≡ true → q.drain_pos ≤ q.drain_len
  pub in_batch : q.draining ≡ true → q.batch_active ≡ true

Below-suc : (n : ℕ) (l : List Item) → Below n l → Below (n + 1) l
Below-suc n [] b = tt
Below-suc n (x ∷ l) b = (omega arith, Below-suc n l b.1)

Below-append : (n : ℕ) (l m : List Item) → Below n l → Below n m → Below n (l ++ m)
Below-append n [] m b c = c
Below-append n (x ∷ l) m b c = (b.0, Below-append n l m b.1 c)

insert_after-Below :
    (n : ℕ) (i : Item) (l : List Item)
    → i.id < n
    → Below n l
    → Below n (insert_after i l) × (length (insert_after i l) ≡ length l + 1)
unfolding insert_after
insert_after-Below n i [] h b = ground arith
insert_after-Below n i (x ∷ l) h b = ground (arith, insert_after-Below n i l h b.1)

insert_priority-Below :
    (n : ℕ) (i : Item) (l : List Item)
    → i.id < n
    → Below n l
    → Below n (insert_priority i l) × (length (insert_priority i l) ≡ length l + 1)
unfolding insert_priority
insert_priority-Below n i [] h b = ground arith
insert_priority-Below n i (x ∷ l) h b = ground (arith, insert_after-Below n i l h b.1)

-- A start leaves a valid queue.
pub init-IsValid : (q : Queue) → IsValid (init q)
unfolding init
init-IsValid q = ground arith

insert_item-IsValid :
    (i : Item) (q : Queue) → i.id < q.next_id → IsValid q → IsValid (insert_item i q).0
unfolding insert_item
insert_item-IsValid i q h v =
    let end = i ∷ [] in
    ground (
      arith,
      insert_priority-Below q.next_id i q.items h v.old_ids,
      Below-append q.next_id q.items end v.old_ids (h, tt),
      length-append q.items end,
    )

-- Adding keeps the queue valid, also where it is full and the item refused.
pub add_item-IsValid :
    (kind : ItemType) (buf : List ℤ) (priority : ℤ) (flags : ℕ) (q : Queue)
    → IsValid q
    → IsValid (add_item kind buf priority flags q).0
unfolding add_item
add_item-IsValid kind buf priority flags q v =
    let q' = record q { next_id = q.next_id + 1 } in
    insert_item-IsValid (new_item kind buf priority flags q) q' (omega arith)
      (ground (arith, Below-suc q.next_id q.items v.old_ids))

tag_first-Below :
    (n id : ℕ) (s : List ℕ) (l : List Item)
    → Below n l
    → Below n (tag_first id s l) × (length (tag_first id s l) ≡ length l)
unfolding tag_first
tag_first-Below n id s [] b = ground arith
tag_first-Below n id s (x ∷ l) b = ground (arith, tag_first-Below n id s l b.1)

pub tag_item-IsValid :
    (id : ℕ) (s : Option (List ℕ)) (q : Queue) → IsValid q → IsValid (tag_item id s q)
unfolding tag_item
tag_item-IsValid id none q v = v
tag_item-IsValid id (some s) q v = ground (arith, tag_first-Below q.next_id id s q.items v.old_ids)

pub flush-IsValid : (q : Queue) → IsValid q → IsValid (flush q).0
unfolding flush
flush-IsValid q v = ground arith

pub preempt-IsValid : (q : Queue) → IsValid q → IsValid (preempt q).0
unfolding preempt
preempt-IsValid q v = ground arith

-- Popping the head of a queue that is not draining.
pop_head-IsValid :
    (x : Item) (rest : List Item) (q : Queue)
    → q.items ≡ x ∷ rest
    → q.draining ≡ false
    → IsValid q
    → IsValid (pop_head rest q)
pop_head-IsValid x rest q e d v =
    let b : Below q.next_id (x ∷ rest) = subst (Below q.next_id) e v.old_ids in
    let n : length q.items ≡ suc (length rest) = ap length e in ground arith

begin_item-IsValid :
    (x : Item) (buf : Option (List ℤ)) (q : Queue)
    → q.drain_pos ≡ 0
    → IsValid q
    → IsValid (begin_item x buf q)
begin_item-IsValid x buf q z v = ground arith

-- Loading pops items until one has samples to send, or none is left.
pub load_from-IsValid :
    (memory : Bool) (l : List Item) (q : Queue)
    → q.items ≡ l
    → q.draining ≡ false
    → IsValid q
    → let (q', loaded) = load_from memory l q in
      IsValid q'
      × (loaded ≡ true → (q'.draining ≡ true) × (q'.drain_pos ≡ 0))
      × (loaded ≡ false → (q'.draining ≡ false) × (q'.batch_active ≡ false))
      × (q'.gap_remaining ≡ q.gap_remaining)
unfolding load_from
load_from-IsValid memory [] q e d v = ground arith
load_from-IsValid memory (x ∷ rest) q e d v =
    let p = pop_head rest q in
    let w = pop_head-IsValid x rest q e d v in
    elim (Option-cases (take_samples memory x)) [
      | inl skipped ↦ rw (skipped, load_from) (load_from-IsValid memory rest p refl d w)
      | inr (buf, taken) ↦
          rw (taken, load_from)
            (begin_item-IsValid x buf p refl w, λ _. (refl, refl), λ h. cc, refl)
    ]

copy_frame-IsValid :
    (n : ℕ) (q : Queue) → IsValid q → q.draining ≡ true → IsValid (copy_frame n q).0
unfolding copy_frame
copy_frame-IsValid n q v d = ground arith

-- A frame is taken from a valid queue as a valid queue is left, on every path: in a gap, within an
-- item, at the start of the next one, and with nothing to send.
pub drain-IsValid : (memory : Bool) (n : ℕ) (q : Queue) → IsValid q → IsValid (drain memory n q).0
unfolding drain load_next_item
drain-IsValid memory n q v =
    let q' = record q { draining = false } in
    let w : IsValid q' = ground arith in
    let loaded = load_from-IsValid memory q.items q' refl refl w in
    let l = (load_from memory q.items q').0 in
    ground (arith, loaded, copy_frame-IsValid n q v, copy_frame-IsValid n l)
