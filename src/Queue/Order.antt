-- ===== src/Queue/Order.antt =====
-- Where `insert_item` of src/kerchunk_queue.c puts a new item.
use mathlib.Core.Path.{subst}
use kerchunk.Prelude.{
  ℕ, ◌<◌, ◌≡◌, refl, sym, ◌∙◌, true, false, ℤ, ◌≤ℤ◌, ltb_ℤ, if◌then◌else◌, some, List, [], ◌∷◌,
  ◌++◌, arith, Bool-cases, inl, inr,
}
use kerchunk.Queue.Items.{
  Item, Queue, max_queue_depth, insert_after, insert_priority, mid_playback, add_item, new_item,
  ItemType,
}

-- Highest priority first.
abbrev pub IsOrdered : List Item → Type 0
IsOrdered [] = Unit {0}
IsOrdered (x ∷ []) = Unit {0}
IsOrdered (x ∷ y ∷ l) = (y.priority ≤ℤ x.priority) × IsOrdered (y ∷ l)

-- The items of at least a priority, and those below it, in their order.
pub at_least : ℤ → List Item → List Item
at_least p [] = []
at_least p (x ∷ l) = if ltb_ℤ x.priority p then at_least p l else x ∷ at_least p l

pub below : ℤ → List Item → List Item
below p [] = []
below p (x ∷ l) = if ltb_ℤ x.priority p then x ∷ below p l else below p l

IsOrdered-tail : (x : Item) (l : List Item) → IsOrdered (x ∷ l) → IsOrdered l
IsOrdered-tail x [] o = tt
IsOrdered-tail x (y ∷ l) o = o.1

-- Behind an item below `p`, an ordered list has only such items.
all_below :
    (p : ℤ) (x : Item) (l : List Item)
    → IsOrdered (x ∷ l)
    → ltb_ℤ x.priority p ≡ true
    → (at_least p l ≡ []) × (below p l ≡ l)
unfolding at_least below
all_below p x [] o h = (refl, refl)
all_below p x (y ∷ l) o h =
    let low : ltb_ℤ y.priority p ≡ true = ground arith in ground (arith, all_below p y l o.1 low)

insert_after_lem :
    (i : Item) (l : List Item)
    → IsOrdered l
    → insert_after i l ≡ at_least i.priority l ++ (i ∷ below i.priority l)
unfolding insert_after at_least below
insert_after_lem i [] o = refl
insert_after_lem i (x ∷ l) o =
    ground (arith, insert_after_lem i l (IsOrdered-tail x l o), all_below i.priority x l o)

insert_priority_lem :
    (i : Item) (l : List Item)
    → IsOrdered l
    → insert_priority i l ≡ at_least i.priority l ++ (i ∷ below i.priority l)
unfolding insert_priority at_least below
insert_priority_lem i [] o = refl
insert_priority_lem i (x ∷ l) o =
    ground (arith, insert_after_lem i l (IsOrdered-tail x l o), all_below i.priority x l o)

-- What is inserted into an ordered list leaves it ordered.
insert_after-IsOrdered :
    (x i : Item) (l : List Item)
    → IsOrdered (x ∷ l)
    → i.priority ≤ℤ x.priority
    → IsOrdered (x ∷ insert_after i l)
unfolding insert_after
insert_after-IsOrdered x i [] o h = (h, tt)
insert_after-IsOrdered x i (y ∷ l) o h = elim (Bool-cases (ltb_ℤ y.priority i.priority)) [
  | inl lower ↦ rw lower (h, (ground arith, o.1))
  | inr same ↦ rw same (o.0, insert_after-IsOrdered y i l o.1 (ground arith))
]

insert_priority-IsOrdered :
    (i : Item) (l : List Item) → IsOrdered l → IsOrdered (insert_priority i l)
unfolding insert_priority
insert_priority-IsOrdered i [] o = tt
insert_priority-IsOrdered i (x ∷ l) o = elim (Bool-cases (ltb_ℤ x.priority i.priority)) [
  | inl lower ↦ rw lower (ground arith, o)
  | inr same ↦ rw same (insert_after-IsOrdered x i l o (ground arith))
]

-- On an idle queue a new item goes behind all items of its priority or a higher one and before the
-- others, whose order stays: first come, first served within a priority. The queue stays ordered.
pub add_item_idle :
    (kind : ItemType) (buf : List ℤ) (priority : ℤ) (flags : ℕ) (q : Queue)
    → q.count < max_queue_depth
    → mid_playback q ≡ false
    → IsOrdered q.items
    → let item = new_item kind buf priority flags q in
      let (q', id) = add_item kind buf priority flags q in
      (id ≡ some q.next_id)
      × (q'.items ≡ at_least priority q.items ++ (item ∷ below priority q.items))
      × IsOrdered q'.items
unfolding add_item
add_item_idle kind buf priority flags q c m o =
    let item = new_item kind buf priority flags q in
    let e : (add_item kind buf priority flags q).0.items ≡ insert_priority item q.items =
      ground arith in
    (
      ground arith,
      e ∙ insert_priority_lem item q.items o,
      subst IsOrdered (sym e) (insert_priority-IsOrdered item q.items o),
    )

-- During a batch, an item or the gap behind one, a new item goes to the end whatever its priority,
-- so nothing that waits is overtaken.
pub add_item-mid_playback :
    (kind : ItemType) (buf : List ℤ) (priority : ℤ) (flags : ℕ) (q : Queue)
    → q.count < max_queue_depth
    → mid_playback q ≡ true
    → let item = new_item kind buf priority flags q in
      let (q', id) = add_item kind buf priority flags q in
      (id ≡ some q.next_id) × (q'.items ≡ q.items ++ (item ∷ []))
unfolding add_item
add_item-mid_playback kind buf priority flags q c m = ground arith
