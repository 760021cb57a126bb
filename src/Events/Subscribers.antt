-- ===== src/Events/Subscribers.antt =====
-- The subscriber lists of src/kerchunk_events.c, and the index of the event types.
use kerchunk.Prelude.{
  ℕ, ◌≤◌, ◌<◌, ◌≡◌, refl, false, ◌||◌, ◌==◌, if◌then◌else◌, some, List, [], ◌∷◌, ◌++◌, length,
  arith,
}
use kerchunk.Events.{Sub, max_types, evt_index, is_there, remove_first}

-- Every type that has an index has one in the table, and no other type has the same.
pub evt_index_lem :
    (a b i : ℕ) → evt_index a ≡ some i → (i < max_types) × (evt_index b ≡ some i → a ≡ b)
unfolding evt_index
evt_index_lem a b i h = ground arith

-- No handler twice.
abbrev pub NoTwice : List Sub → Type 0
NoTwice [] = Unit {0}
NoTwice (s ∷ l) = (is_there s.handler l ≡ false) × NoTwice l

pub is_there-append :
    (h : ℕ) (s : Sub) (l : List Sub) → is_there h (l ++ (s ∷ [])) ≡ (is_there h l || s.handler == h)
unfolding is_there
is_there-append h s [] = ground arith
is_there-append h s (x ∷ l) = ground (arith, is_there-append h s l)

pub NoTwice-append :
    (s : Sub) (l : List Sub) → is_there s.handler l ≡ false → NoTwice l → NoTwice (l ++ (s ∷ []))
unfolding is_there
NoTwice-append s [] n t = (refl, tt)
NoTwice-append s (x ∷ l) n t = ground (arith, is_there-append x.handler s l, NoTwice-append s l)

-- Removing a handler leaves the others.
pub is_there-remove_first :
    (h k : ℕ) (l : List Sub)
    → NoTwice l
    → is_there k (remove_first h l) ≡ (if h == k then false else is_there k l)
unfolding is_there remove_first
is_there-remove_first h k [] t = ground arith
is_there-remove_first h k (x ∷ l) t = ground (arith, is_there-remove_first h k l t.1)

pub remove_first-NoTwice : (h : ℕ) (l : List Sub) → NoTwice l → NoTwice (remove_first h l)
unfolding is_there remove_first
remove_first-NoTwice h [] t = tt
remove_first-NoTwice h (x ∷ l) t =
    ground (arith, remove_first-NoTwice h l t.1, is_there-remove_first h x.handler l t.1)

pub length-remove_first : (h : ℕ) (l : List Sub) → length (remove_first h l) ≤ length l
unfolding remove_first
length-remove_first h [] = ground arith
length-remove_first h (x ∷ l) = ground (arith, length-remove_first h l)
