-- ===== src/Events/Laws.antt =====
-- Subscribing to and unsubscribing from the event bus of src/kerchunk_events.c.
use kerchunk.Prelude.{
  ℕ, ◌≤◌, ◌≡◌, Bool, true, false, not, ◌&&◌, ◌||◌, ltb, ◌==◌, if◌then◌else◌, Option, none, some,
  List, [], ◌∷◌, ◌++◌, length, arith, length-append, Option-cases, inl, inr,
}
use kerchunk.Events.{
  Sub, Bus, max_subs, evt_index, is_there, put, add_sub, subscribe, remove_first, remove_sub,
  unsubscribe, snapshot,
}
use kerchunk.Events.Subscribers.{
  evt_index_lem, NoTwice, NoTwice-append, is_there-remove_first, remove_first-NoTwice,
  length-remove_first,
}

-- No list is longer than its array, and no handler is in one twice.
pub record IsValid (b : Bus) : Type 0 where
  pub fits : (i : ℕ) → length (b.subs i) ≤ max_subs
  pub once : (i : ℕ) → NoTwice (b.subs i)

put-IsValid :
    (i : ℕ) (l : List Sub) (b : Bus)
    → IsValid b
    → length l ≤ max_subs
    → NoTwice l
    → IsValid (put i l b)
put-IsValid i l b v f n = record {
  fits = λ j. ground (arith, v.fits j);
  once = λ j. ground (arith, v.once j);
}

snapshot_at :
    (t i : ℕ) (b : Bus) → b.initialized ≡ true → evt_index t ≡ some i → snapshot t b ≡ b.subs i
unfolding snapshot
snapshot_at t i b on e = ground arith

-- A list that is put for one type shows for that type only.
snapshot-put :
    (t t' i : ℕ) (l : List Sub) (b : Bus)
    → b.initialized ≡ true
    → evt_index t ≡ some i
    → snapshot t' (put i l b) ≡ (if t == t' then l else snapshot t' b)
unfolding snapshot
snapshot-put t t' i l b on e = elim (Option-cases (evt_index t')) [
  | inl n ↦ ground arith
  | inr (j, f) ↦ ground (arith, evt_index_lem t t' i e)
]

abbrev has_index : Option ℕ → Bool
has_index none = false
has_index (some i) = true

-- Whether a subscription is granted.
abbrev pub can_subscribe : ℕ → ℕ → Bus → Bool
can_subscribe t h b =
    not (h == 0)
    && (b.initialized
        && (has_index (evt_index t)
            && (is_there h (snapshot t b) || ltb (length (snapshot t b)) max_subs)))

subscribe-IsValid : (t h u : ℕ) (b : Bus) → IsValid b → IsValid (subscribe t h u b).0
unfolding subscribe add_sub
subscribe-IsValid t h u b v = elim (Option-cases (evt_index t)) [
  | inl n ↦ ground arith
  | inr (i, e) ↦
      let s : Sub = record { handler = h; userdata = u } in
      let l = b.subs i ++ (s ∷ []) in
      ground (
        arith,
        put-IsValid i l b v,
        length-append (b.subs i) (s ∷ []),
        NoTwice-append s (b.subs i),
        v.once i,
      )
]

subscribe-can_subscribe : (t h u : ℕ) (b : Bus) → (subscribe t h u b).1 ≡ can_subscribe t h b
unfolding subscribe add_sub
subscribe-can_subscribe t h u b = elim (Option-cases (evt_index t)) [
  | inl n ↦ ground arith
  | inr (i, e) ↦ ground (arith, snapshot_at t i b)
]

snapshot-subscribe :
    (t h u t' : ℕ) (b : Bus)
    → let (b', done) = subscribe t h u b in
      snapshot t' b' ≡ (
        if done && (t == t' && not (is_there h (snapshot t b)))
        then snapshot t b ++ (record { handler = h; userdata = u } ∷ [])
        else snapshot t' b)
unfolding subscribe add_sub
snapshot-subscribe t h u t' b = elim (Option-cases (evt_index t)) [
  | inl n ↦ ground arith
  | inr (i, e) ↦
      let l = b.subs i ++ (record { handler = h; userdata = u } ∷ []) in
      ground (arith, snapshot_at t i b, snapshot-put t t' i l b)
]

-- A subscription is granted as long as the bus runs, the type exists, and the handler is there already
-- or the list has room. Then fires of this type call the handler once, behind the others, and nothing
-- else changes; a handler that is there keeps its place and its data.
pub subscribe_lem :
    (t h u : ℕ) (b : Bus)
    → IsValid b
    → let (b', done) = subscribe t h u b in
      IsValid b'
      × (done ≡ can_subscribe t h b)
      × ((t' : ℕ)
          → snapshot t' b' ≡ (
              if done && (t == t' && not (is_there h (snapshot t b)))
              then snapshot t b ++ (record { handler = h; userdata = u } ∷ [])
              else snapshot t' b))
subscribe_lem t h u b v = (
  subscribe-IsValid t h u b v,
  subscribe-can_subscribe t h u b,
  λ t'. snapshot-subscribe t h u t' b,
)

unsubscribe-IsValid : (t h : ℕ) (b : Bus) → IsValid b → IsValid (unsubscribe t h b).0
unfolding unsubscribe remove_sub
unsubscribe-IsValid t h b v = elim (Option-cases (evt_index t)) [
  | inl n ↦ ground arith
  | inr (i, e) ↦
      let l = remove_first h (b.subs i) in
      ground (
        arith,
        put-IsValid i l b v,
        length-remove_first h (b.subs i),
        remove_first-NoTwice h (b.subs i),
        v.once i,
        v.fits i,
      )
]

unsubscribe-is_there :
    (t h : ℕ) (b : Bus) → (unsubscribe t h b).1 ≡ (not (h == 0) && is_there h (snapshot t b))
unfolding unsubscribe remove_sub snapshot is_there
unsubscribe-is_there t h b = elim (Option-cases (evt_index t)) [
  | inl n ↦ ground arith
  | inr (i, e) ↦ ground arith
]

is_there-unsubscribe :
    (t h t' k : ℕ) (b : Bus)
    → IsValid b
    → let (b', done) = unsubscribe t h b in
      is_there k (snapshot t' b')
      ≡ (if done && (t == t' && h == k) then false else is_there k (snapshot t' b))
unfolding unsubscribe remove_sub
is_there-unsubscribe t h t' k b v = elim (Option-cases (evt_index t)) [
  | inl n ↦ ground arith
  | inr (i, e) ↦
      let l = remove_first h (b.subs i) in
      ground (
        arith,
        snapshot_at t i b,
        snapshot-put t t' i l b,
        is_there-remove_first h k (b.subs i) (v.once i),
      )
]

-- Unsubscribing succeeds exactly where fires of the type would call the handler, and takes it, and no
-- other handler and no other type, off the fires.
pub unsubscribe_lem :
    (t h : ℕ) (b : Bus)
    → IsValid b
    → let (b', done) = unsubscribe t h b in
      IsValid b'
      × (done ≡ (not (h == 0) && is_there h (snapshot t b)))
      × ((t' k : ℕ)
          → is_there k (snapshot t' b')
            ≡ (if done && (t == t' && h == k) then false else is_there k (snapshot t' b)))
unsubscribe_lem t h b v = (
  unsubscribe-IsValid t h b v,
  unsubscribe-is_there t h b,
  λ t' k. is_there-unsubscribe t h t' k b v,
)
