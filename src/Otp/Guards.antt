-- ===== src/Otp/Guards.antt =====
-- The counters of the replay guard of modules/mod_otp.c.
use kerchunk.Prelude.{
  ℕ, ◌<◌, ◌≡◌, ◌≢◌, refl, ap, ◌∙◌, ◌==◌, Option, none, some, List, [], ◌∷◌, arith, Bool-cases,
  Option-cases, inl, inr,
}
use kerchunk.Otp.{LastCounter, guard_of, put_counter, or_kept, or_new, record_counter}

guard_of-put_counter :
    (id k : ℕ) (v : LastCounter) (l l' : List LastCounter)
    → put_counter k v l ≡ some l'
    → v.user_id ≢ id
    → k ≢ id
    → guard_of id l' ≡ guard_of id l
unfolding guard_of put_counter
guard_of-put_counter id k v [] l' e n m = cc
guard_of-put_counter id k v (x ∷ xs) l' e n m = elim (Option-cases (put_counter k v xs)) [
  | inl f ↦ ground arith
  | inr (l, f) ↦ ground (arith, guard_of-put_counter id k v xs l f n m)
]

-- A user with a slot has the new counter in it.
guard_of_found :
    (id counter last : ℕ) (l : List LastCounter)
    → guard_of id l ≡ some last
    → (l' : List LastCounter) × (put_counter id (record { user_id = id; last_counter = counter }) l
        ≡ some l')
      × (guard_of id l' ≡ some counter)
unfolding guard_of put_counter
guard_of_found id counter last [] e = cc
guard_of_found id counter last (x ∷ xs) e = elim (Bool-cases (x.user_id == id)) [
  | inl y ↦ (record { user_id = id; last_counter = counter } ∷ xs, rw (y) refl, ground arith)
  | inr n ↦
      let (l', put, found) = guard_of_found id counter last xs (ground arith) in
      (x ∷ l', rw (n, put) refl, ground (arith, found))
]

pub guard_of-record_counter :
    (id counter last : ℕ) (l : List LastCounter)
    → guard_of id l ≡ some last
    → guard_of id (record_counter id counter l) ≡ some counter
unfolding record_counter
guard_of-record_counter id counter last l e =
    let (l', put, found) = guard_of_found id counter last l e in
    ap (λ r. guard_of id (or_new id counter l r)) put ∙ found

guard_of-or_kept :
    (id user counter : ℕ) (l : List LastCounter) (r : Option (List LastCounter))
    → user ≢ id
    → 0 < id
    → put_counter 0 (record { user_id = user; last_counter = counter }) l ≡ r
    → guard_of id (or_kept l r) ≡ guard_of id l
guard_of-or_kept id user counter l none n p e = refl
guard_of-or_kept id user counter l (some l') n p e =
    guard_of-put_counter id 0 (record { user_id = user; last_counter = counter }) l l' e n
      (λ z. omega (arith, z, p))

guard_of-or_new :
    (id user counter : ℕ) (l : List LastCounter) (r : Option (List LastCounter))
    → user ≢ id
    → 0 < id
    → put_counter user (record { user_id = user; last_counter = counter }) l ≡ r
    → guard_of id (or_new user counter l r) ≡ guard_of id l
guard_of-or_new id user counter l none n p e =
    guard_of-or_kept id user counter l
      (put_counter 0 (record { user_id = user; last_counter = counter }) l) n p refl
guard_of-or_new id user counter l (some l') n p e =
    guard_of-put_counter id user (record { user_id = user; last_counter = counter }) l l' e n n

-- The guard of another user stays.
pub guard_of-record_counter_other :
    (id user counter : ℕ) (l : List LastCounter)
    → user ≢ id
    → 0 < id
    → guard_of id (record_counter user counter l) ≡ guard_of id l
unfolding record_counter
guard_of-record_counter_other id user counter l n p =
    guard_of-or_new id user counter l
      (put_counter user (record { user_id = user; last_counter = counter }) l) n p refl

put_counter-none :
    (k : ℕ) (v : LastCounter) (l : List LastCounter)
    → guard_of k l ≡ none
    → put_counter k v l ≡ none
unfolding guard_of put_counter
put_counter-none k v [] e = refl
put_counter-none k v (x ∷ xs) e = ground (arith, put_counter-none k v xs)

-- Where all slots are other users', a user has no guard, and gets none: the same code is accepted again.
pub full_table_unguarded :
    (id counter : ℕ) (l : List LastCounter)
    → guard_of id l ≡ none
    → guard_of 0 l ≡ none
    → record_counter id counter l ≡ l
unfolding record_counter
full_table_unguarded id counter l own free =
    let v : LastCounter = record { user_id = id; last_counter = counter } in
    ap (or_new id counter l) (put_counter-none id v l own)
    ∙ ap (or_kept l) (put_counter-none 0 v l free)
