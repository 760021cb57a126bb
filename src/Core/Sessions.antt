-- ===== src/Core/Sessions.antt =====
-- The emergency flag and the table of raised sessions of src/kerchunk_core.c.
use kerchunk.Prelude.{
  ℕ, ◌<◌, ◌≡◌, refl, ◌⊎◌, Bool, true, false, not, ℤ, pos, pos_part, is_pos, ◌==◌, if◌then◌else◌,
  Option, none, some, List, [], ◌∷◌, arith, replicate, Bool-cases, Option-cases, inl, inr,
}

-- `g_emergency_active` and `g_emergency_expires_at`
pub record Emergency : Type 0 where
  pub active : Bool
  pub expires_at : ℕ

-- `kerchunk_core_set_emergency`
unfoldable pub set_emergency : Bool → Emergency → Emergency
set_emergency on e = record { active = on; expires_at = if not on then 0 else e.expires_at }

-- `kerchunk_core_set_emergency_expires_at`
unfoldable pub set_emergency_expires_at : ℕ → Emergency → Emergency
set_emergency_expires_at when e = record e { expires_at = when }

-- An entry of `g_otp_sessions`; user id 0 marks a slot that was never used.
pub record Session : Type 0 where
  pub user_id : ℕ
  pub elevated : Bool

-- `MAX_OTP_ELEVATED`
abbrev pub max_otp_elevated : ℕ
max_otp_elevated = 64

-- The zeroed array.
unfoldable pub sessions_init : List Session
sessions_init = replicate max_otp_elevated (record { user_id = 0; elevated = false })

-- The loops of `kerchunk_core_set_otp_elevated`: the first slot of the id is given the flag; `none`
-- where there is no such slot. A slot that is taken anew has the id written as well.
unfoldable pub set_slot : ℕ → Session → List Session → Option (List Session)
set_slot id s [] = none
set_slot id s (x ∷ xs) =
    let rest = set_slot id s xs in
    if x.user_id == id then some (s ∷ xs) else (elim rest [ none ↦ none | some l ↦ some (x ∷ l) ])

abbrev pub or_same : Option (List Session) → List Session → List Session
or_same none l = l
or_same (some l') l = l'

-- The second loop, for an id without a slot.
abbrev pub set_new : ℕ → Bool → List Session → List Session
set_new id elevated l =
    if not elevated
    then l
    else or_same (set_slot 0 (record { user_id = id; elevated = elevated }) l) l

abbrev pub set_found : ℕ → Bool → List Session → Option (List Session) → List Session
set_found id elevated l none = set_new id elevated l
set_found id elevated l (some l') = l'

-- `kerchunk_core_set_otp_elevated`
unfoldable pub set_otp_elevated : ℤ → Bool → List Session → List Session
set_otp_elevated user elevated l =
    if not (is_pos user)
    then l
    else (let id = pos_part user in
        set_found id elevated l (set_slot id (record { user_id = id; elevated = elevated }) l))

-- The loop of `kerchunk_core_get_otp_elevated`
unfoldable pub get_slot : ℕ → List Session → Bool
get_slot id [] = false
get_slot id (x ∷ xs) = if x.user_id == id then x.elevated else get_slot id xs

-- `kerchunk_core_get_otp_elevated`
unfoldable pub get_otp_elevated : ℤ → List Session → Bool
get_otp_elevated user l = if is_pos user then get_slot (pos_part user) l else false

abbrev pub HasSlot : ℕ → List Session → Type 0
HasSlot id [] = ⊥
HasSlot id (x ∷ xs) = (x.user_id ≡ id) ⊎ HasSlot id xs

get_slot-set_slot :
    (id j : ℕ) (s : Session) (l l' : List Session)
    → s.user_id ≡ id
    → set_slot id s l ≡ some l'
    → get_slot j l' ≡ (if id == j then s.elevated else get_slot j l)
unfolding set_slot get_slot
get_slot-set_slot id j s [] l' e h = ground arith
get_slot-set_slot id j s (x ∷ xs) l' e h = elim (Bool-cases (x.user_id == id)) [
  | inl same ↦ ground arith
  | inr other ↦ elim (Option-cases (set_slot id s xs)) [
    | inl n ↦ ground arith
    | inr (ys, p) ↦ ground (arith, get_slot-set_slot id j s xs ys e p)
  ]
]

-- An id that no slot holds is not raised.
get_slot-none :
    (id : ℕ) (s : Session) (l : List Session) → set_slot id s l ≡ none → get_slot id l ≡ false
unfolding set_slot get_slot
get_slot-none id s [] h = refl
get_slot-none id s (x ∷ xs) h = elim (Option-cases (set_slot id s xs)) [
  | inl n ↦ ground (arith, get_slot-none id s xs n)
  | inr (ys, p) ↦ ground arith
]

-- A new id takes the first slot that was never used.
get_slot-set_free :
    (id j : ℕ) (s : Session) (l l' : List Session)
    → s.user_id ≡ id
    → 0 < id
    → 0 < j
    → set_slot 0 s l ≡ some l'
    → set_slot id s l ≡ none
    → get_slot j l' ≡ (if id == j then s.elevated else get_slot j l)
unfolding set_slot get_slot
get_slot-set_free id j s [] l' e p q h n = ground arith
get_slot-set_free id j s (x ∷ xs) l' e p q h n = elim (Option-cases (set_slot id s xs)) [
  | inl m ↦ elim (Bool-cases (x.user_id == 0)) [
    | inl free ↦ ground (arith, get_slot-none id s xs m)
    | inr used ↦ elim (Option-cases (set_slot 0 s xs)) [
      | inl z ↦ ground arith
      | inr (ys, r) ↦ ground (arith, get_slot-set_free id j s xs ys e p q r m)
    ]
  ]
  | inr (ys, m) ↦ ground arith
]

-- Raising or lowering a user's session is seen by every later query, of that user and of no other;
-- only a raise with all 64 slots taken by others is lost, and then nothing changes.
pub get_otp_elevated-set_otp_elevated :
    (id j : ℕ) (elevated : Bool) (l : List Session)
    → 0 < id
    → 0 < j
    → let s : Session = record { user_id = id; elevated = elevated } in
      let l' = set_otp_elevated (pos id) elevated l in
      (get_otp_elevated (pos j) l' ≡ (if id == j then elevated else get_otp_elevated (pos j) l))
      ⊎ ((l' ≡ l) × (elevated ≡ true) × (set_slot id s l ≡ none) × (set_slot 0 s l ≡ none))
unfolding set_otp_elevated get_otp_elevated
get_otp_elevated-set_otp_elevated id j elevated l p q =
    let s : Session = record { user_id = id; elevated = elevated } in
    elim (Option-cases (set_slot id s l)) [
      | inr (ys, e) ↦ inl (ground (arith, get_slot-set_slot id j s l ys refl e))
      | inl n ↦ elim (Option-cases (set_slot 0 s l)) [
        | inr (ys, f) ↦
            inl (ground (arith, get_slot-set_free id j s l ys refl p q f n, get_slot-none id s l n))
        | inl z ↦ ground (arith, get_slot-none id s l n)
      ]
    ]
