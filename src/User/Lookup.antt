-- ===== src/User/Lookup.antt =====
-- What the lookups of src/kerchunk_user.c find among the users that were loaded.
use kerchunk.Prelude.{
  ℕ, zero, suc, ◌+◌, ◌≤◌, ◌<◌, ◌≡◌, refl, ◌==◌, ◌&&◌, leb, if◌then◌else◌, Option, none, some, List,
  arith, Bool-cases, Option-cases, inl, inr,
}
use kerchunk.Text.{Bytes}
use kerchunk.Config.{CfgEntry}
use kerchunk.Config.Entries.{config_get}
use kerchunk.User.{
  User, max_user_id, user_section, name_key, load_user, users_from, user_init, lookup_by_id,
}

-- The user that a section describes, if it has a name.
abbrev pub described : List CfgEntry → ℕ → Option Bytes → Option User
described cfg id none = none
described cfg id (some name) = some (load_user cfg id name)

load_user-id : (cfg : List CfgEntry) (id : ℕ) (name : Bytes) → (load_user cfg id name).id ≡ id
unfolding load_user
load_user-id cfg id name = refl

lookup_below :
    (cfg : List CfgEntry) (i n id : ℕ) → id < i → lookup_by_id id (users_from cfg i n) ≡ none
unfolding lookup_by_id users_from
lookup_below cfg i zero id h = refl
lookup_below cfg i (suc n) id h =
    let rest = lookup_below cfg (i + 1) n id (omega arith) in
    elim (Option-cases (config_get (user_section i) name_key cfg)) [
      | inl e ↦ ground (arith, rest)
      | inr (name, e) ↦ ground (arith, rest, load_user-id cfg i name)
    ]

lookup_by_id-users_from :
    (cfg : List CfgEntry) (i n id : ℕ)
    → i ≤ id
    → id < i + n
    → lookup_by_id id (users_from cfg i n)
      ≡ described cfg id (config_get (user_section id) name_key cfg)
unfolding lookup_by_id users_from
lookup_by_id-users_from cfg i zero id a b = ground arith
lookup_by_id-users_from cfg i (suc n) id a b = elim (Bool-cases (i == id)) [
  | inl h ↦ elim (Option-cases (config_get (user_section i) name_key cfg)) [
    | inl e ↦ ground (arith, lookup_below cfg (i + 1) n id (ground arith))
    | inr (name, e) ↦ ground (arith, load_user-id cfg i name)
  ]
  | inr h ↦
      let rest = lookup_by_id-users_from cfg (i + 1) n id (ground arith) (omega arith) in
      elim (Option-cases (config_get (user_section i) name_key cfg)) [
        | inl e ↦ ground (arith, rest)
        | inr (name, e) ↦ ground (arith, rest, load_user-id cfg i name)
      ]
]

lookup_above :
    (cfg : List CfgEntry) (i n id : ℕ) → i + n ≤ id → lookup_by_id id (users_from cfg i n) ≡ none
unfolding lookup_by_id users_from
lookup_above cfg i zero id h = refl
lookup_above cfg i (suc n) id h =
    let rest = lookup_above cfg (i + 1) n id (omega arith) in
    elim (Option-cases (config_get (user_section i) name_key cfg)) [
      | inl e ↦ ground (arith, rest)
      | inr (name, e) ↦ ground (arith, rest, load_user-id cfg i name)
    ]

-- Among the users of a configuration, an id from 1 to 9999 finds what its section describes, where the
-- section has a name, and any other id finds nobody.
pub lookup_by_id-user_init :
    (cfg : List CfgEntry) (id : ℕ)
    → lookup_by_id id (user_init (some cfg)).0 ≡ (
        if leb 1 id && leb id max_user_id
        then described cfg id (config_get (user_section id) name_key cfg)
        else none)
unfolding user_init
lookup_by_id-user_init cfg id = elim (Bool-cases (leb 1 id && leb id max_user_id)) [
  | inl h ↦
      ground (arith, lookup_by_id-users_from cfg 1 max_user_id id (ground arith) (ground arith))
  | inr h ↦ ground (arith, lookup_below cfg 1 max_user_id id, lookup_above cfg 1 max_user_id id)
]
