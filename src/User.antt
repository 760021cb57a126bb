-- ===== src/User.antt =====
-- src/kerchunk_user.c: the users and groups of the configuration. The allocations succeed.
pub mod Lookup
use kerchunk.Prelude.{
  ℕ, zero, suc, ◌+◌, ◌-◌, ◌/◌, ◌%◌, Bool, true, false, not, ◌&&◌, ltb, leb, ◌==◌, if◌then◌else◌, ℤ,
  pos, Option, none, some, List, [], ◌∷◌, ◌++◌, map,
}
use kerchunk.Text.{Bytes, same_text, fit, is_empty}
use kerchunk.Config.{CfgEntry}
use kerchunk.Config.Entries.{config_get}
use kerchunk.Config.Numbers.{get_int}

-- `MAX_USER_ID` and `KERCHUNK_MAX_GROUPS`
abbrev pub max_user_id : ℕ
max_user_id = 9999

abbrev pub max_groups : ℕ
max_groups = 16

-- `kerchunk_user_t`
pub record User : Type 0 where
  pub id : ℕ
  pub username : Bytes
  pub name : Bytes
  pub email : Bytes
  pub callsign : Bytes
  pub dtmf_login : Bytes
  pub ani : Bytes
  pub access : ℤ
  pub voicemail : ℤ
  pub group : ℤ
  pub totp_secret : Bytes

-- `kerchunk_group_t`
pub record Group : Type 0 where
  pub id : ℕ
  pub name : Bytes

-- `tolower` and `toupper` in the C locale
abbrev pub to_lower : ℕ → ℕ
to_lower c = if leb b'A' c && leb c b'Z' then c + 32 else c

abbrev pub to_upper : ℕ → ℕ
to_upper c = if leb b'a' c && leb c b'z' then c - 32 else c

-- `derive_username`
abbrev pub user_char : ℕ → ℕ
user_char c = if c == b' ' then b'_' else to_lower c

unfoldable pub derive_username : ℕ → Bytes → Bytes
derive_username size name = fit size (map user_char name)

-- `%d` of a number that has at most so many digits
unfoldable pub decimal : ℕ → ℕ → Bytes
decimal zero n = []
decimal (suc digits) n =
    let front = decimal digits (n / 10) in
    if ltb n 10 then (b'0' + n) ∷ [] else front ++ ((b'0' + n % 10) ∷ [])

abbrev pub user_section : ℕ → Bytes
user_section id = b'u' ∷ b's' ∷ b'e' ∷ b'r' ∷ b'.' ∷ decimal 5 id

abbrev pub group_section : ℕ → Bytes
group_section id = b'g' ∷ b'r' ∷ b'o' ∷ b'u' ∷ b'p' ∷ b'.' ∷ decimal 5 id

-- The keys of a user.
abbrev pub name_key : Bytes
name_key = b'n' ∷ b'a' ∷ b'm' ∷ b'e' ∷ []

abbrev pub username_key : Bytes
username_key = b'u' ∷ b's' ∷ b'e' ∷ b'r' ∷ name_key

abbrev pub email_key : Bytes
email_key = b'e' ∷ b'm' ∷ b'a' ∷ b'i' ∷ b'l' ∷ []

abbrev pub callsign_key : Bytes
callsign_key = b'c' ∷ b'a' ∷ b'l' ∷ b'l' ∷ b's' ∷ b'i' ∷ b'g' ∷ b'n' ∷ []

abbrev pub access_key : Bytes
access_key = b'a' ∷ b'c' ∷ b'c' ∷ b'e' ∷ b's' ∷ b's' ∷ []

abbrev pub voicemail_key : Bytes
voicemail_key = b'v' ∷ b'o' ∷ b'i' ∷ b'c' ∷ b'e' ∷ b'm' ∷ b'a' ∷ b'i' ∷ b'l' ∷ []

abbrev pub group_key : Bytes
group_key = b'g' ∷ b'r' ∷ b'o' ∷ b'u' ∷ b'p' ∷ []

abbrev pub totp_key : Bytes
totp_key = b't' ∷ b'o' ∷ b't' ∷ b'p' ∷ b'_' ∷ b's' ∷ b'e' ∷ b'c' ∷ b'r' ∷ b'e' ∷ b't' ∷ []

abbrev pub login_key : Bytes
login_key = b'd' ∷ b't' ∷ b'm' ∷ b'f' ∷ b'_' ∷ b'l' ∷ b'o' ∷ b'g' ∷ b'i' ∷ b'n' ∷ []

abbrev pub ani_key : Bytes
ani_key = b'a' ∷ b'n' ∷ b'i' ∷ []

-- A text of the section, cut to its field; empty where there is none.
unfoldable pub text_or_empty : ℕ → Option Bytes → Bytes
text_or_empty size none = []
text_or_empty size (some v) = fit size v

-- The user name, or one derived from the name.
unfoldable pub username_of : Option Bytes → Bytes → Bytes
unfolding derive_username
username_of none name = derive_username 32 name
username_of (some u) name = if is_empty u then derive_username 32 name else fit 32 u

-- The fields of a user in the second loop of `kerchunk_user_init`.
unfoldable pub load_user : List CfgEntry → ℕ → Bytes → User
unfolding text_or_empty username_of
load_user cfg id name =
    let section = user_section id in
    record {
      id = id;
      username = username_of (config_get section username_key cfg) (fit 32 name);
      name = fit 32 name;
      email = text_or_empty 128 (config_get section email_key cfg);
      callsign = map to_upper (text_or_empty 16 (config_get section callsign_key cfg));
      dtmf_login = text_or_empty 8 (config_get section login_key cfg);
      ani = text_or_empty 16 (config_get section ani_key cfg);
      access = get_int cfg section access_key (pos 1);
      voicemail = get_int cfg section voicemail_key (pos 0);
      group = get_int cfg section group_key (pos 0);
      totp_secret = text_or_empty 64 (config_get section totp_key cfg);
    }

-- The two loops of `kerchunk_user_init`, over so many ids from one on.
unfoldable pub users_from : List CfgEntry → ℕ → ℕ → List User
users_from cfg id zero = []
users_from cfg id (suc n) =
    let rest = users_from cfg (id + 1) n in
    elim (config_get (user_section id) name_key cfg) [
      | none ↦ rest
      | some name ↦ load_user cfg id name ∷ rest
    ]

unfoldable pub groups_from : List CfgEntry → ℕ → ℕ → List Group
groups_from cfg id zero = []
groups_from cfg id (suc n) =
    let rest = groups_from cfg (id + 1) n in
    elim (config_get (group_section id) name_key cfg) [
      | none ↦ rest
      | some name ↦ record { id = id; name = fit 32 name } ∷ rest
    ]

-- `kerchunk_user_init`: the users and the groups; without a configuration there are none.
unfoldable pub user_init : Option (List CfgEntry) → List User × List Group
user_init none = ([], [])
user_init (some cfg) = (users_from cfg 1 max_user_id, groups_from cfg 1 max_groups)

-- `kerchunk_user_shutdown`, which leaves the groups
unfoldable pub user_shutdown : List User × List Group → List User × List Group
user_shutdown (users, groups) = ([], groups)

-- `kerchunk_user_lookup_by_id` and `kerchunk_group_lookup_by_id`
unfoldable pub lookup_by_id : ℕ → List User → Option User
lookup_by_id id [] = none
lookup_by_id id (u ∷ us) = let rest = lookup_by_id id us in if u.id == id then some u else rest

unfoldable pub group_by_id : ℕ → List Group → Option Group
group_by_id id [] = none
group_by_id id (g ∷ gs) = let rest = group_by_id id gs in if g.id == id then some g else rest

-- The loop of `kerchunk_user_lookup_by_ani`, and the whole; an absent code is empty.
unfoldable pub find_ani : Bytes → List User → Option User
find_ani ani [] = none
find_ani ani (u ∷ us) =
    let rest = find_ani ani us in
    if not (is_empty u.ani) && same_text u.ani ani then some u else rest

unfoldable pub lookup_by_ani : Bytes → List User → Option User
lookup_by_ani ani us = if is_empty ani then none else find_ani ani us

-- The loop of `kerchunk_user_lookup_by_username` with `strcasecmp`, and the whole.
unfoldable pub find_username : Bytes → List User → Option User
find_username name [] = none
find_username name (u ∷ us) =
    let rest = find_username name us in
    if same_text (map to_lower u.username) (map to_lower name) then some u else rest

unfoldable pub lookup_by_username : Bytes → List User → Option User
lookup_by_username name us = if is_empty name then none else find_username name us
