-- ===== src/Tests/UserTests.antt =====
-- Runs of src/kerchunk_user.c.
use kerchunk.Prelude.{◌≡◌, refl, ◌&&◌, leb, if◌then◌else◌, none, some, List, [], ◌∷◌, map}
use kerchunk.Config.{CfgEntry}
use kerchunk.Config.Entries.{config_get}
use kerchunk.User.{
  User, max_user_id, user_section, name_key, access_key, user_init, users_from, lookup_by_id,
  lookup_by_username, decimal,
}
use kerchunk.User.Lookup.{described, lookup_by_id-user_init}

-- A user 2 with a name and an access level, and a user 3 without a name.
abbrev directory : List CfgEntry
directory =
    record {
      section = b'u' ∷ b's' ∷ b'e' ∷ b'r' ∷ b'.' ∷ b'2' ∷ [];
      key = name_key;
      value = b'A' ∷ b' ' ∷ b'B' ∷ [];
    }
    ∷ record {
      section = b'u' ∷ b's' ∷ b'e' ∷ b'r' ∷ b'.' ∷ b'2' ∷ [];
      key = access_key;
      value = b'2' ∷ [];
    }
    ∷ record {
      section = b'u' ∷ b's' ∷ b'e' ∷ b'r' ∷ b'.' ∷ b'3' ∷ [];
      key = access_key;
      value = b'2' ∷ [];
    }
    ∷ []

lookup_by_id-user_init_example : lookup_by_id 2 (user_init (some directory)).0 ≡ (
    if leb 1 2 && leb 2 max_user_id
    then described directory 2 (config_get (user_section 2) name_key directory)
    else none)
lookup_by_id-user_init_example = lookup_by_id-user_init directory 2

-- The name is turned into a user name.
derived_name : map (λ u. u.username) (users_from directory 1 3) ≡ (b'a' ∷ b'_' ∷ b'b' ∷ []) ∷ []
unfolding users_from config_get kerchunk.Text.same_text decimal kerchunk.User.load_user
derived_name = refl
