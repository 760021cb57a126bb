-- ===== src/Config/Numbers.antt =====
-- The getter of numbers of src/kerchunk_config.c, with `atoi` as the C library documents it: `strtol`, which
-- stops at the ends of a 64-bit `long`, cut to an `int`.
use kerchunk.Prelude.{
  ℕ, ◌+◌, ◌-◌, ◌*◌, ◌%◌, ◌^◌, min, ◌==◌, if◌then◌else◌, ℤ, pos, to_int32, none, some, List, [], ◌∷◌,
}
use kerchunk.Text.{Bytes, is_digit, trim_start}
use kerchunk.Config.{CfgEntry}
use kerchunk.Config.Entries.{config_get}

-- The number that the digits in front write, behind one.
unfoldable pub digits_value : ℕ → Bytes → ℕ
digits_value val [] = val
digits_value val (c ∷ s) =
    let rest = digits_value (val * 10 + (c - b'0')) s in if is_digit c then rest else val

abbrev pub plus : ℕ → ℤ
plus n = to_int32 (min n (2 ^ 63 - 1) % 2 ^ 32)

abbrev pub minus : ℕ → ℤ
minus n = to_int32 ((2 ^ 64 - min n (2 ^ 63)) % 2 ^ 32)

-- `atoi`, behind the blanks: a sign or none, and digits.
unfoldable pub signed : Bytes → ℤ
unfolding digits_value
signed [] = pos 0
signed (c ∷ s) =
    if c == b'-'
    then minus (digits_value 0 s)
    else (if c == b'+' then plus (digits_value 0 s) else plus (digits_value 0 (c ∷ s)))

-- `atoi`
unfoldable pub atoi : Bytes → ℤ
unfolding signed
atoi s = signed (trim_start s)

-- `kerchunk_config_get_int`
unfoldable pub get_int : List CfgEntry → Bytes → Bytes → ℤ → ℤ
get_int cfg section key default = elim (config_get section key cfg) [
  | none ↦ default
  | some v ↦ atoi v
]
