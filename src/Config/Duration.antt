-- ===== src/Config/Duration.antt =====
-- The durations of src/kerchunk_config.c. An `int` is its bit pattern, below 2 ^ 32: sums and products wrap
-- around, as they do in the compiled program.
use kerchunk.Prelude.{
  ℕ, zero, suc, ◌+◌, ◌-◌, ◌*◌, ◌/◌, ◌%◌, ◌^◌, Bool, true, false, ◌&&◌, ℤ, pos, ltb, ◌==◌,
  if◌then◌else◌, Option, none, some, List, [], ◌∷◌, length,
}
use kerchunk.Text.{Bytes, is_digit, is_empty}
use kerchunk.Config.{CfgEntry}
use kerchunk.Config.Entries.{config_get}
use kerchunk.Config.Numbers.{atoi}

-- `/` and `%` of C for an `int` and a positive number: they round towards 0.
abbrev pub quot32 : ℕ → ℕ → ℕ
quot32 m k = if ltb m (2 ^ 31) then m / k else (2 ^ 32 - (2 ^ 32 - m) / k) % 2 ^ 32

abbrev pub rem32 : ℕ → ℕ → ℕ
rem32 m k = if ltb m (2 ^ 31) then m % k else (2 ^ 32 - (2 ^ 32 - m) % k) % 2 ^ 32

-- The loop over digits: the number, and the text behind it.
unfoldable pub read_digits : ℕ → Bytes → ℕ × Bytes
read_digits val [] = (val, [])
read_digits val (c ∷ s) =
    let rest = read_digits ((val * 10 + (c - b'0')) % 2 ^ 32) s in
    if is_digit c then rest else (val, c ∷ s)

-- The loop over the digits of the fraction: only the first three count.
unfoldable pub read_fraction : ℕ → ℕ → Bytes → (ℕ × ℕ) × Bytes
read_fraction frac divisor [] = ((frac, divisor), [])
read_fraction frac divisor (c ∷ s) =
    let counts = ltb divisor 1000 in
    let rest =
      read_fraction (if counts then frac * 10 + (c - b'0') else frac)
        (if counts then divisor * 10 else divisor) s in
    if is_digit c then rest else ((frac, divisor), c ∷ s)

-- `while (divisor < 1000) { frac_ms *= 10; divisor *= 10; }`, in at most three rounds.
unfoldable pub normalize : ℕ → ℕ → ℕ → ℕ
normalize zero frac divisor = frac
normalize (suc rounds) frac divisor =
    let rest = normalize rounds (frac * 10) (divisor * 10) in
    if ltb divisor 1000 then rest else frac

-- The part of `parse_number_ms` behind the whole number.
unfoldable pub fraction_part : ℕ → Bytes → ℕ × Bytes
fraction_part val [] = (val * 1000 % 2 ^ 32, [])
fraction_part val (c ∷ s) =
    if c == b'.'
    then (let ((frac, divisor), rest) = read_fraction 0 1 s in
        ((val * 1000 + normalize 3 frac divisor) % 2 ^ 32, rest))
    else (val * 1000 % 2 ^ 32, c ∷ s)

-- `parse_number_ms`
unfoldable pub parse_number_ms : Bytes → ℕ × Bytes
unfolding fraction_part
parse_number_ms p = let (val, rest) = read_digits 0 p in fraction_part val rest

-- `(milli_units / 1000) * a + (milli_units % 1000) * b`
abbrev pub scaled : ℕ → ℕ → ℕ → ℕ
scaled milli a b = (quot32 milli 1000 * a + rem32 milli 1000 * b) % 2 ^ 32

-- The unit behind a number: what it adds, and the text behind it; `none` for no unit.
unfoldable pub add_unit : ℕ → Bytes → Option (ℕ × Bytes)
add_unit milli [] = none
add_unit milli (c ∷ []) =
    if c == b'h'
    then some (scaled milli 3600000 3600, [])
    else (if c == b'm'
        then some (scaled milli 60000 60, [])
        else (if c == b's' then some (scaled milli 1000 1, []) else none))
add_unit milli (c ∷ d ∷ s) =
    if c == b'm' && d == b's'
    then some (quot32 milli 1000, s)
    else (if c == b'h'
        then some (scaled milli 3600000 3600, d ∷ s)
        else (if c == b'm'
            then some (scaled milli 60000 60, d ∷ s)
            else (if c == b's' then some (scaled milli 1000 1, d ∷ s) else none)))

unfoldable pub skip_blanks : Bytes → Bytes
skip_blanks [] = []
skip_blanks (c ∷ s) = if c == b' ' then skip_blanks s else c ∷ s

abbrev pub starts_digit : Bytes → Bool
starts_digit [] = false
starts_digit (c ∷ s) = is_digit c

-- A round of the loop over the terms, behind the blanks: `none` where the text is no duration.
unfoldable pub read_term : Bytes → Option (ℕ × Bytes)
read_term p =
    if starts_digit p then (let (milli, rest) = parse_number_ms p in add_unit milli rest) else none

-- The loop over the terms. A round takes a byte at least, so the bytes bound the rounds.
unfoldable pub sum_terms : ℕ → ℕ → Bytes → Option ℕ
sum_terms zero total p = if is_empty (skip_blanks p) then some total else none
sum_terms (suc rounds) total p =
    let p' = skip_blanks p in
    if is_empty p' then some total else (elim (read_term p') [
      | none ↦ none
      | some (ms, rest) ↦ sum_terms rounds ((total + ms) % 2 ^ 32) rest
    ])

unfoldable pub all_digits : Bytes → Bool
all_digits [] = true
all_digits (c ∷ s) = is_digit c && all_digits s

abbrev pub total_or : ℤ → Option ℕ → ℤ
total_or default none = default
total_or default (some total) = if ltb 0 total && ltb total (2 ^ 31) then pos total else default

-- `kerchunk_parse_duration_ms`; an absent text is empty.
unfoldable pub parse_duration_ms : Bytes → ℤ → ℤ
parse_duration_ms str default =
    if is_empty str
    then default
    else (if all_digits str then atoi str else total_or default (sum_terms (length str) 0 str))

-- `kerchunk_config_get_duration_ms`
unfoldable pub get_duration_ms : List CfgEntry → Bytes → Bytes → ℤ → ℤ
get_duration_ms es section key default = elim (config_get section key es) [
  | none ↦ default
  | some v ↦ parse_duration_ms v default
]
