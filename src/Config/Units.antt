-- ===== src/Config/Units.antt =====
-- One term of a duration, as `kerchunk_parse_duration_ms` of src/kerchunk_config.c reads it.
use kerchunk.Prelude.{
  ℕ, ◌+◌, ◌*◌, ◌/◌, ◌^◌, ◌<◌, ◌≡◌, refl, ap, ◌∙◌, Bool, false, ◌==◌, Option, none, some, [], ◌∷◌,
  ◌++◌, arith,
}
use kerchunk.Text.{Bytes}
use kerchunk.Config.Duration.{
  quot32, rem32, fraction_part, parse_number_ms, add_unit, starts_digit, read_term,
}
use kerchunk.Config.Terms.{
  number, thousandths, DurationUnit, hours, minutes, seconds, millis, Term, unit_text,
  fraction_text, fraction_value, unit_ms, term_ms, AllDigits, FractionDigits, IsTerm,
  read_digits-append, read_fraction-append, normalize_lem, thousandths-lt,
}

unit_text-starts : (u : DurationUnit) (more : Bytes) → starts_digit (unit_text u ++ more) ≡ false
unit_text-starts hours more = refl
unit_text-starts minutes more = refl
unit_text-starts seconds more = refl
unit_text-starts millis more = refl

fraction_part-unit :
    (n : ℕ) (u : DurationUnit) (more : Bytes)
    → n * 1000 < 2 ^ 31
    → fraction_part n (unit_text u ++ more) ≡ (n * 1000, unit_text u ++ more)
unfolding fraction_part
fraction_part-unit n hours more h = ground arith
fraction_part-unit n minutes more h = ground arith
fraction_part-unit n seconds more h = ground arith
fraction_part-unit n millis more h = ground arith

fraction_part-point :
    (n : ℕ) (ds rest : Bytes)
    → AllDigits ds
    → n * 1000 + thousandths ds < 2 ^ 31
    → starts_digit rest ≡ false
    → fraction_part n (b'.' ∷ (ds ++ rest)) ≡ (n * 1000 + thousandths ds, rest)
unfolding fraction_part
fraction_part-point n ds rest a m h =
    ground (arith, read_fraction-append ds rest a h, normalize_lem ds)

parse_number_ms-print :
    (ds : Bytes) (fr : Option Bytes) (u : DurationUnit) (more : Bytes)
    → AllDigits ds
    → FractionDigits fr
    → number 0 ds * 1000 + fraction_value fr < 2 ^ 31
    → parse_number_ms (ds ++ (fraction_text fr ++ (unit_text u ++ more)))
      ≡ (number 0 ds * 1000 + fraction_value fr, unit_text u ++ more)
unfolding parse_number_ms
parse_number_ms-print ds none u more a f m = ground (
  arith,
  read_digits-append 0 ds (unit_text u ++ more) a (omega (arith, m)) (unit_text-starts u more),
  fraction_part-unit (number 0 ds) u more (omega (arith, m)),
)
parse_number_ms-print ds (some fs) u more a f m = ground (
  arith,
  read_digits-append 0 ds (b'.' ∷ (fs ++ (unit_text u ++ more))) a (omega (arith, m)) refl,
  fraction_part-point (number 0 ds) fs (unit_text u ++ more) f m (unit_text-starts u more),
)

-- A text that does not go on with an s, which would turn an m into ms.
abbrev pub starts_s : Bytes → Bool
starts_s [] = false
starts_s (c ∷ s) = c == b's'

-- The whole units and the thousandths of a number that an `int` holds.
quot32_lem : (n f : ℕ) → f < 1000 → n * 1000 + f < 2 ^ 31 → quot32 (n * 1000 + f) 1000 ≡ n
quot32_lem n f h k = ground arith

rem32_lem : (n f : ℕ) → f < 1000 → n * 1000 + f < 2 ^ 31 → rem32 (n * 1000 + f) 1000 ≡ f
rem32_lem n f h k = ground arith

add_unit-print :
    (n f : ℕ) (u : DurationUnit) (more : Bytes)
    → f < 1000
    → n * 1000 + f < 2 ^ 31
    → n * unit_ms u + f * (unit_ms u / 1000) < 2 ^ 31
    → starts_s more ≡ false
    → add_unit (n * 1000 + f) (unit_text u ++ more)
      ≡ some (n * unit_ms u + f * (unit_ms u / 1000), more)
unfolding add_unit
add_unit-print n f hours [] h k t m = rw (quot32_lem n f h k, rem32_lem n f h k) (ground arith)
add_unit-print n f hours (c ∷ more) h k t m =
    rw (quot32_lem n f h k, rem32_lem n f h k) (ground arith)
add_unit-print n f minutes [] h k t m = rw (quot32_lem n f h k, rem32_lem n f h k) (ground arith)
add_unit-print n f minutes (c ∷ more) h k t m =
    rw (quot32_lem n f h k, rem32_lem n f h k) (ground arith)
add_unit-print n f seconds [] h k t m = rw (quot32_lem n f h k, rem32_lem n f h k) (ground arith)
add_unit-print n f seconds (c ∷ more) h k t m =
    rw (quot32_lem n f h k, rem32_lem n f h k) (ground arith)
add_unit-print n f millis [] h k t m = rw (quot32_lem n f h k) (ground arith)
add_unit-print n f millis (c ∷ more) h k t m = rw (quot32_lem n f h k) (ground arith)

fraction_value-lt : (fr : Option Bytes) → FractionDigits fr → fraction_value fr < 1000
fraction_value-lt none h = omega arith
fraction_value-lt (some ds) h = thousandths-lt ds h

abbrev pub digits_text : Term → Bytes → Bytes
digits_text t more = (t.first ∷ t.whole) ++ (fraction_text t.fraction ++ (unit_text t.unit ++ more))

pub read_term-print :
    (t : Term) (more : Bytes)
    → IsTerm t
    → term_ms t < 2 ^ 31
    → starts_s more ≡ false
    → read_term (digits_text t more) ≡ some (term_ms t, more)
unfolding read_term
read_term-print t more v k m =
    let p =
      parse_number_ms-print (t.first ∷ t.whole) t.fraction t.unit more (v.first_digit, v.digits)
        v.fraction_digits v.held in
    let n = number 0 (t.first ∷ t.whole) in
    let small = fraction_value-lt t.fraction v.fraction_digits in
    rw v.first_digit (
      ap (λ r. add_unit r.0 r.1) p
      ∙ add_unit-print n (fraction_value t.fraction) t.unit more small v.held k m)
