-- ===== src/Config/Terms.antt =====
-- The durations of src/kerchunk_config.c, written as terms.
use kerchunk.Prelude.{
  ℕ, ◌+◌, ◌-◌, ◌*◌, ◌/◌, ◌%◌, ◌^◌, ◌<◌, ◌≤◌, ◌≡◌, refl, true, false, Option, none, some, List, [],
  ◌∷◌, ◌++◌, take, replicate, arith,
}
use kerchunk.Text.{Bytes, is_digit}
use kerchunk.Config.Duration.{read_digits, read_fraction, normalize, starts_digit}

-- The number that digits write, behind one in front.
unfoldable pub number : ℕ → Bytes → ℕ
number n [] = n
number n (c ∷ s) = number (n * 10 + (c - b'0')) s

-- A fraction in thousandths: its first three digits, as if zeros followed.
unfoldable pub thousandths : Bytes → ℕ
thousandths ds = number 0 (take 3 (ds ++ (b'0' ∷ b'0' ∷ b'0' ∷ [])))

pub data DurationUnit : Type 0 where
  hours minutes seconds millis : DurationUnit

-- A term of a duration: blanks, digits, a fraction if there is one, and a unit.
pub record Term : Type 0 where
  pub blanks : ℕ
  pub first : ℕ
  pub whole : Bytes
  pub fraction : Option Bytes
  pub unit : DurationUnit

abbrev pub unit_text : DurationUnit → Bytes
unit_text hours = b'h' ∷ []
unit_text minutes = b'm' ∷ []
unit_text seconds = b's' ∷ []
unit_text millis = b'm' ∷ b's' ∷ []

abbrev pub fraction_text : Option Bytes → Bytes
fraction_text none = []
fraction_text (some ds) = b'.' ∷ ds

abbrev pub term_text : Term → Bytes
term_text t =
    replicate t.blanks b' '
    ++ (t.first ∷ (t.whole ++ (fraction_text t.fraction ++ unit_text t.unit)))

unfoldable pub print_terms : List Term → Bytes
print_terms [] = []
print_terms (t ∷ ts) = term_text t ++ print_terms ts

abbrev pub fraction_value : Option Bytes → ℕ
fraction_value none = 0
fraction_value (some ds) = thousandths ds

-- The milliseconds of one unit.
abbrev pub unit_ms : DurationUnit → ℕ
unit_ms hours = 3600000
unit_ms minutes = 60000
unit_ms seconds = 1000
unit_ms millis = 1

-- What a term is worth: whole units, and the thousandths of one unit; of a millisecond none count.
abbrev pub term_ms : Term → ℕ
term_ms t =
    number 0 (t.first ∷ t.whole) * unit_ms t.unit
    + fraction_value t.fraction * (unit_ms t.unit / 1000)

unfoldable pub terms_ms : List Term → ℕ
terms_ms [] = 0
terms_ms (t ∷ ts) = term_ms t + terms_ms ts

abbrev pub AllDigits : Bytes → Type 0
AllDigits [] = Unit {0}
AllDigits (c ∷ s) = (is_digit c ≡ true) × AllDigits s

abbrev pub FractionDigits : Option Bytes → Type 0
FractionDigits none = Unit {0}
FractionDigits (some ds) = AllDigits ds

-- The digits and the fraction are digits, and an `int` holds the number in thousandths.
pub record IsTerm (t : Term) : Type 0 where
  pub first_digit : is_digit t.first ≡ true
  pub digits : AllDigits t.whole
  pub fraction_digits : FractionDigits t.fraction
  pub held : number 0 (t.first ∷ t.whole) * 1000 + fraction_value t.fraction < 2 ^ 31

abbrev pub AllTerms : List Term → Type 0
AllTerms [] = Unit {0}
AllTerms (t ∷ ts) = IsTerm t × AllTerms ts

pub number-le : (n : ℕ) (ds : Bytes) → n ≤ number n ds
unfolding number
number-le n [] = omega arith
number-le n (c ∷ ds) = omega (arith, number-le (n * 10 + (c - b'0')) ds)

-- A number that an `int` holds is read as it is written.
pub read_digits-append :
    (v : ℕ) (ds rest : Bytes)
    → AllDigits ds
    → number v ds < 2 ^ 31
    → starts_digit rest ≡ false
    → read_digits v (ds ++ rest) ≡ (number v ds, rest)
unfolding read_digits number
read_digits-append v [] [] a m n = refl
read_digits-append v [] (c ∷ rest) a m n = ground arith
read_digits-append v (c ∷ ds) rest a m n =
    let next = v * 10 + (c - b'0') in
    let held : next % 2 ^ 32 ≡ next = omega (arith, number-le next ds) in
    rw (a.0, held) (read_digits-append next ds rest a.1 m n)

-- Behind three digits the others are passed over.
read_fraction-full :
    (f : ℕ) (ds rest : Bytes)
    → AllDigits ds
    → starts_digit rest ≡ false
    → read_fraction f 1000 (ds ++ rest) ≡ ((f, 1000), rest)
unfolding read_fraction
read_fraction-full f [] [] a n = refl
read_fraction-full f [] (c ∷ rest) a n = ground arith
read_fraction-full f (c ∷ ds) rest a n = ground (arith, read_fraction-full f ds rest a.1 n)

-- The divisor when the digits end.
abbrev pub divisor_of : Bytes → ℕ
divisor_of [] = 1
divisor_of (a ∷ []) = 10
divisor_of (a ∷ b ∷ []) = 100
divisor_of (a ∷ b ∷ c ∷ s) = 1000

pub read_fraction-append :
    (ds rest : Bytes)
    → AllDigits ds
    → starts_digit rest ≡ false
    → read_fraction 0 1 (ds ++ rest) ≡ ((number 0 (take 3 ds), divisor_of ds), rest)
unfolding read_fraction number
read_fraction-append [] [] h n = refl
read_fraction-append [] (r ∷ rest) h n = ground arith
read_fraction-append (a ∷ []) [] h n = ground arith
read_fraction-append (a ∷ []) (r ∷ rest) h n = ground arith
read_fraction-append (a ∷ b ∷ []) [] h n = ground arith
read_fraction-append (a ∷ b ∷ []) (r ∷ rest) h n = ground arith
read_fraction-append (a ∷ b ∷ c ∷ ds) rest h n =
    ground (arith, read_fraction-full (number 0 (a ∷ b ∷ c ∷ [])) ds rest)

pub normalize_lem :
    (ds : Bytes) → normalize 3 (number 0 (take 3 ds)) (divisor_of ds) ≡ thousandths ds
unfolding normalize number thousandths
normalize_lem [] = refl
normalize_lem (a ∷ []) = ground arith
normalize_lem (a ∷ b ∷ []) = ground arith
normalize_lem (a ∷ b ∷ c ∷ ds) = ground arith

pub thousandths-lt : (ds : Bytes) → AllDigits ds → thousandths ds < 1000
unfolding number thousandths
thousandths-lt [] h = omega arith
thousandths-lt (a ∷ []) h = ground arith
thousandths-lt (a ∷ b ∷ []) h = ground arith
thousandths-lt (a ∷ b ∷ c ∷ ds) h = ground arith
