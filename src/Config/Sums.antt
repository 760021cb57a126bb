-- ===== src/Config/Sums.antt =====
-- `kerchunk_parse_duration_ms` of src/kerchunk_config.c on durations that are written as terms.
use mathlib.Core.List.{append_assoc}
use kerchunk.Prelude.{
  ℕ, zero, suc, ◌+◌, ◌%◌, ◌^◌, ◌≤◌, ◌<◌, ◌≡◌, refl, ap, ◌∙◌, sym, true, false, ℤ, pos, ltb,
  if◌then◌else◌, some, List, [], ◌∷◌, ◌++◌, length, replicate, arith, length-append,
}
use kerchunk.Text.{Bytes, is_digit, is_empty}
use kerchunk.Config.Duration.{skip_blanks, read_term, sum_terms, all_digits, parse_duration_ms}
use kerchunk.Config.Terms.{
  DurationUnit, hours, minutes, seconds, millis, Term, unit_text, fraction_text, term_text,
  print_terms, term_ms, terms_ms, AllTerms,
}
use kerchunk.Config.Units.{starts_s, digits_text, read_term-print}

skip_blanks-replicate :
    (n c : ℕ) (s : Bytes) → is_digit c ≡ true → skip_blanks (replicate n b' ' ++ (c ∷ s)) ≡ c ∷ s
unfolding skip_blanks
skip_blanks-replicate zero c s h = ground arith
skip_blanks-replicate (suc n) c s h = skip_blanks-replicate n c s h

-- A printed term with text behind it, bracketed to the right.
term_text-append :
    (t : Term) (more : Bytes) → term_text t ++ more ≡ replicate t.blanks b' ' ++ digits_text t more
term_text-append t more =
    append_assoc (replicate t.blanks b' ')
      (t.first ∷ (t.whole ++ (fraction_text t.fraction ++ unit_text t.unit))) more
    ∙ ap (λ l. replicate t.blanks b' ' ++ (t.first ∷ l))
        (append_assoc t.whole (fraction_text t.fraction ++ unit_text t.unit) more
          ∙ ap (λ l. t.whole ++ l)
              (append_assoc (fraction_text t.fraction) (unit_text t.unit) more))

starts_s-replicate :
    (n c : ℕ) (s : Bytes) → is_digit c ≡ true → starts_s (replicate n b' ' ++ (c ∷ s)) ≡ false
starts_s-replicate zero c s h = ground arith
starts_s-replicate (suc n) c s h = refl

print_terms-starts : (ts : List Term) → AllTerms ts → starts_s (print_terms ts) ≡ false
unfolding print_terms
print_terms-starts [] h = refl
print_terms-starts (t ∷ ts) h =
    let (v, vs) = h in
    ap starts_s (term_text-append t (print_terms ts))
    ∙ starts_s-replicate t.blanks t.first
        (t.whole ++ (fraction_text t.fraction ++ (unit_text t.unit ++ print_terms ts)))
        v.first_digit

sum_terms-step :
    (rounds total ms : ℕ) (p p' rest : Bytes)
    → skip_blanks p ≡ p'
    → is_empty p' ≡ false
    → read_term p' ≡ some (ms, rest)
    → sum_terms (suc rounds) total p ≡ sum_terms rounds ((total + ms) % 2 ^ 32) rest
unfolding sum_terms
sum_terms-step rounds total ms p p' rest s e r = ground arith

sum_terms-print :
    (rounds total : ℕ) (ts : List Term)
    → AllTerms ts
    → length ts ≤ rounds
    → total + terms_ms ts < 2 ^ 31
    → sum_terms rounds total (print_terms ts) ≡ some (total + terms_ms ts)
unfolding sum_terms print_terms terms_ms skip_blanks
sum_terms-print zero total [] a h m = ground arith
sum_terms-print zero total (t ∷ ts) a h m = absurd (omega arith)
sum_terms-print (suc rounds) total [] a h m = ground arith
sum_terms-print (suc rounds) total (t ∷ ts) a h m =
    let (v, vs) = a in
    let more = print_terms ts in
    let behind = t.whole ++ (fraction_text t.fraction ++ (unit_text t.unit ++ more)) in
    let held : (total + term_ms t) % 2 ^ 32 ≡ total + term_ms t = omega arith in
    sum_terms-step rounds total (term_ms t) (term_text t ++ more) (digits_text t more) more
      (ap skip_blanks (term_text-append t more)
        ∙ skip_blanks-replicate t.blanks t.first behind v.first_digit)
      refl (read_term-print t more v (omega arith) (print_terms-starts ts vs))
    ∙ ap (λ n. sum_terms rounds n more) held
    ∙ sum_terms-print rounds (total + term_ms t) ts vs (omega arith) (omega arith)
    ∙ ap some (omega arith)

-- There is no more text than a byte for each term.
length-print_terms : (ts : List Term) → length ts ≤ length (print_terms ts)
unfolding print_terms
length-print_terms [] = omega arith
length-print_terms (t ∷ ts) =
    let more = print_terms ts in
    omega (
      arith,
      length-print_terms ts,
      length-append (term_text t) more,
      length-append (replicate t.blanks b' ')
          (t.first ∷ (t.whole ++ (fraction_text t.fraction ++ unit_text t.unit))),
    )

all_digits-append :
    (s : Bytes) (c : ℕ) (t : Bytes) → is_digit c ≡ false → all_digits (s ++ (c ∷ t)) ≡ false
unfolding all_digits
all_digits-append [] c t h = ground arith
all_digits-append (d ∷ s) c t h = ground (arith, all_digits-append s c t h)

-- The unit is no digit.
unit_first : DurationUnit → ℕ
unit_first hours = b'h'
unit_first minutes = b'm'
unit_first seconds = b's'
unit_first millis = b'm'

unit_rest : DurationUnit → Bytes
unit_rest millis = b's' ∷ []
unit_rest _ = []

unit_text_lem :
    (u : DurationUnit)
    → (unit_text u ≡ unit_first u ∷ unit_rest u) × (is_digit (unit_first u) ≡ false)
unfolding unit_first unit_rest
unit_text_lem hours = (refl, refl)
unit_text_lem minutes = (refl, refl)
unit_text_lem seconds = (refl, refl)
unit_text_lem millis = (refl, refl)

all_digits-term :
    (t : Term) (more : Bytes) → all_digits (replicate t.blanks b' ' ++ digits_text t more) ≡ false
all_digits-term t more =
    let (e, n) = unit_text_lem t.unit in
    let front = replicate t.blanks b' ' ++ ((t.first ∷ t.whole) ++ fraction_text t.fraction) in
    ap
      (λ u. all_digits (
        replicate t.blanks b' '
        ++ ((t.first ∷ t.whole) ++ (fraction_text t.fraction ++ (u ++ more)))))
      e
    ∙ ap all_digits (
        ap (λ l. replicate t.blanks b' ' ++ l)
          (sym (
            append_assoc (t.first ∷ t.whole) (fraction_text t.fraction)
              (unit_first t.unit ∷ (unit_rest t.unit ++ more))))
        ∙ sym (
            append_assoc (replicate t.blanks b' ') ((t.first ∷ t.whole) ++ fraction_text t.fraction)
              (unit_first t.unit ∷ (unit_rest t.unit ++ more))))
    ∙ all_digits-append front (unit_first t.unit) (unit_rest t.unit ++ more) n

parse_duration_ms-terms :
    (p : Bytes) (default : ℤ) (total : ℕ)
    → is_empty p ≡ false
    → all_digits p ≡ false
    → sum_terms (length p) 0 p ≡ some total
    → total < 2 ^ 31
    → parse_duration_ms p default ≡ (if ltb 0 total then pos total else default)
unfolding parse_duration_ms
parse_duration_ms-terms p default total e d h m = ground arith

is_empty-append : (s t : Bytes) (c : ℕ) → is_empty (s ++ (c ∷ t)) ≡ false
is_empty-append [] t c = refl
is_empty-append (d ∷ s) t c = refl

-- The text of one term or more, each of digits, a fraction or none, and a unit, is read as the sum of the
-- terms, fractions cut at the third digit, where an `int` holds the number of each term in thousandths and
-- the sum; the default is taken where the sum is 0.
pub parse_duration_ms-print_terms :
    (t : Term) (ts : List Term) (default : ℤ)
    → AllTerms (t ∷ ts)
    → terms_ms (t ∷ ts) < 2 ^ 31
    → parse_duration_ms (print_terms (t ∷ ts)) default
      ≡ (if ltb 0 (terms_ms (t ∷ ts)) then pos (terms_ms (t ∷ ts)) else default)
unfolding print_terms
parse_duration_ms-print_terms t ts default a m =
    let more = print_terms ts in
    let text = term_text-append t more in
    let behind = t.whole ++ (fraction_text t.fraction ++ (unit_text t.unit ++ more)) in
    parse_duration_ms-terms (print_terms (t ∷ ts)) default (terms_ms (t ∷ ts))
      (ap is_empty text ∙ is_empty-append (replicate t.blanks b' ') behind t.first)
      (ap all_digits text ∙ all_digits-term t more)
      (sum_terms-print (length (print_terms (t ∷ ts))) 0 (t ∷ ts) a (length-print_terms (t ∷ ts))
          (omega (arith, m))
        ∙ ap some (omega arith))
      m
