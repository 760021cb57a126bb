-- ===== src/IniEdit/Others.antt =====
-- What an edit of src/kerchunk_ini_edit.c leaves of the other sections.
use mathlib.Core.List.{append_cancel_right, tail}
use kerchunk.Prelude.{
  ℕ, ◌≡◌, ◌≢◌, refl, ap, subst, ◌∙◌, sym, Bool, true, false, ◌&&◌, ◌==◌, Option, none, some, [],
  ◌∷◌, ◌++◌, arith, Bool-cases, inl, inr,
}
use kerchunk.Text.{Bytes}
use kerchunk.Text.Laws.{Lacks, is_byte}
use kerchunk.IniEdit.{
  behind, line_ends, is_header_of, find_section_header, find_next_section_header, section_text,
  replace_section,
}
use kerchunk.IniEdit.Lines.{Closed, Lacks-append}
use kerchunk.IniEdit.Find.{
  Split, Found, FoundAt, AtHeader, first_of, first_of_cons, first_of_nil,
  find_section_header-append, find_section_header-Found, find_next_section_header-AtHeader,
}
use kerchunk.IniEdit.Places.{OneLine, Body, ended_again, put_found, section_text-is_header_of}

-- A name with no newline and no carriage return.
abbrev pub Name : Bytes → Type 0
Name section = OneLine section × Lacks (is_byte b'\r') section

-- One place holds one header.
same_behind :
    (p q s : Bytes)
    → Name p
    → Name q
    → line_ends (behind p s) ≡ true
    → line_ends (behind q s) ≡ true
    → p ≡ q
unfolding behind
same_behind [] [] s np nq ep eq = refl
same_behind [] (y ∷ q) [] np nq ep eq = cc
same_behind [] (y ∷ q) (c ∷ s) np nq ep eq = ground arith
same_behind (x ∷ p) [] [] np nq ep eq = cc
same_behind (x ∷ p) [] (c ∷ s) np nq ep eq = ground arith
same_behind (x ∷ p) (y ∷ q) [] np nq ep eq = cc
same_behind (x ∷ p) (y ∷ q) (c ∷ s) np nq ep eq =
    ground (arith, same_behind p q s (np.0.1, np.1.1) (nq.0.1, nq.1.1))

Name-append : (section : Bytes) → Name section → Name (b'[' ∷ section ++ (b']' ∷ []))
Name-append section n = (
  (refl, Lacks-append (is_byte b'\n') section (b']' ∷ []) n.0 (refl, tt)),
  (refl, Lacks-append (is_byte b'\r') section (b']' ∷ []) n.1 (refl, tt)),
)

other_header :
    (section other s : Bytes)
    → Name section
    → Name other
    → other ≢ section
    → is_header_of section s ≡ true
    → is_header_of other s ≡ false
unfolding is_header_of
other_header section other s n m differ here = elim (Bool-cases (is_header_of other s)) [
  | inl y ↦
      let h : Bytes → Bytes = λ name. b'[' ∷ name ++ (b']' ∷ []) in
      let same : h other ≡ h section =
        same_behind (h other) (h section) s (Name-append other m) (Name-append section n) y here in
      let names = append_cancel_right other section (b']' ∷ []) (ap tail same) in
      elim (differ names) [ ]
  | inr no_header ↦ no_header
]

no_header :
    (other : Bytes) (c : ℕ) (s : Bytes) → c == b'[' ≡ false → is_header_of other (c ∷ s) ≡ false
unfolding is_header_of behind
no_header other c s n = ground arith

-- The header of another section is not within the lines of one.
past_section :
    (other : Bytes) (start : Bool) (s : Bytes)
    → find_section_header other start s
      ≡ first_of
          (find_next_section_header start s).0
          []
          none
          (find_section_header other true (find_next_section_header start s).1)
unfolding find_section_header find_next_section_header
past_section other start [] = refl
past_section other false (c ∷ s) =
    let (within, next) = find_next_section_header (c == b'\n') s in
    rw (past_section other (c == b'\n') s)
      (first_of_cons c within [] none (find_section_header other true next))
past_section other true (c ∷ s) =
    let (within, next) = find_next_section_header (c == b'\n') s in
    elim (Bool-cases (c == b'[')) [
      | inl y ↦ rw (y) (first_of_nil [] (find_section_header other true (c ∷ s)))
      | inr n ↦
          rw (n, no_header other c s n, past_section other (c == b'\n') s)
            (first_of_cons c within [] none (find_section_header other true next))
    ]

past_header :
    (other s : Bytes)
    → is_header_of other s ≡ false
    → find_section_header other true s
      ≡ first_of
          (find_next_section_header false s).0
          []
          none
          (find_section_header other true (find_next_section_header false s).1)
unfolding find_section_header find_next_section_header
past_header other [] n = refl
past_header other (c ∷ s) n =
    let (within, next) = find_next_section_header (c == b'\n') s in
    rw (n, past_section other (c == b'\n') s)
      (first_of_cons c within [] none (find_section_header other true next))

-- The text of a section, from its header to the next.
abbrev pub text_of : Split → Option Bytes
text_of none = none
text_of (some (front, from)) = some (find_next_section_header false from).0

unfoldable pub section_of : Bytes → Bytes → Option Bytes
section_of name s = text_of (find_section_header name true s)

text_of-first_of : (a b : Bytes) (r : Split) → text_of (first_of a b none r) ≡ text_of r
text_of-first_of a b none = refl
text_of-first_of a b (some (front, from)) = refl

-- What follows whole lines does not change the text that starts in them.
within_lines :
    (start : Bool) (a b : Bytes)
    → Closed start a
    → AtHeader b
    → (find_next_section_header start (a ++ b)).0 ≡ (find_next_section_header start a).0
unfolding find_next_section_header
within_lines start [] [] closed at = refl
within_lines start [] (c ∷ b) closed at = ground arith
within_lines start (c ∷ a) b closed at =
    let rest = within_lines (c == b'\n') a b closed at in
    elim (Bool-cases (start && c == b'[')) [
      | inl y ↦ rw (y) refl
      | inr n ↦ rw (n) (ap (λ t. c ∷ t) rest)
    ]

Closed-suffix :
    (start : Bool) (a b : Bytes) → Closed start a → Closed start (a ++ b) → Closed true b
Closed-suffix start [] b ca cab = subst (λ t. Closed t b) ca cab
Closed-suffix start (c ∷ a) b ca cab = Closed-suffix (c == b'\n') a b ca cab

is_header_of-AtHeader : (section s : Bytes) → is_header_of section s ≡ true → AtHeader s
unfolding is_header_of behind
is_header_of-AtHeader section [] h = tt
is_header_of-AtHeader section (c ∷ s) h = ground arith

ended_text :
    (section g from : Bytes)
    → is_header_of section g ≡ true
    → Closed true g
    → AtHeader from
    → (find_next_section_header false (g ++ from)).0 ≡ (find_next_section_header false g).0
unfolding is_header_of behind
ended_text section [] from h closed at = cc
ended_text section (c ∷ g) from h closed at = within_lines false (c ∷ g) from closed at

-- The text that is found in front of a section, or else behind it.
abbrev beside : Split → Split → Option Bytes
beside none r = text_of r
beside (some (front, from)) r = some (find_next_section_header false from).0

text_of-beside :
    (other front from within : Bytes) (r t : Split)
    → Closed true front
    → Found other true front r
    → AtHeader from
    → text_of (first_of front from r (first_of within [] none t)) ≡ beside r t
text_of-beside other front from within none t closed f at =
    text_of-first_of front from (first_of within [] none t) ∙ text_of-first_of within [] t
text_of-beside other front from within (some (a, g)) t closed f at =
    let whole : Closed true (a ++ g) = subst (Closed true) f.cut closed in
    let ends : Closed true g = Closed-suffix true a g f.closed whole in
    ap (λ x. some x) (ended_text other g from f.header ends at)

-- Around a section, the text of another one.
section_of-beside :
    (section other front from : Bytes)
    → Name section
    → Name other
    → other ≢ section
    → Closed true front
    → is_header_of section from ≡ true
    → section_of other (front ++ from)
      ≡ beside
          (find_section_header other true front)
          (find_section_header other true (find_next_section_header false from).1)
unfolding section_of
section_of-beside section other front from n m differ closed here =
    let (within, next) = find_next_section_header false from in
    let there = other_header section other from n m differ here in
    ap text_of (find_section_header-append other true front from m.0 closed)
    ∙ (ap (λ t. text_of (first_of front from (find_section_header other true front) t))
          (past_header other from there)
        ∙ text_of-beside other front from within (find_section_header other true front)
            (find_section_header other true next) closed
            (find_section_header-Found other true front m.0)
            (is_header_of-AtHeader section from here))

-- The replacement of a section that is there leaves the text of every other section: the names have no newline
-- and no carriage return, and the body is whole lines that do not start with `[`.
pub section_of-replace_section :
    (section other body s front from : Bytes)
    → Name section
    → Name other
    → other ≢ section
    → Body body
    → find_section_header section true s ≡ some (front, from)
    → section_of other (replace_section section body s) ≡ section_of other s
section_of-replace_section section other body s front from n m differ b e =
    let info : FoundAt section true s front from =
      subst (λ r. Found section true s r) e (find_section_header-Found section true s n.0) in
    let next = (find_next_section_header false from).1 in
    let at = find_next_section_header-AtHeader false from in
    let text = section_text section body ++ next in
    let old = section_of-beside section other front from n m differ info.closed info.header in
    let new =
      section_of-beside section other front text n m differ info.closed
        (section_text-is_header_of section body next) in
    let ended = ended_again section body next n.0 b at in
    ap (section_of other) (put_found section s front from e body)
    ∙ (new
        ∙ (ap
              (λ r.
                beside (find_section_header other true front) (find_section_header other true r.1))
              ended
            ∙ (sym old ∙ ap (section_of other) (sym info.cut))))
