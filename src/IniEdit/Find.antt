-- ===== src/IniEdit/Find.antt =====
-- What the two searches of src/kerchunk_ini_edit.c find.
use kerchunk.Prelude.{
  ℕ, ◌≡◌, refl, ap, ◌∙◌, sym, Bool, true, false, ◌&&◌, ◌==◌, if◌then◌else◌, Option, none, some, [],
  ◌∷◌, ◌++◌, arith,
}
use kerchunk.Text.{Bytes}
use kerchunk.Text.Laws.{Lacks, is_byte}
use kerchunk.IniEdit.{past, behind, is_header_of, find_section_header, find_next_section_header}
use kerchunk.IniEdit.Lines.{Closed, Bare, Newlines, is_header_of-append, is_header_of-Newlines}

abbrev pub Split : Type 0
Split = Option (Bytes × Bytes)

-- The find among `a` and then `b`, from those in each.
abbrev pub first_of : Bytes → Bytes → Split → Split → Split
first_of a b (some (front, from)) other = some (front, from ++ b)
first_of a b none none = none
first_of a b none (some (front, from)) = some (a ++ front, from)

pub first_of_nil : (b : Bytes) (r : Split) → r ≡ first_of [] b none r
first_of_nil b none = refl
first_of_nil b (some (front, from)) = refl

pub first_of_cons :
    (c : ℕ) (a b : Bytes) (r t : Split)
    → past c (first_of a b r t) ≡ first_of (c ∷ a) b (past c r) t
first_of_cons c a b none none = refl
first_of_cons c a b none (some (front, from)) = refl
first_of_cons c a b (some (front, from)) t = refl

first_of_if :
    (t : Bool) (c : ℕ) (a b : Bytes) (r other : Split)
    → (if t then some ([], (c ∷ a) ++ b) else past c (first_of a b r other))
      ≡ first_of (c ∷ a) b (if t then some ([], c ∷ a) else past c r) other
first_of_if true c a b r other = refl
first_of_if false c a b r other = first_of_cons c a b r other

-- Whole lines are searched before what follows them.
pub find_section_header-append :
    (section : Bytes) (start : Bool) (a b : Bytes)
    → Lacks (is_byte b'\n') section
    → Closed start a
    → find_section_header section start (a ++ b)
      ≡ first_of a b (find_section_header section start a) (find_section_header section true b)
unfolding find_section_header
find_section_header-append section start [] b l closed =
    rw (closed) (first_of_nil b (find_section_header section true b))
find_section_header-append section start (c ∷ a) b l closed =
    let same = is_header_of-append section c a b l closed in
    let rest = find_section_header-append section (c == b'\n') a b l closed in
    let within = find_section_header section (c == b'\n') a in
    rw (same, rest)
      (first_of_if (start && is_header_of section (c ∷ a)) c a b within
        (find_section_header section true b))

-- What is behind a section: another's header, or nothing.
abbrev pub AtHeader : Bytes → Type 0
AtHeader [] = Unit {0}
AtHeader (c ∷ s) = c ≡ b'['

-- Newlines at the end change nothing.
blank_lines :
    (section : Bytes) (start : Bool) (b : Bytes)
    → Newlines b
    → find_section_header section start b ≡ none
unfolding find_section_header is_header_of behind
blank_lines section start [] n = refl
blank_lines section start (c ∷ b) n = ground (arith, blank_lines section (c == b'\n') b n.1)

pub find_section_header-Newlines :
    (section : Bytes) (start : Bool) (a b : Bytes)
    → Lacks (is_byte b'\n') section
    → Newlines b
    → find_section_header section start (a ++ b)
      ≡ first_of a b (find_section_header section start a) none
unfolding find_section_header
find_section_header-Newlines section start [] b l n = blank_lines section start b n
find_section_header-Newlines section start (c ∷ a) b l n =
    let same = is_header_of-Newlines section (c ∷ a) b l n in
    let rest = find_section_header-Newlines section (c == b'\n') a b l n in
    let within = find_section_header section (c == b'\n') a in
    rw (same, rest) (first_of_if (start && is_header_of section (c ∷ a)) c a b within none)

-- A header that is found: the text is cut there, at the start of a line, and no other stands in front of it.
pub record FoundAt (section : Bytes) (start : Bool) (s front from : Bytes) : Type 0 where
  pub cut : s ≡ front ++ from
  pub closed : Closed start front
  pub header : is_header_of section from ≡ true
  pub first_one : find_section_header section start front ≡ none

abbrev pub Found : Bytes → Bool → Bytes → Split → Type 0
Found section start s none = Unit {0}
Found section start s (some (front, from)) = FoundAt section start s front from

and_parts : (a b : Bool) → (a && b) ≡ true → (a ≡ true) × (b ≡ true)
and_parts true b e = (refl, e)
and_parts false b e = cc

Found-past :
    (section : Bytes) (start : Bool) (c : ℕ) (s : Bytes) (r : Split)
    → Lacks (is_byte b'\n') section
    → (start && is_header_of section (c ∷ s)) ≡ false
    → Found section (c == b'\n') s r
    → Found section start (c ∷ s) (past c r)
unfolding find_section_header
Found-past section start c s none l n f = tt
Found-past section start c s (some (front, from)) l n f =
    let same = is_header_of-append section c front from l f.closed in
    let none_here : (start && is_header_of section (c ∷ front)) ≡ false =
      ap (λ h. start && h) (sym same)
      ∙ (ap (λ t. start && is_header_of section (c ∷ t)) (sym f.cut) ∙ n) in
    record {
      cut = ap (λ t. c ∷ t) f.cut;
      closed = f.closed;
      header = f.header;
      first_one = rw (none_here, f.first_one) refl;
    }

Found-if :
    (section : Bytes) (start : Bool) (c : ℕ) (s : Bytes) (t : Bool) (r : Split)
    → (t ≡ true → (start ≡ true) × (is_header_of section (c ∷ s) ≡ true))
    → (t ≡ false → Found section start (c ∷ s) (past c r))
    → Found section start (c ∷ s) (if t then some ([], c ∷ s) else past c r)
unfolding find_section_header
Found-if section start c s true r here there = record {
  cut = refl;
  closed = (here refl).0;
  header = (here refl).1;
  first_one = refl;
}
Found-if section start c s false r here there = there refl

pub find_section_header-Found :
    (section : Bytes) (start : Bool) (s : Bytes)
    → Lacks (is_byte b'\n') section
    → Found section start s (find_section_header section start s)
unfolding find_section_header
find_section_header-Found section start [] l = tt
find_section_header-Found section start (c ∷ s) l =
    let rest = find_section_header section (c == b'\n') s in
    let within = find_section_header-Found section (c == b'\n') s l in
    Found-if section start c s (start && is_header_of section (c ∷ s)) rest
      (λ e. and_parts start (is_header_of section (c ∷ s)) e)
      (λ e. Found-past section start c s rest l e within)

-- The search for the next header passes over the text of a section.
pub find_next_section_header-append :
    (start : Bool) (a b : Bytes)
    → Closed start a
    → Bare start a
    → AtHeader b
    → find_next_section_header start (a ++ b) ≡ (a, b)
unfolding find_next_section_header
find_next_section_header-append start [] [] closed bare at = refl
find_next_section_header-append start [] (c ∷ b) closed bare at = ground arith
find_next_section_header-append start (c ∷ a) b closed bare at =
    rw (bare.0, find_next_section_header-append (c == b'\n') a b closed bare.1 at) refl

pub find_next_section_header-AtHeader :
    (start : Bool) (s : Bytes) → AtHeader (find_next_section_header start s).1
unfolding find_next_section_header
find_next_section_header-AtHeader start [] = tt
find_next_section_header-AtHeader start (c ∷ s) =
    ground (arith, find_next_section_header-AtHeader (c == b'\n') s)
