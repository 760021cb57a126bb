-- ===== src/IniEdit/Places.antt =====
-- Where an edit finds its section again, of src/kerchunk_ini_edit.c.
use mathlib.Core.List.{append-nil, append_assoc}
use kerchunk.Prelude.{
  ◌≡◌, refl, ap, subst, ◌∙◌, sym, Bool, true, false, not, ◌&&◌, ◌==◌, if◌then◌else◌, none, some, [],
  ◌∷◌, ◌++◌, arith,
}
use kerchunk.Text.{Bytes, is_empty}
use kerchunk.Text.Laws.{Lacks, is_byte}
use kerchunk.IniEdit.{
  behind, line_ends, is_header_of, find_section_header, find_next_section_header, section_text,
  padding, replace_section, remove_section, replace_at, remove_at, skip_blank, ends_line,
}
use kerchunk.IniEdit.Lines.{Closed, Bare, Lacks-append, padding-Closed, padding-Newlines}
use kerchunk.IniEdit.Find.{
  Found, FoundAt, AtHeader, first_of, find_section_header-append, find_section_header-Newlines,
  find_section_header-Found, find_next_section_header-append, find_next_section_header-AtHeader,
}

-- A section's name is on one line.
abbrev pub OneLine : Bytes → Type 0
OneLine section = Lacks (is_byte b'\n') section

-- A body is whole lines, none of which starts with `[`.
abbrev pub Body : Bytes → Type 0
Body body = Closed true body × Bare true body

behind_self : (p s : Bytes) → behind p (p ++ s) ≡ some s
unfolding behind
behind_self [] s = refl
behind_self (c ∷ p) s = ground (arith, behind_self p s)

pub section_text-is_header_of :
    (section body rest : Bytes) → is_header_of section (section_text section body ++ rest) ≡ true
unfolding is_header_of
section_text-is_header_of section body rest =
    let h = b'[' ∷ section ++ (b']' ∷ []) in
    ap (λ t. line_ends (behind h t)) (append_assoc h (b'\n' ∷ body) rest)
    ∙ ap line_ends (behind_self h (b'\n' ∷ body ++ rest))

Closed-line : (start : Bool) (a b : Bytes) → Closed true b → Closed start (a ++ (b'\n' ∷ b))
Closed-line start [] b c = c
Closed-line start (x ∷ a) b c = Closed-line (x == b'\n') a b c

Bare-line : (a b : Bytes) → OneLine a → Bare true b → Bare false (a ++ (b'\n' ∷ b))
Bare-line [] b l bare = (refl, bare)
Bare-line (x ∷ a) b l bare =
    (refl, subst (λ t. Bare t (a ++ (b'\n' ∷ b))) (sym l.0) (Bare-line a b l.1 bare))

-- The search finds a new section where it was put, and its end.
pub found_again :
    (section front body rest : Bytes)
    → OneLine section
    → Closed true front
    → find_section_header section true front ≡ none
    → find_section_header section true (front ++ (section_text section body ++ rest))
      ≡ some (front, section_text section body ++ rest)
unfolding find_section_header
found_again section front body rest l closed none_there =
    let here = section_text-is_header_of section body rest in
    let text = section_text section body ++ rest in
    find_section_header-append section true front text l closed
    ∙ rw (none_there, here) (ap (λ t. some (t, text)) (append-nil front))

pub ended_again :
    (section body rest : Bytes)
    → OneLine section
    → Body body
    → AtHeader rest
    → find_next_section_header false (section_text section body ++ rest)
      ≡ (section_text section body, rest)
ended_again section body rest l b at =
    find_next_section_header-append false (section_text section body) rest
      (Closed-line false (b'[' ∷ section ++ (b']' ∷ [])) body b.0)
      (
        refl,
        Bare-line (section ++ (b']' ∷ [])) body
            (Lacks-append (is_byte b'\n') section (b']' ∷ []) l (refl, tt)) b.1,
      )
      at

-- Where a section is put into a text: no header of it in front, another's or nothing behind.
pub record IsPlace (section front next : Bytes) : Type 0 where
  pub closed : Closed true front
  pub first_one : find_section_header section true front ≡ none
  pub at_header : AtHeader next

pub padding-IsPlace :
    (section s : Bytes)
    → OneLine section
    → find_section_header section true s ≡ none
    → IsPlace section (s ++ padding s) []
padding-IsPlace section s l e = record {
  closed = padding-Closed true s;
  first_one =
      find_section_header-Newlines section true s (padding s) l (padding-Newlines s)
      ∙ ap (λ r. first_of s (padding s) r none) e;
  at_header = tt;
}

pub find_next_section_header-IsPlace :
    (section s front from : Bytes)
    → OneLine section
    → find_section_header section true s ≡ some (front, from)
    → IsPlace section front (find_next_section_header false from).1
find_next_section_header-IsPlace section s front from l e =
    let info : FoundAt section true s front from =
      subst (λ r. Found section true s r) e (find_section_header-Found section true s l) in
    record {
      closed = info.closed;
      first_one = info.first_one;
      at_header = find_next_section_header-AtHeader false from;
    }

pub put_new :
    (section s : Bytes)
    → find_section_header section true s ≡ none
    → (body : Bytes)
    → replace_section section body s ≡ (s ++ padding s) ++ (section_text section body ++ [])
unfolding replace_section replace_at
put_new section s e body =
    let text = section_text section body in
    let whole : replace_section section body s ≡ s ++ (padding s ++ text) =
      ap (replace_at section body s) e in
    whole
    ∙ (sym (append_assoc s (padding s) text)
        ∙ ap (λ t. (s ++ padding s) ++ t) (sym (append-nil text)))

pub put_found :
    (section s front from : Bytes)
    → find_section_header section true s ≡ some (front, from)
    → (body : Bytes)
    → replace_section section body s
      ≡ front ++ (section_text section body ++ (find_next_section_header false from).1)
unfolding replace_section replace_at
put_found section s front from e body = ap (replace_at section body s) e

-- The loop over blank lines stops at once.
skip_blank-AtHeader : (s : Bytes) → AtHeader s → skip_blank s ≡ s
unfolding skip_blank
skip_blank-AtHeader [] at = refl
skip_blank-AtHeader (c ∷ s) at = ground arith

-- The text without the section between these.
abbrev pub separated : Bytes → Bytes → Bytes
separated front next =
    front ++ (if not (is_empty next) && ends_line front then b'\n' ∷ next else next)

pub remove_found :
    (section s front from : Bytes)
    → find_section_header section true s ≡ some (front, from)
    → remove_section section s ≡ separated front (find_next_section_header false from).1
unfolding remove_section remove_at
remove_found section s front from e =
    let next = find_next_section_header false from in
    ap (remove_at s) e
    ∙ ap (separated front)
        (skip_blank-AtHeader next.1 (find_next_section_header-AtHeader false from))
