-- ===== src/IniEdit/Edits.antt =====
-- One edit behind another, of src/kerchunk_ini_edit.c.
use mathlib.Core.List.{append-nil}
use kerchunk.Prelude.{◌≡◌, ap, ◌∙◌, sym, true, false, none, some, [], ◌++◌, Option-cases, inl, inr}
use kerchunk.Text.{Bytes}
use kerchunk.IniEdit.{
  find_section_header, find_next_section_header, section_text, padding, replace_section,
  remove_section,
}
use kerchunk.IniEdit.Places.{
  OneLine, Body, IsPlace, found_again, ended_again, padding-IsPlace,
  find_next_section_header-IsPlace, put_new, put_found, separated, remove_found,
}
use kerchunk.IniEdit.Find.{Split}

-- A second edit, at the place of the first.
replace_again :
    (section first second front next : Bytes)
    → OneLine section
    → Body first
    → IsPlace section front next
    → replace_section section second (front ++ (section_text section first ++ next))
      ≡ front ++ (section_text section second ++ next)
replace_again section first second front next l b p =
    let found = found_again section front first next l p.closed p.first_one in
    let ended = ended_again section first next l b p.at_header in
    let text = section_text section first ++ next in
    put_found section (front ++ text) front text found second
    ∙ ap (λ r. front ++ (section_text section second ++ r.1)) ended

-- The second of two replacements of a section is the one that stays: the name is on one line, and the first
-- body is whole lines that do not start with `[`.
pub replace_section_twice :
    (section first second s : Bytes)
    → OneLine section
    → Body first
    → replace_section section second (replace_section section first s)
      ≡ replace_section section second s
replace_section_twice section first second s l b =
    elim (Option-cases (find_section_header section true s)) [
      | inl e ↦
          ap (replace_section section second) (put_new section s e first)
          ∙ (replace_again section first second (s ++ padding s) [] l b
                (padding-IsPlace section s l e)
              ∙ sym (put_new section s e second))
      | inr ((front, from), e) ↦
          let next = (find_next_section_header false from).1 in
          ap (replace_section section second) (put_found section s front from e first)
          ∙ (replace_again section first second front next l b
                (find_next_section_header-IsPlace section s front from l e)
              ∙ sym (put_found section s front from e second))
    ]

remove_again :
    (section body front next : Bytes)
    → OneLine section
    → Body body
    → IsPlace section front next
    → remove_section section (front ++ (section_text section body ++ next)) ≡ separated front next
remove_again section body front next l b p =
    let found = found_again section front body next l p.closed p.first_one in
    let ended = ended_again section body next l b p.at_header in
    let text = section_text section body ++ next in
    remove_found section (front ++ text) front text found ∙ ap (λ r. separated front r.1) ended

-- The text without what a replacement put there: the section is gone; a section that was new leaves the
-- padding.
abbrev pub without : Bytes → Bytes → Split → Bytes
without section s none = s ++ padding s
without section s (some _) = remove_section section s

-- A removal behind a replacement gives what the removal alone gives, and the old text with its padding where
-- the section was new: the name is on one line, and the body is whole lines that do not start with `[`.
pub remove_section-replace_section :
    (section body s : Bytes)
    → OneLine section
    → Body body
    → remove_section section (replace_section section body s)
      ≡ without section s (find_section_header section true s)
remove_section-replace_section section body s l b =
    elim (Option-cases (find_section_header section true s)) [
      | inl e ↦
          ap (remove_section section) (put_new section s e body)
          ∙ (remove_again section body (s ++ padding s) [] l b (padding-IsPlace section s l e)
              ∙ (append-nil (s ++ padding s) ∙ sym (ap (without section s) e)))
      | inr ((front, from), e) ↦
          let next = (find_next_section_header false from).1 in
          ap (remove_section section) (put_found section s front from e body)
          ∙ (remove_again section body front next l b
                (find_next_section_header-IsPlace section s front from l e)
              ∙ (sym (remove_found section s front from e) ∙ sym (ap (without section s) e)))
    ]
