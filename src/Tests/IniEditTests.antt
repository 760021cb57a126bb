-- ===== src/Tests/IniEditTests.antt =====
-- Runs of src/kerchunk_ini_edit.c.
use kerchunk.Prelude.{◌≡◌, refl, none, some, true, [], ◌∷◌, ◌++◌, arith}
use kerchunk.Text.{Bytes}
use kerchunk.IniEdit.{
  replace_section, remove_section, find_section_header, section_text, remove_at, behind,
  is_header_of, find_next_section_header, skip_blank, ends_line,
}
use kerchunk.IniEdit.Edits.{replace_section_twice, without, remove_section-replace_section}
use kerchunk.IniEdit.Others.{section_of, section_of-replace_section}

abbrev a_name : Bytes
a_name = b'a' ∷ []

abbrev b_name : Bytes
b_name = b'b' ∷ []

abbrev line_x : Bytes
line_x = b'x' ∷ b'\n' ∷ []

abbrev line_y : Bytes
line_y = b'y' ∷ b'\n' ∷ []

-- Two sections.
abbrev two : Bytes
two = b'[' ∷ b'a' ∷ b']' ∷ b'\n' ∷ b'x' ∷ b'\n' ∷ b'[' ∷ b'b' ∷ b']' ∷ b'\n' ∷ []

replace_section_twice_example :
    replace_section a_name line_x (replace_section a_name line_y two)
    ≡ replace_section a_name line_x two
replace_section_twice_example =
    replace_section_twice a_name line_y line_x two (refl, tt) (refl, (refl, (refl, tt)))

remove_section-replace_section_example :
    remove_section a_name (replace_section a_name line_y two)
    ≡ without a_name two (find_section_header a_name true two)
remove_section-replace_section_example =
    remove_section-replace_section a_name line_y two (refl, tt) (refl, (refl, (refl, tt)))

two_found : find_section_header a_name true two ≡ some ([], two)
unfolding find_section_header is_header_of behind
two_found = refl

section_of-replace_section_example :
    section_of b_name (replace_section a_name line_y two) ≡ section_of b_name two
section_of-replace_section_example =
    section_of-replace_section a_name b_name line_y two [] two ((refl, tt), (refl, tt))
      ((refl, tt), (refl, tt)) (λ e. ground arith) (refl, (refl, (refl, tt))) two_found

-- A section in the middle leaves two blank lines where one was in front of it.
doubled_blank :
    remove_section b_name
      (b'x' ∷ b'\n' ∷ b'\n' ∷ section_text b_name (b'\n' ∷ []) ++ section_text a_name [])
    ≡ b'x' ∷ b'\n' ∷ b'\n' ∷ b'\n' ∷ section_text a_name []
unfolding remove_section remove_at find_section_header is_header_of behind find_next_section_header
    skip_blank ends_line
doubled_blank = refl

-- A blank in the header's brackets, which the parser accepts up to the `]`, hides the section.
hidden_header : find_section_header a_name true (b'[' ∷ b'a' ∷ b']' ∷ b' ' ∷ b'\n' ∷ []) ≡ none
unfolding find_section_header is_header_of behind
hidden_header = refl
