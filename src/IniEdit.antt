-- ===== src/IniEdit.antt =====
-- src/kerchunk_ini_edit.c: one section of an INI file replaced or removed, on the text of the file. Reading
-- the file, writing it and allocating succeed. An offset into the text is what is in front of it and what is
-- behind it.
pub mod Lines
pub mod Find
pub mod Places
pub mod Edits
pub mod Others
use kerchunk.Prelude.{
  ℕ, Bool, true, false, not, ◌&&◌, ◌||◌, ◌==◌, if◌then◌else◌, Option, none, some, List, [], ◌∷◌,
  ◌++◌,
}
use kerchunk.Text.{Bytes, is_empty}

-- `memcmp` with a text that there is room for: what is behind it.
unfoldable pub behind : Bytes → Bytes → Option Bytes
behind [] s = some s
behind (p ∷ ps) [] = none
behind (p ∷ ps) (c ∷ s) = let rest = behind ps s in if p == c then rest else none

abbrev pub line_ends : Option Bytes → Bool
line_ends none = false
line_ends (some []) = true
line_ends (some (c ∷ s)) = c == b'\n' || c == b'\r'

-- `[section]` stands here, and the line ends behind it.
unfoldable pub is_header_of : Bytes → Bytes → Bool
unfolding behind
is_header_of section s = line_ends (behind (b'[' ∷ section ++ (b']' ∷ [])) s)

-- What is found behind a byte, with the byte.
abbrev pub past : ℕ → Option (Bytes × Bytes) → Option (Bytes × Bytes)
past c none = none
past c (some (front, from)) = some (c ∷ front, from)

-- `find_section_header`, from a position that is the start of a line or is not.
unfoldable pub find_section_header : Bytes → Bool → Bytes → Option (Bytes × Bytes)
find_section_header section start [] = none
find_section_header section start (c ∷ s) =
    let rest = find_section_header section (c == b'\n') s in
    if start && is_header_of section (c ∷ s) then some ([], c ∷ s) else past c rest

-- `find_next_section_header`, from such a position: with `false`, the rest of the line is passed first.
unfoldable pub find_next_section_header : Bool → Bytes → Bytes × Bytes
find_next_section_header start [] = ([], [])
find_next_section_header start (c ∷ s) =
    let (within, next) = find_next_section_header (c == b'\n') s in
    if start && c == b'[' then ([], c ∷ s) else (c ∷ within, next)

-- The new text: the header, and the body that the caller supplies.
abbrev pub section_text : Bytes → Bytes → Bytes
section_text section body = (b'[' ∷ section ++ (b']' ∷ [])) ++ (b'\n' ∷ body)

-- The newlines in front of a section at the end of the file.
unfoldable pub padding : Bytes → Bytes
padding [] = b'\n' ∷ b'\n' ∷ []
padding (c ∷ []) = if c == b'\n' then b'\n' ∷ [] else b'\n' ∷ b'\n' ∷ []
padding (c ∷ d ∷ []) =
    if d == b'\n' then (if c == b'\n' then [] else b'\n' ∷ []) else b'\n' ∷ b'\n' ∷ []
padding (c ∷ d ∷ e ∷ s) = padding (d ∷ e ∷ s)

-- `kerchunk_ini_replace_section`, behind the search: the text that is written.
unfoldable pub replace_at : Bytes → Bytes → Bytes → Option (Bytes × Bytes) → Bytes
unfolding find_next_section_header padding
replace_at section body s none = s ++ (padding s ++ section_text section body)
replace_at section body s (some (front, from)) =
    front ++ (section_text section body ++ (find_next_section_header false from).1)

unfoldable pub replace_section : Bytes → Bytes → Bytes → Bytes
unfolding find_section_header replace_at
replace_section section body s = replace_at section body s (find_section_header section true s)

-- The loop over blank lines.
unfoldable pub skip_blank : Bytes → Bytes
skip_blank [] = []
skip_blank (c ∷ s) = let rest = skip_blank s in if c == b'\n' || c == b'\r' then rest else c ∷ s

-- `hdr > 0 && src[hdr - 1] == '\n'`
unfoldable pub ends_line : Bytes → Bool
ends_line [] = false
ends_line (c ∷ []) = c == b'\n'
ends_line (c ∷ d ∷ s) = ends_line (d ∷ s)

-- `kerchunk_ini_remove_section`, behind the search: the text that is written, or the old one.
unfoldable pub remove_at : Bytes → Option (Bytes × Bytes) → Bytes
unfolding find_next_section_header skip_blank ends_line
remove_at s none = s
remove_at s (some (front, from)) =
    let rest = skip_blank (find_next_section_header false from).1 in
    let need_sep = not (is_empty rest) && ends_line front in
    front ++ (if need_sep then b'\n' ∷ rest else rest)

unfoldable pub remove_section : Bytes → Bytes → Bytes
unfolding find_section_header remove_at
remove_section section s = remove_at s (find_section_header section true s)
