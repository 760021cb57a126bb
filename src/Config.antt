-- ===== src/Config.antt =====
-- src/kerchunk_config.c: the INI configuration. A file is its bytes, none of them 0; opening, renaming and
-- allocating succeed. The pointers are valid.
pub mod Entries
pub mod Duration
pub mod Numbers
pub mod Terms
pub mod Units
pub mod Sums
pub mod Sections
pub mod Round
pub mod Saved
pub mod Reload
pub mod Table
use kerchunk.Prelude.{
  ℕ, zero, suc, ◌+◌, ◌-◌, Bool, true, false, not, ◌&&◌, ◌||◌, ltb, leb, ◌==◌, if◌then◌else◌, Option,
  none, some, List, [], ◌∷◌, ◌++◌, length, take, map,
}
use kerchunk.Text.{Bytes, same_text, is_space, is_empty, cut_at, fit, trim_start, trim_end, trim}

-- `config_entry_t`
pub record CfgEntry : Type 0 where
  pub section : Bytes
  pub key : Bytes
  pub value : Bytes

-- `KERCHUNK_CONFIG_MAX_SECTION`, `_KEY`, `_VALUE` and `_ENTRIES`
abbrev pub max_section : ℕ
max_section = 64

abbrev pub max_key : ℕ
max_key = 64

abbrev pub max_value : ℕ
max_value = 1024

abbrev pub max_entries : ℕ
max_entries = 1024

-- `fgets(line, 2048, fp)` until the end of the file: a line keeps its newline, and one that is too long
-- comes in pieces of 2047 bytes.
unfoldable pub read_lines : ℕ → Bytes → Bytes → List Bytes
read_lines room line [] = if is_empty line then [] else line ∷ []
read_lines room line (c ∷ s) =
    let full = c == b'\n' || room == 1 in
    let line' = line ++ (c ∷ []) in
    let rest = read_lines (if full then 2047 else room - 1) (if full then [] else line') s in
    if full then line' ∷ rest else rest

-- What a line of the file says.
pub data Line : Type 0 where
  skipped : Line
  header : Bytes → Line
  assigned : Bytes → Bytes → Line

abbrev pub is_comment_start : ℕ → Bool
is_comment_start c = c == b';' || c == b'#'

-- `strpbrk(val, ";#")`: the text in front of a comment.
unfoldable pub before_comment : Bytes → Option Bytes
before_comment [] = none
before_comment (c ∷ s) =
    let rest = before_comment s in
    if is_comment_start c then some [] else (elim rest [ none ↦ none | some a ↦ some (c ∷ a) ])

abbrev pub is_quote : ℕ → Bool
is_quote c = c == b'"' || c == 39

-- An inline comment goes, but not from a quoted value.
unfoldable pub strip_comment : Bytes → Bytes
strip_comment [] = []
strip_comment (c ∷ s) =
    if is_quote c then c ∷ s else (elim (before_comment (c ∷ s)) [ none ↦ c ∷ s | some a ↦ trim a ])

-- The line of a key, behind the trim.
unfoldable pub parse_assignment : Bytes → Line
unfolding strip_comment
parse_assignment p = elim (cut_at b'=' p) [
  | none ↦ skipped
  | some (k, v) ↦ assigned (fit max_key (trim k)) (fit max_value (strip_comment (trim v)))
]

unfoldable pub parse_header : Bytes → Line
parse_header p = elim (cut_at b']' p) [
  | none ↦ skipped
  | some (name, _) ↦ header (fit max_section name)
]

unfoldable pub parse_trimmed : Bytes → Line
unfolding parse_assignment parse_header
parse_trimmed [] = skipped
parse_trimmed (c ∷ s) =
    if is_comment_start c
    then skipped
    else (if c == b'[' then parse_header s else parse_assignment (c ∷ s))

-- The body of the loop of `parse_file`.
unfoldable pub parse_line : Bytes → Line
parse_line line = parse_trimmed (trim line)

abbrev pub new_entry : Bytes → Bytes → Bytes → CfgEntry
new_entry section key value = record { section = section; key = key; value = value }

-- The loop of `parse_file` in a current section: the table, and whether it had room for all.
unfoldable pub parse_lines : Bytes → List CfgEntry → List Bytes → List CfgEntry × Bool
parse_lines section entries [] = (entries, true)
parse_lines section entries (l ∷ ls) = elim (parse_line l) [
  | skipped ↦ parse_lines section entries ls
  | header name ↦ parse_lines name entries ls
  | assigned key value ↦
      let rest = parse_lines section (entries ++ (new_entry section key value ∷ [])) ls in
      if leb max_entries (length entries) then (entries, false) else rest
]
