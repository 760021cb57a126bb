-- ===== src/Config/Entries.antt =====
-- The table of src/kerchunk_config.c: looking up, setting, walking, removing and printing entries.
use kerchunk.Prelude.{
  ℕ, zero, suc, ◌+◌, Bool, true, false, ◌&&◌, ◌||◌, leb, ◌==◌, if◌then◌else◌, Option, none, some,
  List, [], ◌∷◌, ◌++◌, length,
}
use kerchunk.Text.{Bytes, same_text, fit}
use kerchunk.Config.{
  CfgEntry, max_section, max_key, max_value, max_entries, new_entry, parse_lines, read_lines,
}

abbrev pub is_entry : Bytes → Bytes → CfgEntry → Bool
is_entry section key e = same_text e.section section && same_text e.key key

-- `kerchunk_config_get`
unfoldable pub config_get : Bytes → Bytes → List CfgEntry → Option Bytes
config_get section key [] = none
config_get section key (e ∷ es) =
    if is_entry section key e then some e.value else config_get section key es

-- The loop against newlines in `kerchunk_config_set`.
unfoldable pub strip_newlines : Bytes → Bytes
strip_newlines [] = []
strip_newlines (c ∷ s) = (if c == b'\n' || c == b'\r' then b' ' else c) ∷ strip_newlines s

-- The first loop of `kerchunk_config_set`: an entry that is there gets the value.
unfoldable pub update_entry : Bytes → Bytes → Bytes → List CfgEntry → Option (List CfgEntry)
update_entry section key value [] = none
update_entry section key value (e ∷ es) =
    let rest = update_entry section key value es in
    if is_entry section key e
    then some (record e { value = strip_newlines (fit max_value value) } ∷ es)
    else (elim rest [ none ↦ none | some l ↦ some (e ∷ l) ])

-- The rest of `kerchunk_config_set`: a new entry, where there is room; the flag is false for -1.
unfoldable pub append_entry : Bytes → Bytes → Bytes → List CfgEntry → List CfgEntry × Bool
append_entry section key value es = if leb max_entries (length es) then (es, false) else (
  es
      ++ (new_entry (fit max_section section) (fit max_key key)
            (strip_newlines (fit max_value value))
          ∷ []),
  true,
)

-- `kerchunk_config_set`
unfoldable pub config_set : Bytes → Bytes → Bytes → List CfgEntry → List CfgEntry × Bool
config_set section key value es = elim (update_entry section key value es) [
  | none ↦ append_entry section key value es
  | some l ↦ (l, true)
]

-- Whether a section is among the entries passed before.
unfoldable pub has_section : Bytes → List CfgEntry → Bool
has_section s [] = false
has_section s (e ∷ es) = same_text e.section s || has_section s es

-- The loop of `kerchunk_config_next_section`, behind the entries `before`: each section counts at its
-- first entry, and the one behind `skip` others is the result.
unfoldable pub next_section_from : List CfgEntry → List CfgEntry → ℕ → Option Bytes
next_section_from before [] skip = none
next_section_from before (e ∷ es) zero =
    if has_section e.section before
    then next_section_from (before ++ (e ∷ [])) es zero
    else some e.section
next_section_from before (e ∷ es) (suc skip) =
    next_section_from (before ++ (e ∷ [])) es
      (if has_section e.section before then suc skip else skip)

-- `kerchunk_config_next_section` at an iterator, which it moves on by one where there is a section.
unfoldable pub next_section : List CfgEntry → ℕ → Option Bytes
next_section es iter = next_section_from [] es iter

-- The entries of a section, as the inner loop of `kerchunk_config_save` meets them.
unfoldable pub in_section : Bytes → List CfgEntry → List CfgEntry
in_section s [] = []
in_section s (e ∷ es) = if same_text e.section s then e ∷ in_section s es else in_section s es

-- `fprintf(fp, "%s = %s\n", key, value)`
abbrev pub print_entry : CfgEntry → Bytes
print_entry e = e.key ++ (b' ' ∷ b'=' ∷ b' ' ∷ (e.value ++ (b'\n' ∷ [])))

unfoldable pub print_entries : List CfgEntry → Bytes
print_entries [] = []
print_entries (e ∷ es) = print_entry e ++ print_entries es

-- A round of the loop of `kerchunk_config_save`; the first section has no blank line in front.
abbrev pub print_section : List CfgEntry → Bool → Bytes → Bytes
print_section es first s =
    (if first then [] else b'\n' ∷ [])
    ++ ((b'[' ∷ (s ++ (b']' ∷ b'\n' ∷ []))) ++ print_entries (in_section s es))

-- The loop of `kerchunk_config_save`. There are no more sections than entries, which bounds the
-- rounds.
unfoldable pub save_from : ℕ → List CfgEntry → ℕ → Bool → Bytes
save_from zero es iter first = []
save_from (suc rounds) es iter first =
    let rest = save_from rounds es (iter + 1) false in
    elim (next_section es iter) [ none ↦ [] | some s ↦ print_section es first s ++ rest ]

-- `kerchunk_config_save`: what it writes to the file.
unfoldable pub config_save : List CfgEntry → Bytes
unfolding save_from
config_save es = save_from (length es + 1) es 0 true

-- `kerchunk_config_load`, and `kerchunk_config_reload`: the table, and whether all fitted.
unfoldable pub config_load : Bytes → List CfgEntry × Bool
config_load file = parse_lines [] [] (read_lines 2047 [] file)

-- The entries of a section in order, for `kerchunk_config_next_key`.
unfoldable pub next_key : List CfgEntry → Bytes → ℕ → Option CfgEntry
next_key [] s skip = none
next_key (e ∷ es) s zero = if same_text e.section s then some e else next_key es s zero
next_key (e ∷ es) s (suc skip) = next_key es s (if same_text e.section s then skip else suc skip)

-- `kerchunk_config_remove_section`
unfoldable pub remove_section : Bytes → List CfgEntry → List CfgEntry
remove_section s [] = []
remove_section s (e ∷ es) =
    if same_text e.section s then remove_section s es else e ∷ remove_section s es
