-- ===== src/Config/Saved.antt =====
-- Loading what was saved, of src/kerchunk_config.c.
use mathlib.Core.List.{append_assoc, append-nil}
use kerchunk.Prelude.{
  ◌+◌, ◌≤◌, ◌<◌, ◌≡◌, refl, ap, ◌∙◌, sym, Bool, List, [], ◌∷◌, ◌++◌, length, arith, length-append,
  Bool-cases, inl, inr,
}
use kerchunk.Text.{Bytes, same_text}
use kerchunk.Text.Laws.{Lacks, is_byte, same_text-eq}
use kerchunk.Config.{
  CfgEntry, max_section, max_entries, read_lines, skipped, header, assigned, parse_line, new_entry,
  parse_lines,
}
use kerchunk.Config.Entries.{print_entry, print_entries, in_section}
use kerchunk.Config.Round.{
  IsPrintable, Lacks-append, parse_line-print_entry, header_line, parse_line-header,
  read_lines-line,
}

abbrev pub AllPrintable : List CfgEntry → Type 0
AllPrintable [] = Unit {0}
AllPrintable (e ∷ es) = IsPrintable e × AllPrintable es

-- The table that a file's lines give, behind the ones read.
abbrev pub reading : Bytes → List CfgEntry → Bytes → List CfgEntry × Bool
reading s acc file = parse_lines s acc (read_lines 2047 [] file)

entry_line : (e : CfgEntry) → Bytes
entry_line e = e.key ++ (b' ' ∷ b'=' ∷ b' ' ∷ e.value)

entry_line-print : (e : CfgEntry) → print_entry e ≡ entry_line e ++ (b'\n' ∷ [])
unfolding entry_line
entry_line-print e = sym (append_assoc e.key (b' ' ∷ b'=' ∷ b' ' ∷ e.value) (b'\n' ∷ []))

entry_line-Lacks : (e : CfgEntry) → IsPrintable e → Lacks (is_byte b'\n') (entry_line e)
unfolding entry_line
entry_line-Lacks e p =
    Lacks-append (is_byte b'\n') e.key (b' ' ∷ b'=' ∷ b' ' ∷ e.value) p.key_line
      (refl, (refl, (refl, p.value_line)))

length-entry_line : (e : CfgEntry) → IsPrintable e → length (entry_line e) < 2047
unfolding entry_line
length-entry_line e p =
    omega (arith, p.key_fits, p.value_fits, length-append e.key (b' ' ∷ b'=' ∷ b' ' ∷ e.value))

read_lines-print_entry :
    (e : CfgEntry) (rest : Bytes)
    → IsPrintable e
    → read_lines 2047 [] (print_entry e ++ rest) ≡ print_entry e ∷ read_lines 2047 [] rest
read_lines-print_entry e rest p =
    ap (λ l. read_lines 2047 [] (l ++ rest)) (entry_line-print e)
    ∙ ap (read_lines 2047 []) (append_assoc (entry_line e) (b'\n' ∷ []) rest)
    ∙ read_lines-line 2047 [] (entry_line e) rest (entry_line-Lacks e p) (length-entry_line e p)
    ∙ ap (λ l. l ∷ read_lines 2047 [] rest) (sym (entry_line-print e))

same_entry : (e : CfgEntry) (s : Bytes) → e.section ≡ s → new_entry s e.key e.value ≡ e
same_entry e s h = ap (λ t. new_entry t e.key e.value) (sym h)

-- One step of the loop, by what the line says.
parse_lines-assigned :
    (s k v l : Bytes) (acc : List CfgEntry) (ls : List Bytes)
    → parse_line l ≡ assigned k v
    → length acc < max_entries
    → parse_lines s acc (l ∷ ls) ≡ parse_lines s (acc ++ (new_entry s k v ∷ [])) ls
unfolding parse_lines
parse_lines-assigned s k v l acc ls h room = ground arith

parse_lines-header :
    (s name l : Bytes) (acc : List CfgEntry) (ls : List Bytes)
    → parse_line l ≡ header name
    → parse_lines s acc (l ∷ ls) ≡ parse_lines name acc ls
unfolding parse_lines
parse_lines-header s name l acc ls h = ground arith

pub parse_lines-skipped :
    (s l : Bytes) (acc : List CfgEntry) (ls : List Bytes)
    → parse_line l ≡ skipped
    → parse_lines s acc (l ∷ ls) ≡ parse_lines s acc ls
unfolding parse_lines
parse_lines-skipped s l acc ls h = ground arith

-- One entry of the current section.
reading-print_entry :
    (s : Bytes) (acc : List CfgEntry) (e : CfgEntry) (rest : Bytes)
    → IsPrintable e
    → e.section ≡ s
    → length acc < max_entries
    → reading s acc (print_entry e ++ rest) ≡ reading s (acc ++ (e ∷ [])) rest
reading-print_entry s acc e rest p h room =
    ap (parse_lines s acc) (read_lines-print_entry e rest p)
    ∙ parse_lines-assigned s e.key e.value (print_entry e) acc (read_lines 2047 [] rest)
        (parse_line-print_entry e p) room
    ∙ ap (λ x. reading s (acc ++ (x ∷ [])) rest) (same_entry e s h)

-- All entries are of one section.
abbrev pub AllOf : Bytes → List CfgEntry → Type 0
AllOf s [] = Unit {0}
AllOf s (e ∷ es) = (e.section ≡ s) × AllOf s es

pub reading-print_entries :
    (s : Bytes) (acc es : List CfgEntry) (rest : Bytes)
    → AllPrintable es
    → AllOf s es
    → length acc + length es ≤ max_entries
    → reading s acc (print_entries es ++ rest) ≡ reading s (acc ++ es) rest
unfolding print_entries
reading-print_entries s acc [] rest p a h = ap (λ l. reading s l rest) (sym (append-nil acc))
reading-print_entries s acc (e ∷ es) rest p a h =
    ap (reading s acc) (append_assoc (print_entry e) (print_entries es) rest)
    ∙ reading-print_entry s acc e (print_entries es ++ rest) p.0 a.0 (omega arith)
    ∙ reading-print_entries s (acc ++ (e ∷ [])) es rest p.1 a.1
        (omega (arith, length-append acc (e ∷ [])))
    ∙ ap (λ l. reading s l rest) (append_assoc acc (e ∷ []) es)

pub in_section-AllOf : (s : Bytes) (es : List CfgEntry) → AllOf s (in_section s es)
unfolding in_section
in_section-AllOf s [] = tt
in_section-AllOf s (e ∷ es) = elim (Bool-cases (same_text e.section s)) [
  | inl same ↦ rw same (same_text-eq e.section s same, in_section-AllOf s es)
  | inr other ↦ rw other (in_section-AllOf s es)
]

pub in_section-AllPrintable :
    (s : Bytes) (es : List CfgEntry) → AllPrintable es → AllPrintable (in_section s es)
unfolding in_section
in_section-AllPrintable s [] p = tt
in_section-AllPrintable s (e ∷ es) p = elim (Bool-cases (same_text e.section s)) [
  | inl same ↦ rw same (p.0, in_section-AllPrintable s es p.1)
  | inr other ↦ rw other (in_section-AllPrintable s es p.1)
]

-- A section's name as an entry of it has it.
pub record IsName (s : Bytes) : Type 0 where
  pub closed : Lacks (is_byte b']') s
  pub line : Lacks (is_byte b'\n') s
  pub fits : length s < max_section

pub reading-header :
    (cur : Bytes) (acc : List CfgEntry) (s rest : Bytes)
    → IsName s
    → reading cur acc (header_line s ++ rest) ≡ reading s acc rest
reading-header cur acc s rest n =
    let body = b'[' ∷ (s ++ (b']' ∷ [])) in
    let text : header_line s ≡ body ++ (b'\n' ∷ []) =
      ap (λ t. b'[' ∷ t) (sym (append_assoc s (b']' ∷ []) (b'\n' ∷ []))) in
    let lacks : Lacks (is_byte b'\n') body =
      (refl, Lacks-append (is_byte b'\n') s (b']' ∷ []) n.line (refl, tt)) in
    let short : length body < 2047 = omega (arith, n.fits, length-append s (b']' ∷ [])) in
    ap (λ l. reading cur acc (l ++ rest)) text
    ∙ ap (reading cur acc) (append_assoc body (b'\n' ∷ []) rest)
    ∙ ap (parse_lines cur acc) (read_lines-line 2047 [] body rest lacks short)
    ∙ ap (λ l. parse_lines cur acc (l ∷ read_lines 2047 [] rest)) (sym text)
    ∙ parse_lines-header cur s (header_line s) acc (read_lines 2047 [] rest)
        (parse_line-header s n.closed n.fits)
