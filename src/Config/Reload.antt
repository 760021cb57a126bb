-- ===== src/Config/Reload.antt =====
-- `kerchunk_config_load` behind `kerchunk_config_save`, of src/kerchunk_config.c.
use mathlib.Core.List.{append_assoc, append-nil}
use kerchunk.Prelude.{
  ℕ, zero, suc, ◌+◌, ◌≤◌, ◌<◌, ◌≡◌, refl, ap, ◌∙◌, sym, Bool, true, false, none, some, List, [],
  ◌∷◌, ◌++◌, length, get_elem?, arith, length-append, Bool-cases, inl, inr,
}
use kerchunk.Text.{Bytes, trim, trim_start, trim_end}
use kerchunk.Config.{
  CfgEntry, max_entries, read_lines, skipped, parse_line, parse_trimmed, parse_lines,
}
use kerchunk.Config.Entries.{
  config_get, has_section, print_entries, print_section, next_section, in_section, save_from,
  config_save, config_load,
}
use kerchunk.Config.Sections.{
  distinct_sections, next_section_lem, length-distinct_sections, grouped, length-grouped_all,
  config_get-grouped,
}
use kerchunk.Config.Round.{header_line, read_lines-line}
use kerchunk.Config.Saved.{
  AllPrintable, reading, IsName, parse_lines-skipped, reading-print_entries, in_section-AllOf,
  in_section-AllPrintable, reading-header,
}

parse_line-blank : parse_line (b'\n' ∷ []) ≡ skipped
unfolding parse_line trim trim_start trim_end parse_trimmed
parse_line-blank = refl

reading-blank :
    (cur : Bytes) (acc : List CfgEntry) (rest : Bytes)
    → reading cur acc (b'\n' ∷ rest) ≡ reading cur acc rest
reading-blank cur acc rest =
    ap (parse_lines cur acc) (read_lines-line 2047 [] [] rest tt (omega arith))
    ∙ parse_lines-skipped cur (b'\n' ∷ []) acc (read_lines 2047 [] rest) parse_line-blank

reading-section :
    (cur : Bytes) (acc es : List CfgEntry) (s rest : Bytes)
    → AllPrintable es
    → IsName s
    → length acc + length (in_section s es) ≤ max_entries
    → reading cur acc ((header_line s ++ print_entries (in_section s es)) ++ rest)
      ≡ reading s (acc ++ in_section s es) rest
reading-section cur acc es s rest p n h =
    let inside = in_section s es in
    ap (reading cur acc) (append_assoc (header_line s) (print_entries inside) rest)
    ∙ reading-header cur acc s (print_entries inside ++ rest) n
    ∙ reading-print_entries s acc inside rest (in_section-AllPrintable s es p)
        (in_section-AllOf s es) h

reading-print_section :
    (cur : Bytes) (acc es : List CfgEntry) (first : Bool) (s rest : Bytes)
    → AllPrintable es
    → IsName s
    → length acc + length (in_section s es) ≤ max_entries
    → reading cur acc (print_section es first s ++ rest) ≡ reading s (acc ++ in_section s es) rest
reading-print_section cur acc es true s rest p n h = reading-section cur acc es s rest p n h
reading-print_section cur acc es false s rest p n h =
    reading-blank cur acc ((header_line s ++ print_entries (in_section s es)) ++ rest)
    ∙ reading-section cur acc es s rest p n h

-- The sections of a list printed in order.
print_sections : List CfgEntry → Bool → List Bytes → Bytes
print_sections es first [] = []
print_sections es first (s ∷ ss) = print_section es first s ++ print_sections es false ss

abbrev AllNames : List Bytes → Type 0
AllNames [] = Unit {0}
AllNames (s ∷ ss) = IsName s × AllNames ss

distinct_sections-AllNames :
    (before es : List CfgEntry) → AllPrintable es → AllNames (distinct_sections before es)
unfolding distinct_sections
distinct_sections-AllNames before [] p = tt
distinct_sections-AllNames before (e ∷ es) p =
    let (q, ps) = p in
    let rest = distinct_sections-AllNames (before ++ (e ∷ [])) es ps in
    let name : IsName e.section = record {
      closed = q.section_closed;
      line = q.section_line;
      fits = q.section_fits;
    } in
    elim (Bool-cases (has_section e.section before)) [
      | inl old ↦ rw old rest
      | inr new ↦ rw new (name, rest)
    ]

reading-print_sections :
    (cur : Bytes) (acc es : List CfgEntry) (first : Bool) (ss : List Bytes)
    → AllPrintable es
    → AllNames ss
    → length acc + length (grouped es ss) ≤ max_entries
    → reading cur acc (print_sections es first ss) ≡ (acc ++ grouped es ss, true)
unfolding print_sections grouped read_lines parse_lines
reading-print_sections cur acc es first [] p n h = ap (λ l. (l, true)) (sym (append-nil acc))
reading-print_sections cur acc es first (s ∷ ss) p n h =
    let len = length-append (in_section s es) (grouped es ss) in
    reading-print_section cur acc es first s (print_sections es false ss) p n.0 (omega (arith, len))
    ∙ reading-print_sections s (acc ++ in_section s es) es false ss p n.1
        (omega (arith, len, length-append acc (in_section s es)))
    ∙ ap (λ l. (l, true)) (append_assoc acc (in_section s es) (grouped es ss))

-- The loop of the save prints the sections that the iterator still has.
save_from_lem :
    (rounds : ℕ) (es : List CfgEntry) (iter : ℕ) (first : Bool) (ss : List Bytes)
    → ((j : ℕ) → next_section es (iter + j) ≡ get_elem? ss j)
    → length ss < rounds
    → save_from rounds es iter first ≡ print_sections es first ss
unfolding save_from print_sections
save_from_lem zero es iter first ss walk h = absurd (omega arith)
save_from_lem (suc rounds) es iter first [] walk h =
    let here : iter + 0 ≡ iter = omega arith in
    let none_left : next_section es iter ≡ none = ap (next_section es) (sym here) ∙ walk 0 in
    ground (arith, none_left)
save_from_lem (suc rounds) es iter first (s ∷ ss) walk h =
    let here : iter + 0 ≡ iter = omega arith in
    let there : next_section es iter ≡ some s = ap (next_section es) (sym here) ∙ walk 0 in
    let onward : (j : ℕ) → next_section es (iter + 1 + j) ≡ get_elem? ss j = λ j.
      ap (next_section es) (let e : iter + 1 + j ≡ iter + suc j = omega arith in e)
      ∙ walk (suc j) in
    ground (arith, there, save_from_lem rounds es (iter + 1) false ss onward (omega arith))

config_save_lem :
    (es : List CfgEntry) → config_save es ≡ print_sections es true (distinct_sections [] es)
unfolding config_save
config_save_lem es =
    save_from_lem (length es + 1) es 0 true (distinct_sections [] es)
      (λ j. ap (next_section es) (let e : 0 + j ≡ j = omega arith in e) ∙ next_section_lem es j)
      (omega (arith, length-distinct_sections [] es))

-- A table of at most 1024 entries, each of which a line can say, is read from what was saved of it
-- as its entries grouped by section, in the order in which the sections first occur: all of them
-- fit, and every lookup is as before.
pub config_load-config_save :
    (es : List CfgEntry)
    → AllPrintable es
    → length es ≤ max_entries
    → let (es', fitted) = config_load (config_save es) in
      (es' ≡ grouped es (distinct_sections [] es))
      × (fitted ≡ true)
      × ((s k : Bytes) → config_get s k es' ≡ config_get s k es)
unfolding config_load
config_load-config_save es p h =
    let ss = distinct_sections [] es in
    let all =
      ap (reading [] []) (config_save_lem es)
      ∙ reading-print_sections [] [] es true ss p (distinct_sections-AllNames [] es p)
          (omega (arith, length-grouped_all es)) in
    (
      ap (λ r. r.0) all,
      ap (λ r. r.1) all,
      λ s k. ap (λ r. config_get s k r.0) all ∙ config_get-grouped s k es,
    )
