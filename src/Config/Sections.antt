-- ===== src/Config/Sections.antt =====
-- The sections of a table in the order of their first entries, as `kerchunk_config_next_section` of
-- src/kerchunk_config.c walks them, and the entries grouped by them.
use kerchunk.Prelude.{
  ℕ, zero, suc, ◌+◌, ◌≤◌, ◌≡◌, refl, ap, Bool, true, false, ◌||◌, if◌then◌else◌, none, some, List,
  [], ◌∷◌, ◌++◌, length, get_elem?, arith, length-append, Bool-cases, inl, inr,
}
use kerchunk.Text.{Bytes, same_text}
use kerchunk.Text.Laws.{same_text_self, same_text_sym, same_text_left, same_text-eq}
use kerchunk.Config.{CfgEntry}
use kerchunk.Config.Entries.{config_get, has_section, next_section_from, next_section, in_section}

-- The sections that have no entry among those in front, each once.
unfoldable pub distinct_sections : List CfgEntry → List CfgEntry → List Bytes
distinct_sections before [] = []
distinct_sections before (e ∷ es) =
    let rest = distinct_sections (before ++ (e ∷ [])) es in
    if has_section e.section before then rest else e.section ∷ rest

next_section_from_lem :
    (before es : List CfgEntry) (skip : ℕ)
    → next_section_from before es skip ≡ get_elem? (distinct_sections before es) skip
unfolding next_section_from distinct_sections
next_section_from_lem before [] skip = refl
next_section_from_lem before (e ∷ es) zero =
    ground (arith, next_section_from_lem (before ++ (e ∷ [])) es zero)
next_section_from_lem before (e ∷ es) (suc skip) = ground (
  arith,
  next_section_from_lem (before ++ (e ∷ [])) es skip,
  next_section_from_lem (before ++ (e ∷ [])) es (suc skip),
)

-- The iterator walks the distinct sections in order, and ends behind them.
pub next_section_lem :
    (es : List CfgEntry) (iter : ℕ)
    → next_section es iter ≡ get_elem? (distinct_sections [] es) iter
unfolding next_section
next_section_lem es iter = next_section_from_lem [] es iter

pub length-distinct_sections :
    (before es : List CfgEntry) → length (distinct_sections before es) ≤ length es
unfolding distinct_sections
length-distinct_sections before [] = omega arith
length-distinct_sections before (e ∷ es) =
    ground (arith, length-distinct_sections (before ++ (e ∷ [])) es)

-- The entries of each section of a list, one section behind the other.
unfoldable pub grouped : List CfgEntry → List Bytes → List CfgEntry
grouped es [] = []
grouped es (s ∷ ss) = in_section s es ++ grouped es ss

has_section-append :
    (s : Bytes) (l : List CfgEntry) (e : CfgEntry)
    → has_section s (l ++ (e ∷ [])) ≡ (has_section s l || same_text e.section s)
unfolding has_section
has_section-append s [] e = ground arith
has_section-append s (x ∷ l) e = ground (arith, has_section-append s l e)

-- None of the sections has an entry in front.
abbrev pub AllNew : List CfgEntry → List Bytes → Type 0
AllNew before [] = Unit {0}
AllNew before (s ∷ ss) = (has_section s before ≡ false) × AllNew before ss

AllNew-weaken :
    (before : List CfgEntry) (e : CfgEntry) (ss : List Bytes)
    → AllNew (before ++ (e ∷ [])) ss
    → AllNew before ss
AllNew-weaken before e [] a = tt
AllNew-weaken before e (s ∷ ss) a =
    ground (arith, has_section-append s before e, AllNew-weaken before e ss)

distinct_sections-AllNew : (before es : List CfgEntry) → AllNew before (distinct_sections before es)
unfolding distinct_sections
distinct_sections-AllNew before [] = tt
distinct_sections-AllNew before (e ∷ es) =
    let before' = before ++ (e ∷ []) in
    let rest =
      AllNew-weaken before e (distinct_sections before' es) (distinct_sections-AllNew before' es) in
    elim (Bool-cases (has_section e.section before)) [
      | inl old ↦ rw old rest
      | inr new ↦ rw new (new, rest)
    ]

-- An entry of a section in front is in none of the groups.
grouped-old :
    (e : CfgEntry) (before es : List CfgEntry) (ss : List Bytes)
    → AllNew (before ++ (e ∷ [])) ss
    → grouped (e ∷ es) ss ≡ grouped es ss
unfolding grouped in_section
grouped-old e before es [] a = refl
grouped-old e before es (s ∷ ss) a =
    ground (arith, has_section-append s before e, grouped-old e before es ss a.1)

has_section-same :
    (s t : Bytes) (l : List CfgEntry) → same_text s t ≡ true → has_section s l ≡ has_section t l
has_section-same s t l h = ap (λ u. has_section u l) (same_text-eq s t h)

-- The number of entries whose section is in front.
unfoldable pub seen_count : List CfgEntry → List CfgEntry → ℕ
seen_count before [] = 0
seen_count before (e ∷ es) =
    if has_section e.section before then 1 + seen_count before es else seen_count before es

seen_count-append :
    (e : CfgEntry) (before es : List CfgEntry)
    → seen_count (before ++ (e ∷ [])) es ≡ (
        if has_section e.section before
        then seen_count before es
        else seen_count before es + length (in_section e.section es))
unfolding seen_count in_section
seen_count-append e before [] = ground arith
seen_count-append e before (x ∷ es) = ground (
  arith,
  has_section-append x.section before e,
  same_text_sym e.section x.section,
  has_section-same x.section e.section before,
  seen_count-append e before es,
)

in_section_self :
    (e : CfgEntry) (es : List CfgEntry)
    → in_section e.section (e ∷ es) ≡ e ∷ in_section e.section es
unfolding in_section
in_section_self e es = ground (arith, same_text_self e.section)

-- Grouping keeps the number of entries.
length-grouped :
    (before es : List CfgEntry)
    → length (grouped es (distinct_sections before es)) + seen_count before es ≡ length es
unfolding grouped distinct_sections seen_count
length-grouped before [] = refl
length-grouped before (e ∷ es) =
    let before' = before ++ (e ∷ []) in
    let rest = distinct_sections before' es in
    let old = grouped-old e before es rest (distinct_sections-AllNew before' es) in
    ground (
      arith,
      old,
      length-grouped before' es,
      seen_count-append e before es,
      in_section_self e es,
      length-append (in_section e.section (e ∷ es)) (grouped (e ∷ es) rest),
    )

pub length-grouped_all :
    (es : List CfgEntry) → length (grouped es (distinct_sections [] es)) ≤ length es
length-grouped_all es = omega (arith, length-grouped [] es)

config_get-append :
    (s k : Bytes) (xs ys : List CfgEntry)
    → config_get s k (xs ++ ys)
      ≡ (elim (config_get s k xs) [ none ↦ config_get s k ys | some v ↦ some v ])
unfolding config_get
config_get-append s k [] ys = refl
config_get-append s k (x ∷ xs) ys = ground (arith, config_get-append s k xs ys)

config_get-in_section :
    (s t k : Bytes) (es : List CfgEntry)
    → config_get s k (in_section t es) ≡ (if same_text t s then config_get s k es else none)
unfolding config_get in_section
config_get-in_section s t k [] = ground arith
config_get-in_section s t k (e ∷ es) = ground (
  arith,
  config_get-in_section s t k es,
  same_text_left e.section t s,
  same_text_left e.section s t,
  same_text_sym s t,
)

-- Whether a section is one of a list.
unfoldable pub is_section : Bytes → List Bytes → Bool
is_section s [] = false
is_section s (t ∷ ss) = same_text t s || is_section s ss

config_get-grouped_in :
    (s k : Bytes) (es : List CfgEntry) (ss : List Bytes)
    → config_get s k (grouped es ss) ≡ (if is_section s ss then config_get s k es else none)
unfolding config_get grouped is_section
config_get-grouped_in s k es [] = ground arith
config_get-grouped_in s k es (t ∷ ss) = ground (
  arith,
  config_get-append s k (in_section t es) (grouped es ss),
  config_get-in_section s t k es,
  config_get-grouped_in s k es ss,
)

-- A section that is neither in front nor among the distinct ones has no entry.
config_get-none :
    (s k : Bytes) (before es : List CfgEntry)
    → has_section s before ≡ false
    → is_section s (distinct_sections before es) ≡ false
    → config_get s k es ≡ none
unfolding config_get distinct_sections is_section
config_get-none s k before [] h n = refl
config_get-none s k before (e ∷ es) h n = ground (
  arith,
  config_get-none s k (before ++ (e ∷ [])) es,
  has_section-append s before e,
  has_section-same e.section s before,
)

-- Grouping the entries by their sections changes no lookup.
pub config_get-grouped :
    (s k : Bytes) (es : List CfgEntry)
    → config_get s k (grouped es (distinct_sections [] es)) ≡ config_get s k es
unfolding has_section
config_get-grouped s k es =
    ground (
      arith,
      config_get-grouped_in s k es (distinct_sections [] es),
      config_get-none s k [] es refl,
    )
