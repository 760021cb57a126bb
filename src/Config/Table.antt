-- ===== src/Config/Table.antt =====
-- Setting, getting and removing entries of the table of src/kerchunk_config.c.
use kerchunk.Prelude.{
  ℕ, ◌<◌, ◌≡◌, refl, Bool, true, false, ◌&&◌, ◌||◌, ltb, ◌==◌, if◌then◌else◌, Option, none, some,
  List, [], ◌∷◌, ◌++◌, length, arith, take_of_le, Option-cases, inl, inr,
}
use kerchunk.Text.{Bytes, same_text, fit}
use kerchunk.Text.Laws.{Lacks, same_text_sym, same_text_left}
use kerchunk.Config.{CfgEntry, max_section, max_key, max_value, max_entries, new_entry}
use kerchunk.Config.Entries.{config_get, strip_newlines, update_entry, append_entry, config_set}

abbrev pub is_some : Option Bytes → Bool
is_some none = false
is_some (some v) = true

-- What the table keeps of a value.
abbrev pub kept_value : Bytes → Bytes
kept_value v = strip_newlines (fit max_value v)

-- Two keys are the same.
abbrev pub same_key : Bytes → Bytes → Bytes → Bytes → Bool
same_key s k s' k' = same_text s s' && same_text k k'

update_entry-some :
    (s k v : Bytes) (es l : List CfgEntry)
    → update_entry s k v es ≡ some l
    → (is_some (config_get s k es) ≡ true) × (length l ≡ length es)
unfolding update_entry config_get
update_entry-some s k v [] l h = cc
update_entry-some s k v (e ∷ es) l h = elim (Option-cases (update_entry s k v es)) [
  | inl n ↦ ground arith
  | inr (l', p) ↦ ground (arith, update_entry-some s k v es l' p)
]

update_entry-none :
    (s k v : Bytes) (es : List CfgEntry) → update_entry s k v es ≡ none → config_get s k es ≡ none
unfolding update_entry config_get
update_entry-none s k v [] h = refl
update_entry-none s k v (e ∷ es) h = elim (Option-cases (update_entry s k v es)) [
  | inl n ↦ ground (arith, update_entry-none s k v es n)
  | inr (l', p) ↦ ground arith
]

config_get-update_entry :
    (s k v s' k' : Bytes) (es l : List CfgEntry)
    → update_entry s k v es ≡ some l
    → config_get s' k' l ≡ (if same_key s k s' k' then some (kept_value v) else config_get s' k' es)
unfolding update_entry config_get
config_get-update_entry s k v s' k' [] l h = cc
config_get-update_entry s k v s' k' (e ∷ es) l h =
    let a = same_text_left e.section s s' in
    let b = same_text_left e.key k k' in
    let c = same_text_left e.section s' s in
    let d = same_text_left e.key k' k in
    elim (Option-cases (update_entry s k v es)) [
      | inl n ↦ ground (arith, a, b)
      | inr (l', p) ↦ ground (
        arith,
        a,
        b,
        c,
        d,
        same_text_sym s s',
        same_text_sym k k',
        config_get-update_entry s k v s' k' es l' p,
      )
    ]

config_get-append_entry :
    (s k v s' k' : Bytes) (es : List CfgEntry)
    → config_get s k es ≡ none
    → config_get s' k' (es ++ (new_entry s k v ∷ []))
      ≡ (if same_key s k s' k' then some v else config_get s' k' es)
unfolding config_get
config_get-append_entry s k v s' k' [] h = ground arith
config_get-append_entry s k v s' k' (e ∷ es) h = ground (
  arith,
  same_text_left e.section s' s,
  same_text_left e.key k' k,
  same_text_sym s s',
  same_text_sym k k',
  config_get-append_entry s k v s' k' es,
)

abbrev pub is_line_end : ℕ → Bool
is_line_end c = c == b'\n' || c == b'\r'

strip_newlines-Lacks : (s : Bytes) → Lacks is_line_end (strip_newlines s)
unfolding strip_newlines
strip_newlines-Lacks [] = tt
strip_newlines-Lacks (c ∷ s) = (ground arith, strip_newlines-Lacks s)

-- Setting a value under a section and a key of less than 64 bytes each is refused exactly where
-- the key is new and the table is full, and then nothing changes; else later lookups of the key
-- give the value, cut to the table's width and without line ends, and every other lookup is as
-- before.
pub config_set_lem :
    (s k v s' k' : Bytes) (es : List CfgEntry)
    → length s < max_section
    → length k < max_key
    → let (es', done) = config_set s k v es in
      (done ≡ (is_some (config_get s k es) || ltb (length es) max_entries))
      × (config_get s' k' es'
          ≡ (if done && same_key s k s' k' then some (kept_value v) else config_get s' k' es))
      × Lacks is_line_end (kept_value v)
unfolding config_set append_entry
config_set_lem s k v s' k' es p q = elim (Option-cases (update_entry s k v es)) [
  | inl n ↦
      let fs : fit max_section s ≡ s = take_of_le 63 s (omega arith) in
      let fk : fit max_key k ≡ k = take_of_le 63 k (omega arith) in
      let e = update_entry-none s k v es n in
      ground (
        arith,
        config_get-append_entry s k (kept_value v) s' k' es e,
        strip_newlines-Lacks (fit max_value v),
      )
  | inr (l, u) ↦ ground (
    arith,
    update_entry-some s k v es l u,
    config_get-update_entry s k v s' k' es l u,
    strip_newlines-Lacks (fit max_value v),
  )
]
