-- ===== src/Config/Round.antt =====
-- What `kerchunk_config_save` of src/kerchunk_config.c writes, `kerchunk_config_load` reads.
use mathlib.Core.List.{append_assoc}
use kerchunk.Prelude.{
  ℕ, ◌-◌, ◌<◌, ◌≡◌, ◌≢◌, refl, ap, ◌∙◌, sym, Bool, false, ◌||◌, ◌==◌, none, [], ◌∷◌, ◌++◌, length,
  arith, take_of_le, Bool-cases, inl, inr,
}
use kerchunk.Text.{Bytes, trim_start, trim_end, trim}
use kerchunk.Text.Laws.{
  Lacks, is_byte, cut_at-append, StartsTight, EndsTight, trim_start_tight, trim_end_tight,
  trim_end-space, EndsTight-append, trim_tight,
}
use kerchunk.Config.{
  CfgEntry, max_section, max_key, max_value, read_lines, header, assigned, is_comment_start,
  before_comment, is_quote, strip_comment, parse_assignment, parse_header, parse_trimmed,
  parse_line,
}
use kerchunk.Config.Entries.{print_entry}

-- A key that does not start a comment or a section.
abbrev pub StartsKey : Bytes → Type 0
StartsKey [] = Unit {0}
StartsKey (c ∷ s) = (is_comment_start c ≡ false) × (c ≢ b'[')

-- A value without an inline comment.
abbrev pub NoComment : Bytes → Type 0
NoComment [] = Unit {0}
NoComment (c ∷ s) = (is_quote c ≡ false → Lacks is_comment_start (c ∷ s))

-- An entry that a line of the file can say.
pub record IsPrintable (e : CfgEntry) : Type 0 where
  pub section_closed : Lacks (is_byte b']') e.section
  pub section_line : Lacks (is_byte b'\n') e.section
  pub section_fits : length e.section < max_section
  pub key_start : StartsKey e.key
  pub key_equals : Lacks (is_byte b'=') e.key
  pub key_line : Lacks (is_byte b'\n') e.key
  pub key_left : StartsTight e.key
  pub key_right : EndsTight e.key
  pub key_fits : length e.key < max_key
  pub value_line : Lacks (is_byte b'\n') e.value
  pub value_left : StartsTight e.value
  pub value_right : EndsTight e.value
  pub value_plain : NoComment e.value
  pub value_fits : length e.value < max_value

before_comment-none : (s : Bytes) → Lacks is_comment_start s → before_comment s ≡ none
unfolding before_comment
before_comment-none [] h = refl
before_comment-none (c ∷ s) h = ground (arith, before_comment-none s h.1)

strip_comment-plain : (s : Bytes) → NoComment s → strip_comment s ≡ s
unfolding strip_comment
strip_comment-plain [] h = refl
strip_comment-plain (c ∷ s) h = elim (Bool-cases (is_quote c)) [
  | inl quoted ↦ ground arith
  | inr bare ↦ ground (arith, before_comment-none (c ∷ s) (h bare))
]

pub Lacks-append : (p : ℕ → Bool) (s t : Bytes) → Lacks p s → Lacks p t → Lacks p (s ++ t)
Lacks-append p [] t a b = b
Lacks-append p (c ∷ s) t a b = (a.0, Lacks-append p s t a.1 b)

-- A printed line as `trim` leaves it.
abbrev padded_key : Bytes → Bytes
padded_key [] = []
padded_key (c ∷ k) = (c ∷ k) ++ (b' ' ∷ [])

abbrev padded_value : Bytes → Bytes
padded_value [] = []
padded_value (c ∷ v) = b' ' ∷ c ∷ v

abbrev equation_text : Bytes → Bytes → Bytes
equation_text k v = padded_key k ++ (b'=' ∷ padded_value v)

-- Behind the key, up to the end of the value.
trim_end-value :
    (k v : Bytes) → EndsTight v → trim_end (k ++ (b'=' ∷ b' ' ∷ v)) ≡ k ++ (b'=' ∷ padded_value v)
trim_end-value k [] h =
    ap trim_end (sym (append_assoc k (b'=' ∷ []) (b' ' ∷ [])))
    ∙ trim_end-space (k ++ (b'=' ∷ [])) b' ' refl
    ∙ trim_end_tight (k ++ (b'=' ∷ [])) (EndsTight-append k b'=' [] refl)
trim_end-value k (c ∷ v) h =
    trim_end_tight (k ++ (b'=' ∷ b' ' ∷ c ∷ v)) (EndsTight-append k b'=' (b' ' ∷ c ∷ v) h)

print_line :
    (k v : Bytes)
    → k ++ (b' ' ∷ b'=' ∷ b' ' ∷ (v ++ (b'\n' ∷ [])))
      ≡ (k ++ (b' ' ∷ b'=' ∷ b' ' ∷ v)) ++ (b'\n' ∷ [])
print_line k v = sym (append_assoc k (b' ' ∷ b'=' ∷ b' ' ∷ v) (b'\n' ∷ []))

trim-print_entry :
    (k v : Bytes)
    → StartsTight k
    → EndsTight v
    → trim (k ++ (b' ' ∷ b'=' ∷ b' ' ∷ (v ++ (b'\n' ∷ [])))) ≡ equation_text k v
unfolding trim trim_start
trim-print_entry [] v a b = trim_end-space (b'=' ∷ b' ' ∷ v) b'\n' refl ∙ trim_end-value [] v b
trim-print_entry (c ∷ k) v a b =
    ap trim_end (
      trim_start_tight ((c ∷ k) ++ (b' ' ∷ b'=' ∷ b' ' ∷ (v ++ (b'\n' ∷ [])))) a
      ∙ print_line (c ∷ k) v)
    ∙ trim_end-space ((c ∷ k) ++ (b' ' ∷ b'=' ∷ b' ' ∷ v)) b'\n' refl
    ∙ ap trim_end (sym (append_assoc (c ∷ k) (b' ' ∷ []) (b'=' ∷ b' ' ∷ v)))
    ∙ trim_end-value ((c ∷ k) ++ (b' ' ∷ [])) v b

trim-padded_key : (k : Bytes) → StartsTight k → EndsTight k → trim (padded_key k) ≡ k
unfolding trim
trim-padded_key [] a b = trim_tight [] a b
trim-padded_key (c ∷ k) a b =
    ap trim_end (trim_start_tight ((c ∷ k) ++ (b' ' ∷ [])) a)
    ∙ trim_end-space (c ∷ k) b' ' refl
    ∙ trim_end_tight (c ∷ k) b

trim-padded_value : (v : Bytes) → StartsTight v → EndsTight v → trim (padded_value v) ≡ v
unfolding trim trim_start
trim-padded_value [] a b = trim_end_tight [] b
trim-padded_value (c ∷ v) a b = ap trim_end (trim_start_tight (c ∷ v) a) ∙ trim_end_tight (c ∷ v) b

padded_key-Lacks : (k : Bytes) → Lacks (is_byte b'=') k → Lacks (is_byte b'=') (padded_key k)
padded_key-Lacks [] h = tt
padded_key-Lacks (c ∷ k) h = Lacks-append (is_byte b'=') (c ∷ k) (b' ' ∷ []) h (refl, tt)

parse_assignment-print :
    (e : CfgEntry)
    → IsPrintable e
    → parse_assignment (equation_text e.key e.value) ≡ assigned e.key e.value
unfolding parse_assignment
parse_assignment-print e p = ground (
  arith,
  cut_at-append b'=' (padded_key e.key) (padded_value e.value)
      (padded_key-Lacks e.key p.key_equals),
  trim-padded_key e.key p.key_left p.key_right,
  trim-padded_value e.value p.value_left p.value_right,
  strip_comment-plain e.value p.value_plain,
  take_of_le 63 e.key,
  take_of_le 1023 e.value,
  p.key_fits,
  p.value_fits,
)

parse_trimmed-key :
    (k v : Bytes)
    → StartsKey k
    → parse_trimmed (equation_text k v) ≡ parse_assignment (equation_text k v)
unfolding parse_trimmed
parse_trimmed-key [] v h = refl
parse_trimmed-key (c ∷ k) v h = ground arith

pub parse_line-print_entry :
    (e : CfgEntry) → IsPrintable e → parse_line (print_entry e) ≡ assigned e.key e.value
unfolding parse_line
parse_line-print_entry e p =
    ap parse_trimmed (trim-print_entry e.key e.value p.key_left p.value_right)
    ∙ parse_trimmed-key e.key e.value p.key_start
    ∙ parse_assignment-print e p

abbrev pub header_line : Bytes → Bytes
header_line s = b'[' ∷ (s ++ (b']' ∷ b'\n' ∷ []))

parse_header-print :
    (s : Bytes)
    → Lacks (is_byte b']') s
    → length s < max_section
    → parse_header (s ++ (b']' ∷ [])) ≡ header s
unfolding parse_header
parse_header-print s n f = ground (arith, cut_at-append b']' s [] n, take_of_le 63 s)

pub parse_line-header :
    (s : Bytes)
    → Lacks (is_byte b']') s
    → length s < max_section
    → parse_line (header_line s) ≡ header s
unfolding parse_line trim trim_start parse_trimmed
parse_line-header s n f =
    ap parse_trimmed (
      ap trim_end (ap (λ t. b'[' ∷ t) (sym (append_assoc s (b']' ∷ []) (b'\n' ∷ []))))
      ∙ trim_end-space (b'[' ∷ (s ++ (b']' ∷ []))) b'\n' refl
      ∙ trim_end_tight (b'[' ∷ (s ++ (b']' ∷ []))) (EndsTight-append (b'[' ∷ s) b']' [] refl))
    ∙ parse_header-print s n f

-- A line without a newline inside that fits into the buffer is read whole.
pub read_lines-line :
    (room : ℕ) (before line rest : Bytes)
    → Lacks (is_byte b'\n') line
    → length line < room
    → read_lines room before (line ++ (b'\n' ∷ rest))
      ≡ (before ++ (line ++ (b'\n' ∷ []))) ∷ read_lines 2047 [] rest
unfolding read_lines
read_lines-line room before [] rest n h = refl
read_lines-line room before (c ∷ line) rest n h =
    let more : (c == b'\n' || room == 1) ≡ false = ground arith in
    rw more (
      read_lines-line (room - 1) (before ++ (c ∷ [])) line rest n.1 (omega arith)
      ∙ ap (λ l. l ∷ read_lines 2047 [] rest) (append_assoc before (c ∷ []) (line ++ (b'\n' ∷ []))))
