-- ===== src/Tests/ConfigTests.antt =====
-- Runs of src/kerchunk_config.c.
use kerchunk.Prelude.{
  ◌<◌, ◌^◌, ◌≡◌, ◌&&◌, ◌||◌, refl, true, pos, none, some, List, [], ◌∷◌, arith, length, ltb,
  if◌then◌else◌,
}
use kerchunk.Text.{Bytes}
use kerchunk.Text.Laws.{Lacks}
use kerchunk.Config.{CfgEntry, max_entries}
use kerchunk.Config.Entries.{config_get, config_set, config_save, config_load}
use kerchunk.Config.Sections.{distinct_sections, grouped}
use kerchunk.Config.Saved.{AllPrintable}
use kerchunk.Config.Reload.{config_load-config_save}
use kerchunk.Config.Table.{is_some, kept_value, same_key, is_line_end, config_set_lem}
use kerchunk.Config.Duration.{parse_duration_ms}
use kerchunk.Config.Terms.{Term, minutes, seconds, print_terms, terms_ms, IsTerm}
use kerchunk.Config.Sums.{parse_duration_ms-print_terms}

abbrev general : Bytes
general = b'g' ∷ b'e' ∷ b'n' ∷ []

abbrev tail_key : Bytes
tail_key = b't' ∷ b'l' ∷ []

-- A table whose sections are not in one piece.
abbrev table : List CfgEntry
table =
    record { section = general; key = tail_key; value = b'2' ∷ b's' ∷ [] }
    ∷ record { section = b'x' ∷ []; key = b'a' ∷ []; value = [] }
    ∷ record { section = general; key = b'h' ∷ []; value = b'1' ∷ b' ' ∷ b'2' ∷ [] }
    ∷ []

table-AllPrintable : AllPrintable table
table-AllPrintable = ground arith

config_load-config_save_example :
    let (es', fitted) = config_load (config_save table) in
    (es' ≡ grouped table (distinct_sections [] table))
    × (fitted ≡ true)
    × ((s k : Bytes) → config_get s k es' ≡ config_get s k table)
config_load-config_save_example = config_load-config_save table table-AllPrintable (omega arith)

-- A value with a comment sign is written as it is, and read without what follows the sign.
abbrev marked : List CfgEntry
marked = record { section = general; key = tail_key; value = b'a' ∷ b'#' ∷ b'b' ∷ [] } ∷ []

reload_cuts : config_get general tail_key (config_load (config_save marked)).0 ≡ some (b'a' ∷ [])
unfolding config_load config_save config_get kerchunk.Config.parse_lines kerchunk.Config.read_lines
    kerchunk.Config.parse_line kerchunk.Config.parse_trimmed kerchunk.Config.before_comment
    kerchunk.Config.Entries.next_section kerchunk.Config.Entries.next_section_from
    kerchunk.Config.Entries.has_section kerchunk.Config.Entries.print_entries
    kerchunk.Config.Entries.in_section kerchunk.Text.trim kerchunk.Text.trim_end
    kerchunk.Text.trim_start kerchunk.Text.cut_at kerchunk.Text.same_text
reload_cuts = refl

config_set_lem_example :
    let (es', done) = config_set general tail_key (b'5' ∷ b'\n' ∷ b's' ∷ []) table in
    (done ≡ (is_some (config_get general tail_key table) || ltb (length table) max_entries))
    × (config_get general tail_key es' ≡ (
        if done && same_key general tail_key general tail_key
        then some (kept_value (b'5' ∷ b'\n' ∷ b's' ∷ []))
        else config_get general tail_key table))
    × Lacks is_line_end (kept_value (b'5' ∷ b'\n' ∷ b's' ∷ []))
config_set_lem_example =
    config_set_lem general tail_key (b'5' ∷ b'\n' ∷ b's' ∷ []) general tail_key table (omega arith)
      (omega arith)

-- `1.5m` and ` 30s`
abbrev one_and_a_half : Term
one_and_a_half = record {
  blanks = 0;
  first = b'1';
  whole = [];
  fraction = some (b'5' ∷ []);
  unit = minutes;
}

abbrev thirty : Term
thirty = record { blanks = 1; first = b'3'; whole = b'0' ∷ []; fraction = none; unit = seconds }

one_and_a_half-IsTerm : IsTerm one_and_a_half
unfolding kerchunk.Config.Terms.number kerchunk.Config.Terms.thousandths
one_and_a_half-IsTerm = record {
  first_digit = refl;
  digits = tt;
  fraction_digits = (refl, tt);
  held = ground arith;
}

thirty-IsTerm : IsTerm thirty
unfolding kerchunk.Config.Terms.number
thirty-IsTerm = record {
  first_digit = refl;
  digits = (refl, tt);
  fraction_digits = tt;
  held = ground arith;
}

two_minutes_held : terms_ms (one_and_a_half ∷ thirty ∷ []) < 2 ^ 31
unfolding terms_ms kerchunk.Config.Terms.number kerchunk.Config.Terms.thousandths
two_minutes_held = ground arith

parse_duration_ms-print_terms_example :
    parse_duration_ms (print_terms (one_and_a_half ∷ thirty ∷ [])) (pos 7) ≡ (
      if ltb 0 (terms_ms (one_and_a_half ∷ thirty ∷ []))
      then pos (terms_ms (one_and_a_half ∷ thirty ∷ []))
      else pos 7)
parse_duration_ms-print_terms_example =
    parse_duration_ms-print_terms one_and_a_half (thirty ∷ []) (pos 7)
      (one_and_a_half-IsTerm, (thirty-IsTerm, tt)) two_minutes_held

two_minutes : parse_duration_ms (print_terms (one_and_a_half ∷ thirty ∷ [])) (pos 7) ≡ pos 120000
unfolding parse_duration_ms print_terms kerchunk.Config.Duration.all_digits
    kerchunk.Config.Duration.sum_terms kerchunk.Config.Duration.skip_blanks
    kerchunk.Config.Duration.read_term kerchunk.Config.Duration.add_unit
    kerchunk.Config.Duration.parse_number_ms kerchunk.Config.Duration.read_digits
    kerchunk.Config.Duration.read_fraction kerchunk.Config.Duration.normalize
two_minutes = refl

-- Nought with a unit is the default, and without one is nought.
nought_seconds : parse_duration_ms (b'0' ∷ b's' ∷ []) (pos 7) ≡ pos 7
unfolding parse_duration_ms kerchunk.Config.Duration.all_digits kerchunk.Config.Duration.sum_terms
    kerchunk.Config.Duration.skip_blanks kerchunk.Config.Duration.read_term
    kerchunk.Config.Duration.add_unit kerchunk.Config.Duration.parse_number_ms
    kerchunk.Config.Duration.read_digits kerchunk.Config.Duration.read_fraction
    kerchunk.Config.Duration.normalize
nought_seconds = refl

nought : parse_duration_ms (b'0' ∷ []) (pos 7) ≡ pos 0
unfolding parse_duration_ms kerchunk.Config.Duration.all_digits kerchunk.Config.Numbers.atoi
    kerchunk.Text.trim_start
nought = refl

-- `600h` and `2147484ms` do not fit, and the default is taken.
too_many_hours : parse_duration_ms (b'6' ∷ b'0' ∷ b'0' ∷ b'h' ∷ []) (pos 7) ≡ pos 7
unfolding parse_duration_ms kerchunk.Config.Duration.all_digits kerchunk.Config.Duration.sum_terms
    kerchunk.Config.Duration.skip_blanks kerchunk.Config.Duration.read_term
    kerchunk.Config.Duration.add_unit kerchunk.Config.Duration.parse_number_ms
    kerchunk.Config.Duration.read_digits kerchunk.Config.Duration.fraction_part
too_many_hours = refl

too_many_millis :
    parse_duration_ms (b'2' ∷ b'1' ∷ b'4' ∷ b'7' ∷ b'4' ∷ b'8' ∷ b'4' ∷ b'm' ∷ b's' ∷ []) (pos 7)
    ≡ pos 7
unfolding parse_duration_ms kerchunk.Config.Duration.all_digits kerchunk.Config.Duration.sum_terms
    kerchunk.Config.Duration.skip_blanks kerchunk.Config.Duration.read_term
    kerchunk.Config.Duration.add_unit kerchunk.Config.Duration.parse_number_ms
    kerchunk.Config.Duration.read_digits kerchunk.Config.Duration.fraction_part
too_many_millis = refl
