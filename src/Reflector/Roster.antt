-- ===== src/Reflector/Roster.antt =====
-- src/reflectd/config.c: the nodes and talkgroups of the reflector, read from the configuration. The
-- settings of the section `reflector` are left out.
pub mod Parts
pub mod Valid
use kerchunk.Prelude.{
  ℕ, zero, suc, ◌+◌, ◌-◌, ◌*◌, ◌%◌, Bool, true, false, not, ◌&&◌, ◌||◌, ltb, leb, ◌==◌,
  if◌then◌else◌, ℤ, pos, negsuc, Option, none, some, List, [], ◌∷◌, ◌++◌, length, map, take, drop,
}
use kerchunk.Text.{Bytes, is_digit, is_empty, fit, trim, same_text}
use kerchunk.Config.{CfgEntry}
use kerchunk.Config.Entries.{config_get, next_section}
use kerchunk.Config.Numbers.{atoi, get_int}
use kerchunk.Reflector.{RcfgTg, RcfgNode, Rcfg, is_listed}

-- `RCFG_MAX_NODES`, `RCFG_MAX_TGS` and `RCFG_MAX_TGS_PER_NODE`
abbrev pub max_nodes : ℕ
max_nodes = 256

abbrev pub max_tgs : ℕ
max_tgs = 64

abbrev pub max_tgs_per_node : ℕ
max_tgs_per_node = 32

-- `rcfg_node_t`
pub record NodeEntry : Type 0 where
  pub id : Bytes
  pub psk : List ℕ
  pub allowed_tgs : List ℕ
  pub default_tg : ℕ
  pub banned : Bool

-- `isxdigit`, and the value of such a digit
abbrev pub is_hex : ℕ → Bool
is_hex c = is_digit c || (leb b'a' c && leb c b'f') || (leb b'A' c && leb c b'F')

abbrev pub hex_value : ℕ → ℕ
hex_value c = if is_digit c then c - b'0' else if leb b'a' c then c - 87 else c - 55

-- `hex_to_bytes`, over an even number of digits
unfoldable pub hex_to_bytes : Bytes → Option (List ℕ)
hex_to_bytes [] = some []
hex_to_bytes (c ∷ []) = none
hex_to_bytes (c ∷ d ∷ s) =
    let rest = hex_to_bytes s in
    if is_hex c && is_hex d
    then (elim rest [ none ↦ none | some l ↦ some ((16 * hex_value c + hex_value d) ∷ l) ])
    else none

-- The last byte.
abbrev pub ends_in : ℕ → Bytes → Bool
ends_in q [] = false
ends_in q (c ∷ []) = c == q
ends_in q (c ∷ d ∷ s) = ends_in q (d ∷ s)

-- The quotes around a text that starts with one.
abbrev pub unquote : Bytes → Bytes
unquote [] = []
unquote (q ∷ s) = if (q == b'"' || q == 39) && ends_in q s then take (length s - 1) s else q ∷ s

-- `trim_unquote`
abbrev pub trim_unquote : Bytes → Bytes
trim_unquote s = unquote (trim s)

-- The tokens of `strtok_r` between commas, none of them empty, behind the bytes of one that is begun.
unfoldable pub tokens : Bytes → Bytes → List Bytes
tokens begun [] = if is_empty begun then [] else begun ∷ []
tokens begun (c ∷ s) =
    let fresh = tokens [] s in
    let longer = tokens (begun ++ (c ∷ [])) s in
    if c == b',' then (if is_empty begun then fresh else begun ∷ fresh) else longer

-- `split_csv`
unfoldable pub split_csv : ℕ → Bytes → List Bytes
unfolding tokens
split_csv max s = map trim_unquote (take max (tokens [] s))

-- A number from 1 to 65535.
abbrev pub tg_number : ℤ → Option ℕ
tg_number (pos v) = if v == 0 || ltb 65535 v then none else some v
tg_number (negsuc v) = none

-- The loop over the tokens of `allowed_tgs`.
unfoldable pub read_tgs : List Bytes → Option (List ℕ)
read_tgs [] = some []
read_tgs (t ∷ ts) =
    let rest = read_tgs ts in
    elim (tg_number (atoi t)) [
      | none ↦ none
      | some v ↦ (elim rest [ none ↦ none | some l ↦ some (v ∷ l) ])
    ]

-- The cast to `uint16_t`
abbrev pub u16_of : ℤ → ℕ
u16_of (pos n) = n % 65536
u16_of (negsuc n) = 65535 - n % 65536

-- The default talkgroup among the allowed ones.
abbrev pub with_default : ℕ → List ℕ → List ℕ
with_default tg l =
    if not (tg == 0) && (not (is_listed tg l) && ltb (length l) max_tgs_per_node)
    then l ++ (tg ∷ [])
    else l

abbrev pub is_set : ℤ → Bool
is_set (pos n) = not (n == 0)
is_set (negsuc n) = true

abbrev pub node_prefix : Bytes
node_prefix = b'n' ∷ b'o' ∷ b'd' ∷ b'e' ∷ b'.' ∷ []

abbrev pub tg_prefix : Bytes
tg_prefix = b't' ∷ b'a' ∷ b'l' ∷ b'k' ∷ b'g' ∷ b'r' ∷ b'o' ∷ b'u' ∷ b'p' ∷ b'.' ∷ []

abbrev pub psk_key : Bytes
psk_key =
    b'p' ∷ b'r' ∷ b'e' ∷ b's' ∷ b'h' ∷ b'a' ∷ b'r' ∷ b'e' ∷ b'd' ∷ b'_' ∷ b'k' ∷ b'e' ∷ b'y' ∷ b'_'
    ∷ b'h' ∷ b'e' ∷ b'x' ∷ []

abbrev pub allowed_key : Bytes
allowed_key = b'a' ∷ b'l' ∷ b'l' ∷ b'o' ∷ b'w' ∷ b'e' ∷ b'd' ∷ b'_' ∷ b't' ∷ b'g' ∷ b's' ∷ []

abbrev pub default_key : Bytes
default_key = b'd' ∷ b'e' ∷ b'f' ∷ b'a' ∷ b'u' ∷ b'l' ∷ b't' ∷ b'_' ∷ b't' ∷ b'g' ∷ []

abbrev pub banned_key : Bytes
banned_key = b'b' ∷ b'a' ∷ b'n' ∷ b'n' ∷ b'e' ∷ b'd' ∷ []

abbrev pub nodes_key : Bytes
nodes_key = b'n' ∷ b'o' ∷ b'd' ∷ b'e' ∷ b's' ∷ []

abbrev pub read_psk : Option Bytes → Option (List ℕ)
read_psk none = none
read_psk (some s) = if length s == 64 then hex_to_bytes s else none

abbrev pub read_allowed : Option Bytes → Option (List ℕ)
read_allowed none = some []
read_allowed (some s) = read_tgs (split_csv max_tgs_per_node (fit 256 s))

abbrev pub node_of : List CfgEntry → Bytes → Option (List ℕ) → Option (List ℕ) → Option NodeEntry
node_of es section none allowed = none
node_of es section (some psk) none = none
node_of es section (some psk) (some allowed) =
    let default_tg = u16_of (get_int es section default_key (pos 0)) in
    some (record {
      id = fit 64 (drop 5 section);
      psk = psk;
      allowed_tgs = with_default default_tg allowed;
      default_tg = default_tg;
      banned = is_set (get_int es section banned_key (pos 0));
    })

abbrev pub add_node : List NodeEntry → Option NodeEntry → Option (List NodeEntry)
add_node nodes none = none
add_node nodes (some n) = some (nodes ++ (n ∷ []))

-- `load_node`
unfoldable pub load_node : List CfgEntry → Bytes → List NodeEntry → Option (List NodeEntry)
unfolding hex_to_bytes read_tgs split_csv
load_node es section nodes =
    if leb max_nodes (length nodes)
    then none
    else add_node nodes (
        node_of es section (read_psk (config_get section psk_key es))
          (read_allowed (config_get section allowed_key es)))

-- `rcfg_node_idx`, from an index on
unfoldable pub node_idx_from : ℕ → List NodeEntry → Bytes → Option ℕ
node_idx_from i [] id = none
node_idx_from i (n ∷ ns) id =
    let rest = node_idx_from (i + 1) ns id in if same_text n.id id then some i else rest

-- The loop over the tokens of `nodes`.
unfoldable pub read_members : List NodeEntry → List Bytes → Option (List ℕ)
unfolding node_idx_from
read_members nodes [] = some []
read_members nodes (t ∷ ts) =
    let rest = read_members nodes ts in
    elim (node_idx_from 0 nodes t) [
      | none ↦ none
      | some i ↦ (elim rest [ none ↦ none | some l ↦ some (i ∷ l) ])
    ]

abbrev pub members_or_none : List NodeEntry → Option Bytes → Option (List ℕ)
members_or_none nodes none = some []
members_or_none nodes (some s) = read_members nodes (split_csv max_nodes (fit 1024 s))

abbrev pub add_tg : List RcfgTg → Option ℕ → Option (List ℕ) → Option (List RcfgTg)
add_tg tgs none members = none
add_tg tgs (some v) none = none
add_tg tgs (some v) (some members) = some (tgs ++ (record { number = v; members = members } ∷ []))

-- `load_tg`; the name is for display.
unfoldable pub load_tg : List CfgEntry → Bytes → List NodeEntry → List RcfgTg → Option (List RcfgTg)
unfolding read_members split_csv
load_tg es section nodes tgs =
    if leb max_tgs (length tgs)
    then none
    else add_tg tgs (tg_number (atoi (drop 10 section)))
        (members_or_none nodes (config_get section nodes_key es))

-- `strncmp(sec, prefix, n) == 0`
abbrev pub has_prefix : Bytes → Bytes → Bool
has_prefix prefix s = same_text (take (length prefix) s) prefix

-- The loop over the sections from an iterator on, and in it the loading of those with a prefix.
unfoldable pub each_section :
    {A : Type 0} → (Bytes → A → Option A) → Bytes → ℕ → List CfgEntry → ℕ → A → Option A
each_section load prefix zero es iter a = some a
each_section load prefix (suc rounds) es iter a = elim (next_section es iter) [
  | none ↦ some a
  | some s ↦
      if has_prefix prefix s
      then (elim (load s a) [
        | none ↦ none
        | some a' ↦ each_section load prefix rounds es (iter + 1) a'
      ])
      else each_section load prefix rounds es (iter + 1) a
]

abbrev pub some_of_each :
    List NodeEntry → Option (List RcfgTg) → Option (List NodeEntry × List RcfgTg)
some_of_each nodes none = none
some_of_each nodes (some tgs) =
    if length nodes == 0 || length tgs == 0 then none else some (nodes, tgs)

-- `rcfg_load`, behind the settings: two passes over the sections, of which there are no more than entries.
unfoldable pub rcfg_load : List CfgEntry → Option (List NodeEntry × List RcfgTg)
unfolding each_section load_node load_tg
rcfg_load es =
    let rounds = length es + 1 in
    elim (each_section (load_node es) node_prefix rounds es 0 []) [
      | none ↦ none
      | some nodes ↦
          some_of_each nodes
            (each_section (λ s tgs. load_tg es s nodes tgs) tg_prefix rounds es 0 [])
    ]
