-- ===== src/Reflector/Roster/Parts.antt =====
-- What src/reflectd/config.c reads of one node or talkgroup.
use kerchunk.Prelude.{
  ℕ, zero, suc, ◌+◌, ◌<◌, ◌≤◌, ◌≡◌, refl, ap, subst, sym, not, ◌&&◌, ltb, ◌==◌, ℤ, pos, negsuc,
  Option, none, some, List, [], ◌∷◌, ◌++◌, length, length-append, length-map, length-take, take,
  arith, Bool-cases, Option-cases, inl, inr,
}
use kerchunk.Text.{Bytes, fit}
use kerchunk.Config.{CfgEntry}
use kerchunk.Config.Entries.{next_section}
use kerchunk.Config.Numbers.{atoi}
use kerchunk.Reflector.{RcfgTg, is_listed}
use kerchunk.Reflector.Roster.{
  NodeEntry, max_tgs_per_node, tg_number, read_members, node_idx_from, each_section, has_prefix,
  read_allowed, split_csv, read_tgs, tokens, trim_unquote, with_default, u16_of, read_tgs, tokens,
  trim_unquote, with_default, u16_of,
}

abbrev pub AllBelow : ℕ → List ℕ → Type 0
AllBelow n [] = Unit {0}
AllBelow n (x ∷ xs) = (x < n) × AllBelow n xs

-- A talkgroup has a number from 1 to 65535, and members that are nodes.
abbrev pub AllTgs : ℕ → List RcfgTg → Type 0
AllTgs n [] = Unit {0}
AllTgs n (t ∷ ts) = ((0 < t.number) × (t.number ≤ 65535) × AllBelow n t.members) × AllTgs n ts

pub tg_number_lem : (v : ℤ) (n : ℕ) → tg_number v ≡ some n → (0 < n) × (n ≤ 65535)
tg_number_lem (pos v) n e = ground arith
tg_number_lem (negsuc v) n e = cc

node_idx_from_lt :
    (i : ℕ) (ns : List NodeEntry) (id : Bytes) (j : ℕ)
    → node_idx_from i ns id ≡ some j
    → j < i + length ns
unfolding node_idx_from
node_idx_from_lt i [] id j e = cc
node_idx_from_lt i (n ∷ ns) id j e = ground (arith, node_idx_from_lt (i + 1) ns id j)

pub read_members-AllBelow :
    (nodes : List NodeEntry) (ts : List Bytes) (l : List ℕ)
    → read_members nodes ts ≡ some l
    → AllBelow (length nodes) l
unfolding read_members
read_members-AllBelow nodes [] l e =
    let same : [] ≡ l = cc in subst (AllBelow (length nodes)) same tt
read_members-AllBelow nodes (t ∷ ts) l e = elim (Option-cases (node_idx_from 0 nodes t)) [
  | inl none_there ↦ ground arith
  | inr (i, there) ↦ elim (Option-cases (read_members nodes ts)) [
    | inl rest ↦ ground arith
    | inr (is, rest) ↦
        let same : i ∷ is ≡ l = ground arith in
        let below : i < length nodes = omega (arith, node_idx_from_lt 0 nodes t i there) in
        subst (AllBelow (length nodes)) same (below, read_members-AllBelow nodes ts is rest)
  ]
]

-- What a load keeps, the loop over the sections keeps.
pub each_section_keeps :
    {A : Type 0} (P : A → Type 0) (load : Bytes → A → Option A) (prefix : Bytes)
    → ((s : Bytes) (a a' : A) → P a → load s a ≡ some a' → P a')
    → (rounds : ℕ) (es : List CfgEntry) (iter : ℕ) (a a' : A) → P a
    → each_section load prefix rounds es iter a ≡ some a'
    → P a'
unfolding each_section
each_section_keeps P load prefix k zero es iter a a' p e = let same : a ≡ a' = cc in subst P same p
each_section_keeps P load prefix k (suc rounds) es iter a a' p e =
    elim (Option-cases (next_section es iter)) [
      | inl n ↦ let same : a ≡ a' = ground arith in subst P same p
      | inr (s, n) ↦ elim (Bool-cases (has_prefix prefix s)) [
        | inl y ↦ elim (Option-cases (load s a)) [
          | inl f ↦ ground arith
          | inr (b, f) ↦
              let rest : each_section load prefix rounds es (iter + 1) b ≡ some a' = ground arith in
              each_section_keeps P load prefix k rounds es (iter + 1) b a' (k s a b p f) rest
        ]
        | inr y ↦
            let rest : each_section load prefix rounds es (iter + 1) a ≡ some a' = ground arith in
            each_section_keeps P load prefix k rounds es (iter + 1) a a' p rest
      ]
    ]

-- What a node may hear: at most 32 talkgroups, with numbers from 1 to 65535.
abbrev pub AllNumbers : List ℕ → Type 0
AllNumbers [] = Unit {0}
AllNumbers (x ∷ xs) = ((0 < x) × (x ≤ 65535)) × AllNumbers xs

abbrev pub AllNodes : List NodeEntry → Type 0
AllNodes [] = Unit {0}
AllNodes (n ∷ ns) =
    ((length n.allowed_tgs ≤ max_tgs_per_node) × AllNumbers n.allowed_tgs) × AllNodes ns

read_tgs-AllNumbers :
    (ts : List Bytes) (l : List ℕ) → read_tgs ts ≡ some l → AllNumbers l × (length l ≡ length ts)
unfolding read_tgs
read_tgs-AllNumbers [] l e =
    let same : [] ≡ l = cc in subst (λ x. AllNumbers x × (length x ≡ 0)) same (tt, refl)
read_tgs-AllNumbers (t ∷ ts) l e = elim (Option-cases (tg_number (atoi t))) [
  | inl n ↦ ground arith
  | inr (v, n) ↦ elim (Option-cases (read_tgs ts)) [
    | inl r ↦ ground arith
    | inr (vs, r) ↦
        let same : v ∷ vs ≡ l = ground arith in
        let tail = read_tgs-AllNumbers ts vs r in
        subst (λ x. AllNumbers x × (length x ≡ length (t ∷ ts))) same
          ((tg_number_lem (atoi t) v n, tail.0), ap suc tail.1)
  ]
]

length-split_csv : (max : ℕ) (s : Bytes) → length (split_csv max s) ≤ max
unfolding split_csv
length-split_csv max s =
    let ts = tokens [] s in omega (arith, length-map (take max ts) trim_unquote, length-take max ts)

AllNumbers-append :
    (l : List ℕ) (x : ℕ) → AllNumbers l → 0 < x → x ≤ 65535 → AllNumbers (l ++ (x ∷ []))
AllNumbers-append [] x a p q = ((p, q), tt)
AllNumbers-append (y ∷ l) x a p q = (a.0, AllNumbers-append l x a.1 p q)

pub u16_of_lt : (v : ℤ) → u16_of v < 65536
u16_of_lt (pos n) = omega arith
u16_of_lt (negsuc n) = omega arith

pub with_default_lem :
    (tg : ℕ) (l : List ℕ)
    → tg < 65536
    → AllNumbers l
    → length l ≤ max_tgs_per_node
    → AllNumbers (with_default tg l) × (length (with_default tg l) ≤ max_tgs_per_node)
with_default_lem tg l t a m =
    elim (Bool-cases (not (tg == 0) && (not (is_listed tg l) && ltb (length l) max_tgs_per_node))) [
      | inl y ↦
          let whole : with_default tg l ≡ l ++ (tg ∷ []) = rw (y) refl in
          let longer = length-append l (tg ∷ []) in
          subst (λ x. AllNumbers x × (length x ≤ max_tgs_per_node)) (sym whole)
            (AllNumbers-append l tg a (ground arith) (omega arith), ground (arith, longer))
      | inr n ↦
          let whole : with_default tg l ≡ l = rw (n) refl in
          subst (λ x. AllNumbers x × (length x ≤ max_tgs_per_node)) (sym whole) (a, m)
    ]

pub read_allowed_lem :
    (s : Option Bytes) (l : List ℕ)
    → read_allowed s ≡ some l
    → AllNumbers l × (length l ≤ max_tgs_per_node)
read_allowed_lem none l e =
    let same : [] ≡ l = cc in
    subst (λ x. AllNumbers x × (length x ≤ max_tgs_per_node)) same (tt, omega arith)
read_allowed_lem (some s) l e =
    let r = read_tgs-AllNumbers (split_csv max_tgs_per_node (fit 256 s)) l e in
    (r.0, omega (arith, r.1, length-split_csv max_tgs_per_node (fit 256 s)))
