-- ===== src/Reflector/Roster/Valid.antt =====
-- What holds of the nodes and talkgroups that src/reflectd/config.c reads.
use kerchunk.Prelude.{
  ℕ, ◌+◌, ◌<◌, ◌≤◌, ◌≡◌, refl, subst, ◌||◌, leb, ◌==◌, pos, Option, none, some, List, [], ◌∷◌, ◌++◌,
  length, length-append, drop, arith, Bool-cases, Option-cases, inl, inr,
}
use kerchunk.Text.{Bytes, fit}
use kerchunk.Config.{CfgEntry}
use kerchunk.Config.Entries.{config_get}
use kerchunk.Config.Numbers.{atoi, get_int}
use kerchunk.Reflector.{RcfgTg}
use kerchunk.Reflector.Roster.{
  NodeEntry, max_nodes, max_tgs, max_tgs_per_node, tg_number, members_or_none, load_tg, load_node,
  each_section, rcfg_load, add_tg, add_node, node_of, some_of_each, read_psk, read_allowed, psk_key,
  allowed_key, nodes_key, node_prefix, tg_prefix, split_csv, with_default, u16_of, default_key,
  with_default, u16_of, default_key,
}
use kerchunk.Reflector.Roster.Parts.{
  AllBelow, AllTgs, AllNumbers, AllNodes, tg_number_lem, read_members-AllBelow, each_section_keeps,
  u16_of_lt, with_default_lem, read_allowed_lem,
}

-- What the first pass keeps, and the second.
abbrev pub NodesFit : List NodeEntry → Type 0
NodesFit nodes = (length nodes ≤ max_nodes) × AllNodes nodes

abbrev pub TgsFit : ℕ → List RcfgTg → Type 0
TgsFit n tgs = (length tgs ≤ max_tgs) × AllTgs n tgs

AllNodes-append :
    (ns : List NodeEntry) (n : NodeEntry)
    → AllNodes ns
    → length n.allowed_tgs ≤ max_tgs_per_node
    → AllNumbers n.allowed_tgs
    → AllNodes (ns ++ (n ∷ []))
AllNodes-append [] n a l m = ((l, m), tt)
AllNodes-append (x ∷ ns) n a l m = (a.0, AllNodes-append ns n a.1 l m)

AllTgs-append :
    (k : ℕ) (ts : List RcfgTg) (t : RcfgTg)
    → AllTgs k ts
    → 0 < t.number
    → t.number ≤ 65535
    → AllBelow k t.members
    → AllTgs k (ts ++ (t ∷ []))
AllTgs-append k [] t a p q m = ((p, q, m), tt)
AllTgs-append k (x ∷ ts) t a p q m = (a.0, AllTgs-append k ts t a.1 p q m)

abbrev NodeFits : NodeEntry → Type 0
NodeFits n = AllNumbers n.allowed_tgs × (length n.allowed_tgs ≤ max_tgs_per_node)

node_of-NodeFits :
    (es : List CfgEntry) (section : Bytes) (psk allowed : Option (List ℕ)) (n : NodeEntry)
    → ((l : List ℕ) → allowed ≡ some l → AllNumbers l × (length l ≤ max_tgs_per_node))
    → node_of es section psk allowed ≡ some n
    → NodeFits n
node_of-NodeFits es section none allowed n f e = cc
node_of-NodeFits es section (some psk) none n f e = cc
node_of-NodeFits es section (some psk) (some allowed) n f e =
    let tg = u16_of (get_int es section default_key (pos 0)) in
    let same : with_default tg allowed ≡ n.allowed_tgs = cc in
    let (a, l) = f allowed refl in
    subst (λ x. AllNumbers x × (length x ≤ max_tgs_per_node)) same
      (with_default_lem tg allowed (u16_of_lt (get_int es section default_key (pos 0))) a l)

add_node-NodesFit :
    (ns ns' : List NodeEntry) (n : Option NodeEntry)
    → length ns < max_nodes
    → AllNodes ns
    → ((x : NodeEntry) → n ≡ some x → NodeFits x)
    → add_node ns n ≡ some ns'
    → NodesFit ns'
add_node-NodesFit ns ns' none l a f e = cc
add_node-NodesFit ns ns' (some n) l a f e =
    let same : ns ++ (n ∷ []) ≡ ns' = cc in
    let fits = f n refl in
    subst NodesFit same
      (omega (arith, length-append ns (n ∷ [])), AllNodes-append ns n a fits.1 fits.0)

load_node-NodesFit :
    (es : List CfgEntry) (s : Bytes) (ns ns' : List NodeEntry)
    → NodesFit ns
    → load_node es s ns ≡ some ns'
    → NodesFit ns'
unfolding load_node
load_node-NodesFit es s ns ns' v e = elim (Bool-cases (leb max_nodes (length ns))) [
  | inl full ↦ ground arith
  | inr room ↦
      let psk = read_psk (config_get s psk_key es) in
      let allowed = read_allowed (config_get s allowed_key es) in
      let added : add_node ns (node_of es s psk allowed) ≡ some ns' = ground arith in
      add_node-NodesFit ns ns' (node_of es s psk allowed) (ground arith) v.1
        (λ n f.
          node_of-NodeFits es s psk allowed n
            (λ l g. read_allowed_lem (config_get s allowed_key es) l g) f)
        added
]

members_or_none-AllBelow :
    (nodes : List NodeEntry) (s : Option Bytes) (l : List ℕ)
    → members_or_none nodes s ≡ some l
    → AllBelow (length nodes) l
members_or_none-AllBelow nodes none l e =
    let same : [] ≡ l = cc in subst (AllBelow (length nodes)) same tt
members_or_none-AllBelow nodes (some s) l e =
    read_members-AllBelow nodes (split_csv max_nodes (fit 1024 s)) l e

add_tg-TgsFit :
    (k : ℕ) (ts ts' : List RcfgTg) (v : Option ℕ) (members : Option (List ℕ))
    → length ts < max_tgs
    → AllTgs k ts
    → ((n : ℕ) → v ≡ some n → (0 < n) × (n ≤ 65535))
    → ((l : List ℕ) → members ≡ some l → AllBelow k l)
    → add_tg ts v members ≡ some ts'
    → TgsFit k ts'
add_tg-TgsFit k ts ts' none members l a f g e = cc
add_tg-TgsFit k ts ts' (some v) none l a f g e = cc
add_tg-TgsFit k ts ts' (some v) (some members) l a f g e =
    let t : RcfgTg = record { number = v; members = members } in
    let same : ts ++ (t ∷ []) ≡ ts' = cc in
    subst (TgsFit k) same (
      omega (arith, length-append ts (t ∷ [])),
      AllTgs-append k ts t a (f v refl).0 (f v refl).1 (g members refl),
    )

load_tg-TgsFit :
    (es : List CfgEntry) (s : Bytes) (nodes : List NodeEntry) (ts ts' : List RcfgTg)
    → TgsFit (length nodes) ts
    → load_tg es s nodes ts ≡ some ts'
    → TgsFit (length nodes) ts'
unfolding load_tg
load_tg-TgsFit es s nodes ts ts' v e = elim (Bool-cases (leb max_tgs (length ts))) [
  | inl full ↦ ground arith
  | inr room ↦
      let members = members_or_none nodes (config_get s nodes_key es) in
      let added : add_tg ts (tg_number (atoi (drop 10 s))) members ≡ some ts' = ground arith in
      add_tg-TgsFit (length nodes) ts ts' (tg_number (atoi (drop 10 s))) members (ground arith) v.1
        (λ n f. tg_number_lem (atoi (drop 10 s)) n f)
        (λ l f. members_or_none-AllBelow nodes (config_get s nodes_key es) l f) added
]

-- Nodes and talkgroups that fit their arrays.
pub record IsRoster (nodes : List NodeEntry) (tgs : List RcfgTg) : Type 0 where
  pub some_nodes : 0 < length nodes
  pub some_tgs : 0 < length tgs
  pub nodes_fit : NodesFit nodes
  pub tgs_fit : TgsFit (length nodes) tgs

some_of_each-IsRoster :
    (nodes : List NodeEntry) (tgs : Option (List RcfgTg)) (r : List NodeEntry × List RcfgTg)
    → NodesFit nodes
    → ((ts : List RcfgTg) → tgs ≡ some ts → TgsFit (length nodes) ts)
    → some_of_each nodes tgs ≡ some r
    → IsRoster r.0 r.1
some_of_each-IsRoster nodes none r v f e = cc
some_of_each-IsRoster nodes (some ts) r v f e =
    elim (Bool-cases (length nodes == 0 || length ts == 0)) [
      | inl empty ↦ ground arith
      | inr full ↦
          let same : (nodes, ts) ≡ r = ground arith in
          let one : 0 < length nodes = ground arith in
          let two : 0 < length ts = ground arith in
          subst (λ x. IsRoster x.0 x.1) same
            (record { some_nodes = one; some_tgs = two; nodes_fit = v; tgs_fit = f ts refl })
    ]

-- A roster that is read has nodes and talkgroups, at least one of each and no more than their arrays hold; a
-- node has at most 32 talkgroups, their numbers are from 1 to 65535, and the members of a talkgroup are
-- nodes.
pub rcfg_load-IsRoster :
    (es : List CfgEntry) (nodes : List NodeEntry) (tgs : List RcfgTg)
    → rcfg_load es ≡ some (nodes, tgs)
    → IsRoster nodes tgs
unfolding rcfg_load
rcfg_load-IsRoster es nodes tgs e =
    let rounds = length es + 1 in
    elim (Option-cases (each_section (load_node es) node_prefix rounds es 0 [])) [
      | inl f ↦ ground arith
      | inr (ns, f) ↦
          let pass = each_section (λ s ts. load_tg es s ns ts) tg_prefix rounds es 0 [] in
          let whole : some_of_each ns pass ≡ some (nodes, tgs) = ground arith in
          let fit =
            each_section_keeps NodesFit (load_node es) node_prefix (load_node-NodesFit es) rounds es
              0 [] ns (omega arith, tt) f in
          some_of_each-IsRoster ns pass (nodes, tgs) fit
            (λ ts g.
              each_section_keeps (TgsFit (length ns)) (λ s x. load_tg es s ns x) tg_prefix
                (λ s x x'. load_tg-TgsFit es s ns x x') rounds es 0 [] ts (omega arith, tt) g)
            whole
    ]
