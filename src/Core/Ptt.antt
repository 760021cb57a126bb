-- ===== src/Core/Ptt.antt =====
-- The PTT reference count of src/kerchunk_core.c, under its mutex. The HID write and the event that
-- each call makes are recorded, oldest first.
use kerchunk.Prelude.{
  ℕ, ◌+◌, ◌-◌, ◌<◌, ◌≡◌, ◌↔◌, refl, Bool, true, false, not, ◌&&◌, ltb, ◌==◌, if◌then◌else◌, List,
  [], ◌∷◌, ◌++◌, arith,
}

-- `kerchunk_hid_set_ptt` with the event behind it: PTT_ASSERT or PTT_DROP.
pub data PttEdge : Type 0 where
  key_up key_down : PttEdge

-- `g_ptt_refcount` and `g_ptt_active`
pub record Ptt : Type 0 where
  pub refcount : ℕ
  pub active : Bool
  pub edges : List PttEdge

abbrev pub ptt_init : Ptt
ptt_init = record { refcount = 0; active = false; edges = [] }

-- `core_request_ptt`
unfoldable pub request_ptt : Ptt → Ptt
request_ptt p = record p {
  refcount = p.refcount + 1;
  active = true;
  edges = if not p.active then p.edges ++ (key_up ∷ []) else p.edges;
}

-- `core_release_ptt`
unfoldable pub release_ptt : Ptt → Ptt
release_ptt p =
    let n = if ltb 0 p.refcount then p.refcount - 1 else p.refcount in
    if n == 0 && p.active
    then record p { refcount = n; active = false; edges = p.edges ++ (key_down ∷ []) }
    else record p { refcount = n }

pub data PttCall : Type 0 where
  request release : PttCall

unfoldable pub run_ptt : Ptt → List PttCall → Ptt
run_ptt p [] = p
run_ptt p (request ∷ cs) = run_ptt (request_ptt p) cs
run_ptt p (release ∷ cs) = run_ptt (release_ptt p) cs

-- The state of the transmitter after a list of edges.
abbrev pub keyed_by : Bool → List PttEdge → Bool
keyed_by b [] = b
keyed_by b (key_up ∷ es) = keyed_by true es
keyed_by b (key_down ∷ es) = keyed_by false es

-- Each edge changes the state: up and down alternate.
abbrev pub Alternates : Bool → List PttEdge → Type 0
Alternates b [] = Unit {0}
Alternates b (key_up ∷ es) = (b ≡ false) × Alternates true es
Alternates b (key_down ∷ es) = (b ≡ true) × Alternates false es

-- The flag, the count and the edges agree.
pub record IsValid (p : Ptt) : Type 0 where
  pub keyed : (p.active ≡ true) ↔ (0 < p.refcount)
  pub flag : keyed_by false p.edges ≡ p.active
  pub alternate : Alternates false p.edges

keyed_by-append :
    (b : Bool) (es fs : List PttEdge) → keyed_by b (es ++ fs) ≡ keyed_by (keyed_by b es) fs
keyed_by-append b [] fs = refl
keyed_by-append b (key_up ∷ es) fs = keyed_by-append true es fs
keyed_by-append b (key_down ∷ es) fs = keyed_by-append false es fs

Alternates-append :
    (b : Bool) (es fs : List PttEdge)
    → Alternates b es
    → Alternates (keyed_by b es) fs
    → Alternates b (es ++ fs)
Alternates-append b [] fs a c = c
Alternates-append b (key_up ∷ es) fs a c = (a.0, Alternates-append true es fs a.1 c)
Alternates-append b (key_down ∷ es) fs a c = (a.0, Alternates-append false es fs a.1 c)

request_ptt-IsValid : (p : Ptt) → IsValid p → IsValid (request_ptt p)
unfolding request_ptt
request_ptt-IsValid p v =
    let up = key_up ∷ [] in
    ground (arith, keyed_by-append false p.edges up, Alternates-append false p.edges up v.alternate)

release_ptt-IsValid : (p : Ptt) → IsValid p → IsValid (release_ptt p)
unfolding release_ptt
release_ptt-IsValid p v =
    let down = key_down ∷ [] in
    ground
      (arith, keyed_by-append false p.edges down, Alternates-append false p.edges down v.alternate)

-- Whatever the modules call, in whatever order, the transmitter is keyed exactly while somebody holds
-- a reference, and the edges on the wire alternate, with the flag as the last of them.
pub run_ptt-IsValid : (p : Ptt) (cs : List PttCall) → IsValid p → IsValid (run_ptt p cs)
unfolding run_ptt
run_ptt-IsValid p [] v = v
run_ptt-IsValid p (request ∷ cs) v = run_ptt-IsValid (request_ptt p) cs (request_ptt-IsValid p v)
run_ptt-IsValid p (release ∷ cs) v = run_ptt-IsValid (release_ptt p) cs (release_ptt-IsValid p v)
