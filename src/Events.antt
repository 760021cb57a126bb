-- ===== src/Events.antt =====
-- src/kerchunk_events.c: the event bus, as the table of subscribers under its mutex.
pub mod Subscribers
pub mod Laws
use kerchunk.Prelude.{
  ℕ, zero, suc, ◌+◌, ◌-◌, Bool, true, false, not, ◌&&◌, ◌||◌, ltb, leb, ◌==◌, if◌then◌else◌, Option,
  none, some, List, [], ◌∷◌, ◌++◌, length,
}

-- `sub_slot_t`; a handler is known by its address, which is 0 for NULL.
pub record Sub : Type 0 where
  pub handler : ℕ
  pub userdata : ℕ

-- `g_subs` and `g_initialized`; the first `count` entries of a `sub_list_t` are its list.
pub record Bus : Type 0 where
  pub subs : ℕ → List Sub
  pub initialized : Bool

-- `KERCHEVT_MAX_SUBS`, `KERCHEVT_MAX_TYPES`, `KERCHEVT_CUSTOM`, and `KERCHEVT_BUILTIN_COUNT` from the
-- types listed in front of it.
abbrev pub max_subs : ℕ
max_subs = 32

abbrev pub max_types : ℕ
max_types = 1128

abbrev pub custom : ℕ
custom = 1000

abbrev pub builtin_count : ℕ
builtin_count = 29

-- `evt_index`; `none` is -1. The enumeration has no negative value, so its type is unsigned.
unfoldable pub evt_index : ℕ → Option ℕ
evt_index type =
    if ltb type builtin_count
    then some type
    else (if leb custom type && ltb type (custom + (max_types - builtin_count))
        then some (builtin_count + (type - custom))
        else none)

-- `kerchevt_init`
unfoldable pub init : Bus → Bus
init b = record { subs = λ i. []; initialized = true }

-- `kerchevt_shutdown`
unfoldable pub shutdown : Bus → Bus
shutdown b = record { subs = λ i. []; initialized = false }

-- The search for a handler.
unfoldable pub is_there : ℕ → List Sub → Bool
is_there h [] = false
is_there h (s ∷ l) = if s.handler == h then true else is_there h l

-- The table with a list in place of one.
abbrev pub put : ℕ → List Sub → Bus → Bus
put i l b = record b { subs = λ j. if i == j then l else b.subs j }

-- `kerchevt_subscribe` at the list of the type; the flag is false for -1.
unfoldable pub add_sub : ℕ → ℕ → ℕ → Bus → Bus × Bool
add_sub i h u b =
    if is_there h (b.subs i)
    then (b, true)
    else (if leb max_subs (length (b.subs i))
        then (b, false)
        else (put i (b.subs i ++ (record { handler = h; userdata = u } ∷ [])) b, true))

-- `kerchevt_subscribe`
unfoldable pub subscribe : ℕ → ℕ → ℕ → Bus → Bus × Bool
subscribe type h u b =
    if h == 0 || not b.initialized
    then (b, false)
    else (elim (evt_index type) [ none ↦ (b, false) | some i ↦ add_sub i h u b ])

-- The loop of `kerchevt_unsubscribe`: the first entry of the handler goes, and the ones behind it move
-- up.
unfoldable pub remove_first : ℕ → List Sub → List Sub
remove_first h [] = []
remove_first h (s ∷ l) = if s.handler == h then l else s ∷ remove_first h l

-- `kerchevt_unsubscribe` at the list of the type.
unfoldable pub remove_sub : ℕ → ℕ → Bus → Bus × Bool
remove_sub i h b =
    if is_there h (b.subs i) then (put i (remove_first h (b.subs i)) b, true) else (b, false)

-- `kerchevt_unsubscribe`
unfoldable pub unsubscribe : ℕ → ℕ → Bus → Bus × Bool
unsubscribe type h b =
    if h == 0 || not b.initialized
    then (b, false)
    else (elim (evt_index type) [ none ↦ (b, false) | some i ↦ remove_sub i h b ])

-- The handlers that `kerchevt_fire` takes from the table for a type.
unfoldable pub snapshot : ℕ → Bus → List Sub
snapshot type b =
    if not b.initialized then [] else (elim (evt_index type) [ none ↦ [] | some i ↦ b.subs i ])

-- `kerchevt_subscriber_count`
unfoldable pub subscriber_count : ℕ → Bus → ℕ
subscriber_count type b = length (snapshot type b)

-- `KERCHEVT_MAX_DEPTH`
abbrev pub max_depth : ℕ
max_depth = 16

-- The loop of `kerchevt_fire` over the snapshot.
unfoldable pub call_each : {W : Type 0} → (Sub → W → W) → List Sub → W → W
call_each call [] w = w
call_each call (s ∷ l) w = call_each call l (call s w)

-- `kerchevt_fire` in a world that holds the bus. A handler gets the function that fires an event from
-- inside it, one level deeper; the number is how many levels are left to `max_depth`.
unfoldable pub fire : {W : Type 0} → (W → Bus) → (Sub → ℕ → (ℕ → W → W) → W → W) → ℕ → ℕ → W → W
fire bus handle zero type w = w
fire bus handle (suc left) type w =
    call_each (λ s. handle s type (fire bus handle left)) (snapshot type (bus w)) w
