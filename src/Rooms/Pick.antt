-- ===== src/Rooms/Pick.antt =====
-- backend/internal/reswatcher/etcd/module_watcher.go and randomPickModule of
-- backend/rooms/service/resource_manager.go: the healthy modules, and the choice of one for a room.
-- `draw` stands for rand.IntN, `streams` for the stream count of the module's type.
pub mod Laws
use mathlib.Core.Option.{map}
use audio_rtc_exp.Prelude.{
  ℕ, zero, suc, String, List, [], ◌∷◌, Option, none, some, Map, lookup, insert, delete, length, leb,
  ltb, ◌==◌, string_eq, nat_eq, if◌then◌else◌, Bool, not, ◌&&◌, ◌||◌, is_some, true, false,
}
use audio_rtc_exp.Etcdstate.{module_key_heartbeat, module_key_mark}
use audio_rtc_exp.Etcdstate.Module.{
  ModuleState, HeartbeatData, MarkData, is_healthy, is_pickable, get_heartbeat, get_capacity,
  is_empty, set_heartbeat, set_mark,
}
use audio_rtc_exp.Watcher.Values.{parse_value}

-- The `healths` of a healthModuleWatcherImpl.
abbrev pub Healths : Type 0
Healths = Map ModuleState

unfoldable pub has : String → Healths → Bool
has id healths = is_some (lookup id healths)

-- A change of a module's state. A nil state is not healthy.
unfoldable pub process_change : String → Option ModuleState → Healths → Healths
unfolding is_healthy
process_change id none healths = delete id healths
process_change id (some s) healths =
    if is_healthy (some s) then insert id s healths else delete id healths

unfoldable pub rebuild_state : String → ModuleState → Healths → Healths
unfolding is_healthy
rebuild_state id s healths = if is_healthy (some s) then insert id s healths else healths

unfoldable pub get_all_healthy : Healths → List String
get_all_healthy [] = []
get_all_healthy ((id, s) ∷ healths) = id ∷ get_all_healthy healths

-- The state of a module after a change of one of its keys; none is a panic.
unfoldable pub new_module_state :
    (String → Option HeartbeatData)
    → (String → Option MarkData)
    → String
    → String
    → Option ModuleState
    → Option (Option ModuleState)
unfolding parse_value set_heartbeat set_mark is_empty
new_module_state heartbeat mark key_type value cur_state =
    let blank : ModuleState = record { heartbeat = none; mark = none } in
    let cur = if not (value == "") && not (is_some cur_state) then some blank else cur_state in
    let updated =
      if key_type == module_key_heartbeat
      then map (λ h. set_heartbeat h cur) (parse_value heartbeat value)
      else if key_type == module_key_mark
      then map (λ m. set_mark m cur) (parse_value mark value)
      else some cur in
    map (λ s. if is_empty s then none else s) updated

-- A module of the watcher that may take a room: pickable, and below its capacity.
unfoldable pub may_pick : (String → ℕ) → Healths → String → Bool
unfolding is_pickable get_heartbeat get_capacity
may_pick streams healths id = elim (lookup id healths) [
  | none ↦ false
  | some s ↦
      let capacity = get_capacity (get_heartbeat (some s)) in
      if not (is_pickable (some s))
      then false
      else if leb capacity 0
      then false
      else ltb (streams id) capacity
]

unfoldable pub pickable_keys : (String → ℕ) → Healths → List String → List String
unfolding may_pick
pickable_keys streams healths [] = []
pickable_keys streams healths (id ∷ ids) =
    let rest = pickable_keys streams healths ids in
    if may_pick streams healths id then id ∷ rest else rest

-- An index out of range does not arise: `draw n` is below n.
unfoldable pub at : List String → ℕ → String
at [] n = ""
at (k ∷ ks) zero = k
at (k ∷ ks) (suc n) = at ks n

unfoldable pub random_pick_module : (ℕ → ℕ) → (String → ℕ) → Healths → String
unfolding pickable_keys get_all_healthy at
random_pick_module draw streams healths =
    let keys = pickable_keys streams healths (get_all_healthy healths) in
    if length keys == 0 then "" else at keys (draw (length keys))
