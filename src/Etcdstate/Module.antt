-- ===== src/Etcdstate/Module.antt =====
-- The state of a module, a Janus manager or a mixer, and when it may serve rooms.
use audio_rtc_exp.Prelude.{
  ℕ, ◌≡◌, refl, ◌↔◌, Bool, true, false, String, Option, none, some, ◌&&◌, ◌||◌, not, is_some, ◌==◌,
  string_eq, if◌then◌else◌, arith, eq_iff,
}
use audio_rtc_exp.Etcdstate.{module_status_healthy, mark_label_ready, mark_label_cordon}

pub record HeartbeatData : Type 0 where
  pub status : String
  pub host : String
  pub capacity : ℕ
  pub started_at : ℕ

unfoldable pub get_status : Option HeartbeatData → String
get_status none = ""
get_status (some h) = h.status

unfoldable pub get_capacity : Option HeartbeatData → ℕ
get_capacity none = 0
get_capacity (some h) = h.capacity

pub record MarkData : Type 0 where
  pub label : String

unfoldable pub get_label : Option MarkData → String
get_label none = ""
get_label (some m) = m.label

pub record ModuleState : Type 0 where
  pub heartbeat : Option HeartbeatData
  pub mark : Option MarkData

unfoldable pub is_empty : Option ModuleState → Bool
is_empty none = true
is_empty (some m) = not (is_some m.heartbeat) && not (is_some m.mark)

unfoldable pub get_heartbeat : Option ModuleState → Option HeartbeatData
get_heartbeat none = none
get_heartbeat (some m) = m.heartbeat

unfoldable pub get_mark : Option ModuleState → Option MarkData
get_mark none = none
get_mark (some m) = m.mark

unfoldable pub set_heartbeat : Option HeartbeatData → Option ModuleState → Option ModuleState
set_heartbeat h none = none
set_heartbeat h (some m) = some (record m { heartbeat = h })

unfoldable pub set_mark : Option MarkData → Option ModuleState → Option ModuleState
set_mark k none = none
set_mark k (some m) = some (record m { mark = k })

unfoldable pub is_healthy : Option ModuleState → Bool
unfolding get_heartbeat get_status
is_healthy m = get_status (get_heartbeat m) == module_status_healthy

-- A missing label means ready.
unfoldable pub effective_label : Option ModuleState → String
unfolding get_mark get_label
effective_label m =
    let label = get_label (get_mark m) in if label == "" then mark_label_ready else label

unfoldable pub is_pickable : Option ModuleState → Bool
unfolding is_healthy effective_label
is_pickable none = false
is_pickable (some m) = is_healthy (some m) && effective_label (some m) == mark_label_ready

unfoldable pub is_stable : Option ModuleState → Bool
unfolding is_healthy effective_label
is_stable none = false
is_stable (some m) =
    is_healthy (some m)
    && (effective_label (some m) == mark_label_ready
        || effective_label (some m) == mark_label_cordon)

ready_ne_cordon : (l : String) → (l == mark_label_ready) ≡ true → (l == mark_label_cordon) ≡ false
ready_ne_cordon l e = rw ((eq_iff l mark_label_ready).0 e) refl

-- A module may get new rooms exactly when it is stable and not cordoned.
pub pickable_iff :
    (m : Option ModuleState)
    → (is_pickable m ≡ true)
      ↔ ((is_stable m ≡ true) × ((effective_label m == mark_label_cordon) ≡ false))
unfolding is_pickable is_stable
pickable_iff none = ground arith
pickable_iff (some m) = ground (arith, ready_ne_cordon (effective_label (some m)))
