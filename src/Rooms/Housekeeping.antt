-- ===== src/Rooms/Housekeeping.antt =====
-- backend/rooms/service/housekeeping.go and IsExceed of backend/rooms/utils/utils.go: which rooms
-- are removed, and when. Times are nanoseconds, 0 for the zero time.
pub mod Laws
use audio_rtc_exp.Prelude.{
  ℕ, ◌-◌, ◌*◌, ◌^◌, String, List, [], ◌∷◌, ◌++◌, Option, none, some, Map, lookup, ltb, ◌==◌, nat_eq,
  string_eq, if◌then◌else◌, Bool, true, false, not, ◌&&◌, ◌||◌, is_some,
}
use audio_rtc_exp.Users.{second}
use audio_rtc_exp.Etcdstate.{room_status_on_air}
use audio_rtc_exp.Etcdstate.Meta.{Meta}
use audio_rtc_exp.Etcdstate.LiveMeta.{LiveMeta}
use audio_rtc_exp.Etcdstate.Room.{RoomState}
use audio_rtc_exp.Etcdstate.Module.{is_stable}
use audio_rtc_exp.Rooms.Pick.{Healths}

abbrev pub start_timeout : ℕ
start_timeout = 10 * (60 * second)

abbrev pub inactive_graceful_period : ℕ
inactive_graceful_period = 60 * second

abbrev pub room_max_age : ℕ
room_max_age = 3 * (3600 * second)

-- time.Since: from the zero time the difference is the longest duration; a time ahead counts as now.
unfoldable pub since : ℕ → ℕ → ℕ
since now t = if t == 0 then 2 ^ 63 - 1 else now - t

unfoldable pub is_exceed : ℕ → ℕ → ℕ → Bool
unfolding since
is_exceed now timestamp duration =
    if timestamp == 0 then false else ltb duration (since now timestamp)

-- Whether checkStaleRoom calls deleteRoom on a state of the cache.
unfoldable pub is_stale : ℕ → RoomState → Bool
unfolding since is_exceed
is_stale now state = elim state.meta [
  | none ↦ true
  | some meta ↦ elim state.live_meta [
    | none ↦ ltb start_timeout (since now meta.created_at)
    | some livemeta ↦
        if livemeta.status == room_status_on_air && ltb room_max_age (since now meta.created_at)
        then true
        else elim livemeta.discard_at [
          | none ↦ false
          | some discard_at ↦ is_exceed now discard_at inactive_graceful_period
        ]
  ]
]

-- The calls of deleteRoom, in order; an error of one is logged and the next room is checked.
unfoldable pub check_stale_room : ℕ → Map RoomState → String → List String
unfolding is_stale
check_stale_room now cache room_id = elim (lookup room_id cache) [
  | none ↦ []
  | some state ↦ if is_stale now state then room_id ∷ [] else []
]

-- `rooms` is the answer of GetAllRooms, none for an error.
unfoldable pub check_stale_rooms : ℕ → Map RoomState → Option (List String) → List String
unfolding check_stale_room
check_stale_rooms now cache none = []
check_stale_rooms now cache (some []) = []
check_stale_rooms now cache (some (r ∷ rooms)) =
    check_stale_room now cache r ++ check_stale_rooms now cache (some rooms)

-- checkRoomModule reports: whether the mixer, and the Janus, of a room on air is unhealthy.
unfoldable pub check_room_module : Healths → Healths → Option RoomState → Bool × Bool
unfolding is_stable
check_room_module mixers januses none = (false, false)
check_room_module mixers januses (some state) = elim state.live_meta [
  | none ↦ (false, false)
  | some livemeta ↦ if not (livemeta.status == room_status_on_air) then (false, false) else (
    not (is_stable (lookup livemeta.mixer_id mixers)),
    not (is_stable (lookup livemeta.janus_id januses)),
  )
]
