-- ===== src/Users/Timeout.antt =====
-- CheckTimeout of backend/users/room/combine.go: statuses that were not renewed are cleared, and
-- rooms past their age are dropped. Each loop takes fuel; one turn more than there are tracks is
-- enough. The clock stands still during the call.
pub mod Turn
pub mod Ends
pub mod Loses
use audio_rtc_exp.Prelude.{
  ℕ, zero, suc, Bool, String, List, [], ◌∷◌, none, some, ℤ, Map, lookup, insert, delete, map,
  length, ◌==◌, nat_eq, if◌then◌else◌,
}
use audio_rtc_exp.Zset
use audio_rtc_exp.Zset.{Zset, Item}
use audio_rtc_exp.Users.{User, since_lt, user_status_timeout, room_max_ttl}
use audio_rtc_exp.Users.Mem.{RoomsStateMem}
use audio_rtc_exp.Users.Redis as Redis
use audio_rtc_exp.Users.Redis.{Strconv, ok, err}
use audio_rtc_exp.Users.Combine.{CombinedRoom, update_user_status}

pub data Outcome (A : Type 0) : Type 0 where
  finished : A → CombinedRoom → Outcome A
  failed : CombinedRoom → Outcome A
  out_of_fuel : Outcome A

abbrev pub cleared_user : ℕ → User
cleared_user now = record { role = ""; status = ""; ts = now; gen = ℤ.pos 0 }

-- `userTracker.Pop()`
unfoldable pub pop_user : CombinedRoom → CombinedRoom
pop_user c =
    let m = c.mem_state in
    record c { mem_state = record m { user_tracks = (Zset.pop m.user_tracks).1 } }

-- `roomTracker.Pop()`
unfoldable pub pop_room : CombinedRoom → CombinedRoom
pop_room c =
    let m = c.mem_state in
    record c { mem_state = record m { room_tracks = (Zset.pop m.room_tracks).1 } }

-- `userTracker.Remove(userID)` for every user of the room
unfoldable pub untrack_all : Map User → Zset String → Zset String
untrack_all [] z = z
untrack_all ((user_id, u) ∷ room) z = untrack_all room (Zset.remove user_id z)

-- The memory part of dropping a room.
unfoldable pub drop_room : String → RoomsStateMem → RoomsStateMem
unfolding untrack_all
drop_room room_id m =
    let room : Map User = elim (lookup room_id m.rooms) [ none ↦ [] | some us ↦ us ] in
    record m { user_tracks = untrack_all room m.user_tracks; rooms = delete room_id m.rooms }

module _ (conv : Strconv) (prefix : String) (now : ℕ) where
  unfoldable pub user_loop : ℕ → Map (Unit {0}) → CombinedRoom → Outcome (Map (Unit {0}))
  unfolding pop_user
  user_loop zero effected c = out_of_fuel
  user_loop (suc n) effected c = elim (Zset.len c.mem_state.user_tracks == 0) [
    | Bool.true ↦ finished effected c
    | Bool.false ↦ elim (Zset.peek c.mem_state.user_tracks) [
      | none ↦ finished effected c
      | some i ↦ elim (since_lt now i.ts user_status_timeout) [
        | Bool.true ↦ finished effected c
        | Bool.false ↦
            let (_, e, d) = update_user_status conv prefix i.payload i.key (cleared_user now) c in
            elim e [
              | err ↦ failed d
              | ok _ ↦ user_loop n (insert i.payload tt effected) (pop_user d)
            ]
      ]
    ]
  ]

  -- The Redis part of dropping a room.
  unfoldable pub drop_in_redis : String → Redis.M (Unit {0})
  drop_in_redis room_id =
      Redis.◌>>◌ (Redis.remove_room_user_status conv prefix room_id)
        (Redis.remove_room_track conv prefix room_id)

  unfoldable pub room_loop : ℕ → CombinedRoom → Outcome (Unit {0})
  unfolding pop_room drop_room drop_in_redis
  room_loop zero c = out_of_fuel
  room_loop (suc n) c = elim (Zset.len c.mem_state.room_tracks == 0) [
    | Bool.true ↦ finished tt c
    | Bool.false ↦ elim (Zset.peek c.mem_state.room_tracks) [
      | none ↦ finished tt c
      | some i ↦ elim (since_lt now i.ts room_max_ttl) [
        | Bool.true ↦ finished tt c
        | Bool.false ↦
            let (e, r) = drop_in_redis i.key c.redis_state in
            let d : CombinedRoom = record {
              mem_state = drop_room i.key c.mem_state;
              redis_state = r;
            } in
            elim e [ err ↦ failed d | ok _ ↦ room_loop n (pop_room d) ]
      ]
    ]
  ]

  -- The answer after the room loop: the rooms whose members changed, in some order.
  unfoldable pub report : List String → Outcome (Unit {0}) → Outcome (List String)
  report room_ids out_of_fuel = out_of_fuel
  report room_ids (failed c) = failed c
  report room_ids (finished _ c) = finished room_ids c

  -- The room loop runs if the user loop did not fail.
  unfoldable pub then_rooms : Outcome (Map (Unit {0})) → Outcome (List String)
  unfolding room_loop report
  then_rooms out_of_fuel = out_of_fuel
  then_rooms (failed c) = failed c
  then_rooms (finished effected c) =
      report (map (λ e. e.0) effected) (room_loop (suc (length c.mem_state.room_tracks.items)) c)

  unfoldable pub check_timeout : CombinedRoom → Outcome (List String)
  unfolding user_loop then_rooms
  check_timeout c = then_rooms (user_loop (suc (length c.mem_state.user_tracks.items)) [] c)
