-- ===== src/Users/Combine.antt =====
-- backend/users/room/combine.go: every change is made in memory first, and then in Redis.
pub mod Agree
pub mod Rebuild
pub mod Fields
pub mod Restores
use audio_rtc_exp.Prelude.{
  ℕ, Bool, true, false, String, List, [], ◌∷◌, none, some, ℤ, Map, if◌then◌else◌,
}
use audio_rtc_exp.Users.{User}
use audio_rtc_exp.Users.Mem as Mem
use audio_rtc_exp.Users.Mem.{RoomsStateMem}
use audio_rtc_exp.Users.Redis as Redis
use audio_rtc_exp.Users.Redis.{Strconv, Result, ok}

pub record CombinedRoom : Type 0 where
  pub mem_state : RoomsStateMem
  pub redis_state : Redis.Redis

-- The two results of a Go method, the flag and the error, and the new state.
abbrev pub Reply : Type 0
Reply = Bool × Result (Unit {0}) × CombinedRoom

-- Make the change in Redis that goes with the memory state `m`.
abbrev pub then_redis : Redis.M (Unit {0}) → RoomsStateMem → CombinedRoom → Reply
then_redis act m c =
    let (e, r) = act c.redis_state in (true, e, record { mem_state = m; redis_state = r })

abbrev pub unchanged : CombinedRoom → Reply
unchanged c = (false, ok tt, c)

module _ (conv : Strconv) (prefix : String) where
  unfoldable pub create_user : String → String → User → CombinedRoom → Reply
  create_user room_id user_id u c =
      let (entered, m) = Mem.create_room_user room_id user_id u c.mem_state in
      if entered
      then then_redis (Redis.create_room_user conv prefix room_id user_id u) m c
      else unchanged c

  unfoldable pub update_user_status : String → String → User → CombinedRoom → Reply
  update_user_status room_id user_id u c =
      let (found, m, w) = Mem.set_user_status room_id user_id u c.mem_state in
      if found
      then then_redis (Redis.set_user_status conv prefix room_id user_id w) m c
      else unchanged c

  unfoldable pub remove_user : String → String → CombinedRoom → Reply
  remove_user room_id user_id c =
      let (found, last_user, m) = Mem.remove_room_user room_id user_id c.mem_state in
      if found
      then then_redis (Redis.remove_room_user conv prefix room_id user_id last_user) m c
      else unchanged c

unfoldable pub get_room_users : String → CombinedRoom → Map User
unfolding Mem.get_room_users
get_room_users room_id c = Mem.get_room_users room_id c.mem_state
