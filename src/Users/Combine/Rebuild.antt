-- ===== src/Users/Combine/Rebuild.antt =====
-- Rebuild of backend/users/room/combine.go, with parseRoomTracks and parseUsersData of redis.go: the
-- rooms in memory read back from Redis. Go visits a map in no order.
use audio_rtc_exp.Prelude.{
  ℕ, String, [], ◌∷◌, none, some, ℤ, Map, lookup, insert, delete, length, ◌==◌, nat_eq, string_eq,
  if◌then◌else◌, trim_prefix,
}
use audio_rtc_exp.Zset
use audio_rtc_exp.Zset.{Zset}
use audio_rtc_exp.Users.{User, zero_user}
use audio_rtc_exp.Users.Mem.{RoomsStateMem, add_room_track}
use audio_rtc_exp.Users.Redis.{
  Strconv, Result, ok, err, M, hget_all, ◌>>=◌, from_unix, rooms_key, user_status_key,
}
use audio_rtc_exp.Users.Redis.Pack.{unpack_status}
use audio_rtc_exp.Users.Combine.{CombinedRoom}

unfoldable pub ensure_user : String → Map User → User
ensure_user user_id us = elim (lookup user_id us) [ none ↦ zero_user | some u ↦ u ]

-- A user whose restored status has no time gets the present.
unfoldable pub dated : ℕ → User → User
dated now u = if u.status == "" then u else record u { ts = if u.ts == 0 then now else u.ts }

-- The users of a room that have a role.
unfoldable pub kept_users : ℕ → Map User → Map User
unfolding dated
kept_users now [] = []
kept_users now ((user_id, u) ∷ room) =
    let rest = kept_users now room in
    if u.role == "" then delete user_id rest else insert user_id (dated now u) rest

unfoldable pub track_users : ℕ → String → Map User → Zset String → Zset String
unfolding dated
track_users now room_id [] tracks = tracks
track_users now room_id ((user_id, u) ∷ room) tracks =
    let rest = track_users now room_id room tracks in
    if u.role == ""
    then rest
    else if u.status == ""
    then rest
    else Zset.put user_id room_id (dated now u).ts rest

module _ (conv : Strconv) (prefix : String) where
  unfoldable pub track_time : ℕ → String → ℕ
  track_time now ts_str = elim (conv.parse_int 64 ts_str) [ none ↦ now | some n ↦ from_unix n ]

  unfoldable pub parse_tracks : ℕ → Map String → Map ℕ
  unfolding track_time
  parse_tracks now [] = []
  parse_tracks now ((room_id, ts_str) ∷ data_) =
      insert room_id (track_time now ts_str) (parse_tracks now data_)

  unfoldable pub parse_room_tracks : ℕ → M (Map ℕ)
  unfolding hget_all parse_tracks
  parse_room_tracks now =
      hget_all (rooms_key prefix) >>= λ data_. λ r. (ok (parse_tracks now data_), r)

  unfoldable pub with_role : String → User → User
  with_role role u = record u { role = role }

  -- The three results of unpackStatus are assigned also when it fails.
  unfoldable pub with_status : String → User → User
  unfolding unpack_status
  with_status value u = elim (unpack_status conv value) [
    | none ↦ record u { ts = 0; status = ""; gen = ℤ.pos 0 }
    | some (ts, status, gen) ↦ record u { ts = ts; status = status; gen = gen }
  ]

  unfoldable pub take_field : String → String → Map User → Map User
  unfolding trim_prefix ensure_user with_role with_status
  take_field field value us = elim (trim_prefix "m:" field) [
    | some user_id ↦ insert user_id (with_role value (ensure_user user_id us)) us
    | none ↦ elim (trim_prefix "s:" field) [
      | some user_id ↦ insert user_id (with_status value (ensure_user user_id us)) us
      | none ↦ us
    ]
  ]

  unfoldable pub parse_users_data : Map String → Map User
  unfolding take_field
  parse_users_data [] = []
  parse_users_data ((field, value) ∷ data_) = take_field field value (parse_users_data data_)

  -- A room without fields in its hash is left out.
  unfoldable pub restore_room : ℕ → String → Map String → RoomsStateMem → RoomsStateMem
  unfolding parse_users_data kept_users track_users
  restore_room now room_id data_ m =
      if length data_ == 0
      then m
      else let room = parse_users_data data_ in
        record m {
          rooms = insert room_id (kept_users now room) m.rooms;
          user_tracks = track_users now room_id room m.user_tracks;
        }

  -- An error ends the loop with the rooms restored so far.
  unfoldable pub rebuild_rooms : ℕ → Map ℕ → CombinedRoom → Result (Unit {0}) × CombinedRoom
  unfolding restore_room hget_all add_room_track
  rebuild_rooms now [] c = (ok tt, c)
  rebuild_rooms now ((room_id, ts) ∷ tracking) c =
      let m = add_room_track room_id ts c.mem_state in
      let (found, r) = hget_all (user_status_key prefix room_id) c.redis_state in
      elim found [
        | err ↦ (err, record { mem_state = m; redis_state = r })
        | ok data_ ↦
            rebuild_rooms now tracking
              (record { mem_state = restore_room now room_id data_ m; redis_state = r })
      ]

  unfoldable pub rebuild : ℕ → CombinedRoom → Result (Unit {0}) × CombinedRoom
  unfolding parse_room_tracks rebuild_rooms
  rebuild now c =
      let (tracking, r) = parse_room_tracks now c.redis_state in
      elim tracking [
        | err ↦ (err, record c { redis_state = r })
        | ok ts ↦ rebuild_rooms now ts (record c { redis_state = r })
      ]
