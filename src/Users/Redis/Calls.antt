-- ===== src/Users/Redis/Calls.antt =====
-- What the calls leave in the hashes when Redis answers.
use audio_rtc_exp.Prelude.{
  ◌≡◌, String, [], Map, insert, delete, Bool, ◌==◌, string_eq, if◌then◌else◌, arith,
}
use audio_rtc_exp.Users.{User}
use audio_rtc_exp.Users.Redis.{
  Redis, Strconv, ok, hash, hset, hdel, delete_all, unix, rooms_key, user_status_key, status_field,
  meta_field, pack_status, create_room_user, set_user_status, remove_room_user, remove_room_track,
  add_room_track,
}

-- Redis with the given hashes and no fault ahead.
abbrev pub live : Map (Map String) → Redis
live h = record { hashes = h; faults = [] }

module _ (conv : Strconv) (prefix : String) (room_id user_id : String) (r : Redis)
    (e : r.faults ≡ []) where
  abbrev own : String
  own = user_status_key prefix room_id

  pub create_alive :
      (u : User)
      → create_room_user conv prefix room_id user_id u r ≡ (
        ok tt,
        live (
            insert own
              (insert (meta_field user_id) u.role (
                hash own (
                  insert
                    (rooms_key prefix)
                    (insert room_id
                      (conv.format_int (unix u.ts))
                      (hash (rooms_key prefix) r.hashes))
                    r.hashes)))
              (insert
                (rooms_key prefix)
                (insert room_id (conv.format_int (unix u.ts)) (hash (rooms_key prefix) r.hashes))
                r.hashes)),
      )
  unfolding create_room_user add_room_track hset
  create_alive u = ground (arith, e)

  pub set_alive :
      (u : User)
      → set_user_status conv prefix room_id user_id u r ≡ (
        ok tt,
        live (
            insert own
              (if u.status == ""
                then delete (status_field user_id) (hash own r.hashes)
                else insert (status_field user_id) (pack_status conv u) (hash own r.hashes))
              r.hashes),
      )
  unfolding set_user_status hset hdel delete_all
  set_alive u = ground (arith, e)

  -- The hashes without the two fields of the user.
  abbrev pub emptied : Map (Map String)
  emptied =
      insert own (delete (meta_field user_id) (delete (status_field user_id) (hash own r.hashes)))
        r.hashes

  pub remove_alive :
      (last_user : Bool)
      → remove_room_user conv prefix room_id user_id last_user r ≡ (
        ok tt,
        live (
            if last_user
            then insert
                (rooms_key prefix)
                (delete room_id (hash (rooms_key prefix) emptied))
                emptied
            else emptied),
      )
  unfolding remove_room_user remove_room_track hdel delete_all
  remove_alive last_user = ground (arith, e)
