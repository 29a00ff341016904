-- ===== src/Wsgateway/Guard.antt =====
-- conn_guard.go: one connection of each user, by a lock in Redis. A key expires at a time in
-- milliseconds; the Lua scripts are functions on the keys.
pub mod Lock
pub mod Steps
use Prim.Native.String.{◌++◌}
use audio_rtc_exp.Prelude.{
  ℕ, ◌+◌, ◌*◌, String, List, [], ◌∷◌, Option, none, some, Map, lookup, insert, delete, ltb, ◌==◌,
  string_eq, nat_eq, if◌then◌else◌, Bool, true, false,
}

pub record Value : Type 0 where
  pub text : String
  pub expires : ℕ

abbrev pub Redis : Type 0
Redis = Map Value

-- GET: an expired key is no key.
unfoldable pub alive : ℕ → Option Value → Option String
alive now none = none
alive now (some v) = if ltb now v.expires then some v.text else none

unfoldable pub get : ℕ → String → Redis → Option String
unfolding alive
get now key redis = alive now (lookup key redis)

-- SET with PX
unfoldable pub set : ℕ → String → String → ℕ → Redis → Redis
set now key text px redis = insert key (record { text = text; expires = now + px }) redis

-- EXISTS answers 0.
abbrev pub missing : Option String → Bool
missing none = true
missing (some v) = false

unfoldable pub acquire_conn_lock : ℕ → String → String → String → ℕ → Redis → ℕ × Redis
unfolding get set
acquire_conn_lock now lock_key server_key text ttl redis = elim (get now lock_key redis) [
  | none ↦ (1, set now lock_key text ttl redis)
  | some cur ↦
      if cur == text
      then (1, set now lock_key text ttl redis)
      else if missing (get now server_key redis)
      then (1, set now lock_key text ttl redis)
      else (0, redis)
]

unfoldable pub release_conn_lock : ℕ → String → String → Redis → ℕ × Redis
unfolding get
release_conn_lock now lock_key text redis = elim (get now lock_key redis) [
  | none ↦ (0, redis)
  | some cur ↦ if cur == text then (1, delete lock_key redis) else (0, redis)
]

abbrev pub second : ℕ
second = 1000

-- connLockTTL.Microseconds(), which the script takes for milliseconds
abbrev pub conn_lock_px : ℕ
conn_lock_px = 30 * (1000 * second)

abbrev pub server_hb_ttl : ℕ
server_hb_ttl = 3 * second

module _ (prefix : String) where
  unfoldable pub conn_key : String → String
  conn_key user_id = prefix ++ (":c:" ++ user_id)

  unfoldable pub server_key : String → String
  server_key server_id = prefix ++ (":s:" ++ server_id)

unfoldable pub lock_value : String → String → String
lock_value server_id nonce = server_id ++ (":" ++ nonce)

-- What a call of Redis answers, or that it failed.
pub data Held : Type 0 where
  held : Held
  not_held : Held
  failed : Held

module _ (prefix server_id : String) where
  -- `reachable` says whether Redis answers. A connection that does not hold the lock is closed.
  unfoldable pub must_hold : Bool → ℕ → String → String → Redis → Held × Redis
  unfolding acquire_conn_lock conn_key server_key lock_value
  must_hold false now user_id conn_id redis = (failed, redis)
  must_hold true now user_id conn_id redis =
      let r =
        acquire_conn_lock now (conn_key prefix user_id) (server_key prefix server_id)
          (lock_value server_id conn_id) conn_lock_px redis in
      (if r.0 == 1 then held else not_held, r.1)

  unfoldable pub release : Bool → ℕ → String → String → Redis → Bool × Redis
  unfolding release_conn_lock conn_key lock_value
  release false now user_id conn_id redis = (false, redis)
  release true now user_id conn_id redis = (
    true,
    (release_conn_lock now (conn_key prefix user_id) (lock_value server_id conn_id) redis).1,
  )

  -- setHearbeat
  unfoldable pub set_heartbeat : ℕ → Redis → Redis
  unfolding set server_key
  set_heartbeat now redis = set now (server_key prefix server_id) "1" server_hb_ttl redis

  -- The end of the heartbeat loop.
  unfoldable pub stop_heartbeat : Redis → Redis
  unfolding server_key
  stop_heartbeat redis = delete (server_key prefix server_id) redis
