-- ===== src/Users.antt =====
-- backend/users: who is in which room, with which role and status. Times are nanoseconds since the
-- zero `time.Time`, and the clock is an argument that stands still during a call.
pub mod Redis
pub mod Mem
pub mod Combine
pub mod Timeout
pub mod Control
mod Tests
use audio_rtc_exp.Prelude.{ℕ, ◌-◌, ◌*◌, ◌^◌, String, ℤ, Bool, Option, none, some, ltb}

abbrev pub second : ℕ
second = 10 ^ 9

abbrev pub user_status_timeout : ℕ
user_status_timeout = 30 * second

abbrev pub room_max_ttl : ℕ
room_max_ttl = 6 * 3600 * second

-- `gen` is an int32; an AnchorStatus is its string.
pub record User : Type 0 where
  pub role : String
  pub status : String
  pub ts : ℕ
  pub gen : ℤ

abbrev pub zero_user : User
zero_user = record { role = ""; status = ""; ts = 0; gen = ℤ.pos 0 }

-- `time.Since(ts) < d`, also where `ts` lies ahead of the clock
abbrev pub since_lt : ℕ → ℕ → ℕ → Bool
since_lt now ts d = ltb (now - ts) d

-- IsActive of a pointer
unfoldable pub is_active : ℕ → Option User → Bool
is_active now none = Bool.false
is_active now (some u) = since_lt now u.ts user_status_timeout
