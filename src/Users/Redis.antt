-- ===== src/Users/Redis.antt =====
-- backend/users/room/redis.go: the copy of the rooms in Redis, hashes of strings.
-- A call to Redis goes through the retrying client, which fails only when its context ends; `faults`
-- says of each next call whether it fails. strconv is a parameter.
pub mod Pack
pub mod Keys
pub mod Calls
use Prim.Native.String.{◌++◌}
use audio_rtc_exp.Prelude.{
  ℕ, suc, ◌+◌, ◌-◌, ◌*◌, ◌/◌, Bool, true, false, String, List, [], ◌∷◌, Option, none, some, ℤ,
  sub_ℕ, Map, lookup, insert, delete, ◌==◌, string_eq, if◌then◌else◌,
}
use audio_rtc_exp.Users.{User, second}

pub record Redis : Type 0 where
  pub hashes : Map (Map String)
  pub faults : List Bool

pub data Result {ℓ} (A : Type ℓ) : Type ℓ where
  ok : A → Result A
  err : Result A

abbrev pub M : Type 0 → Type 0
M A = Redis → Result A × Redis

infixl 5 ◌>>=◌ ◌>>◌
abbrev pub ◌>>=◌ : {A B : Type 0} → M A → (A → M B) → M B
◌>>=◌ m f r = let (a, s) = m r in elim a [ ok x ↦ f x s | err ↦ (err, s) ]

abbrev pub ◌>>◌ : {B : Type 0} → M (Unit {0}) → M B → M B
m >> k = m >>= λ _. k

abbrev pub done : M (Unit {0})
done r = (ok tt, r)

-- One call: it fails and does nothing, or answers.
unfoldable pub call : {A : Type 0} → (Map (Map String) → A × Map (Map String)) → M A
call f r = elim r.faults [
  | [] ↦ let (a, h) = f r.hashes in (ok a, record r { hashes = h })
  | false ∷ fs ↦ let (a, h) = f r.hashes in (ok a, record { hashes = h; faults = fs })
  | true ∷ fs ↦ (err, record r { faults = fs })
]

-- A hash that is not there is empty.
abbrev pub hash : String → Map (Map String) → Map String
hash key h = elim (lookup key h) [ none ↦ [] | some m ↦ m ]

unfoldable pub hset : String → String → String → M (Unit {0})
unfolding call
hset key field value = call λ h. (tt, insert key (insert field value (hash key h)) h)

unfoldable pub delete_all : List String → Map String → Map String
delete_all [] m = m
delete_all (f ∷ fs) m = delete_all fs (delete f m)

unfoldable pub hdel : String → List String → M (Unit {0})
unfolding call delete_all
hdel key fields = call λ h. (tt, insert key (delete_all fields (hash key h)) h)

unfoldable pub del : String → M (Unit {0})
unfolding call
del key = call λ h. (tt, delete key h)

unfoldable pub hget_all : String → M (Map String)
unfolding call
hget_all key = call λ h. (hash key h, h)

-- strconv.FormatInt and ParseInt in base 10; the number is the width in bits.
pub record Strconv : Type 0 where
  pub format_int : ℤ → String
  pub parse_int : ℕ → String → Option ℤ

-- The seconds from year 1 to 1970: `ts.Unix()` of a time in nanoseconds since year 1.
abbrev unix_epoch : ℕ
unix_epoch = 62135596800

unfoldable pub unix : ℕ → ℤ
unix ts = sub_ℕ (ts / second) unix_epoch

-- `time.Unix(n, 0)`; times before year 1 do not arise from `unix`.
unfoldable pub from_unix : ℤ → ℕ
from_unix (ℤ.pos n) = (unix_epoch + n) * second
from_unix (ℤ.negsuc n) = (unix_epoch - suc n) * second

unfoldable pub rooms_key : String → String
rooms_key prefix = prefix ++ ":rooms"

unfoldable pub user_status_key : String → String → String
user_status_key prefix room_id = prefix ++ (":r:" ++ (room_id ++ ":us"))

unfoldable pub status_field : String → String
status_field user_id = "s:" ++ user_id

unfoldable pub meta_field : String → String
meta_field user_id = "m:" ++ user_id

unfoldable pub pack_status : Strconv → User → String
unfolding unix
pack_status conv u =
    conv.format_int (unix u.ts) ++ ("," ++ (u.status ++ ("," ++ conv.format_int u.gen)))

module _ (conv : Strconv) (prefix : String) where
  unfoldable pub add_room_track : String → ℕ → M (Unit {0})
  unfolding hset
  add_room_track room_id ts = hset (rooms_key prefix) room_id (conv.format_int (unix ts))

  unfoldable pub remove_room_track : String → M (Unit {0})
  unfolding hdel
  remove_room_track room_id = hdel (rooms_key prefix) (room_id ∷ [])

  unfoldable pub remove_room_user_status : String → M (Unit {0})
  unfolding del
  remove_room_user_status room_id = del (user_status_key prefix room_id)

  unfoldable pub create_room_user : String → String → User → M (Unit {0})
  unfolding add_room_track hset
  create_room_user room_id user_id u = do
    add_room_track room_id u.ts
    hset (user_status_key prefix room_id) (meta_field user_id) u.role

  unfoldable pub set_user_status : String → String → User → M (Unit {0})
  unfolding hdel hset
  set_user_status room_id user_id u =
      if u.status == ""
      then hdel (user_status_key prefix room_id) (status_field user_id ∷ [])
      else hset (user_status_key prefix room_id) (status_field user_id) (pack_status conv u)

  unfoldable pub remove_room_user : String → String → Bool → M (Unit {0})
  unfolding hdel remove_room_track
  remove_room_user room_id user_id last_user = do
    hdel (user_status_key prefix room_id) (status_field user_id ∷ meta_field user_id ∷ [])
    if last_user then remove_room_track room_id else done
