-- ===== src/Users/Tests.antt =====
-- The rooms of users at concrete states.
use mathlib.Core.Path.{subst}
use Prim.Native.Char.{code}
use audio_rtc_exp.Prelude.{
  List, ◌+◌, ℕ, zero, suc, ◌*◌, ◌≤◌, ◌≡◌, refl, ap, ◌⊎◌, String, [], ◌∷◌, Option, none, some, arith,
  ℤ, Map, lookup, insert, ◌==◌, string_eq, nat_eq, if◌then◌else◌, length, Without,
}
use audio_rtc_exp.Zset.{Item, new, put}
use audio_rtc_exp.Zset.Laws.{new-IsValid}
use audio_rtc_exp.Users.{User, second}
use audio_rtc_exp.Users.Mem as Mem
use audio_rtc_exp.Users.Mem.{RoomsStateMem}
use audio_rtc_exp.Users.Mem.Laws.{IsValid, member}
use audio_rtc_exp.Users.Mem.Preserve.{create_room_user-IsValid, set_user_status-IsValid}
use audio_rtc_exp.Users.Redis.{Strconv, unix, pack_status}
use audio_rtc_exp.Users.Redis.Pack.{comma, IsDecimal}
use audio_rtc_exp.Users.Combine.{CombinedRoom, create_user, update_user_status, remove_user}
use audio_rtc_exp.Users.Combine.Agree.{
  Agrees, InStep, create_user-InStep, update_user_status-InStep, remove_user-InStep,
}
use audio_rtc_exp.Users.Combine.Rebuild.{rebuild}
use audio_rtc_exp.Users.Combine.Restores.{combined, no_rooms, back, Fits, rebuild-Restores}
use audio_rtc_exp.Users.Redis as Redis
use audio_rtc_exp.Users.Timeout.{check_timeout, user_loop}
use audio_rtc_exp.Users.Timeout.Ends.{Ends, BothWithin, check_timeout-Ends}
use audio_rtc_exp.Users.Timeout.Loses.{Forgotten, user_loop_loses_next}
use audio_rtc_exp.Users.Control.{UserStatusControl, CreateUserRequest, creates, run_event}
use audio_rtc_exp.Users.Control.Limit.{size, Allows, run_event_limit}
use audio_rtc_exp.Users.Control.Replies.{
  Stimulus, create_request, event, ticking, replies_to, arrivals, answers, owed,
}
use audio_rtc_exp.Users.Control.Runs.{run, process_all, run-replies_to}

-- A number as so many characters, with its sign in front.
unfoldable unary : ℕ → String
unary zero = String.[]
unary (suc n) = String.◌∷◌ "1" (unary n)

unfoldable signed : ℤ → String
unfolding unary
signed (ℤ.pos n) = String.◌∷◌ "p" (unary n)
signed (ℤ.negsuc n) = String.◌∷◌ "m" (unary n)

unfoldable ones : String → ℕ
ones String.[] = zero
ones (String.◌∷◌ c s) = suc (ones s)

unfoldable read : ℕ → String → Option ℤ
unfolding ones
read w String.[] = none
read w (String.◌∷◌ c s) = if code c == 112 then some (ℤ.pos (ones s)) else some (ℤ.negsuc (ones s))

abbrev conv : Strconv
conv = record { format_int = signed; parse_int = read }

ones-unary : (n : ℕ) → ones (unary n) ≡ n
unfolding ones unary
ones-unary zero = refl
ones-unary (suc n) = ap suc (ones-unary n)

unary_whole : (n : ℕ) → Without comma (unary n)
unfolding unary
unary_whole zero = tt
unary_whole (suc n) = (ground arith, unary_whole n)

read-signed : (w : ℕ) (z : ℤ) → read w (signed z) ≡ some z
unfolding read signed
read-signed w (ℤ.pos n) = ap (λ k. some (ℤ.pos k)) (ones-unary n)
read-signed w (ℤ.negsuc n) = ap (λ k. some (ℤ.negsuc k)) (ones-unary n)

signed_whole : (z : ℤ) → Without comma (signed z)
unfolding signed
signed_whole (ℤ.pos n) = (ground arith, unary_whole n)
signed_whole (ℤ.negsuc n) = (ground arith, unary_whole n)

conv-IsDecimal : IsDecimal conv
conv-IsDecimal = record { parse-format = λ w z h. read-signed w z; digits = signed_whole }

abbrev anchor : User
anchor = record { role = "anchor"; status = "onair"; ts = 62135596805 * second; gen = ℤ.pos 3 }

abbrev nobody : RoomsStateMem
nobody = record { rooms = []; user_tracks = new; room_tracks = new }

nobody-IsValid : IsValid nobody
unfolding lookup new
nobody-IsValid = record {
  users_ordered = new-IsValid;
  rooms_ordered = new-IsValid;
  rooms_once = tt;
  users_once = λ k m e. ground arith;
  occupied = λ k m e. ground arith;
  expiring = λ k m e. ground arith;
  placed = λ u i e. ground arith;
}

abbrev role_only : String → ℕ → User
role_only r t = record { role = r; status = ""; ts = t; gen = ℤ.pos 0 }

abbrev one_in : RoomsStateMem
one_in = (Mem.create_room_user "r" "a" (role_only "anchor" second) nobody).1

abbrev two_in : RoomsStateMem
two_in = (Mem.create_room_user "r" "b" (role_only "anchor" (60 * second)) one_in).1

two_in-IsValid : IsValid two_in
two_in-IsValid =
    create_room_user-IsValid "r" "b" (role_only "anchor" (60 * second)) one_in
      (create_room_user-IsValid "r" "a" (role_only "anchor" second) nobody nobody-IsValid)

abbrev blank : CombinedRoom
blank = record { mem_state = nobody; redis_state = record { hashes = []; faults = [] } }

blank-Agrees : Agrees conv "users" nobody []
unfolding lookup new
blank-Agrees = record { roles = λ k j. refl; statuses = λ k j. refl; tracks = λ k. refl }

abbrev first_in : CombinedRoom
first_in = (create_user conv "users" "r" "a" (role_only "anchor" second) blank).2

first_in-InStep :
    InStep conv "users"
      (create_user conv "users" "r" "a" (role_only "anchor" second) blank).1
      first_in
first_in-InStep =
    create_user-InStep conv "users" "r" "a" blank refl blank-Agrees (role_only "anchor" second)

create_user-InStep_example :
    let r = create_user conv "users" "r" "b" (role_only "guest" second) first_in in
    InStep conv "users" r.1 r.2
create_user-InStep_example =
    create_user-InStep conv "users" "r" "b" first_in first_in-InStep.alive first_in-InStep.agrees
      (role_only "guest" second)

update_user_status-InStep_example :
    let r = update_user_status conv "users" "r" "a" anchor first_in in InStep conv "users" r.1 r.2
update_user_status-InStep_example =
    update_user_status-InStep conv "users" "r" "a" first_in first_in-InStep.alive
      first_in-InStep.agrees anchor

abbrev on_air : CombinedRoom
on_air = (update_user_status conv "users" "r" "a" anchor first_in).2

on_air-InStep :
    InStep conv "users" (update_user_status conv "users" "r" "a" anchor first_in).1 on_air
on_air-InStep =
    update_user_status-InStep conv "users" "r" "a" first_in first_in-InStep.alive
      first_in-InStep.agrees anchor

on_air-IsValid : IsValid on_air.mem_state
unfolding update_user_status create_user Redis.create_room_user Redis.set_user_status
    Mem.set_user_status Mem.create_room_user lookup insert put new
on_air-IsValid =
    set_user_status-IsValid "r" "a" anchor one_in
      (create_room_user-IsValid "r" "a" (role_only "anchor" second) nobody nobody-IsValid)

anchor-Fits : Fits anchor
unfolding unix
anchor-Fits = record { plain = ground arith; seconds = omega arith; generation = omega arith }

on_air-Fits : (k j : String) (u : User) → member k j on_air.mem_state.rooms ≡ some u → Fits u
unfolding update_user_status create_user Redis.create_room_user Redis.set_user_status
    Mem.set_user_status Mem.create_room_user lookup insert put new
on_air-Fits k j u e =
    let same : ◌≡◌ {A = User} anchor u = ground (arith, e) in subst Fits same anchor-Fits

rebuild-Restores_example :
    let r = rebuild conv "users" (70 * second) (combined (no_rooms) on_air.redis_state.hashes) in
    (r.0 ≡ Redis.ok tt)
    × ((k j : String)
        → member k j r.1.mem_state.rooms ≡ back (70 * second) (member k j on_air.mem_state.rooms))
unfolding back
rebuild-Restores_example =
    rebuild-Restores conv "users" (70 * second) on_air.mem_state on_air.redis_state.hashes
      conv-IsDecimal on_air-InStep.agrees on_air-IsValid on_air-Fits

remove_user-InStep_example :
    let r = remove_user conv "users" "r" "a" first_in in InStep conv "users" r.1 r.2
remove_user-InStep_example =
    remove_user-InStep conv "users" "r" "a" first_in first_in-InStep.alive first_in-InStep.agrees

abbrev both : CombinedRoom
both = record { mem_state = two_in; redis_state = record { hashes = []; faults = [] } }

check_timeout-Ends_example :
    Ends (BothWithin conv "users" (31 * second)) (check_timeout conv "users" (31 * second) both)
check_timeout-Ends_example = check_timeout-Ends conv "users" (31 * second) both two_in-IsValid

abbrev track : String → ℕ → Item String
track u t = record { key = u; ts = t; payload = "r" }

two_in_first : two_in.user_tracks.pq ≡ track "a" second ∷ track "b" (60 * second) ∷ []
unfolding Mem.create_room_user lookup insert put new
two_in_first = refl

abbrev role_user : String → User
role_user r = record { role = r; status = ""; ts = 0; gen = ℤ.pos 0 }

abbrev room_of_two : Map User
room_of_two = ("a", role_user "anchor") ∷ ("b", role_user "anchor") ∷ []

user_loop_loses_next_example :
    Ends
      (Forgotten "b" two_in)
      (user_loop conv "users" (31 * second) (suc (length two_in.user_tracks.items)) [] both)
unfolding Mem.create_room_user lookup insert put new
user_loop_loses_next_example =
    user_loop_loses_next conv "users" (31 * second) (track "a" second) (track "b" (60 * second)) []
      both room_of_two (role_user "anchor") two_in-IsValid two_in_first (ground arith) refl refl
      refl refl []

abbrev asks : CreateUserRequest
asks = record { room_id = "r"; user_id = "c"; role = "guest"; ts = second }

abbrev controller : UserStatusControl
controller = record {
  room_state = both;
  cached_rooms = [];
  user_event_ch = creates 1 asks 2 ∷ [];
  senders = [];
  replies = [];
  notifications = [];
}

run_event_limit_example :
    (size "r" (run_event conv "users" second (creates 1 asks 2) controller).room_state.mem_state
      ≤ size "r" controller.room_state.mem_state)
    ⊎ Allows (creates 1 asks 2) "r" (
        size "r" (run_event conv "users" second (creates 1 asks 2) controller).room_state.mem_state)
run_event_limit_example = run_event_limit conv "users" second (creates 1 asks 2) "r" controller

abbrev stimuli : List Stimulus
stimuli = create_request 2 (some asks) ∷ event second ∷ create_request 3 none ∷ ticking second ∷ []

run-replies_to_example :
    let d =
      process_all conv "users"
        (owed (run conv "users" stimuli controller))
        second
        (run conv "users" stimuli controller) in
    (owed d ≡ 0) × ((i : ℕ) → replies_to i d.replies ≡ arrivals i stimuli + answers i controller)
run-replies_to_example =
    run-replies_to conv "users" second stimuli controller
      (omega arith, λ h. absurd (omega (arith, h)))
