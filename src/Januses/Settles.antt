-- ===== src/Januses/Settles.antt =====
-- Without errors, a change of a room brings its Janus room and its forwarder to what the state asks.
use mathlib.Core.Option.{map}
use audio_rtc_exp.Prelude.{
  ℕ, ◌≡◌, String, List, [], ◌∷◌, Option, none, some, Map, lookup, ◌==◌, string_eq, nat_eq,
  if◌then◌else◌,
}
use audio_rtc_exp.Etcdstate.Janus.{Janus}
use audio_rtc_exp.Etcdstate.Room.{RoomState}
use audio_rtc_exp.Januses.{
  ActiveRoom, AdminCall, Answer, fine, RoomWatcher, is_assigned_to_us, endpoint,
}
use audio_rtc_exp.Januses.Leaks.{watcher}

-- Where the audio of an active room goes.
abbrev pub forwarded_to : ActiveRoom → Option (String × ℕ)
forwarded_to a = if a.stream_id == 0 then none else some (a.fw_ip, a.fw_port)

module _ (janus_id : String) where
  -- Done without an error, and room r goes to `wanted`.
  abbrev Reaches : String → Option (Option (String × ℕ)) → Option (Unit {0}) × RoomWatcher → Type 0
  Reaches r wanted o = (o.0 ≡ some tt) × (map forwarded_to (lookup r o.1.active_rooms) ≡ wanted)

  -- The room that a change asks for: none, or one that is forwarded to the end asked for.
  pub wanted : Option RoomState → Option (Option (String × ℕ))
  wanted st = if is_assigned_to_us janus_id st then some (endpoint janus_id st) else none

  module _ (now k n m : ℕ) (draw : ℕ → Option ℕ) (r : String) (st : Option RoomState)
      (rooms : Map ActiveRoom) (statuses : Map Janus) (calls : List AdminCall)
      (more : List Answer) where
    w : RoomWatcher
    w = watcher rooms statuses calls (fine n ∷ fine m ∷ more) []
