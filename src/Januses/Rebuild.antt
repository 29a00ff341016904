-- ===== src/Januses/Rebuild.antt =====
-- RebuildStart, RebuildState and RebuildEnd: the active rooms are read back from Janus. The answers of
-- ListRooms and ListRTPForwarders are arguments, none for an error.
use mathlib.Core.Path.{subst}
use audio_rtc_exp.Prelude.{
  ℕ, ◌≡◌, ◌≢◌, refl, ap, ◌∙◌, ◌⊎◌, inl, inr, String, List, [], ◌∷◌, Option, none, some, arith,
  eq_iff, Map, lookup, insert, lookup-insert, ◌==◌, string_eq, nat_eq, if◌then◌else◌, Bool, false,
  not, ◌&&◌, Bool-cases, Option-cases,
}
use audio_rtc_exp.Etcdstate.Mixer.{Mixer}
use audio_rtc_exp.Etcdstate.Room.{RoomState}
use audio_rtc_exp.Januses.{ActiveRoom, RoomWatcher, M, answer, stop_rtp_forwarder}

pub record RoomInfo : Type 0 where
  pub room : ℕ
  pub description : String

pub record ForwarderInfo : Type 0 where
  pub stream_id : ℕ
  pub host : String
  pub port : ℕ

-- The first forwarder, if there is one.
unfoldable pub from_forwarders : ℕ → List ForwarderInfo → ActiveRoom
from_forwarders id [] = record { janus_room_id = id; stream_id = 0; fw_ip = ""; fw_port = 0 }
from_forwarders id (fw ∷ fws) = record {
  janus_room_id = id;
  stream_id = fw.stream_id;
  fw_ip = fw.host;
  fw_port = fw.port;
}

module _ (canary_room_id : ℕ) (forwarders : ℕ → Option (List ForwarderInfo)) where
  -- A room of Janus as an active room; the canary room and a room with an error are left out.
  unfoldable pub mapped : RoomInfo → Option ActiveRoom
  unfolding from_forwarders
  mapped room = if room.room == canary_room_id then none else elim (forwarders room.room) [
    | none ↦ none
    | some fws ↦ some (from_forwarders room.room fws)
  ]

  -- The description of a Janus room is our room id.
  unfoldable pub map_rooms : List RoomInfo → Map ActiveRoom → Map ActiveRoom
  unfolding mapped
  map_rooms [] rooms = rooms
  map_rooms (room ∷ more) rooms = elim (mapped room) [
    | none ↦ map_rooms more rooms
    | some a ↦ map_rooms more (insert room.description a rooms)
  ]

  unfoldable pub rebuild_start : Option (List RoomInfo) → M (Unit {0})
  unfolding map_rooms
  rebuild_start none w = (none, record w { active_rooms = [] })
  rebuild_start (some rooms) w = (some tt, record w { active_rooms = map_rooms rooms [] })

unfoldable pub matches : Option Mixer → ActiveRoom → Bool
matches none a = false
matches (some mixer) a = a.fw_ip == mixer.ip && a.fw_port == mixer.port

-- An error of stopRtpForwarder is logged.
unfoldable pub rebuild_state : String → RoomState → RoomWatcher → RoomWatcher
unfolding matches stop_rtp_forwarder
rebuild_state room_id state w = elim (lookup room_id w.active_rooms) [
  | none ↦ w
  | some a ↦
      if matches state.mixer a
      then w
      else if not (a.stream_id == 0)
      then (stop_rtp_forwarder room_id a w).1
      else w
]

abbrev pub rebuild_end : M (Unit {0})
rebuild_end = answer tt

abbrev pub Listed : RoomInfo → List RoomInfo → Type 0
Listed x [] = ⊥
Listed x (y ∷ rooms) = (x ≡ y) ⊎ Listed x rooms

-- A room of Janus that an active room stands for.
pub record StandsFor (canary : ℕ) (r : String) (a : ActiveRoom) (rooms : List RoomInfo)
    : Type 0 where
  pub info : RoomInfo
  pub listed : Listed info rooms
  pub named : info.description ≡ r
  pub same_id : info.room ≡ a.janus_room_id
  pub no_canary : info.room ≢ canary

from_forwarders-id :
    (id : ℕ) (fws : List ForwarderInfo) → id ≡ (from_forwarders id fws).janus_room_id
unfolding from_forwarders
from_forwarders-id id [] = refl
from_forwarders-id id (fw ∷ fws) = refl

module _ (canary : ℕ) (forwarders : ℕ → Option (List ForwarderInfo)) where
  mapped-StandsFor :
      (x : RoomInfo) (a : ActiveRoom) (rooms : List RoomInfo)
      → mapped canary forwarders x ≡ some a
      → StandsFor canary x.description a (x ∷ rooms)
  unfolding mapped
  mapped-StandsFor x a rooms e = elim (Bool-cases (x.room == canary)) [
    | inl t ↦ absurd (ground (arith, rw (mapped, t) at e))
    | inr t ↦ elim (Option-cases (forwarders x.room)) [
      | inl f ↦ absurd (ground (arith, rw (mapped, t, f) at e))
      | inr (fws, f) ↦
          let same : some (from_forwarders x.room fws) ≡ some a = rw (mapped, t, f) at e in
          let room : from_forwarders x.room fws ≡ a = ground arith in
          record {
            info = x;
            listed = inl refl;
            named = refl;
            same_id = from_forwarders-id x.room fws ∙ ap (λ b. b.janus_room_id) room;
            no_canary = λ o. absurd (ground (arith, t, o));
          }
    ]
  ]

  widen :
      (x : RoomInfo) (r : String) (a : ActiveRoom) (rooms : List RoomInfo)
      → StandsFor canary r a rooms
      → StandsFor canary r a (x ∷ rooms)
  widen x r a rooms s = record {
    info = s.info;
    listed = inr s.listed;
    named = s.named;
    same_id = s.same_id;
    no_canary = s.no_canary;
  }

  map_rooms-StandsFor :
      (rooms : List RoomInfo) (base : Map ActiveRoom) (r : String) (a : ActiveRoom)
      → lookup r (map_rooms canary forwarders rooms base) ≡ some a
      → (lookup r base ≡ some a) ⊎ StandsFor canary r a rooms
  unfolding map_rooms
  map_rooms-StandsFor [] base r a e = inl e
  map_rooms-StandsFor (x ∷ rooms) base r a e = elim (Option-cases (mapped canary forwarders x)) [
    | inl f ↦ elim (map_rooms-StandsFor rooms base r a (rw (map_rooms, f) at e)) [
      | inl o ↦ inl o
      | inr s ↦ inr (widen x r a rooms s)
    ]
    | inr (b, f) ↦
        elim (map_rooms-StandsFor rooms (insert x.description b base) r a
          (rw (map_rooms, f) at e)) [
            | inr s ↦ inr (widen x r a rooms s)
            | inl o ↦ elim (Bool-cases (x.description == r)) [
              | inl t ↦
                  let same : b ≡ a = ground (arith, o, lookup-insert x.description r b base, t) in
                  inr (
                    subst (λ n. StandsFor canary n a (x ∷ rooms)) ((eq_iff x.description r).0 t)
                      (mapped-StandsFor x a rooms (f ∙ ap some same)))
              | inr t ↦ inl (ground (arith, o, lookup-insert x.description r b base, t))
            ]
          ]
  ]

  -- After RebuildStart every active room stands for a room that Janus lists under its id, other than
  -- the canary room.
  pub rebuild_start-StandsFor :
      (rooms : List RoomInfo) (w : RoomWatcher) (r : String) (a : ActiveRoom)
      → lookup r (rebuild_start canary forwarders (some rooms) w).1.active_rooms ≡ some a
      → StandsFor canary r a rooms
  unfolding rebuild_start lookup
  rebuild_start-StandsFor rooms w r a e = elim (map_rooms-StandsFor rooms [] r a e) [
    | inl f ↦ absurd (ground arith)
    | inr s ↦ s
  ]
