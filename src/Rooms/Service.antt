-- ===== src/Rooms/Service.antt =====
-- backend/rooms/service/room_service.go, over the store. The answers of PickMixer, PickJanus and
-- GenerateRandomHex are arguments, none for an error.
use Prim.Native.String.{◌++◌}
use audio_rtc_exp.Prelude.{
  ℕ, String, List, [], ◌∷◌, Option, none, some, Map, length, ltb, ◌==◌, string_eq, if◌then◌else◌,
  not,
}
use audio_rtc_exp.Etcdstate.Meta.{Meta}
use audio_rtc_exp.Etcdstate.Mixer.{Mixer}
use audio_rtc_exp.Rooms.Store as Store
use audio_rtc_exp.Rooms.Store.{Codecs, Etcd, create_live_meta, stop_live_meta, get_mixer_data}
use audio_rtc_exp.Rooms.Store.Listing as Listing
use audio_rtc_exp.Rooms.Store.Listing.{get_all_rooms}

pub record RoomResponse : Type 0 where
  pub room_id : String
  pub hls_url : String
  pub pin : String
  pub rtp_port : Option ℕ
  pub created_at : ℕ

pub record ListRoomsResponse : Type 0 where
  pub count : ℕ
  pub rooms : List RoomResponse

-- RoomExistsError, RoomNotFoundError, any other error, and a panic.
pub data Failure : Type 0 where
  room_exists : Failure
  room_not_found : Failure
  other_error : Failure
  panicked : Failure

pub data Result (A : Type 0) : Type 0 where
  good : A → Result A
  bad : Failure → Result A

abbrev pub S : Type 0 → Type 0
S A = Etcd → Result A × Etcd

-- A call of the store whose error is returned, and the rest.
abbrev pub pass : {A B : Type 0} → (A → S B) → Option A × Etcd → Result B × Etcd
pass k (none, e) = (bad other_error, e)
pass k (some a, e) = k a e

infixl 5 ◌then_do◌
abbrev pub ◌then_do◌ : {A B : Type 0} → Store.M A → (A → S B) → S B
m then_do k = λ e. pass k (m e)

abbrev pub return : {A : Type 0} → A → S A
return a e = (good a, e)

abbrev pub refuse : {A : Type 0} → Failure → S A
refuse err e = (bad err, e)

-- A module may be picked if there is an answer that is not "".
unfoldable pub available : Option String → Option String
available none = none
available (some id) = if id == "" then none else some id

unfoldable pub rtp_port_of : Option (Option Mixer) → Option ℕ
rtp_port_of none = none
rtp_port_of (some none) = none
rtp_port_of (some (some m)) = if ltb 0 m.port then some m.port else none

module _ (json : Codecs) (prefix hls_adv_url : String) where
  unfoldable pub create_room : ℕ → String → String → ℕ → S RoomResponse
  unfolding Store.exists Store.create_room
  create_room now room_id pin max_anchors = Store.exists json prefix room_id then_do λ exists.
      if exists
      then refuse room_exists
      else Store.create_room json prefix now room_id (record {
        pin = pin;
        hls_path = room_id ++ "/stream.m3u8";
        max_anchors = max_anchors;
        created_at = 0;
      })
        then_do (λ room. return (record {
          room_id = room_id;
          hls_url = hls_adv_url ++ room.hls_path;
          pin = room.pin;
          rtp_port = none;
          created_at = room.created_at;
        }))

  unfoldable pub start_live :
      Option String → Option String → Option String → ℕ → String → S (Unit {0})
  unfolding available Store.exists create_live_meta
  start_live mixer janus nonce now room_id = elim (available mixer) [
    | none ↦ refuse other_error
    | some mixer_id ↦ elim (available janus) [
      | none ↦ refuse other_error
      | some janus_id ↦ Store.exists json prefix room_id then_do λ exists.
          if not exists then refuse room_not_found else elim nonce [
            | none ↦ refuse other_error
            | some n ↦
                create_live_meta json prefix now room_id mixer_id janus_id n then_do (λ u. return u)
          ]
    ]
  ]

  -- An error of GetMixerData is logged.
  unfoldable pub get_room : String → S RoomResponse
  unfolding Store.get_room get_mixer_data rtp_port_of
  get_room room_id = Store.get_room json prefix room_id then_do λ found. elim found [
    | none ↦ refuse room_not_found
    | some room ↦ λ e.
        let (mixer, f) = get_mixer_data json prefix room_id e in
        (
          good (record {
            room_id = room_id;
            hls_url = hls_adv_url ++ room.hls_path;
            pin = "";
            rtp_port = rtp_port_of mixer;
            created_at = room.created_at;
          }),
          f,
        )
  ]

  unfoldable pub responses : Map Meta → List RoomResponse
  responses [] = []
  responses ((room_id, room) ∷ rms) =
      (record {
        room_id = room_id;
        hls_url = hls_adv_url ++ room.hls_path;
        pin = "";
        rtp_port = none;
        created_at = room.created_at;
      })
      ∷ responses rms

  unfoldable pub list_rooms : S ListRoomsResponse
  unfolding get_all_rooms responses
  list_rooms = get_all_rooms json.meta prefix then_do λ listed. elim listed [
    | none ↦ refuse panicked
    | some rms ↦ return (record { count = length rms; rooms = responses rms })
  ]

  unfoldable pub delete_room : ℕ → String → S String
  unfolding Store.get_room stop_live_meta
  delete_room now room_id = Store.get_room json prefix room_id then_do λ found. elim found [
    | none ↦ refuse room_not_found
    | some room ↦ stop_live_meta json prefix now room_id then_do λ u.
        return ("Room " ++ (room_id ++ " stopped"))
  ]

  -- The total number of rooms.
  unfoldable pub get_stats : S ℕ
  unfolding Listing.get_stats
  get_stats = Listing.get_stats json.meta prefix then_do λ stats. elim stats [
    | none ↦ refuse panicked
    | some total ↦ return total
  ]
