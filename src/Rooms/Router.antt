-- ===== src/Rooms/Router.antt =====
-- backend/rooms/transport/router.go with requests.go: the handlers of the rooms API. Binding of a
-- request by gin is an argument, none if it fails; a panic is answered by gin.Recovery.
pub mod Creates
pub mod Deletes
pub mod Marks
mod Tests
use Prim.Native.String.{◌++◌}
use audio_rtc_exp.Prelude.{
  ℕ, String, List, Option, none, some, Map, ◌==◌, string_eq, nat_eq, if◌then◌else◌, Bool, true,
  false,
}
use audio_rtc_exp.Etcdstate.{mark_label_ready, mark_label_cordon}
use audio_rtc_exp.Rooms.Store.{Codecs, Etcd, set_module_mark, delete_module_mark}
use audio_rtc_exp.Rooms.Service as Service
use audio_rtc_exp.Rooms.Service.{
  RoomResponse, ListRoomsResponse, Failure, room_exists, room_not_found, other_error, panicked,
  Result, good, bad, start_live,
}

pub record CreateRoomRequest : Type 0 where
  pub room_id : String
  pub pin : String
  pub max_anchors : ℕ

pub record ModuleMarkUri : Type 0 where
  pub module_type : String
  pub module_id : String

pub record SetModuleMarkBody : Type 0 where
  pub label : String
  pub ttl : ℕ

-- The body of an answer.
pub data Body : Type 0 where
  failure : String → Body
  room : RoomResponse → Body
  room_list : ListRoomsResponse → Body
  message : String → Body
  stats : ℕ → Body
  health : ℕ → Body
  marked : String → String → String → ℕ → Body
  unmarked : String → String → Body
  recovered : Body

pub record Reply : Type 0 where
  pub status : ℕ
  pub body : Body

abbrev pub H : Type 0
H = Etcd → Reply × Etcd

abbrev pub reply : ℕ → Body → H
reply n b e = (record { status = n; body = b }, e)

abbrev pub validation_failed : H
validation_failed = reply 400 (failure "Validation failed")

abbrev pub default_max_anchors : ℕ
default_max_anchors = 3

-- The answer to an error of the service. RoomExistsError and RoomNotFoundError have texts of
-- their own.
unfoldable pub refuse_create : String → Failure → H
refuse_create room_id room_exists = reply 409 (failure ("Room " ++ (room_id ++ " already exists")))
refuse_create room_id panicked = reply 500 recovered
refuse_create room_id _ = reply 500 (failure "Failed to create room")

unfoldable pub refuse_room : String → String → Failure → H
refuse_room what room_id room_not_found = reply 404 (failure ("Room " ++ (room_id ++ " not found")))
refuse_room what room_id panicked = reply 500 recovered
refuse_room what room_id _ = reply 500 (failure what)

unfoldable pub refuse_all : String → Failure → H
refuse_all what panicked = reply 500 recovered
refuse_all what _ = reply 500 (failure what)

-- What the service answers, or the reply to its error.
unfoldable pub answer_or : {A : Type 0} → (Failure → H) → (A → H) → Result A × Etcd → Reply × Etcd
answer_or refused k (bad err, e) = refused err e
answer_or refused k (good a, e) = k a e

-- A field that is left out is drawn by GenerateRandomHex, which may fail.
unfoldable pub or_generated : String → Option String → Option String
or_generated given drawn = if given == "" then drawn else some given

-- The answers of PickMixer, PickJanus and of GenerateRandomHex for the room, its PIN and its nonce.
pub record Draws : Type 0 where
  pub mixer : Option String
  pub janus : Option String
  pub room_id : Option String
  pub pin : Option String
  pub nonce : Option String

module _ (json : Codecs) (prefix hls_adv_url : String) where
  unfoldable pub create_and_start : Draws → ℕ → String → String → ℕ → H
  unfolding Service.create_room start_live answer_or refuse_create
  create_and_start d now room_id pin max_anchors e =
      answer_or (refuse_create room_id)
        (λ created f.
          answer_or (λ _. reply 500 (failure "Failed to start live"))
            (λ _. reply 201 (room created))
            (start_live json prefix hls_adv_url d.mixer d.janus d.nonce now room_id f))
        (Service.create_room json prefix hls_adv_url now room_id pin max_anchors e)

  unfoldable pub create_room : Draws → ℕ → Option CreateRoomRequest → H
  unfolding or_generated create_and_start
  create_room d now none = validation_failed
  create_room d now (some req) = elim (or_generated req.room_id d.room_id) [
    | none ↦ reply 500 (failure "Failed to generate room ID")
    | some room_id ↦ elim (or_generated req.pin d.pin) [
      | none ↦ reply 500 (failure "Failed to generate PIN")
      | some pin ↦
          create_and_start d now room_id pin
            (if req.max_anchors == 0 then default_max_anchors else req.max_anchors)
    ]
  ]

  -- `bound` is the room of the path.
  unfoldable pub get_room : Option String → H
  unfolding Service.get_room answer_or refuse_room
  get_room none e = validation_failed e
  get_room (some room_id) e =
      answer_or (refuse_room "Failed to get room" room_id) (λ found. reply 200 (room found))
        (Service.get_room json prefix hls_adv_url room_id e)

  unfoldable pub list_rooms : H
  unfolding Service.list_rooms answer_or refuse_all
  list_rooms e =
      answer_or (refuse_all "Failed to list rooms") (λ listed. reply 200 (room_list listed))
        (Service.list_rooms json prefix hls_adv_url e)

  unfoldable pub delete_room : ℕ → Option String → H
  unfolding Service.delete_room answer_or refuse_room
  delete_room now none e = validation_failed e
  delete_room now (some room_id) e =
      answer_or (refuse_room "Failed to delete room" room_id) (λ text. reply 200 (message text))
        (Service.delete_room json prefix hls_adv_url now room_id e)

  unfoldable pub get_stats : H
  unfolding Service.get_stats answer_or refuse_all
  get_stats e =
      answer_or (refuse_all "Failed to get stats") (λ total. reply 200 (stats total))
        (Service.get_stats json prefix hls_adv_url e)

unfoldable pub health_check : ℕ → H
health_check now = reply 200 (health now)

-- The switch on the label.
unfoldable pub to_mark_label : String → Option String
to_mark_label label =
    if label == "ready"
    then some mark_label_ready
    else if label == "cordon"
    then some mark_label_cordon
    else if label == "draining"
    then some "draining"
    else if label == "drained"
    then some "drained"
    else if label == "unready"
    then some "unready"
    else none

-- The answer to a call of the store without a result.
abbrev pub conclude : String → Body → Option (Unit {0}) × Etcd → Reply × Etcd
conclude what body (none, e) = reply 500 (failure what) e
conclude what body (some u, e) = reply 200 body e

module _ (json : Codecs) where
  unfoldable pub set_module_mark_as : ModuleMarkUri → SetModuleMarkBody → Option String → H
  unfolding set_module_mark
  set_module_mark_as uri req none e = reply 400 (failure "Invalid label value") e
  set_module_mark_as uri req (some label) e =
      conclude "Failed to set module mark" (marked uri.module_type uri.module_id req.label req.ttl)
        (set_module_mark json uri.module_type uri.module_id label req.ttl e)

  unfoldable pub handle_set_mark : Option ModuleMarkUri → Option SetModuleMarkBody → H
  unfolding set_module_mark_as to_mark_label
  handle_set_mark none req = validation_failed
  handle_set_mark (some uri) none = validation_failed
  handle_set_mark (some uri) (some req) = set_module_mark_as uri req (to_mark_label req.label)

unfoldable pub handle_delete_mark : Option ModuleMarkUri → H
unfolding delete_module_mark
handle_delete_mark none e = validation_failed e
handle_delete_mark (some uri) e =
    conclude "Failed to delete module mark" (unmarked uri.module_type uri.module_id)
      (delete_module_mark uri.module_type uri.module_id e)
