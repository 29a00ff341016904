-- ===== src/Rooms/Router/Creates.antt =====
-- Creation of a room: what each answer leaves in etcd when etcd does not fail.
pub mod Retry
use Prim.Native.String.{◌++◌}
use audio_rtc_exp.Prelude.{
  ℕ, ◌≡◌, ◌≢◌, refl, sym, ap, ◌∙◌, ◌⊎◌, inl, inr, String, List, [], ◌∷◌, Option, none, some, arith,
  eq_iff, Map, lookup, insert, delete, lookup-insert, ◌==◌, string_eq, string_eq_refl, nat_eq,
  if◌then◌else◌, Bool, true, false, Bool-cases, Option-cases,
}
use audio_rtc_exp.Etcdstate.{room_status_on_air}
use audio_rtc_exp.Etcdstate.Meta.{Meta}
use audio_rtc_exp.Etcdstate.LiveMeta.{LiveMeta}
use audio_rtc_exp.Rooms.Store as Store
use audio_rtc_exp.Rooms.Store.{
  Codecs, Etcd, store, call, meta_key, live_meta_key, exists, put_live_meta, create_live_meta,
  decode, get_mixer_data,
}
use audio_rtc_exp.Rooms.Service as Service
use audio_rtc_exp.Rooms.Service.{
  Result, good, bad, Failure, other_error, RoomResponse, start_live, available,
}
use audio_rtc_exp.Rooms.Router.{
  CreateRoomRequest, Draws, Reply, Body, failure, room, answer_or, refuse_create, refuse_room,
  or_generated, create_and_start, create_room, get_room, default_max_anchors,
}

-- The metadata that a creation writes.
abbrev pub new_meta : ℕ → String → String → ℕ → Meta
new_meta now room_id pin max_anchors = record {
  pin = pin;
  hls_path = room_id ++ "/stream.m3u8";
  max_anchors = max_anchors;
  created_at = now;
}

abbrev pub new_live_meta : ℕ → String → String → String → LiveMeta
new_live_meta now mixer_id janus_id nonce = record {
  status = room_status_on_air;
  mixer_id = mixer_id;
  janus_id = janus_id;
  created_at = now;
  discard_at = none;
  nonce = nonce;
}

abbrev pub new_response : String → ℕ → String → String → RoomResponse
new_response url now room_id pin = record {
  room_id = room_id;
  hls_url = url ++ (room_id ++ "/stream.m3u8");
  pin = pin;
  rtp_port = none;
  created_at = now;
}

module _ (json : Codecs) (prefix url : String) where
  -- What a creation of a room leaves.
  pub data Starts (d : Draws) (now : ℕ) (r pin : String) (n : ℕ) (kvs : Map String) (leases : Map ℕ)
      : Type 0 where
    conflict :
        (v : String)
        → lookup (meta_key prefix r) kvs ≡ some v
        → create_and_start json prefix url d now r pin n (store kvs leases) ≡ (
          record { status = 409; body = failure ("Room " ++ (r ++ " already exists")) },
          store kvs leases,
        )
        → Starts d now r pin n kvs leases
    unwritten :
        lookup (meta_key prefix r) kvs ≡ none
        → json.meta.marshal (new_meta now r pin n) ≡ none
        → create_and_start json prefix url d now r pin n (store kvs leases)
          ≡ (record { status = 500; body = failure "Failed to create room" }, store kvs leases)
        → Starts d now r pin n kvs leases
    stranded :
        (v : String)
        → lookup (meta_key prefix r) kvs ≡ none
        → json.meta.marshal (new_meta now r pin n) ≡ some v
        → create_and_start json prefix url d now r pin n (store kvs leases) ≡ (
          record { status = 500; body = failure "Failed to start live" },
          store (insert (meta_key prefix r) v kvs) (delete (meta_key prefix r) leases),
        )
        → Starts d now r pin n kvs leases
    started :
        (v l mixer_id janus_id nonce : String)
        → lookup (meta_key prefix r) kvs ≡ none
        → json.meta.marshal (new_meta now r pin n) ≡ some v
        → available d.mixer ≡ some mixer_id
        → available d.janus ≡ some janus_id
        → json.live_meta.marshal (new_live_meta now mixer_id janus_id nonce) ≡ some l
        → create_and_start json prefix url d now r pin n (store kvs leases) ≡ (
          record { status = 201; body = room (new_response url now r pin) },
          store
              (insert (live_meta_key prefix r) l (insert (meta_key prefix r) v kvs))
              (delete (live_meta_key prefix r) (delete (meta_key prefix r) leases)),
        )
        → Starts d now r pin n kvs leases

  Service-create_room :
      (now : ℕ) (r pin v : String) (n : ℕ) (kvs : Map String) (leases : Map ℕ)
      → lookup (meta_key prefix r) kvs ≡ none
      → json.meta.marshal (new_meta now r pin n) ≡ some v
      → Service.create_room json prefix url now r pin n (store kvs leases) ≡ (
        good (new_response url now r pin),
        store (insert (meta_key prefix r) v kvs) (delete (meta_key prefix r) leases),
      )
  unfolding Service.create_room Store.create_room exists call
  Service-create_room now r pin v n kvs leases e m =
      rw (Service.create_room, exists, call, e) (rw (Store.create_room, call, e, m) refl)

  Service-create_room-unwritten :
      (now : ℕ) (r pin : String) (n : ℕ) (kvs : Map String) (leases : Map ℕ)
      → lookup (meta_key prefix r) kvs ≡ none
      → json.meta.marshal (new_meta now r pin n) ≡ none
      → Service.create_room json prefix url now r pin n (store kvs leases)
        ≡ (bad other_error, store kvs leases)
  unfolding Service.create_room Store.create_room exists call
  Service-create_room-unwritten now r pin n kvs leases e m =
      rw (Service.create_room, exists, call, e) (rw (Store.create_room, call, e, m) refl)

  -- What StartLive does to a room that exists.
  data Lives (d : Draws) (now : ℕ) (r : String) (kvs : Map String) (leases : Map ℕ) : Type 0 where
    fails :
        (err : Failure)
        → start_live json prefix url d.mixer d.janus d.nonce now r (store kvs leases)
          ≡ (bad err, store kvs leases)
        → Lives d now r kvs leases
    goes_live :
        (l mixer_id janus_id nonce : String)
        → available d.mixer ≡ some mixer_id
        → available d.janus ≡ some janus_id
        → json.live_meta.marshal (new_live_meta now mixer_id janus_id nonce) ≡ some l
        → start_live json prefix url d.mixer d.janus d.nonce now r (store kvs leases) ≡ (
          good tt,
          store (insert (live_meta_key prefix r) l kvs) (delete (live_meta_key prefix r) leases),
        )
        → Lives d now r kvs leases

  create_live_meta-put :
      (now : ℕ) (r m j n l : String) (kvs : Map String) (leases : Map ℕ)
      → json.live_meta.marshal (new_live_meta now m j n) ≡ some l
      → create_live_meta json prefix now r m j n (store kvs leases) ≡ (
        some tt,
        store (insert (live_meta_key prefix r) l kvs) (delete (live_meta_key prefix r) leases),
      )
  unfolding create_live_meta put_live_meta call
  create_live_meta-put now r m j n l kvs leases e =
      rw (create_live_meta, put_live_meta, call, e) refl

  create_live_meta-none :
      (now : ℕ) (r m j n : String) (kvs : Map String) (leases : Map ℕ)
      → json.live_meta.marshal (new_live_meta now m j n) ≡ none
      → create_live_meta json prefix now r m j n (store kvs leases) ≡ (none, store kvs leases)
  unfolding create_live_meta put_live_meta call
  create_live_meta-none now r m j n kvs leases e =
      rw (create_live_meta, put_live_meta, call, e) refl

  Lives-total :
      (d : Draws) (now : ℕ) (r v : String) (kvs : Map String) (leases : Map ℕ)
      → lookup (meta_key prefix r) kvs ≡ some v
      → Lives d now r kvs leases
  unfolding start_live exists call
  Lives-total d now r v kvs leases e = elim (Option-cases (available d.mixer)) [
    | inl f ↦ fails other_error (rw (start_live, f) refl)
    | inr (m, f) ↦ elim (Option-cases (available d.janus)) [
      | inl g ↦ fails other_error (rw (start_live, f, g) refl)
      | inr (j, g) ↦ elim (Option-cases d.nonce) [
        | inl h ↦ fails other_error (rw (start_live, f, g, exists, call, e) (rw h refl))
        | inr (n, h) ↦ elim (Option-cases (json.live_meta.marshal (new_live_meta now m j n))) [
          | inl i ↦ fails other_error (
              rw (start_live, f, g, exists, call, e)
                (rw (h, create_live_meta-none now r m j n kvs leases i) refl))
          | inr (l, i) ↦ goes_live l m j n f g i (
              rw (start_live, f, g, exists, call, e)
                (rw (h, create_live_meta-put now r m j n l kvs leases i) refl))
        ]
      ]
    ]
  ]

  -- With an etcd that does not fail, a creation ends in one of four ways: the room is there already
  -- and nothing is written (409); nothing is written for lack of JSON (500); the room is written but
  -- not put on air (500); or the room is written and put on air with modules picked (201).
  pub Starts-total :
      (d : Draws) (now : ℕ) (r pin : String) (n : ℕ) (kvs : Map String) (leases : Map ℕ)
      → Starts d now r pin n kvs leases
  unfolding create_and_start Service.create_room answer_or refuse_create exists call
  Starts-total d now r pin n kvs leases = elim (Option-cases (lookup (meta_key prefix r) kvs)) [
    | inr (v, e) ↦ conflict v e (rw (create_and_start, Service.create_room, exists, call, e) refl)
    | inl e ↦ elim (Option-cases (json.meta.marshal (new_meta now r pin n))) [
      | inl m ↦
          unwritten e m
            (rw (create_and_start, Service-create_room-unwritten now r pin n kvs leases e m) refl)
      | inr (v, m) ↦
          let kvs' = insert (meta_key prefix r) v kvs in
          let held : lookup (meta_key prefix r) kvs' ≡ some v =
            lookup-insert (meta_key prefix r) (meta_key prefix r) v kvs
            ∙ rw (string_eq_refl (meta_key prefix r)) refl in
          elim (Lives-total d now r v kvs' (delete (meta_key prefix r) leases) held) [
            | fails err f ↦
                stranded v e m
                  (rw (create_and_start, Service-create_room now r pin v n kvs leases e m, f) refl)
            | goes_live l mixer_id janus_id nonce g j i f ↦
                started v l mixer_id janus_id nonce e m g j i
                  (rw (create_and_start, Service-create_room now r pin v n kvs leases e m, f) refl)
          ]
    ]
  ]
