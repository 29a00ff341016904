-- ===== src/Rooms/Router/Deletes.antt =====
-- Deletion of a room by the API, and its removal by housekeeping.
use Prim.Native.String.{◌++◌}
use audio_rtc_exp.Prelude.{
  ℕ, ◌+◌, ◌<◌, ◌≡◌, ◌≢◌, refl, ◌↔◌, inl, inr, String, Option, none, some, arith, Map, lookup,
  insert, delete, string_eq, nat_eq, true, Option-cases,
}
use audio_rtc_exp.Etcdstate.{room_status_removing}
use audio_rtc_exp.Etcdstate.Meta.{Meta}
use audio_rtc_exp.Etcdstate.LiveMeta.{LiveMeta}
use audio_rtc_exp.Etcdstate.Mixer.{Mixer}
use audio_rtc_exp.Etcdstate.Janus.{Janus}
use audio_rtc_exp.Rooms.Housekeeping.{is_stale, is_exceed, since, inactive_graceful_period}
use audio_rtc_exp.Rooms.Store as Store
use audio_rtc_exp.Rooms.Store.{
  Codecs, Etcd, store, call, meta_key, live_meta_key, put_live_meta, stop_live_meta, decode,
}
use audio_rtc_exp.Rooms.Service as Service
use audio_rtc_exp.Rooms.Router.{message, failure, answer_or, refuse_room, delete_room}

-- The live metadata that a deletion writes.
abbrev pub stopped_at : ℕ → LiveMeta
stopped_at now = record {
  status = room_status_removing;
  mixer_id = "";
  janus_id = "";
  created_at = 0;
  discard_at = some now;
  nonce = "";
}

-- Housekeeping finds a room with metadata stale from more than a minute after its deletion on.
stopped-is_stale :
    (now t : ℕ) (m : Meta) (x : Option Mixer) (j : Option Janus)
    → now ≢ 0
    → (is_stale t
          (record { meta = some m; live_meta = some (stopped_at now); mixer = x; janus = j })
        ≡ true)
      ↔ (now + inactive_graceful_period < t)
unfolding is_stale is_exceed since
stopped-is_stale now t m x j n = ground arith

module _ (json : Codecs) (prefix url : String) where
  -- What a deletion of a room by the API does.
  pub data Stops (now : ℕ) (r : String) (kvs : Map String) (leases : Map ℕ) : Type 0 where
    missing :
        lookup (meta_key prefix r) kvs ≡ none
        → delete_room json prefix url now (some r) (store kvs leases) ≡ (
          record { status = 404; body = failure ("Room " ++ (r ++ " not found")) },
          store kvs leases,
        )
        → Stops now r kvs leases
    unreadable :
        (v : String)
        → lookup (meta_key prefix r) kvs ≡ some v
        → json.meta.unmarshal v ≡ none
        → delete_room json prefix url now (some r) (store kvs leases)
          ≡ (record { status = 500; body = failure "Failed to delete room" }, store kvs leases)
        → Stops now r kvs leases
    unwritten :
        json.live_meta.marshal (stopped_at now) ≡ none
        → delete_room json prefix url now (some r) (store kvs leases)
          ≡ (record { status = 500; body = failure "Failed to delete room" }, store kvs leases)
        → Stops now r kvs leases
    stops :
        (l : String) (m : Meta)
        → Store.get_room json prefix r (store kvs leases) ≡ (some (some m), store kvs leases)
        → json.live_meta.marshal (stopped_at now) ≡ some l
        → delete_room json prefix url now (some r) (store kvs leases) ≡ (
          record { status = 200; body = message ("Room " ++ (r ++ " stopped")) },
          store (insert (live_meta_key prefix r) l kvs) (delete (live_meta_key prefix r) leases),
        )
        → ((t : ℕ) (x : Option Mixer) (j : Option Janus)
            → (is_stale t (record {
              meta = some m;
              live_meta = some (stopped_at now);
              mixer = x;
              janus = j;
            })
                ≡ true)
              ↔ (now + inactive_graceful_period < t))
        → Stops now r kvs leases

  -- With an etcd that does not fail, a deletion finds no room (404), or fails on JSON and changes
  -- nothing (500), or keeps the room's keys and replaces its live metadata by one without modules,
  -- with which housekeeping finds the room stale exactly from more than a minute later on (200).
  pub Stops-total :
      (now : ℕ) (r : String) (kvs : Map String) (leases : Map ℕ) → now ≢ 0 → Stops now r kvs leases
  unfolding delete_room Service.delete_room Store.get_room stop_live_meta put_live_meta answer_or
      refuse_room call decode
  Stops-total now r kvs leases o = elim (Option-cases (lookup (meta_key prefix r) kvs)) [
    | inl e ↦
        missing e (rw (delete_room, Service.delete_room, Store.get_room, call, e, decode) refl)
    | inr (v, e) ↦ elim (Option-cases (json.meta.unmarshal v)) [
      | inl f ↦
          unreadable v e f
            (rw (delete_room, Service.delete_room, Store.get_room, call, e, decode, f) refl)
      | inr (m, f) ↦ elim (Option-cases (json.live_meta.marshal (stopped_at now))) [
        | inl g ↦ unwritten g (
            rw (delete_room, Service.delete_room, Store.get_room, call, e, decode, f)
              (rw (stop_live_meta, put_live_meta, call, g) refl))
        | inr (l, g) ↦
            stops l m (rw (Store.get_room, call, e, decode, f) refl) g
              (rw (delete_room, Service.delete_room, Store.get_room, call, e, decode, f)
                (rw (stop_live_meta, put_live_meta, call, g) refl))
              (λ t x j. stopped-is_stale now t m x j o)
      ]
    ]
  ]
