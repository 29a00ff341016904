-- ===== src/Rooms/Router/Creates/Retry.antt =====
-- A room that was written but not put on air, and a room that was created, as later requests see them.
use Prim.Native.String.{◌++◌}
use audio_rtc_exp.Prelude.{
  ℕ, ◌≡◌, ◌≢◌, refl, sym, ap, ◌∙◌, inl, inr, String, List, [], ◌∷◌, some, arith, eq_iff, Map,
  lookup, insert, delete, lookup-insert, ◌==◌, string_eq, string_eq_refl, nat_eq, false, Bool-cases,
}
use audio_rtc_exp.Watcher.Keys.{full_key, full_key_type}
use audio_rtc_exp.Rooms.Store as Store
use audio_rtc_exp.Rooms.Store.{
  Codecs, Etcd, store, call, meta_key, live_meta_key, mixer_key, exists, decode, get_mixer_data,
}
use audio_rtc_exp.Rooms.Service as Service
use audio_rtc_exp.Rooms.Service.{good, RoomResponse, rtp_port_of}
use audio_rtc_exp.Rooms.Router.{
  Draws, Body, failure, Reply, room, answer_or, refuse_create, create_and_start, get_room,
}
use audio_rtc_exp.Rooms.Router.Creates.{
  new_meta, conflict, unwritten, stranded, started, Starts-total,
}

abbrev text_of : Body → String
text_of (failure s) = s
text_of _ = ""

abbrev not_created : String
not_created = "Failed to create room"

abbrev not_started : String
not_started = "Failed to start live"

texts_differ : not_created ≢ not_started
texts_differ e = let same = (eq_iff not_created not_started).1 e in ground arith

abbrev room_exists_reply : String → Reply
room_exists_reply r = record { status = 409; body = failure ("Room " ++ (r ++ " already exists")) }

abbrev pub Request : Type 0
Request = Draws × ℕ × String × ℕ

module _ (json : Codecs) (prefix url : String) where
  create_and_start-conflict :
      (d : Draws) (now : ℕ) (r pin v : String) (n : ℕ) (kvs : Map String) (leases : Map ℕ)
      → lookup (meta_key prefix r) kvs ≡ some v
      → create_and_start json prefix url d now r pin n (store kvs leases)
        ≡ (room_exists_reply r, store kvs leases)
  unfolding create_and_start Service.create_room answer_or refuse_create exists call
  create_and_start-conflict d now r pin v n kvs leases e =
      rw (create_and_start, Service.create_room, exists, call, e) refl

  -- Creations of a room in order, each with its draws, its time, its PIN and its limit.
  unfoldable pub create_all : String → List Request → Etcd → List Reply × Etcd
  create_all r [] e = ([], e)
  create_all r ((d, now, pin, n) ∷ requests) e =
      let first = create_and_start json prefix url d now r pin n e in
      let rest = create_all r requests first.1 in (first.0 ∷ rest.0, rest.1)

  -- The answer "already exists" with 409 to each request.
  unfoldable pub conflicts : String → List Request → List Reply
  conflicts r [] = []
  conflicts r (x ∷ requests) = room_exists_reply r ∷ conflicts r requests

  create_all-conflicts :
      (r v : String) (requests : List Request) (kvs : Map String) (leases : Map ℕ)
      → lookup (meta_key prefix r) kvs ≡ some v
      → create_all r requests (store kvs leases) ≡ (conflicts r requests, store kvs leases)
  unfolding create_all conflicts
  create_all-conflicts r v [] kvs leases e = refl
  create_all-conflicts r v ((d, now, pin, n) ∷ requests) kvs leases e =
      rw
        (
          create_and_start-conflict d now r pin v n kvs leases e,
          create_all-conflicts r v requests kvs leases e,
        )
        refl

  -- A creation that is answered by "Failed to start live" leaves the room, and creations cannot repair
  -- it: however many follow, whatever modules can be picked by then, each is answered by 409 and
  -- nothing is written, so the room is not put on air before something else deletes it.
  pub create_and_start_strands :
      (d : Draws) (now : ℕ) (r pin : String) (n : ℕ) (requests : List Request) (kvs : Map String)
      (leases : Map ℕ)
      → (create_and_start json prefix url d now r pin n (store kvs leases)).0
        ≡ record { status = 500; body = failure "Failed to start live" }
      → create_all r requests (create_and_start json prefix url d now r pin n (store kvs leases)).1
        ≡ (
          conflicts r requests,
          (create_and_start json prefix url d now r pin n (store kvs leases)).1,
        )
  create_and_start_strands d now r pin n requests kvs leases h =
      elim (Starts-total json prefix url d now r pin n kvs leases) [
        | conflict v e f ↦ absurd (ground (arith, rw f at h))
        | unwritten e m f ↦ absurd (texts_differ (ap (λ x. text_of x.body) (rw f at h)))
        | stranded v e m f ↦ rw f (
            create_all-conflicts r v requests (insert (meta_key prefix r) v kvs)
              (delete (meta_key prefix r) leases)
              (lookup-insert (meta_key prefix r) (meta_key prefix r) v kvs
                ∙ rw (string_eq_refl (meta_key prefix r)) refl))
        | started v l m j o e i a b c f ↦ absurd (ground (arith, rw f at h))
      ]

  other_key :
      (r a b x : String) (kvs : Map String)
      → (a == b) ≡ false
      → lookup (full_key prefix r a) (insert (full_key prefix r b) x kvs)
        ≡ lookup (full_key prefix r a) kvs
  other_key r a b x kvs n = elim (Bool-cases (full_key prefix r b == full_key prefix r a)) [
    | inl t ↦
        let same = full_key_type prefix r b a ((eq_iff _ _).0 t) in
        absurd (ground (arith, n, (eq_iff a b).1 (sym same)))
    | inr t ↦ lookup-insert (full_key prefix r b) (full_key prefix r a) x kvs ∙ rw t refl
  ]

  -- A room as GET answers it: without its PIN, with the port that the mixer wrote.
  pub seen : ℕ → String → Map String → RoomResponse
  seen now r kvs = record {
    room_id = r;
    hls_url = url ++ (r ++ "/stream.m3u8");
    pin = "";
    rtp_port = rtp_port_of (decode json.mixer (lookup (mixer_key prefix r) kvs));
    created_at = now;
  }

  get_room-found :
      (now : ℕ) (r v pin : String) (n : ℕ) (kvs : Map String) (leases : Map ℕ)
      → lookup (meta_key prefix r) kvs ≡ some v
      → json.meta.unmarshal v ≡ some (new_meta now r pin n)
      → (get_room json prefix url (some r) (store kvs leases)).0
        ≡ record { status = 200; body = room (seen now r kvs) }
  unfolding get_room Service.get_room Store.get_room get_mixer_data answer_or call decode seen
  get_room-found now r v pin n kvs leases e f =
      rw (get_room, Service.get_room, Store.get_room, call, e, decode, f) refl

  seen-later :
      (now : ℕ) (r v l : String) (kvs : Map String)
      → seen now r (insert (live_meta_key prefix r) l (insert (meta_key prefix r) v kvs))
        ≡ seen now r kvs
  unfolding seen meta_key live_meta_key mixer_key
  seen-later now r v l kvs =
      let same =
        other_key r "mixer" "livemeta" l (insert (full_key prefix r "meta") v kvs) refl
        ∙ other_key r "mixer" "meta" v kvs refl in
      rw (seen, mixer_key, live_meta_key, meta_key, same) refl

  -- A room that a creation answers by 201 is found by GET: with its id, its address and its creation
  -- time, without its PIN, and with the port that a mixer has written, provided that its metadata is
  -- read from JSON as it was written.
  pub get_room-create_and_start :
      (d : Draws) (now : ℕ) (r pin : String) (n : ℕ) (kvs : Map String) (leases : Map ℕ)
      → ((v : String)
          → json.meta.marshal (new_meta now r pin n) ≡ some v
          → json.meta.unmarshal v ≡ some (new_meta now r pin n))
      → (create_and_start json prefix url d now r pin n (store kvs leases)).0.status ≡ 201
      → (get_room json prefix url
          (some r)
          (create_and_start json prefix url d now r pin n (store kvs leases)).1).0
        ≡ record { status = 200; body = room (seen now r kvs) }
  unfolding meta_key live_meta_key
  get_room-create_and_start d now r pin n kvs leases reads h =
      elim (Starts-total json prefix url d now r pin n kvs leases) [
        | conflict v e f ↦ absurd (ground (arith, rw f at h))
        | unwritten e m f ↦ absurd (ground (arith, rw f at h))
        | stranded v e m f ↦ absurd (ground (arith, rw f at h))
        | started v l m j o e i a b c f ↦ rw f (
            get_room-found now r v pin n _ _
              (other_key r "meta" "livemeta" l (insert (meta_key prefix r) v kvs) refl
                ∙ (lookup-insert (meta_key prefix r) (meta_key prefix r) v kvs
                    ∙ rw (string_eq_refl (meta_key prefix r)) refl))
              (reads v i)
            ∙ ap (λ x. record { status = 200; body = room x }) (seen-later now r v l kvs))
      ]
