-- ===== src/Rooms/Router/Tests.antt =====
-- Requests to the rooms API at concrete values.
use audio_rtc_exp.Prelude.{
  List, ◌≡◌, ◌≢◌, refl, inl, String, [], ◌∷◌, none, some, arith, eq_iff, Map, lookup, insert,
  delete, lookup-nil, ◌==◌, string_eq, nat_eq, if◌then◌else◌, true, false,
}
use audio_rtc_exp.Etcdstate.Meta.{Meta}
use audio_rtc_exp.Watcher.{NewState, Config, Loop, Event, handle_event}
use audio_rtc_exp.Watcher.Keys.{full_key}
use audio_rtc_exp.Rooms.Store as Store
use audio_rtc_exp.Rooms.Store.{
  Codec, Codecs, Etcd, store, call, meta_key, live_meta_key, mixer_key, exists, put_live_meta,
  create_live_meta, decode, get_mixer_data, delete_room, set_module_mark, module_mark_key,
}
use audio_rtc_exp.Rooms.Store.Listing.Laws.{Answers, Answers-total}
use audio_rtc_exp.Rooms.Store.Deletion.{delete_room-others}
use audio_rtc_exp.Rooms.Service as Service
use audio_rtc_exp.Rooms.Service.{start_live, available, rtp_port_of}
use audio_rtc_exp.Rooms.Router.{
  Draws, ModuleMarkUri, SetModuleMarkBody, room, answer_or, refuse_create, create_and_start,
  get_room, handle_set_mark, set_module_mark_as, to_mark_label,
}
use audio_rtc_exp.Rooms.Router.Creates.{new_meta, Starts, Starts-total}
use audio_rtc_exp.Rooms.Router.Creates.Retry.{
  create_and_start_strands, Request, create_all, conflicts, seen, get_room-create_and_start,
}
use audio_rtc_exp.Rooms.Router.Deletes.{Stops, Stops-total}
use audio_rtc_exp.Rooms.Router.Marks.{handle_set_mark_unseen}

abbrev created : Meta
created = new_meta 5 "r1" "123456" 3

abbrev one_value : (A : Type 0) → String → A → Codec A
one_value A text a = record {
  marshal = λ x. some text;
  unmarshal = λ v. if v == text then some a else none;
}

abbrev json : Codecs
json = record {
  meta = one_value Meta "meta" created;
  live_meta = record { marshal = λ x. some "live"; unmarshal = λ v. none };
  mixer = record { marshal = λ x. some "mixer"; unmarshal = λ v. none };
  mark = record { marshal = λ x. some "mark"; unmarshal = λ v. none };
}

abbrev rooms : Map String
rooms = ("/rooms/r1/meta", "meta") ∷ []

Answers-total_example : Answers json.meta "/rooms/" (store rooms [])
Answers-total_example =
    Answers-total json.meta "/rooms/" (store rooms []) (lookup-nil "/rooms/r1/meta", tt)

-- No mixer, and one that can be picked.
abbrev no_mixer : Draws
no_mixer = record {
  mixer = some "";
  janus = some "j1";
  room_id = none;
  pin = none;
  nonce = some "ab";
}

abbrev one_mixer : Draws
one_mixer = record no_mixer { mixer = some "m1" }

Starts-total_example : Starts json "/rooms/" "http://h/" one_mixer 5 "r1" "123456" 3 [] []
Starts-total_example = Starts-total json "/rooms/" "http://h/" one_mixer 5 "r1" "123456" 3 [] []

abbrev retries : List Request
retries = (one_mixer, 9, "654321", 3) ∷ (no_mixer, 11, "654321", 3) ∷ []

create_and_start_strands_example :
    create_all json "/rooms/" "http://h/" "r1" retries
      (create_and_start json "/rooms/" "http://h/" no_mixer 5 "r1" "123456" 3 (store [] [])).1
    ≡ (
      conflicts json "/rooms/" "http://h/" "r1" retries,
      (create_and_start json "/rooms/" "http://h/" no_mixer 5 "r1" "123456" 3 (store [] [])).1,
    )
unfolding create_and_start Service.create_room start_live available exists Store.create_room call
    lookup insert delete answer_or refuse_create meta_key full_key
create_and_start_strands_example =
    create_and_start_strands json "/rooms/" "http://h/" no_mixer 5 "r1" "123456" 3 retries [] []
      refl

get_room-create_and_start_example :
    (get_room json "/rooms/" "http://h/"
      (some "r1")
      (create_and_start json "/rooms/" "http://h/" one_mixer 5 "r1" "123456" 3 (store [] [])).1).0
    ≡ record { status = 200; body = room (seen json "/rooms/" "http://h/" 5 "r1" []) }
unfolding create_and_start Service.create_room start_live available exists Store.create_room call
    lookup insert delete answer_or refuse_create meta_key full_key live_meta_key create_live_meta
    put_live_meta
get_room-create_and_start_example =
    get_room-create_and_start json "/rooms/" "http://h/" one_mixer 5 "r1" "123456" 3 [] []
      (λ v e. ground (arith, e, eq_iff v "meta")) refl

Stops-total_example : Stops json "/rooms/" "http://h/" 7 "r1" rooms []
Stops-total_example = Stops-total json "/rooms/" "http://h/" 7 "r1" rooms [] (omega arith)

abbrev kvs_of : Map String
kvs_of = ("/rooms/r1/meta", "a") ∷ ("/rooms/r10/meta", "b") ∷ []

apart : (s : String) → (s == "r1") ≡ false → "r1" ≢ s
apart s f e = absurd (ground (arith, f, (eq_iff s "r1").1 (ground (arith, e))))

delete_room-others_example :
    ((kt : String)
      → lookup
          (full_key "/rooms/" "r1" kt)
          (delete_room json "/rooms/" "r1" (store kvs_of [])).1.kvs
        ≡ none)
    × ((kt : String)
        → lookup
            (full_key "/rooms/" "r10" kt)
            (delete_room json "/rooms/" "r1" (store kvs_of [])).1.kvs
          ≡ lookup (full_key "/rooms/" "r10" kt) kvs_of)
delete_room-others_example =
    delete_room-others json "/rooms/" "r1" "r10" kvs_of []
      (λ e. omega (arith, e), (λ e. omega (arith, e), tt))
      (λ e. omega (arith, e), (λ e. omega (arith, e), (λ e. omega (arith, e), tt)))
      (apart "r10" refl)

-- A watcher of the mixers that keeps no state of its own.
abbrev mixers : Config (Unit {0}) (Unit {0})
mixers = record {
  prefix_to_watch = "/mixers/";
  allowed_key_types = [];
  trans = record {
    rebuild_start = λ s. (s, true);
    rebuild_state = λ id t s. (s, true);
    rebuild_end = λ s. (s, true);
    new_state = λ id kt v cur. NewState.next_state (some tt);
    process_change = λ id t s. (s, true);
  };
}

abbrev watching : Loop (Unit {0}) (Unit {0})
watching = record { cache = []; retry_attempts = []; app = tt; enqueued = [] }

abbrev m1 : ModuleMarkUri
m1 = record { module_type = "mixers"; module_id = "m1" }

abbrev cordon : SetModuleMarkBody
cordon = record { label = "cordon"; ttl = 60 }

was_set :
    lookup "mixersm1/mark" (handle_set_mark json (some m1) (some cordon) (store [] [])).1.kvs ≢ none
unfolding handle_set_mark set_module_mark_as to_mark_label set_module_mark call module_mark_key
    full_key lookup insert
was_set e = absurd (ground (arith, e))

handle_set_mark_unseen_example :
    handle_event mixers (λ v. true) (Event.put "mixersm1/mark" "mark") watching ≡ some watching
unfolding lookup
handle_set_mark_unseen_example =
    handle_set_mark_unseen json m1 cordon (store [] []) mixers "mixers/" (λ v. true) watching
      "mixersm1/mark" "mark" (inl refl) refl was_set
