-- ===== src/Rooms/Store/Listing/Laws.antt =====
-- GetAllRooms lists the rooms of etcd.
use Prim.Native.String.{◌++◌}
use audio_rtc_exp.Prelude.{
  ◌≡◌, refl, sym, keep, lookup-keep, keep-IsMap, ap, ◌∙◌, String, List, [], ◌∷◌, Option, none, some,
  arith, eq_iff, Map, lookup, insert, lookup-insert, string_eq, Bool, true, false, is_some, IsMap,
  trim_prefix, trim_prefix-append,
}
use audio_rtc_exp.Watcher.Keys.{full_key}
use audio_rtc_exp.Etcdstate.Meta.{Meta}
use audio_rtc_exp.Rooms.Store.{Codec, Etcd, call, meta_key}
use audio_rtc_exp.Rooms.Store.Listing.{
  meta_end, entry_of, list_rooms, get_all_rooms, Entry, skip, add, out_of_range,
}
use audio_rtc_exp.Rooms.Store.Listing.Entries.{
  add-Adds, OutOfRange, out_of_range-OutOfRange, skip-room_in, add-room_in, first_or, room_in,
}

module _ (json : Codec Meta) (prefix : String) where
  -- What the loop does.
  data Lists (kvs : Map String) (rms : Map Meta) : Type 0 where
    listed :
        (out : Map Meta)
        → list_rooms json prefix kvs rms ≡ some out
        → ((r : String)
            → lookup r out ≡ first_or json prefix (room_in json prefix kvs r) (lookup r rms))
        → Lists kvs rms
    panicked : list_rooms json prefix kvs rms ≡ none → OutOfRange json prefix kvs → Lists kvs rms

  first_or-none : (m : Option Meta) → first_or json prefix m none ≡ m
  unfolding first_or
  first_or-none none = refl
  first_or-none (some m) = refl

  -- Over keys that stand once each, the loop lists every room whose metadata is JSON and no other,
  -- or panics at a key that is too short.
  Lists-total : (kvs : Map String) → IsMap kvs → (rms : Map Meta) → Lists kvs rms
  unfolding list_rooms room_in first_or lookup
  Lists-total [] h rms = listed rms refl (λ r. refl)
  Lists-total ((key, value) ∷ kvs) h rms =
      go (entry_of json prefix key value) refl (Lists-total kvs h.1)
    where
      later : OutOfRange json prefix kvs → OutOfRange json prefix ((key, value) ∷ kvs)
      later o = record {
        key = o.key;
        value = o.value;
        holds = ground (arith, eq_iff key o.key, o.holds, h.0);
        ends = o.ends;
        short = o.short;
      }

      passed :
          (r : String)
          → entry_of json prefix key value ≡ skip
          → room_in json prefix kvs r ≡ room_in json prefix ((key, value) ∷ kvs) r
      passed r e = sym (skip-room_in json prefix key value r kvs e h.0)

      go :
          (entry : Entry)
          → entry_of json prefix key value ≡ entry
          → ((next : Map Meta) → Lists kvs next)
          → Lists ((key, value) ∷ kvs) rms
      go skip e more = elim (more rms) [
        | listed out f same ↦
            listed out (rw (list_rooms, e) f)
              (λ r. same r ∙ ap (λ m. first_or json prefix m (lookup r rms)) (passed r e))
        | panicked f o ↦ panicked (rw (list_rooms, e) f) (later o)
      ]
      go out_of_range e more =
          panicked (rw (list_rooms, e) refl) (out_of_range-OutOfRange json prefix key value kvs e)
      go (add a room) e more = elim (more (insert a room rms)) [
        | listed out f same ↦ listed out (rw (list_rooms, e) f) (λ r.
            same r
            ∙ (ap (first_or json prefix (room_in json prefix kvs r)) (lookup-insert a r room rms)
                ∙ add-room_in json prefix key value a r room kvs (lookup r rms)
                    (add-Adds json prefix key value a room e) h.0))
        | panicked f o ↦ panicked (rw (list_rooms, e) f) (later o)
      ]

  -- What GetAllRooms answers: an error, a panic, or the rooms.
  pub data Answers (e : Etcd) : Type 0 where
    refused :
        (fs : List Bool) → e.faults ≡ true ∷ fs → (get_all_rooms json prefix e).0 ≡ none → Answers e
    crashed : (get_all_rooms json prefix e).0 ≡ some none → OutOfRange json prefix e.kvs → Answers e
    lists :
        (out : Map Meta)
        → (get_all_rooms json prefix e).0 ≡ some (some out)
        → ((r : String) → lookup r out ≡ room_in json prefix e.kvs r)
        → Answers e

  prefixed : Map String → Map String
  prefixed kvs = keep (λ kv. is_some (trim_prefix prefix kv.0)) kvs

  room_in-prefixed :
      (kvs : Map String) (r : String)
      → room_in json prefix (prefixed kvs) r ≡ room_in json prefix kvs r
  unfolding room_in prefixed meta_key full_key
  room_in-prefixed kvs r =
      let has = trim_prefix-append prefix (r ++ meta_end) in
      let same : lookup (meta_key prefix r) (prefixed kvs) ≡ lookup (meta_key prefix r) kvs =
        lookup-keep (λ k. is_some (trim_prefix prefix k)) (meta_key prefix r) kvs ∙ rw has refl in
      rw (room_in, same) refl

  prefixed-OutOfRange :
      (kvs : Map String) → OutOfRange json prefix (prefixed kvs) → OutOfRange json prefix kvs
  unfolding prefixed
  prefixed-OutOfRange kvs o = record {
    key = o.key;
    value = o.value;
    holds = ground (arith, o.holds, lookup-keep (λ k. is_some (trim_prefix prefix k)) o.key kvs);
    ends = o.ends;
    short = o.short;
  }

  -- The rest of GetAllRooms once Get has answered.
  Answers-given :
      (e : Etcd)
      → IsMap e.kvs
      → (get_all_rooms json prefix e).0 ≡ some (list_rooms json prefix (prefixed e.kvs) [])
      → Answers e
  unfolding prefixed first_or lookup
  Answers-given e h c =
      elim (Lists-total (prefixed e.kvs) (keep-IsMap (λ k. is_some (trim_prefix prefix k)) e.kvs h)
        []) [
          | listed out g same ↦ lists out (rw c (rw g refl)) (λ r.
              same r
              ∙ (first_or-none (room_in json prefix (prefixed e.kvs) r) ∙ room_in-prefixed e.kvs r))
          | panicked g o ↦ crashed (rw c (rw g refl)) (prefixed-OutOfRange e.kvs o)
        ]

  -- If each key of etcd stands once, GetAllRooms fails, or answers exactly the rooms whose metadata
  -- is JSON, or panics at a key that ends in "/meta" and is shorter than the prefix with "/meta".
  pub Answers-total : (e : Etcd) → IsMap e.kvs → Answers e
  unfolding get_all_rooms call prefixed
  Answers-total e h = go e.faults refl
    where
      go : (fs : List Bool) → e.faults ≡ fs → Answers e
      go [] f = Answers-given e h (rw (get_all_rooms, call, f) refl)
      go (false ∷ fs) f = Answers-given e h (rw (get_all_rooms, call, f) refl)
      go (true ∷ fs) f = refused fs f (rw (get_all_rooms, call, f) refl)
