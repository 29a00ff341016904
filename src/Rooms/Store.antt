-- ===== src/Rooms/Store.antt =====
-- backend/rooms/store/room_store.go: rooms in etcd. JSON is a parameter; a call of etcd that fails
-- changes nothing, and the next fault says whether it fails. The clock is an argument.
pub mod Listing
pub mod Deletion
use Prim.Native.String.{◌++◌}
use audio_rtc_exp.Prelude.{
  ℕ, zero, suc, String, List, [], ◌∷◌, Option, none, some, Map, lookup, insert, delete, length,
  keep, ◌==◌, ltb, nat_eq, string_eq, if◌then◌else◌, Bool, true, false, not, is_some, trim_prefix,
}
use audio_rtc_exp.Watcher.Keys.{full_key, slash}
use audio_rtc_exp.Etcdstate.{
  room_key_meta, room_key_live_meta, room_key_mixer, module_key_mark, room_status_on_air,
  room_status_removing,
}
use audio_rtc_exp.Etcdstate.Meta.{Meta}
use audio_rtc_exp.Etcdstate.LiveMeta.{LiveMeta}
use audio_rtc_exp.Etcdstate.Mixer.{Mixer}
use audio_rtc_exp.Etcdstate.Module.{MarkData}

-- encoding/json at one type
pub record Codec (A : Type 0) : Type 0 where
  pub marshal : A → Option String
  pub unmarshal : String → Option A

pub record Codecs : Type 0 where
  pub meta : Codec Meta
  pub live_meta : Codec LiveMeta
  pub mixer : Codec Mixer
  pub mark : Codec MarkData

-- Keys with their values, and for a key with a lease its time to live in seconds.
pub record Etcd : Type 0 where
  pub kvs : Map String
  pub leases : Map ℕ
  pub faults : List Bool

-- An etcd that does not fail.
abbrev pub store : Map String → Map ℕ → Etcd
store kvs leases = record { kvs = kvs; leases = leases; faults = [] }

-- The answer is none for an error.
abbrev pub M : Type 0 → Type 0
M A = Etcd → Option A × Etcd

abbrev pub pass : {A B : Type 0} → (A → M B) → Option A × Etcd → Option B × Etcd
pass k (none, e) = (none, e)
pass k (some a, e) = k a e

infixl 5 ◌>>=◌
abbrev pub ◌>>=◌ : {A B : Type 0} → M A → (A → M B) → M B
m >>= k = λ e. pass k (m e)

abbrev pub answer : {A : Type 0} → A → M A
answer a e = (some a, e)

-- What a pure step answers, or its error.
abbrev pub given : {A : Type 0} → Option A → M A
given r e = (r, e)

unfoldable pub call : {A : Type 0} → (Etcd → A × Etcd) → M A
call f e = elim e.faults [
  | [] ↦ (some (f e).0, (f e).1)
  | false ∷ fs ↦ (some (f (record e { faults = fs })).0, (f (record e { faults = fs })).1)
  | true ∷ fs ↦ (none, record e { faults = fs })
]

abbrev pub get : String → M (Option String)
get key = call λ e. (lookup key e.kvs, e)

abbrev pub get_prefix : String → M (Map String)
get_prefix prefix = call λ e. (keep (λ kv. is_some (trim_prefix prefix kv.0)) e.kvs, e)

-- A put without a lease drops the lease of the key.
abbrev pub put : String → String → Option ℕ → M (Unit {0})
put key value lease = call λ e. (
  tt,
  record e {
    kvs = insert key value e.kvs;
    leases = elim lease [ none ↦ delete key e.leases | some ttl ↦ insert key ttl e.leases ];
  },
)

abbrev pub grant : ℕ → M (Unit {0})
grant ttl = call λ e. (tt, e)

abbrev pub delete_key : String → M (Unit {0})
delete_key key = call λ e. (tt, record e { kvs = delete key e.kvs; leases = delete key e.leases })

abbrev pub delete_prefix : String → M ℕ
delete_prefix prefix = call λ e. (
  length (keep (λ kv. is_some (trim_prefix prefix kv.0)) e.kvs),
  record e {
    kvs = keep (λ kv. not (is_some (trim_prefix prefix kv.0))) e.kvs;
    leases = keep (λ kv. not (is_some (trim_prefix prefix kv.0))) e.leases;
  },
)

module _ (prefix : String) where
  unfoldable pub meta_key : String → String
  unfolding full_key
  meta_key room_id = full_key prefix room_id room_key_meta

  unfoldable pub live_meta_key : String → String
  unfolding full_key
  live_meta_key room_id = full_key prefix room_id room_key_live_meta

  unfoldable pub mixer_key : String → String
  unfolding full_key
  mixer_key room_id = full_key prefix room_id room_key_mixer

unfoldable pub module_mark_key : String → String → String
unfolding full_key
module_mark_key module_type module_id = full_key module_type module_id module_key_mark

-- A value that may be missing, read as JSON.
unfoldable pub decode : {A : Type 0} → Codec A → Option String → Option (Option A)
decode json none = some none
decode json (some v) = elim (json.unmarshal v) [ none ↦ none | some a ↦ some (some a) ]

module _ (json : Codecs) (prefix : String) where
  unfoldable pub create_room : ℕ → String → Meta → M Meta
  unfolding call meta_key
  create_room now room_id room_data = get (meta_key prefix room_id) >>= λ found.
      if is_some found
      then given none
      else let dated = record room_data { created_at = now } in
        given (json.meta.marshal dated)
        >>= (λ data_. put (meta_key prefix room_id) data_ none >>= λ _. answer dated)

  unfoldable pub get_room : String → M (Option Meta)
  unfolding call meta_key decode
  get_room room_id = get (meta_key prefix room_id) >>= λ found. given (decode json.meta found)

  unfoldable pub exists : String → M Bool
  unfolding call meta_key
  exists room_id = get (meta_key prefix room_id) >>= λ found. answer (is_some found)

  -- False if there was no key to delete.
  unfoldable pub delete_room : String → M Bool
  unfolding call
  delete_room room_id =
      delete_prefix (prefix ++ (room_id ++ String.◌∷◌ slash String.[])) >>= λ deleted.
      answer (not (deleted == 0))

  unfoldable pub put_live_meta : String → LiveMeta → M (Unit {0})
  unfolding call live_meta_key
  put_live_meta room_id livemeta = given (json.live_meta.marshal livemeta) >>= λ data_.
      put (live_meta_key prefix room_id) data_ none

  unfoldable pub create_live_meta : ℕ → String → String → String → String → M (Unit {0})
  unfolding put_live_meta
  create_live_meta now room_id mixer_id janus_id nonce = put_live_meta room_id (record {
    status = room_status_on_air;
    mixer_id = mixer_id;
    janus_id = janus_id;
    created_at = now;
    discard_at = none;
    nonce = nonce;
  })

  unfoldable pub stop_live_meta : ℕ → String → M (Unit {0})
  unfolding put_live_meta
  stop_live_meta now room_id = put_live_meta room_id (record {
    status = room_status_removing;
    mixer_id = "";
    janus_id = "";
    created_at = 0;
    discard_at = some now;
    nonce = "";
  })

  unfoldable pub get_mixer_data : String → M (Option Mixer)
  unfolding call mixer_key decode
  get_mixer_data room_id =
      get (mixer_key prefix room_id) >>= λ found. given (decode json.mixer found)

module _ (json : Codecs) where
  unfoldable pub set_module_mark : String → String → String → ℕ → M (Unit {0})
  unfolding call module_mark_key
  set_module_mark module_type module_id label ttl_seconds =
      given (json.mark.marshal (record { label = label })) >>= λ data_.
      if ltb 0 ttl_seconds
      then grant ttl_seconds
        >>= (λ _. put (module_mark_key module_type module_id) data_ (some ttl_seconds))
      else put (module_mark_key module_type module_id) data_ none

unfoldable pub delete_module_mark : String → String → M (Unit {0})
unfolding call module_mark_key
delete_module_mark module_type module_id = delete_key (module_mark_key module_type module_id)
