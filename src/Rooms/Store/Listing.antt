-- ===== src/Rooms/Store/Listing.antt =====
-- GetAllRooms and GetStats: the rooms of the keys that end in "/meta".
pub mod Entries
pub mod Laws
use Prim.Native.String.{◌++◌}
use mathlib.Core.Option.{map}
use text.Mathlib.TextLemmas.{nil-append, cons-append, append_assoc}
use audio_rtc_exp.Prelude.{
  ℕ, ◌≡◌, refl, sym, keep, lookup-keep, keep-IsMap, ap, ◌∙◌, inl, inr, String, List, [], ◌∷◌,
  Option, none, some, arith, eq_iff, Map, lookup, insert, lookup-insert, length, ◌==◌, string_eq,
  string_eq_refl, if◌then◌else◌, Bool, true, false, is_some, IsMap, Bool-cases, Option-cases,
  trim_prefix, trim_prefix-append, append-trim_prefix,
}
use audio_rtc_exp.Watcher.Keys.{full_key}
use audio_rtc_exp.Etcdstate.Meta.{Meta}
use audio_rtc_exp.Rooms.Store.{Codec, Etcd, M, ◌>>=◌, answer, given, call, get_prefix, meta_key}

abbrev pub meta_end : String
meta_end = "/meta"

-- key[:len(key)-5] if key[len(key)-5:] is "/meta"
unfoldable pub cut_meta : String → Option String
cut_meta String.[] = none
cut_meta (String.◌∷◌ c s) = elim (cut_meta s) [
  | some r ↦ some (String.◌∷◌ c r)
  | none ↦ if String.◌∷◌ c s == meta_end then some String.[] else none
]

-- What one entry of the answer does: an index out of range is a panic.
pub data Entry : Type 0 where
  skip : Entry
  add : String → Meta → Entry
  out_of_range : Entry

module _ (json : Codec Meta) (prefix : String) where
  -- key[len(prefix):len(key)-5]. Every key of the answer has the prefix.
  unfoldable pub room_of : String → Option String
  unfolding cut_meta trim_prefix
  room_of key = elim (trim_prefix prefix key) [ none ↦ none | some rest ↦ cut_meta rest ]

  unfoldable pub named : Option String → Meta → Entry
  named none room = out_of_range
  named (some room_id) room = add room_id room

  unfoldable pub decoded : String → Option Meta → Entry
  unfolding room_of named
  decoded key none = skip
  decoded key (some room) = named (room_of key) room

  unfoldable pub entry_of : String → String → Entry
  unfolding cut_meta decoded
  entry_of key value = if is_some (cut_meta key) then decoded key (json.unmarshal value) else skip

  -- The loop; none is a panic.
  unfoldable pub list_rooms : Map String → Map Meta → Option (Map Meta)
  unfolding entry_of
  list_rooms [] rms = some rms
  list_rooms ((key, value) ∷ kvs) rms = elim (entry_of key value) [
    | skip ↦ list_rooms kvs rms
    | out_of_range ↦ none
    | add room_id room ↦ list_rooms kvs (insert room_id room rms)
  ]

  unfoldable pub get_all_rooms : M (Option (Map Meta))
  unfolding list_rooms call
  get_all_rooms = get_prefix prefix >>= λ kvs. answer (list_rooms kvs [])

  -- The number of rooms.
  unfoldable pub get_stats : M (Option ℕ)
  unfolding get_all_rooms
  get_stats = get_all_rooms >>= λ rms. answer (map length rms)
