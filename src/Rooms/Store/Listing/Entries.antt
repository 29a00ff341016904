-- ===== src/Rooms/Store/Listing/Entries.antt =====
-- What one key of etcd adds to the rooms.
use Prim.Native.String.{◌++◌}
use text.Mathlib.TextLemmas.{nil-append, cons-append, append_assoc}
use audio_rtc_exp.Prelude.{
  ◌≡◌, refl, sym, ap, ◌∙◌, inl, inr, String, ◌∷◌, Option, none, some, arith, eq_iff, Map, lookup,
  ◌==◌, string_eq, string_eq_refl, if◌then◌else◌, true, is_some, Bool-cases, Option-cases,
  trim_prefix, trim_prefix-append, append-trim_prefix,
}
use audio_rtc_exp.Watcher.Keys.{full_key}
use audio_rtc_exp.Etcdstate.Meta.{Meta}
use audio_rtc_exp.Rooms.Store.{Codec, meta_key}
use audio_rtc_exp.Rooms.Store.Listing.{
  meta_end, cut_meta, room_of, named, decoded, entry_of, skip, add, out_of_range,
}

cut_meta-append : (a : String) → cut_meta (a ++ meta_end) ≡ some a
unfolding cut_meta
cut_meta-append String.[] = refl
cut_meta-append (String.◌∷◌ c a) = rw (cons-append c a meta_end, cut_meta, cut_meta-append a) refl

append-cut_meta : (s a : String) → cut_meta s ≡ some a → s ≡ a ++ meta_end
unfolding cut_meta
append-cut_meta String.[] a e = absurd (ground arith)
append-cut_meta (String.◌∷◌ c s) a e = elim (Option-cases (cut_meta s)) [
  | inr (r, f) ↦
      let same : String.◌∷◌ c r ≡ a = ground (arith, rw (cut_meta, f) at e) in
      ap (String.◌∷◌ c) (append-cut_meta s r f)
      ∙ (sym (cons-append c r meta_end) ∙ ap (λ x. x ++ meta_end) same)
  | inl f ↦ elim (Bool-cases (String.◌∷◌ c s == meta_end)) [
    | inl t ↦
        let same : String.[] ≡ a = ground (arith, rw (cut_meta, f, t) at e) in
        (eq_iff (String.◌∷◌ c s) meta_end).0 t
        ∙ (sym (nil-append meta_end) ∙ ap (λ x. x ++ meta_end) same)
    | inr t ↦ absurd (ground (arith, rw (cut_meta, f, t) at e))
  ]
]

module _ (json : Codec Meta) (prefix : String) where
  -- The key of the metadata of a room ends in "/meta".
  meta_key-end : (r : String) → meta_key prefix r ≡ (prefix ++ r) ++ meta_end
  unfolding meta_key full_key
  meta_key-end r = sym (append_assoc prefix r meta_end)

  room_of-meta_key : (r : String) → room_of json prefix (meta_key prefix r) ≡ some r
  unfolding room_of meta_key full_key
  room_of-meta_key r =
      rw (room_of, meta_key, full_key, trim_prefix-append prefix (r ++ meta_end))
        (cut_meta-append r)

  pub meta_key_inj : (a r : String) → meta_key prefix a ≡ meta_key prefix r → a ≡ r
  meta_key_inj a r e =
      let same : some a ≡ some r =
        sym (room_of-meta_key a) ∙ (ap (room_of json prefix) e ∙ room_of-meta_key r) in
      ground arith

  entry_of-meta_key :
      (r value : String)
      → entry_of json prefix (meta_key prefix r) value
        ≡ elim (json.unmarshal value) [ none ↦ skip | some room ↦ add r room ]
  unfolding entry_of decoded named
  entry_of-meta_key r value =
      let ends : cut_meta (meta_key prefix r) ≡ some (prefix ++ r) =
        ap cut_meta (meta_key-end r) ∙ cut_meta-append (prefix ++ r) in
      elim (Option-cases (json.unmarshal value)) [
        | inl e ↦ rw (entry_of, ends, e) refl
        | inr (m, e) ↦ rw (entry_of, ends, e, decoded, room_of-meta_key r) refl
      ]

  -- An entry that adds a room stands under the key of the room's metadata.
  pub record Adds (key value r : String) (room : Meta) : Type 0 where
    pub at_key : key ≡ meta_key prefix r
    pub reads : json.unmarshal value ≡ some room

  pub add-Adds :
      (key value r : String) (room : Meta)
      → entry_of json prefix key value ≡ add r room
      → Adds key value r room
  unfolding entry_of decoded named room_of meta_key full_key
  add-Adds key value r room e = elim (Bool-cases (is_some (cut_meta key))) [
    | inr f ↦ absurd (ground (arith, rw (entry_of, f) at e))
    | inl f ↦ elim (Option-cases (json.unmarshal value)) [
      | inl g ↦ absurd (ground (arith, rw (entry_of, f, g) at e))
      | inr (m, g) ↦ elim (Option-cases (trim_prefix prefix key)) [
        | inl h ↦ absurd (ground (arith, rw (entry_of, f, g, decoded, room_of, h) at e))
        | inr (rest, h) ↦ elim (Option-cases (cut_meta rest)) [
          | inl i ↦ absurd (ground (arith, rw (entry_of, f, g, decoded, room_of, h, i) at e))
          | inr (a, i) ↦
              let same : (a ≡ r) × (m ≡ room) =
                ground (arith, rw (entry_of, f, g, decoded, room_of, h, i) at e) in
              record {
                at_key =
                    append-trim_prefix prefix key rest h
                    ∙ (ap (λ x. prefix ++ x) (append-cut_meta rest a i)
                        ∙ ap (λ x. meta_key prefix x) same.0);
                reads = g ∙ ap some same.1;
              }
        ]
      ]
    ]
  ]

  -- The metadata of a room as a map of keys holds it.
  unfoldable pub room_in : Map String → String → Option Meta
  unfolding meta_key
  room_in kvs r = elim (lookup (meta_key prefix r) kvs) [
    | none ↦ none
    | some value ↦ json.unmarshal value
  ]

  -- Where GetAllRooms panics: a key with JSON that ends in "/meta" and is too short.
  pub record OutOfRange (kvs : Map String) : Type 0 where
    pub key : String
    pub value : String
    pub holds : lookup key kvs ≡ some value
    pub ends : is_some (cut_meta key) ≡ true
    pub short : room_of json prefix key ≡ none

  unfoldable pub first_or : Option Meta → Option Meta → Option Meta
  first_or none m = m
  first_or (some n) m = some n

  pub out_of_range-OutOfRange :
      (key value : String) (kvs : Map String)
      → entry_of json prefix key value ≡ out_of_range
      → OutOfRange ((key, value) ∷ kvs)
  unfolding entry_of decoded named lookup
  out_of_range-OutOfRange key value kvs e = elim (Bool-cases (is_some (cut_meta key))) [
    | inr f ↦ absurd (ground (arith, rw (entry_of, f) at e))
    | inl f ↦ elim (Option-cases (json.unmarshal value)) [
      | inl g ↦ absurd (ground (arith, rw (entry_of, f, g) at e))
      | inr (m, g) ↦ elim (Option-cases (room_of json prefix key)) [
        | inr (a, h) ↦ absurd (ground (arith, rw (entry_of, f, g, decoded, h) at e))
        | inl h ↦ record {
          key = key;
          value = value;
          holds = rw (lookup, string_eq_refl key) refl;
          ends = f;
          short = h;
        }
      ]
    ]
  ]

  pub skip-room_in :
      (key value r : String) (kvs : Map String)
      → entry_of json prefix key value ≡ skip
      → lookup key kvs ≡ none
      → room_in ((key, value) ∷ kvs) r ≡ room_in kvs r
  unfolding room_in lookup
  skip-room_in key value r kvs e n = elim (Bool-cases (key == meta_key prefix r)) [
    | inr f ↦ rw (room_in, lookup, f) refl
    | inl f ↦
        let same : key ≡ meta_key prefix r = (eq_iff key (meta_key prefix r)).0 f in
        let absent : lookup (meta_key prefix r) kvs ≡ none = rw same at n in
        elim (Option-cases (json.unmarshal value)) [
          | inl g ↦ rw (room_in, lookup, f, g, absent) refl
          | inr (m, g) ↦
              let added : entry_of json prefix key value ≡ add r m =
                rw same (entry_of-meta_key r value ∙ rw g refl) in
              absurd (ground (arith, added, e))
        ]
  ]

  pub add-room_in :
      (key value a r : String) (room : Meta) (kvs : Map String) (held : Option Meta)
      → Adds key value a room
      → lookup key kvs ≡ none
      → first_or (room_in kvs r) (if a == r then some room else held)
        ≡ first_or (room_in ((key, value) ∷ kvs) r) held
  unfolding room_in lookup first_or
  add-room_in key value a r room kvs held e n = elim (Bool-cases (a == r)) [
    | inl f ↦
        let same : key ≡ meta_key prefix r = e.at_key ∙ ap (meta_key prefix) ((eq_iff a r).0 f) in
        let absent : lookup (meta_key prefix r) kvs ≡ none = rw same at n in
        rw (f, room_in, absent, lookup, (eq_iff key (meta_key prefix r)).1 same, e.reads) refl
    | inr f ↦ elim (Bool-cases (key == meta_key prefix r)) [
      | inl g ↦
          let same : a ≡ r =
            meta_key_inj a r (sym e.at_key ∙ (eq_iff key (meta_key prefix r)).0 g) in
          absurd (ground (arith, f, (eq_iff a r).1 same))
      | inr g ↦ rw (f, room_in, lookup, g) refl
    ]
  ]
