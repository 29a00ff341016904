-- ===== src/Rooms/Store/Deletion.antt =====
-- DeleteRoom of the store removes the keys of one room.
use Prim.Native.String.{◌++◌}
use text.Mathlib.TextLemmas.{nil-append, cons-append, append_assoc, append_cancel_left}
use audio_rtc_exp.Prelude.{
  ℕ, ◌≡◌, ◌≢◌, refl, sym, ap, ◌∙◌, inl, inr, String, ◌∷◌, none, some, arith, Map, lookup,
  lookup-keep, string_eq, Bool, not, is_some, Option-cases, split, split_part, Without, trim_prefix,
  trim_prefix-append, append-trim_prefix,
}
use audio_rtc_exp.Watcher.Keys.{full_key, slash}
use audio_rtc_exp.Rooms.Store.{Codecs, store, call, delete_room}

module _ (prefix : String) where
  room_prefix : String → String
  room_prefix r = prefix ++ (r ++ String.◌∷◌ slash String.[])

  -- Keys of the room begin with its prefix.
  own_key : (r kt : String) → trim_prefix (room_prefix r) (full_key prefix r kt) ≡ some kt
  unfolding room_prefix full_key
  own_key r kt =
      let slashed : String.◌∷◌ slash String.[] ++ kt ≡ String.◌∷◌ slash kt =
        cons-append slash String.[] kt ∙ ap (String.◌∷◌ slash) (nil-append kt) in
      let whole : room_prefix r ++ kt ≡ full_key prefix r kt =
        append_assoc prefix (r ++ String.◌∷◌ slash String.[]) kt
        ∙ ap (λ x. prefix ++ x)
            (append_assoc r (String.◌∷◌ slash String.[]) kt ∙ ap (λ x. r ++ x) slashed) in
      ap (trim_prefix (room_prefix r)) (sym whole) ∙ trim_prefix-append (room_prefix r) kt

  -- Keys of another room do not.
  other_room :
      (r other kt : String)
      → Without slash r
      → Without slash other
      → r ≢ other
      → trim_prefix (room_prefix r) (full_key prefix other kt) ≡ none
  unfolding room_prefix full_key
  other_room r other kt h k n =
      elim (Option-cases (trim_prefix (room_prefix r) (full_key prefix other kt))) [
        | inl e ↦ e
        | inr (rest, e) ↦
            let slashed : String.◌∷◌ slash String.[] ++ rest ≡ String.◌∷◌ slash rest =
              cons-append slash String.[] rest ∙ ap (String.◌∷◌ slash) (nil-append rest) in
            let joined : other ++ String.◌∷◌ slash kt ≡ r ++ String.◌∷◌ slash rest =
              append_cancel_left prefix _ _ (
                append-trim_prefix (room_prefix r) _ rest e
                ∙ append_assoc prefix (r ++ String.◌∷◌ slash String.[]) rest)
              ∙ (append_assoc r (String.◌∷◌ slash String.[]) rest ∙ ap (λ x. r ++ x) slashed) in
            let parts : other ∷ split slash kt ≡ r ∷ split slash rest =
              sym (split_part slash other kt k)
              ∙ (ap (split slash) joined ∙ split_part slash r rest h) in
            absurd (n (ground arith))
      ]

module _ (json : Codecs) (prefix : String) where
  kept : String → String → Bool
  kept r k = not (is_some (trim_prefix (room_prefix prefix r) k))

  -- If etcd does not fail, DeleteRoom leaves no key of the room and every key of any other room as it
  -- was, for ids without a slash.
  pub delete_room-others :
      (r other : String) (kvs : Map String) (leases : Map ℕ)
      → Without slash r
      → Without slash other
      → r ≢ other
      → ((kt : String)
          → lookup (full_key prefix r kt) (delete_room json prefix r (store kvs leases)).1.kvs
            ≡ none)
        × ((kt : String)
            → lookup (full_key prefix other kt) (delete_room json prefix r (store kvs leases)).1.kvs
              ≡ lookup (full_key prefix other kt) kvs)
  unfolding delete_room call room_prefix kept
  delete_room-others r other kvs leases h k n = (
    λ kt. lookup-keep (kept r) (full_key prefix r kt) kvs ∙ rw (kept, own_key prefix r kt) refl,
    λ kt.
        lookup-keep (kept r) (full_key prefix other kt) kvs
        ∙ rw (kept, other_room prefix r other kt h k n) refl,
  )
