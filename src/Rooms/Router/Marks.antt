-- ===== src/Rooms/Router/Marks.antt =====
-- The marks of modules that the API sets, and the watchers of modules.
use Prim.Native.String.{◌++◌}
use mathlib.Core.Path.{subst}
use audio_rtc_exp.Rooms.Router.{
  Body, ModuleMarkUri, SetModuleMarkBody, conclude, to_mark_label, set_module_mark_as,
  handle_set_mark,
}
use text.Mathlib.TextLemmas.{cons-append}
use audio_rtc_exp.Prelude.{
  ℕ, ◌≡◌, ◌≢◌, refl, sym, ◌∙◌, Map, ◌⊎◌, inl, inr, String, List, [], ◌∷◌, Option, none, some,
  eq_iff, lookup, delete, lookup-insert, lookup-delete, ltb, ◌==◌, string_eq, nat_eq, Bool, true,
  false, Bool-cases, Option-cases, trim_prefix,
}
use audio_rtc_exp.Watcher.Keys.{parse_key, full_key, slash}
use audio_rtc_exp.Watcher.{Config, Loop, Event, handle_event, take_event, parse_and_update_cache}
use audio_rtc_exp.Rooms.Store.{
  Codecs, Etcd, M, pass, call, put, grant, ◌>>=◌, set_module_mark, delete_module_mark,
  module_mark_key,
}

-- At most the value of one key differs.
abbrev pub Touches : String → Map String → Map String → Type 0
Touches key before after = (k : String) → (key == k) ≡ false → lookup k after ≡ lookup k before

-- A call that writes at most one key.
call-Touches :
    (key : String) (f : Etcd → Unit {0} × Etcd) (e : Etcd)
    → ((g : Etcd) → Touches key g.kvs (f g).1.kvs)
    → Touches key e.kvs (call f e).1.kvs
unfolding call
call-Touches key f e h = go e.faults refl
  where
    go : (fs : List Bool) → e.faults ≡ fs → Touches key e.kvs (call f e).1.kvs
    go [] i = rw (call, i) (h e)
    go (false ∷ fs) i = rw (call, i) (h (record e { faults = fs }))
    go (true ∷ fs) i = rw (call, i) (λ k n. refl)

put-Touches :
    (key value : String) (lease : Option ℕ) (e : Etcd)
    → Touches key e.kvs (put key value lease e).1.kvs
put-Touches key value lease e =
    call-Touches key _ e λ g k n. lookup-insert key k value g.kvs ∙ rw n refl

then-Touches :
    (key : String) (m : M (Unit {0})) (k : Unit {0} → M (Unit {0})) (e : Etcd)
    → Touches key e.kvs (m e).1.kvs
    → ((f : Etcd) → Touches key f.kvs (k tt f).1.kvs)
    → Touches key e.kvs ((m >>= k) e).1.kvs
then-Touches key m k e first rest = go (m e) first
  where
    go :
        (o : Option (Unit {0}) × Etcd)
        → Touches key e.kvs o.1.kvs
        → Touches key e.kvs (pass k o).1.kvs
    go (none, f) before = before
    go (some u, f) before = λ j n. rest f j n ∙ before j n

module _ (json : Codecs) (module_type module_id : String) where
  set_module_mark-Touches :
      (label : String) (ttl : ℕ) (e : Etcd)
      → Touches
          (module_mark_key module_type module_id)
          e.kvs
          (set_module_mark json module_type module_id label ttl e).1.kvs
  unfolding set_module_mark
  set_module_mark-Touches label ttl e =
      elim (Option-cases (json.mark.marshal (record { label = label }))) [
        | inl f ↦ rw (set_module_mark, f) (λ k n. refl)
        | inr (v, f) ↦ elim (Bool-cases (ltb 0 ttl)) [
          | inl t ↦
              rw (set_module_mark, f, t)
                (then-Touches (module_mark_key module_type module_id) (grant ttl)
                  (λ u. put (module_mark_key module_type module_id) v (some ttl)) e
                  (call-Touches (module_mark_key module_type module_id) (λ g. (tt, g)) e
                    (λ g k n. refl))
                  (put-Touches (module_mark_key module_type module_id) v (some ttl)))
          | inr t ↦
              rw (set_module_mark, f, t)
                (put-Touches (module_mark_key module_type module_id) v none e)
        ]
      ]

  delete_module_mark-Touches :
      (e : Etcd)
      → Touches
          (module_mark_key module_type module_id)
          e.kvs
          (delete_module_mark module_type module_id e).1.kvs
  unfolding delete_module_mark
  delete_module_mark-Touches e =
      call-Touches (module_mark_key module_type module_id)
        (λ g. (
          tt,
          record g {
            kvs = delete (module_mark_key module_type module_id) g.kvs;
            leases = delete (module_mark_key module_type module_id) g.leases;
          },
        ))
        e λ g k n. lookup-delete (module_mark_key module_type module_id) k g.kvs ∙ rw n refl

-- The types of modules that the API takes, by the tag `oneof=mixers januses`.
abbrev pub IsModules : String → Type 0
IsModules t = (t ≡ "mixers") ⊎ (t ≡ "januses")

unparsed :
    (p t id : String) → IsModules t → parse_key (String.◌∷◌ slash p) (module_mark_key t id) ≡ none
unfolding parse_key trim_prefix module_mark_key full_key
unparsed p t id (inl f) = rw (f, cons-append "m" "ixers" (id ++ "/mark")) refl
unparsed p t id (inr f) = rw (f, cons-append "j" "anuses" (id ++ "/mark")) refl

ignored :
    {T S : Type 0} (cfg : Config T S) (p t id v : String) (u : String → Bool) (w : Loop T S)
    → cfg.prefix_to_watch ≡ String.◌∷◌ slash p
    → IsModules t
    → handle_event cfg u (Event.put (module_mark_key t id) v) w ≡ some w
unfolding handle_event take_event parse_and_update_cache
ignored cfg p t id v u w e m =
    rw (handle_event, take_event, parse_and_update_cache, e, unparsed p t id m) refl

conclude-Touches :
    (key what : String) (body : Body) (kvs : Map String) (o : Option (Unit {0}) × Etcd)
    → Touches key kvs o.1.kvs
    → Touches key kvs (conclude what body o).1.kvs
conclude-Touches key what body kvs (none, e) h = h
conclude-Touches key what body kvs (some u, e) h = h

module _ (json : Codecs) where
  set_module_mark_as-Touches :
      (uri : ModuleMarkUri) (req : SetModuleMarkBody) (label : Option String) (e : Etcd)
      → Touches
          (module_mark_key uri.module_type uri.module_id)
          e.kvs
          (set_module_mark_as json uri req label e).1.kvs
  unfolding set_module_mark_as
  set_module_mark_as-Touches uri req none e = λ k n. refl
  set_module_mark_as-Touches uri req (some label) e =
      conclude-Touches _ _ _ e.kvs
        (set_module_mark json uri.module_type uri.module_id label req.ttl e)
        (set_module_mark-Touches json uri.module_type uri.module_id label req.ttl e)

  changed-mark :
      (uri : ModuleMarkUri) (req : SetModuleMarkBody) (k : String) (e : Etcd)
      → lookup k (handle_set_mark json (some uri) (some req) e).1.kvs ≢ lookup k e.kvs
      → k ≡ module_mark_key uri.module_type uri.module_id
  unfolding handle_set_mark
  changed-mark uri req k e n =
      let key = module_mark_key uri.module_type uri.module_id in
      elim (Bool-cases (key == k)) [
        | inl t ↦ sym ((eq_iff key k).0 t)
        | inr t ↦ absurd (n (set_module_mark_as-Touches uri req (to_mark_label req.label) e k t))
      ]

  -- Whatever a request to mark a module changes in etcd, a watcher whose prefix begins with a slash
  -- takes no notice of the key: the marks never reach the watchers of modules.
  pub handle_set_mark_unseen :
      {T S : Type 0} (uri : ModuleMarkUri) (req : SetModuleMarkBody) (e : Etcd) (cfg : Config T S)
      (p : String) (u : String → Bool) (w : Loop T S) (k v : String)
      → IsModules uri.module_type
      → cfg.prefix_to_watch ≡ String.◌∷◌ slash p
      → lookup k (handle_set_mark json (some uri) (some req) e).1.kvs ≢ lookup k e.kvs
      → handle_event cfg u (Event.put k v) w ≡ some w
  handle_set_mark_unseen uri req e cfg p u w k v m f n =
      subst (λ key. handle_event cfg u (Event.put key v) w ≡ some w)
        (sym (changed-mark uri req k e n)) (ignored cfg p uri.module_type uri.module_id v u w f m)
