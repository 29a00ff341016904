-- ===== src/Users/Redis/Keys.antt =====
-- The keys and fields of the hashes do not collide, and what the writes of one hash change.
use Prim.Native.String.{◌++◌}
use text.Mathlib.TextLemmas.{append_cancel_left, append_cancel_right, append_inj}
use audio_rtc_exp.Prelude.{
  ◌≡◌, refl, sym, ap, ◌≢◌, String, List, [], ◌∷◌, none, some, arith, eq_iff, Map, lookup, insert,
  delete, Bool, true, false, lookup-insert, lookup-delete, ◌==◌, string_eq, if◌then◌else◌, ◌⊎◌, inl,
  inr, Bool-cases,
}
use audio_rtc_exp.Users.Redis.{hash, rooms_key, user_status_key, status_field, meta_field}

status_ne_meta : ◌≢◌ {A = String} "s:" "m:"
status_ne_meta = ground (arith, eq_iff "s:" "m:")

rooms_ne_room : ◌≢◌ {A = String} ":ro" ":r:"
rooms_ne_room = ground (arith, eq_iff ":ro" ":r:")

ne→false : (a b : String) → a ≢ b → (a == b) ≡ false
ne→false a b h = ground (arith, eq_iff a b)

pub status-meta : (u v : String) → (status_field u == meta_field v) ≡ false
unfolding status_field meta_field
status-meta u v = ne→false _ _ (λ e. status_ne_meta (append_inj {s₁ = "s:"} {s₂ = "m:"} e refl).0)

pub meta-status : (u v : String) → (meta_field u == status_field v) ≡ false
unfolding status_field meta_field
meta-status u v =
    ne→false _ _ (λ e. status_ne_meta (append_inj {s₁ = "s:"} {s₂ = "m:"} (sym e) refl).0)

pub rooms-user_status : (p k : String) → (rooms_key p == user_status_key p k) ≡ false
unfolding rooms_key user_status_key
rooms-user_status p k = ne→false _ _ (λ e.
    rooms_ne_room
      (append_inj {s₁ = ":ro"} {s₂ = ":r:"} {t₁ = "oms"} (append_cancel_left p _ _ e) refl).0)

pub user_status-rooms : (p k : String) → (user_status_key p k == rooms_key p) ≡ false
user_status-rooms p k = ground (
  arith,
  eq_iff (rooms_key p) (user_status_key p k),
  eq_iff (user_status_key p k) (rooms_key p),
  rooms-user_status p k,
)

same_test : (a b c d : String) → (a ≡ b → c ≡ d) → (c ≡ d → a ≡ b) → (a == b) ≡ (c == d)
same_test a b c d f g = ground (arith, eq_iff a b, eq_iff c d, f, g)

pub status-status : (u v : String) → (status_field u == status_field v) ≡ (u == v)
unfolding status_field
status-status u v = same_test _ _ u v (append_cancel_left "s:" u v) (ap (◌++◌ "s:"))

pub meta-meta : (u v : String) → (meta_field u == meta_field v) ≡ (u == v)
unfolding meta_field
meta-meta u v = same_test _ _ u v (append_cancel_left "m:" u v) (ap (◌++◌ "m:"))

pub user_status-user_status :
    (p j k : String) → (user_status_key p j == user_status_key p k) ≡ (j == k)
unfolding user_status_key
user_status-user_status p j k =
    same_test _ _ j k
      (λ e.
        append_cancel_right j k ":us" (append_cancel_left ":r:" _ _ (append_cancel_left p _ _ e)))
      (ap (λ (x : String). p ++ (":r:" ++ (x ++ ":us"))))

pub hash-insert :
    (j k : String) (m : Map String) (h : Map (Map String))
    → hash k (insert j m h) ≡ (if j == k then m else hash k h)
hash-insert j k m h = ground (arith, lookup-insert j k m h)

pub ruleset key_laws = (
  status-meta, meta-status, rooms-user_status, user_status-rooms, status-status, meta-meta,
  user_status-user_status, hash-insert, lookup-insert, lookup-delete,
)
