-- ===== src/Users/Combine/Fields.antt =====
-- What parseUsersData, parseRoomTracks and the loops over them make of the fields of a hash.
use Prim.Native.String.{◌++◌}
use audio_rtc_exp.Prelude.{
  ℕ, String, [], ◌∷◌, Option, none, some, Map, lookup, insert, ◌==◌, nat_eq, string_eq,
  if◌then◌else◌, trim_prefix, trim_prefix-append, append-trim_prefix, ◌≡◌, ◌≢◌, refl, arith, eq_iff,
  lookup-insert, lookup-delete, Option-cases, inl, inr, ap,
}
use audio_rtc_exp.Users.{User, zero_user}
use audio_rtc_exp.Users.Combine.Rebuild.{
  ensure_user, dated, kept_users, track_time, parse_tracks, with_role, with_status, take_field,
  parse_users_data,
}
use audio_rtc_exp.Users.Redis.{Strconv, meta_field, status_field}
use audio_rtc_exp.Users.Redis.Keys.{status-meta, meta-status, status-status, meta-meta}

unfoldable pub keeps : ℕ → Option User → Option User
keeps now none = none
keeps now (some u) = if u.role == "" then none else some (dated now u)

pub lookup-kept_users :
    (now : ℕ) (j : String) (room : Map User)
    → lookup j (kept_users now room) ≡ keeps now (lookup j room)
unfolding kept_users keeps lookup
lookup-kept_users now j [] = refl
lookup-kept_users now j ((i, u) ∷ room) =
    let rest = lookup-kept_users now j room in
    ground (
      arith,
      rest,
      lookup-insert i j (dated now u) (kept_users now room),
      lookup-delete i j (kept_users now room),
    )

pub lookup-parse_tracks :
    (conv : Strconv) (prefix : String) (now : ℕ) (k s : String) (data_ : Map String)
    → lookup k data_ ≡ some s
    → lookup k (parse_tracks conv prefix now data_) ≡ some (track_time conv prefix now s)
unfolding parse_tracks lookup
lookup-parse_tracks conv prefix now k s [] e = ground (arith, e)
lookup-parse_tracks conv prefix now k s ((i, t) ∷ data_) e = ground (
  arith,
  e,
  lookup-parse_tracks conv prefix now k s data_,
  lookup-insert i k (track_time conv prefix now t) (parse_tracks conv prefix now data_),
)

module _ (conv : Strconv) (prefix : String) where
  -- What two fields tell of a user.
  unfoldable pub reading : Option String → Option String → Option User
  reading none none = none
  reading (some role) none = some (with_role conv prefix role zero_user)
  reading none (some v) = some (with_status conv prefix v zero_user)
  reading (some role) (some v) =
      some (with_role conv prefix role (with_status conv prefix v zero_user))

  -- The user that parseUsersData writes to.
  ensured : Option User → User
  ensured none = zero_user
  ensured (some u) = u

  ensure_user-ensured : (j : String) (us : Map User) → ensure_user j us ≡ ensured (lookup j us)
  unfolding ensure_user ensured
  ensure_user-ensured j us = ground arith

  reading-role :
      (value : String) (r s : Option String)
      → some (with_role conv prefix value (ensured (reading r s))) ≡ reading (some value) s
  unfolding reading ensured with_role with_status
  reading-role value none none = refl
  reading-role value none (some v) = refl
  reading-role value (some r) none = refl
  reading-role value (some r) (some v) = refl

  status-role :
      (v role : String) (u w : User)
      → u.role ≡ role
      → with_status conv prefix v u ≡ with_role conv prefix role (with_status conv prefix v w)
  unfolding with_role with_status
  status-role v role u w e = ground arith

  reading-status :
      (value : String) (r s : Option String)
      → some (with_status conv prefix value (ensured (reading r s))) ≡ reading r (some value)
  unfolding reading ensured with_role with_status
  reading-status value none none = refl
  reading-status value none (some v) = ground arith
  reading-status value (some r) none =
      ap some (status-role value r (with_role conv prefix r zero_user) zero_user refl)
  reading-status value (some r) (some v) = ap some (
      status-role value r (with_role conv prefix r (with_status conv prefix v zero_user)) zero_user
        refl)

  other_field : (p f j : String) → trim_prefix p f ≡ none → ◌≢◌ {A = String} f (p ++ j)
  other_field p f j e same = ground (arith, e, ap (trim_prefix p) same, trim_prefix-append p j)

  -- What a user is after a field was read.
  module _ (i j : String) (us : Map User) (u : User) where
    lookup-write : lookup j (insert i u us) ≡ (if i == j then some u else lookup j us)
    lookup-write = lookup-insert i j u us

  lookup-take_role :
      (i j value : String) (us : Map User) (data_ : Map String)
      → ((k : String)
          → lookup k us ≡ reading (lookup (meta_field k) data_) (lookup (status_field k) data_))
      → lookup j (insert i (with_role conv prefix value (ensure_user i us)) us)
        ≡ reading
            (lookup (meta_field j) ((meta_field i, value) ∷ data_))
            (lookup (status_field j) ((meta_field i, value) ∷ data_))
  unfolding lookup
  lookup-take_role i j value us data_ h = ground (
    arith,
    lookup-insert i j (with_role conv prefix value (ensure_user i us)) us,
    eq_iff i j,
    meta-meta i j,
    meta-status i j,
    h i,
    h j,
    ensure_user-ensured i us,
    reading-role value (lookup (meta_field i) data_) (lookup (status_field i) data_),
  )

  lookup-take_status :
      (i j value : String) (us : Map User) (data_ : Map String)
      → ((k : String)
          → lookup k us ≡ reading (lookup (meta_field k) data_) (lookup (status_field k) data_))
      → lookup j (insert i (with_status conv prefix value (ensure_user i us)) us)
        ≡ reading
            (lookup (meta_field j) ((status_field i, value) ∷ data_))
            (lookup (status_field j) ((status_field i, value) ∷ data_))
  unfolding lookup
  lookup-take_status i j value us data_ h = ground (
    arith,
    lookup-insert i j (with_status conv prefix value (ensure_user i us)) us,
    eq_iff i j,
    status-status i j,
    status-meta i j,
    h i,
    h j,
    ensure_user-ensured i us,
    reading-status value (lookup (meta_field i) data_) (lookup (status_field i) data_),
  )

  lookup-parse_users_data_nil :
      (j : String)
      → lookup j (parse_users_data conv prefix [])
        ≡ reading (lookup (meta_field j) []) (lookup (status_field j) [])
  unfolding parse_users_data lookup reading
  lookup-parse_users_data_nil j = refl

  lookup-skip :
      (f v a b j : String) (us : Map User) (data_ : Map String)
      → ((k : String)
          → lookup k us ≡ reading (lookup (meta_field k) data_) (lookup (status_field k) data_))
      → a ≡ meta_field j
      → b ≡ status_field j
      → f ≢ a
      → f ≢ b
      → lookup j us ≡ reading (lookup a ((f, v) ∷ data_)) (lookup b ((f, v) ∷ data_))
  unfolding lookup
  lookup-skip f v a b j us data_ h p q n o = ground (arith, eq_iff f a, eq_iff f b, h j, p, q, n, o)

  lookup-take_field :
      (j f v : String) (us : Map User) (data_ : Map String)
      → ((k : String)
          → lookup k us ≡ reading (lookup (meta_field k) data_) (lookup (status_field k) data_))
      → lookup j (take_field conv prefix f v us)
        ≡ reading
            (lookup (meta_field j) ((f, v) ∷ data_))
            (lookup (status_field j) ((f, v) ∷ data_))
  unfolding meta_field status_field take_field
  lookup-take_field j f v us data_ h = elim (Option-cases (trim_prefix "m:" f)) [
    | inr (i, e) ↦
        rw (take_field, e, append-trim_prefix "m:" f i e) (lookup-take_role i j v us data_ h)
    | inl a ↦ elim (Option-cases (trim_prefix "s:" f)) [
      | inr (i, e) ↦
          rw (take_field, a, e, append-trim_prefix "s:" f i e) (lookup-take_status i j v us data_ h)
      | inl b ↦
          rw (take_field, a, b)
            (lookup-skip f v ("m:" ++ j) ("s:" ++ j) j us data_ h refl refl (other_field "m:" f j a)
              (other_field "s:" f j b))
    ]
  ]

  pub lookup-parse_users_data :
      (j : String) (data_ : Map String)
      → lookup j (parse_users_data conv prefix data_)
        ≡ reading (lookup (meta_field j) data_) (lookup (status_field j) data_)
  unfolding parse_users_data
  lookup-parse_users_data j [] = lookup-parse_users_data_nil j
  lookup-parse_users_data j ((f, v) ∷ data_) =
      lookup-take_field j f v (parse_users_data conv prefix data_) data_
        (λ k. lookup-parse_users_data k data_)
