-- ===== src/Wsgateway/Guard/Lock.antt =====
-- Who holds the lock of a user.
use audio_rtc_exp.Prelude.{
  ℕ, ◌+◌, ◌<◌, ◌≡◌, ◌≢◌, refl, ap, ◌∙◌, ◌⊎◌, inl, inr, String, none, some, arith, eq_iff,
  lookup-insert, lookup-delete, ltb, ◌==◌, string_eq, string_eq_refl, nat_eq, if◌then◌else◌, true,
  Bool-cases, Option-cases,
}
use audio_rtc_exp.Wsgateway.Guard.{
  Redis, alive, get, set, acquire_conn_lock, release_conn_lock, conn_lock_px, conn_key, server_key,
  lock_value, held, must_hold, release,
}

-- The ways an acquisition ends.
pub data Acquires (now : ℕ) (lock_key server text : String) (ttl : ℕ) (redis : Redis) : Type 0 where
  takes :
      (get now lock_key redis ≡ none)
        ⊎ ((get now lock_key redis ≡ some text) ⊎ (get now server redis ≡ none))
      → acquire_conn_lock now lock_key server text ttl redis ≡ (1, set now lock_key text ttl redis)
      → Acquires now lock_key server text ttl redis
  refused :
      (other beat : String)
      → get now lock_key redis ≡ some other
      → other ≢ text
      → get now server redis ≡ some beat
      → acquire_conn_lock now lock_key server text ttl redis ≡ (0, redis)
      → Acquires now lock_key server text ttl redis

-- A connection takes the lock if nobody holds it, if it holds it itself, or if its own server has no
-- heartbeat; in every other case another connection holds it and nothing changes.
pub Acquires-total :
    (now : ℕ) (lock_key server text : String) (ttl : ℕ) (redis : Redis)
    → Acquires now lock_key server text ttl redis
unfolding acquire_conn_lock
Acquires-total now k s v ttl redis = elim (Option-cases (get now k redis)) [
  | inl e ↦ takes (inl e) (rw (acquire_conn_lock, e) refl)
  | inr (cur, e) ↦ elim (Bool-cases (cur == v)) [
    | inl t ↦
        takes (inr (inl (e ∙ ap some ((eq_iff cur v).0 t)))) (rw (acquire_conn_lock, e, t) refl)
    | inr t ↦ elim (Option-cases (get now s redis)) [
      | inl f ↦ takes (inr (inr f)) (rw (acquire_conn_lock, e, t, f) refl)
      | inr (b, f) ↦
          refused cur b e (λ same. absurd (ground (arith, t, (eq_iff cur v).1 same))) f
            (rw (acquire_conn_lock, e, t, f) refl)
    ]
  ]
]

pub get-set :
    (at now : ℕ) (k v : String) (ttl : ℕ) (redis : Redis)
    → at < now + ttl
    → get at k (set now k v ttl redis) ≡ some v
unfolding get set alive
get-set at now k v ttl redis l =
    let found = lookup-insert k k (record { text = v; expires = now + ttl }) redis in
    let early : ltb at (now + ttl) ≡ true = ground arith in
    rw (get, set, found, string_eq_refl k, alive, early) refl

module _ (prefix : String) where
  pub held-set :
      (server : String) (now : ℕ) (user conn : String) (redis : Redis)
      → (must_hold prefix server true now user conn redis).0 ≡ held
      → (must_hold prefix server true now user conn redis).1
        ≡ set now (conn_key prefix user) (lock_value server conn) conn_lock_px redis
  unfolding must_hold
  held-set server now user conn redis h =
      elim (Acquires-total now (conn_key prefix user) (server_key prefix server)
        (lock_value server conn) conn_lock_px redis) [
          | takes why e ↦ rw (must_hold, e) refl
          | refused other beat f n g e ↦ absurd (ground (arith, rw (must_hold, e) at h))
        ]

  -- Release gives up the lock of its own connection, and leaves the lock of any other.
  pub release_own :
      (server : String) (now : ℕ) (user conn text : String) (redis : Redis)
      → get now (conn_key prefix user) redis ≡ some text
      → get now (conn_key prefix user) (release prefix server true now user conn redis).1
        ≡ (if text == lock_value server conn then none else some text)
  unfolding release release_conn_lock get alive
  release_own server now user conn text redis e =
      elim (Bool-cases (text == lock_value server conn)) [
        | inl t ↦
            rw (release, release_conn_lock, e, t)
              (rw
                (
                  lookup-delete (conn_key prefix user) (conn_key prefix user) redis,
                  string_eq_refl (conn_key prefix user),
                  alive,
                )
                refl)
        | inr t ↦ rw (release, release_conn_lock, e, t) e
      ]
