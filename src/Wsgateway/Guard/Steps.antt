-- ===== src/Wsgateway/Guard/Steps.antt =====
-- What servers and connections do with the keys in Redis, one after the other.
use text.Mathlib.TextLemmas.{append_cancel_left, append_inj}
use audio_rtc_exp.Prelude.{
  ℕ, ◌+◌, ◌<◌, ◌≡◌, ◌≢◌, refl, sym, ap, ◌∙◌, inl, inr, String, some, arith, eq_iff, lookup, delete,
  lookup-insert, lookup-delete, ltb, ◌==◌, string_eq, string_eq_refl, nat_eq, if◌then◌else◌, true,
  false, Bool, Bool-cases, Option-cases,
}
use audio_rtc_exp.Wsgateway.Guard.{
  Redis, alive, get, set, release_conn_lock, conn_lock_px, conn_key, server_key, lock_value, held,
  not_held, must_hold, release, set_heartbeat, stop_heartbeat,
}
use audio_rtc_exp.Wsgateway.Guard.Lock.{takes, refused, Acquires-total, held-set}

module _ (prefix : String) where
  -- One step of a server or of a connection, at any time before `until`: a heartbeat, the end of a
  -- server, a connection that asks for the lock of its user while its own server has a heartbeat, or one
  -- that gives it up. Connections of the user other than the one with the lock `text` take part.
  pub data Step (user text : String) (until : ℕ) : Redis → Redis → Type 0 where
    beats :
        (server : String) (at : ℕ) (redis : Redis)
        → Step user text until redis (set_heartbeat prefix server at redis)
    stops :
        (server : String) (redis : Redis)
        → Step user text until redis (stop_heartbeat prefix server redis)
    asks :
        (server other conn beat : String) (reachable : Bool) (at : ℕ) (redis : Redis)
        → at < until
        → ((user == other) ≡ true → lock_value server conn ≢ text)
        → get at (server_key prefix server) redis ≡ some beat
        → Step user text until redis (must_hold prefix server reachable at other conn redis).1
    gives_up :
        (server other conn : String) (reachable : Bool) (at : ℕ) (redis : Redis)
        → ((user == other) ≡ true → lock_value server conn ≢ text)
        → Step user text until redis (release prefix server reachable at other conn redis).1

  pub data Steps (user text : String) (until : ℕ) : Redis → Redis → Type 0 where
    done : (redis : Redis) → Steps user text until redis redis
    step :
        (a b c : Redis)
        → Step user text until a b
        → Steps user text until b c
        → Steps user text until a c

  -- The key of the user holds the text until then.
  Locked : String → String → ℕ → Redis → Type 0
  Locked user text until redis =
      lookup (conn_key prefix user) redis ≡ some (record { text = text; expires = until })

  conn_ne_server : ◌≢◌ {A = String} ":c:" ":s:"
  conn_ne_server e = ground (arith, (eq_iff ":c:" ":s:").1 e)

  server-conn : (s u : String) → (server_key prefix s == conn_key prefix u) ≡ false
  unfolding server_key conn_key
  server-conn s u = elim (Bool-cases (server_key prefix s == conn_key prefix u)) [
    | inr e ↦ e
    | inl e ↦ absurd (
        conn_ne_server (
          sym
            (append_inj {s₁ = ":s:"} {s₂ = ":c:"} (append_cancel_left prefix _ _ ((eq_iff _ _).0 e))
              refl).0))
  ]

  conn-conn : (u v : String) → (conn_key prefix u == conn_key prefix v) ≡ (u == v)
  unfolding conn_key
  conn-conn u v =
      let forth : conn_key prefix u ≡ conn_key prefix v → u ≡ v =
        λ e. append_cancel_left ":c:" u v (append_cancel_left prefix _ _ e) in
      let back : u ≡ v → conn_key prefix u ≡ conn_key prefix v = λ e. ap (conn_key prefix) e in
      ground (arith, eq_iff (conn_key prefix u) (conn_key prefix v), eq_iff u v, forth, back)

  get-Locked :
      (user text : String) (until at : ℕ) (redis : Redis)
      → at < until
      → Locked user text until redis
      → get at (conn_key prefix user) redis ≡ some text
  unfolding get alive Locked
  get-Locked user text until at redis l k =
      let early : ltb at until ≡ true = ground arith in rw (get, k, alive, early) refl

  text-Locked :
      (user text cur : String) (until at : ℕ) (redis : Redis)
      → get at (conn_key prefix user) redis ≡ some cur
      → Locked user text until redis
      → cur ≡ text
  unfolding get alive Locked
  text-Locked user text cur until at redis e k = ground (arith, e, k)

  -- A write of another key leaves the lock.
  set-Locked :
      (user text key v : String) (until at px : ℕ) (redis : Redis)
      → (key == conn_key prefix user) ≡ false
      → Locked user text until redis
      → Locked user text until (set at key v px redis)
  unfolding set Locked
  set-Locked user text key v until at px redis n k =
      lookup-insert key (conn_key prefix user) (record { text = v; expires = at + px }) redis
      ∙ rw n k

  delete-Locked :
      (user text key : String) (until : ℕ) (redis : Redis)
      → (key == conn_key prefix user) ≡ false
      → Locked user text until redis
      → Locked user text until (delete key redis)
  unfolding Locked
  delete-Locked user text key until redis n k =
      lookup-delete key (conn_key prefix user) redis ∙ rw n k

  module _ (user text : String) (until at : ℕ) (server other conn : String) (redis : Redis)
      (k : Locked user text until redis)
      (d : (user == other) ≡ true → lock_value server conn ≢ text) where
    other_conn : (user == other) ≡ false → (conn_key prefix other == conn_key prefix user) ≡ false
    other_conn n = conn-conn other user ∙ ground (arith, eq_iff user other, eq_iff other user, n)

    asks-Locked :
        (beat : String)
        → at < until
        → get at (server_key prefix server) redis ≡ some beat
        → Locked user text until (must_hold prefix server true at other conn redis).1
    unfolding must_hold
    asks-Locked beat l g =
        elim (Acquires-total at (conn_key prefix other) (server_key prefix server)
          (lock_value server conn) conn_lock_px redis) [
            | refused x y f m i e ↦ rw (must_hold, e) k
            | takes why e ↦
                rw (must_hold, e)
                  (elim (Bool-cases (user == other)) [
                    | inr n ↦
                        set-Locked user text (conn_key prefix other) (lock_value server conn) until
                          at conn_lock_px redis (other_conn n) k
                    | inl t ↦
                        let own : get at (conn_key prefix other) redis ≡ some text =
                          ap (λ u. get at (conn_key prefix u) redis) (sym ((eq_iff user other).0 t))
                          ∙ get-Locked user text until at redis l k in
                        elim why [
                          | inl f ↦ absurd (ground (arith, own, f))
                          | inr (inl f) ↦ absurd (d t (ground (arith, own, f)))
                          | inr (inr f) ↦ absurd (ground (arith, g, f))
                        ]
                  ])
          ]

    gives_up-Locked : Locked user text until (release prefix server true at other conn redis).1
    unfolding release release_conn_lock
    gives_up-Locked = elim (Option-cases (get at (conn_key prefix other) redis)) [
      | inl e ↦ rw (release, release_conn_lock, e) k
      | inr (cur, e) ↦ elim (Bool-cases (cur == lock_value server conn)) [
        | inr f ↦ rw (release, release_conn_lock, e, f) k
        | inl f ↦
            rw (release, release_conn_lock, e, f)
              (elim (Bool-cases (user == other)) [
                | inr n ↦
                    delete-Locked user text (conn_key prefix other) until redis (other_conn n) k
                | inl t ↦ absurd (
                    d t (
                      sym ((eq_iff cur (lock_value server conn)).0 f)
                      ∙ text-Locked user text cur until at redis
                          (ap (λ u. get at (conn_key prefix u) redis) ((eq_iff user other).0 t) ∙ e)
                          k))
              ])
      ]
    ]

  held-Locked :
      (server : String) (now : ℕ) (user conn : String) (redis : Redis)
      → (must_hold prefix server true now user conn redis).0 ≡ held
      → Locked user
          (lock_value server conn)
          (now + 30000000)
          (must_hold prefix server true now user conn redis).1
  unfolding Locked set
  held-Locked server now user conn redis h = rw (held-set prefix server now user conn redis h) (
      lookup-insert (conn_key prefix user) (conn_key prefix user)
        (record { text = lock_value server conn; expires = now + conn_lock_px }) redis
      ∙ rw (string_eq_refl (conn_key prefix user)) refl)

  Step-Locked :
      (user text : String) (until : ℕ) (a b : Redis)
      → Step user text until a b
      → Locked user text until a
      → Locked user text until b
  unfolding set_heartbeat stop_heartbeat must_hold release
  Step-Locked user text until a b (beats server at redis) k =
      set-Locked user text (server_key prefix server) "1" until at _ a (server-conn server user) k
  Step-Locked user text until a b (stops server redis) k =
      delete-Locked user text (server_key prefix server) until a (server-conn server user) k
  Step-Locked user text until a b (asks server other conn beat true at redis l d g) k =
      asks-Locked user text until at server other conn a k d beat l g
  Step-Locked user text until a b (asks server other conn beat false at redis l d g) k = k
  Step-Locked user text until a b (gives_up server other conn true at redis d) k =
      gives_up-Locked user text until at server other conn a k d
  Step-Locked user text until a b (gives_up server other conn false at redis d) k = k

  Steps-Locked :
      (user text : String) (until : ℕ) (a c : Redis)
      → Steps user text until a c
      → Locked user text until a
      → Locked user text until c
  Steps-Locked user text until a c (done redis) k = k
  Steps-Locked user text until a c (step x b y s ss) k =
      Steps-Locked user text until b c ss (Step-Locked user text until a b s k)

  -- A connection that was given the lock keeps every other connection of the user out for 30,000
  -- seconds: whatever heartbeats, ends of servers, releases of other connections, and requests of
  -- other connections on servers with a heartbeat have come in between, a connection on a server
  -- with a heartbeat is refused and nothing changes, whether or not the server of the holder still
  -- has one.
  pub must_hold_excludes :
      (a b : String) (now at : ℕ) (user conn other beat : String) (before after : Redis)
      → (must_hold prefix a true now user conn before).0 ≡ held
      → Steps user
          (lock_value a conn)
          (now + 30000000)
          (must_hold prefix a true now user conn before).1
          after
      → at < now + 30000000
      → lock_value a conn ≢ lock_value b other
      → get at (server_key prefix b) after ≡ some beat
      → must_hold prefix b true at user other after ≡ (not_held, after)
  unfolding must_hold
  must_hold_excludes a b now at user conn other beat before after h ss l n g =
      let key = conn_key prefix user in
      let until = now + 30000000 in
      let first : Locked user (lock_value a conn) until
          (must_hold prefix a true now user conn before).1 =
        held-Locked a now user conn before h in
      let own = get-Locked user (lock_value a conn) until at after l (
        Steps-Locked user (lock_value a conn) until (must_hold prefix a true now user conn before).1
          after ss first) in
      elim (Acquires-total at key (server_key prefix b) (lock_value b other) conn_lock_px after) [
        | refused x y f m i j ↦ ap (λ o. (if o.0 == 1 then held else not_held, o.1)) j
        | takes (inl f) j ↦ absurd (ground (arith, own, f))
        | takes (inr (inl f)) j ↦ absurd (n (ground (arith, own, f)))
        | takes (inr (inr f)) j ↦ absurd (ground (arith, g, f))
      ]
