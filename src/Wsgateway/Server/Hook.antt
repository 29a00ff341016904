-- ===== src/Wsgateway/Server/Hook.antt =====
-- ws_hook.go: what happens when a connection is opened and closed.
use audio_rtc_exp.Prelude.{
  ◌≡◌, refl, ◌∙◌, inl, inr, String, Option, none, some, lookup, lookup-delete, ◌==◌, string_eq,
  string_eq_refl, if◌then◌else◌, true, false, trim_prefix, Option-cases,
}
use audio_rtc_exp.Wsgateway.Guard.{
  Redis, Held, not_held, must_hold, release, get, conn_key, lock_value,
}
use audio_rtc_exp.Wsgateway.Guard.Lock.{release_own}
use audio_rtc_exp.Wsgateway.Clients.{WsConnManager, add_client, remove_client}
use audio_rtc_exp.Wsgateway.Server.{RtcContext, State, World, close_if_refused}

-- The Authorization header without "Bearer ", if something follows it.
unfoldable pub bearer : String → String
unfolding trim_prefix
bearer header = elim (trim_prefix "Bearer " header) [
  | none ↦ header
  | some token ↦ if token == "" then header else token
]

unfoldable pub token_of : String → String → String
unfolding bearer
token_of query header = if query == "" then bearer header else query

-- What jwtAuth.Verify answers: the user and the room, an invalid token, or another error.
pub data Verified : Type 0 where
  payload : String → String → Verified
  invalid : Verified
  unverified : Verified

-- The context, none if the token is refused, or an error.
unfoldable pub on_verify : (String → Verified) → String → String → Option (Option RtcContext)
unfolding token_of
on_verify verify query header =
    if token_of query header == "" then some none else elim (verify (token_of query header)) [
      | invalid ↦ some none
      | unverified ↦ none
      | payload user_id room_id ↦ some (
          some (record {
            janus = none;
            conn_id = "";
            user_id = user_id;
            room_id = room_id;
            joined = false;
          }))
    ]

-- An error of the guard is logged and the connection goes on; one that is refused is closed.
unfoldable pub admitted : String → Held × Redis → State → State
unfolding add_client close_if_refused
admitted conn_id (not_held, redis) st = close_if_refused (not_held, redis) st
admitted conn_id (h, redis) st = record st {
  redis = redis;
  client_manager = add_client conn_id st.ctx.room_id tt st.client_manager;
}

module _ (w : World) where
  -- `conn_id` is a new UUID.
  unfoldable pub on_connect : String → State → State
  unfolding admitted must_hold
  on_connect conn_id st =
      admitted conn_id
        (must_hold w.prefix w.server_id w.reachable w.now st.ctx.user_id conn_id st.redis)
        (record st { ctx = record st.ctx { conn_id = conn_id } })

  unfoldable pub on_disconnect : State → State
  unfolding remove_client release
  on_disconnect st = record st {
    redis =
        (release w.prefix w.server_id w.reachable w.now st.ctx.user_id st.ctx.conn_id st.redis).1;
    client_manager = remove_client st.ctx.conn_id st.client_manager;
  }

  lookup-remove_client :
      (c : String) (m : WsConnManager (Unit {0})) → lookup c (remove_client c m).client2room ≡ none
  unfolding remove_client
  lookup-remove_client c m = elim (Option-cases (lookup c m.client2room)) [
    | inl e ↦ rw (remove_client, e) e
    | inr (r, e) ↦
        rw (remove_client, e) (lookup-delete c c m.client2room ∙ rw (string_eq_refl c) refl)
  ]

  -- When a connection is closed it is in no room, and the lock of its user is free if it was its own
  -- and Redis answers, and as before if another connection holds it.
  pub on_disconnect_frees :
      (text : String) (st : State)
      → w.reachable ≡ true
      → get w.now (conn_key w.prefix st.ctx.user_id) st.redis ≡ some text
      → (lookup st.ctx.conn_id (on_disconnect st).client_manager.client2room ≡ none)
        × (get w.now (conn_key w.prefix st.ctx.user_id) (on_disconnect st).redis
            ≡ (if text == lock_value w.server_id st.ctx.conn_id then none else some text))
  unfolding on_disconnect
  on_disconnect_frees text st up e = (
    lookup-remove_client st.ctx.conn_id st.client_manager,
    rw up (release_own w.prefix w.server_id w.now st.ctx.user_id st.ctx.conn_id text st.redis e),
  )
