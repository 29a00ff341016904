-- ===== src/Wsgateway/Server.antt =====
-- signal_server.go: the requests of a connection. What Janus, etcd, the token codec and the user
-- service answer is an argument.
pub mod Ready
pub mod Hook
use Prim.Native.String.{◌++◌ as str_append}
use audio_rtc_exp.Prelude.{
  ℕ, String, List, [], ◌∷◌, ◌++◌, Option, none, some, Map, ◌==◌, nat_eq, string_eq, if◌then◌else◌,
  Bool, true, false, not, ◌&&◌, is_some,
}
use audio_rtc_exp.Etcdstate.{room_status_on_air}
use audio_rtc_exp.Etcdstate.Meta.{Meta}
use audio_rtc_exp.Etcdstate.LiveMeta.{LiveMeta}
use audio_rtc_exp.Wsgateway.Clients.{WsConnManager, remove_client}
use audio_rtc_exp.Wsgateway.Guard.{Redis, Held, held, not_held, failed, must_hold}

-- A janus.Anchor: a handle of a session.
pub record Anchor : Type 0 where
  pub session_id : ℕ
  pub handle_id : ℕ

pub record RtcContext : Type 0 where
  pub janus : Option Anchor
  pub conn_id : String
  pub user_id : String
  pub room_id : String
  pub joined : Bool

-- A connection with what its requests change: the client manager, the statuses sent to the user
-- service, in order, whether the peer was closed, and the locks in Redis.
pub record State : Type 0 where
  pub ctx : RtcContext
  pub client_manager : WsConnManager (Unit {0})
  pub statuses : List (String × String × String)
  pub closed : Bool
  pub redis : Redis

-- A result or an error of JSON-RPC; a nil janus is a panic.
pub data Rpc (A : Type 0) : Type 0 where
  answered : A → Rpc A
  invalid_request : String → Rpc A
  invalid_params : String → Rpc A
  internal : String → Rpc A
  plain : String → Rpc A
  panicked : Rpc A

-- What Check of an anchor answers: the session is there or not, ErrNoneSuccessResponse, or another
-- error.
pub data Checked : Type 0 where
  checked : Bool → Checked
  none_success : Checked
  unchecked : Checked

pub record Event : Type 0 where
  pub janus : String
  pub jsep : Option String

-- What the handlers ask of others, with the prefix of the keys in Redis, the id of the server, whether
-- Redis can be reached, and the clock in milliseconds.
pub record World : Type 0 where
  pub prefix : String
  pub server_id : String
  pub reachable : Bool
  pub now : ℕ
  pub room_meta : String → Option Meta
  pub live_meta : String → Option LiveMeta
  pub has_janus_api : String → Bool
  pub janus_room_id : String → ℕ
  pub create_anchor_instance : ℕ → ℕ → Option Anchor
  pub check : Anchor → Checked
  pub decode : String → String → Option (ℕ × ℕ)
  pub encode : String → ℕ → ℕ → Option String
  pub join : Anchor → ℕ → String → String → String → Bool
  pub get_events : Anchor → Option (List Event)
  pub ice_candidate : Anchor → String → Bool
  pub keep_alive : Anchor → Bool
  pub closes : Bool

pub record JoinParams : Type 0 where
  pub pin : String
  pub janus_token : String

pub record JoinReply : Type 0 where
  pub janus_token : String
  pub resume : Bool

abbrev pub anchor_status_idle : String
anchor_status_idle = "idle"

abbrev pub anchor_status_left : String
anchor_status_left = "left"

-- An error of SetUserStatus is logged.
unfoldable pub update_user_status : String → State → State
update_user_status status st = record st {
  statuses = st.statuses ++ ((st.ctx.room_id, st.ctx.user_id, status) ∷ []);
}

-- MustHold closes the peer of a connection that does not hold the lock.
unfoldable pub close_if_refused : Held × Redis → State → State
close_if_refused (not_held, redis) st = record st { closed = true; redis = redis }
close_if_refused (held, redis) st = record st { redis = redis }
close_if_refused (failed, redis) st = record st { redis = redis }

module _ (w : World) where
  -- An error of the guard is logged.
  unfoldable pub must_hold_lock : State → State
  unfolding close_if_refused must_hold
  must_hold_lock st =
      close_if_refused
        (must_hold w.prefix w.server_id w.reachable w.now st.ctx.user_id st.ctx.conn_id st.redis) st

  unfoldable pub after_check : Checked → Anchor → Rpc Anchor
  after_check (checked true) inst = answered inst
  after_check (checked false) inst = internal "fail to check janus instance"
  after_check unchecked inst = internal "fail to check janus instance"
  after_check none_success inst = elim (w.create_anchor_instance 0 0) [
    | none ↦ plain "create anchor instance"
    | some fresh ↦ answered fresh
  ]

  unfoldable pub restore_janus_instance : ℕ → ℕ → Rpc Anchor
  unfolding after_check
  restore_janus_instance session_id handle_id =
      elim (w.create_anchor_instance session_id handle_id) [
        | none ↦ internal "fail to create janus instance"
        | some inst ↦ if session_id == 0 then answered inst else after_check (w.check inst) inst
      ]

  -- A token that is empty or cannot be decoded stands for no session.
  unfoldable pub decoded : String → String → ℕ × ℕ
  decoded nonce token =
      if token == "" then (0, 0) else elim (w.decode nonce token) [ none ↦ (0, 0) | some ids ↦ ids ]

  abbrev pub joined_with : Anchor → State → State
  joined_with inst st = record st { ctx = record st.ctx { janus = some inst; joined = true } }

  unfoldable pub finish_join : String → ℕ × ℕ → Rpc Anchor → State → Rpc JoinReply × State
  unfolding update_user_status
  finish_join nonce ids (answered inst) st = elim (w.encode nonce inst.session_id inst.handle_id) [
    | none ↦ (internal "fail to create janus token", st)
    | some token ↦ (
      answered (record {
        janus_token = token;
        resume = ids.0 == inst.session_id && ids.1 == inst.handle_id;
      }),
      update_user_status anchor_status_idle (joined_with inst st),
    )
  ]
  finish_join nonce ids (invalid_request e) st = (invalid_request e, st)
  finish_join nonce ids (invalid_params e) st = (invalid_params e, st)
  finish_join nonce ids (internal e) st = (internal e, st)
  finish_join nonce ids (plain e) st = (plain e, st)
  finish_join nonce ids panicked st = (panicked, st)

  unfoldable pub join_room : JoinParams → Meta → LiveMeta → State → Rpc JoinReply × State
  unfolding finish_join decoded restore_janus_instance
  join_room data_ meta live st =
      if not (live.status == room_status_on_air)
      then (invalid_request "room does not exist or not allowed to join", st)
      else if not (meta.pin == "") && not (data_.pin == meta.pin)
      then (invalid_request "invalid room pin", st)
      else if not (w.has_janus_api st.ctx.room_id)
      then (internal "fail to get janus api", st)
      else let ids = decoded live.nonce data_.janus_token in
        finish_join live.nonce ids (restore_janus_instance ids.0 ids.1) st

  -- `params` is none if they cannot be bound.
  unfoldable pub handle_join : Option JoinParams → State → Rpc JoinReply × State
  unfolding join_room
  handle_join params st =
      if st.ctx.joined then (invalid_request "already joined", st) else elim params [
        | none ↦ (invalid_params "invalid join parameters", st)
        | some data_ ↦ elim (w.room_meta st.ctx.room_id) [
          | none ↦ (invalid_request "no room found", st)
          | some meta ↦ elim (w.live_meta st.ctx.room_id) [
            | none ↦ (invalid_request "room does not exist or not allowed to join", st)
            | some live ↦ join_room data_ meta live st
          ]
        ]
      ]

  -- An error of Close is logged, and no status is sent then.
  unfoldable pub handle_leave : State → Rpc (Unit {0}) × State
  unfolding remove_client update_user_status
  handle_leave st =
      let left = record st {
        client_manager = remove_client st.ctx.conn_id st.client_manager;
        closed = true;
      } in
      if not st.ctx.joined
      then (invalid_request "not joined yet", st)
      else if w.closes
      then (answered tt, update_user_status anchor_status_left left)
      else (answered tt, left)

  -- The first event that is an "event" with a session description.
  unfoldable pub first_jsep : List Event → Option String
  first_jsep [] = none
  first_jsep (e ∷ events) =
      let rest = first_jsep events in
      if not (e.janus == "event") then rest else elim e.jsep [ none ↦ rest | some sdp ↦ some sdp ]

  unfoldable pub event_loop : Anchor → Option String
  unfolding first_jsep
  event_loop inst = elim (w.get_events inst) [ none ↦ none | some events ↦ first_jsep events ]

  unfoldable pub offer_to : String → Option Meta → Option Anchor → State → Rpc String × State
  unfolding event_loop
  offer_to sdp none inst st = (invalid_request "no room found", st)
  offer_to sdp (some meta) none st = (panicked, st)
  offer_to sdp (some meta) (some inst) st =
      if not (
        w.join inst (w.janus_room_id st.ctx.room_id) meta.pin (str_append "user-" st.ctx.user_id)
          sdp)
      then (internal "failed to join janus room", st)
      else elim (event_loop inst) [
        | none ↦ (internal "fail to get janus events", st)
        | some jsep ↦ (answered jsep, st)
      ]

  unfoldable pub handle_offer : Option String → State → Rpc String × State
  unfolding offer_to
  handle_offer params st =
      if not st.ctx.joined then (invalid_request "not joined yet", st) else elim params [
        | none ↦ (invalid_params "invalid offer parameters", st)
        | some sdp ↦
            if w.janus_room_id st.ctx.room_id == 0
            then (internal "no janus room found", st)
            else offer_to sdp (w.room_meta st.ctx.room_id) st.ctx.janus st
      ]

  unfoldable pub handle_ice_candidate : Option String → State → Rpc (Unit {0}) × State
  handle_ice_candidate params st =
      if not st.ctx.joined then (invalid_request "not joined yet", st) else elim params [
        | none ↦ (invalid_params "invalid ice candidate parameters", st)
        | some candidate ↦ elim st.ctx.janus [
          | none ↦ (panicked, st)
          | some inst ↦
              if w.ice_candidate inst candidate
              then (answered tt, st)
              else (internal "failed to exchange ice candidate", st)
        ]
      ]

  -- Parameters that cannot be bound leave the status empty.
  unfoldable pub kept_status : Option String → String
  kept_status none = ""
  kept_status (some status) = if status == "" then anchor_status_idle else status

  -- The lock is asked for anew, and the status is sent even if it is refused.
  unfoldable pub handle_keep_alive : Option String → State → Rpc (Unit {0}) × State
  unfolding kept_status update_user_status must_hold_lock
  handle_keep_alive params st =
      if not st.ctx.joined then (plain "not joined yet", st) else elim st.ctx.janus [
        | none ↦ (panicked, st)
        | some inst ↦
            if not (w.keep_alive inst)
            then (plain "failed to keep Janus session alive", st)
            else (answered tt, update_user_status (kept_status params) (must_hold_lock st))
      ]
