-- ===== src/Wsgateway/Tests.antt =====
-- The gateway at concrete values.
use audio_rtc_exp.Prelude.{
  ◌≡◌, ◌≢◌, refl, List, [], ◌∷◌, none, some, arith, eq_iff, lookup, insert, ◌==◌, string_eq, nat_eq,
  true, false,
}
use audio_rtc_exp.Wsgateway.Guard.{
  Redis, alive, get, set, acquire_conn_lock, conn_key, server_key, lock_value, not_held,
  set_heartbeat, must_hold,
}
use audio_rtc_exp.Wsgateway.Guard.Steps.{beats, step, done, must_hold_excludes}
use audio_rtc_exp.Wsgateway.Clients.{WsConnManager, clients_of}
use audio_rtc_exp.Wsgateway.Clients.Laws.{IsValid, adds, apply, apply-IsValid}
use audio_rtc_exp.Wsgateway.Server.{
  Anchor, State, World, checked, JoinParams, handle_join, join_room, finish_join,
  restore_janus_instance, decoded,
}
use audio_rtc_exp.Wsgateway.Server.Ready.{
  Request, joins, keeps_alive, run, IsReady, run-IsReady, MayJoin, handle_join-MayJoin,
}

differ : lock_value "s1" "c1" ≢ lock_value "s2" "c2"
unfolding lock_value
differ e =
    let f : (lock_value "s1" "c1" == lock_value "s2" "c2") ≡ true =
      (eq_iff (lock_value "s1" "c1") (lock_value "s2" "c2")).1 e in
    absurd (ground (arith, f))

-- Redis once s1 has the lock, and after the server s2 has sent a heartbeat 20,000 seconds later.
abbrev locked : Redis
locked = (must_hold "p" "s1" true 5 "u1" "c1" []).1

abbrev beaten : Redis
beaten = set_heartbeat "p" "s2" 20000000 locked

must_hold_excludes_example : must_hold "p" "s2" true 20001000 "u1" "c2" beaten ≡ (not_held, beaten)
unfolding must_hold acquire_conn_lock get set set_heartbeat alive lookup insert conn_key server_key
    lock_value
must_hold_excludes_example =
    must_hold_excludes "p" "s1" "s2" 5 20001000 "u1" "c1" "c2" "1" [] beaten refl
      (step locked beaten beaten (beats "s2" 20000000 locked) (done beaten)) (omega arith) differ
      refl

abbrev no_clients : WsConnManager (Unit {0})
no_clients = record { room2clients = []; client2room = [] }

no_clients-IsValid : IsValid no_clients
unfolding clients_of lookup
no_clients-IsValid c r = refl

apply-IsValid_example : IsValid (apply (adds "c1" "r1" tt) no_clients)
unfolding lookup
apply-IsValid_example = apply-IsValid (adds "c1" "r1" tt) no_clients refl no_clients-IsValid

abbrev opened : State
opened = record {
  ctx = record { janus = none; conn_id = "c1"; user_id = "u1"; room_id = "r1"; joined = false };
  client_manager = no_clients;
  statuses = [];
  closed = false;
  redis = [];
}

abbrev anchor : Anchor
anchor = record { session_id = 7; handle_id = 8 }

abbrev world : World
world = record {
  prefix = "p";
  server_id = "s1";
  reachable = true;
  now = 5;
  room_meta =
      λ r. some (record { pin = "123456"; hls_path = "h"; max_anchors = 3; created_at = 5 });
  live_meta = λ r. some (record {
    status = "onair";
    mixer_id = "m1";
    janus_id = "j1";
    created_at = 5;
    discard_at = none;
    nonce = "ab";
  });
  has_janus_api = λ r. true;
  janus_room_id = λ r. 100007;
  create_anchor_instance = λ s h. some anchor;
  check = λ a. checked true;
  decode = λ n t. none;
  encode = λ n s h. some "token";
  join = λ a n p d s. true;
  get_events = λ a. none;
  ice_candidate = λ a c. true;
  keep_alive = λ a. true;
  closes = true;
}

abbrev params : JoinParams
params = record { pin = "123456"; janus_token = "" }

abbrev requests : List (World × Request)
requests = (world, joins (some params)) ∷ (world, keeps_alive none) ∷ []

run-IsReady_example : ((run requests opened).0 ≡ false) × IsReady (run requests opened).1
run-IsReady_example = run-IsReady requests opened (λ e. absurd (ground (arith, e)))

handle_join-MayJoin_example : MayJoin world (some params) opened
unfolding handle_join join_room finish_join restore_janus_instance decoded
handle_join-MayJoin_example =
    handle_join-MayJoin world (some params) opened
      (record { janus_token = "token"; resume = false }) refl
