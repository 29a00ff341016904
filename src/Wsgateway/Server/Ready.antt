-- ===== src/Wsgateway/Server/Ready.antt =====
-- A connection that has joined has its Janus handle, and only who may join has joined.
use audio_rtc_exp.Prelude.{
  ◌≡◌, refl, ◌⊎◌, inl, inr, String, List, [], ◌∷◌, Option, some, arith, eq_iff, ◌==◌, nat_eq,
  string_eq, if◌then◌else◌, Bool, true, false, is_some, Bool-cases, Option-cases,
}
use audio_rtc_exp.Etcdstate.{room_status_on_air}
use audio_rtc_exp.Etcdstate.Meta.{Meta}
use audio_rtc_exp.Etcdstate.LiveMeta.{LiveMeta}
use audio_rtc_exp.Wsgateway.Server.{
  State, Rpc, answered, panicked, World, JoinParams, JoinReply, update_user_status, after_check,
  restore_janus_instance, finish_join, join_room, handle_join, handle_leave, offer_to, handle_offer,
  handle_ice_candidate, handle_keep_alive,
}

-- A joined connection has a handle.
abbrev pub IsReady : State → Type 0
IsReady st = st.ctx.joined ≡ true → is_some st.ctx.janus ≡ true

-- The requests of a connection.
pub data Request : Type 0 where
  joins : Option JoinParams → Request
  leaves : Request
  offers : Option String → Request
  candidates : Option String → Request
  keeps_alive : Option String → Request

-- What a request leaves, and whether its handler panicked.
abbrev pub panics : {A : Type 0} → Rpc A → Bool
panics panicked = true
panics _ = false

module _ (w : World) where
  unfoldable pub handle : Request → State → Bool × State
  unfolding handle_join handle_leave handle_offer handle_ice_candidate handle_keep_alive
  handle (joins p) st = let r = handle_join w p st in (panics r.0, r.1)
  handle leaves st = let r = handle_leave w st in (panics r.0, r.1)
  handle (offers p) st = let r = handle_offer w p st in (panics r.0, r.1)
  handle (candidates p) st = let r = handle_ice_candidate w p st in (panics r.0, r.1)
  handle (keeps_alive p) st = let r = handle_keep_alive w p st in (panics r.0, r.1)

  -- What is kept of a connection by every request.
  record Kept (r : Bool × State) : Type 0 where
    no_panic : r.0 ≡ false
    ready : IsReady r.1

  leaves-Kept : (st : State) → IsReady st → Kept (handle leaves st)
  unfolding handle handle_leave update_user_status
  leaves-Kept st h = record { no_panic = ground arith; ready = ground arith }

  keeps_alive-Kept :
      (p : Option String) (st : State) → IsReady st → Kept (handle (keeps_alive p) st)
  unfolding handle handle_keep_alive update_user_status
  keeps_alive-Kept p st h = record { no_panic = ground arith; ready = ground arith }

  candidates-Kept : (p : Option String) (st : State) → IsReady st → Kept (handle (candidates p) st)
  unfolding handle handle_ice_candidate
  candidates-Kept p st h = record { no_panic = ground arith; ready = ground arith }

  offers-Kept : (p : Option String) (st : State) → IsReady st → Kept (handle (offers p) st)
  unfolding handle handle_offer offer_to
  offers-Kept p st h = record { no_panic = ground arith; ready = ground arith }

  joins-Kept : (p : Option JoinParams) (st : State) → IsReady st → Kept (handle (joins p) st)
  unfolding handle handle_join join_room finish_join restore_janus_instance after_check
      update_user_status
  joins-Kept p st h = record { no_panic = ground arith; ready = ground arith }

  handle-Kept : (q : Request) (st : State) → IsReady st → Kept (handle q st)
  handle-Kept (joins p) st h = joins-Kept p st h
  handle-Kept leaves st h = leaves-Kept st h
  handle-Kept (offers p) st h = offers-Kept p st h
  handle-Kept (candidates p) st h = candidates-Kept p st h
  handle-Kept (keeps_alive p) st h = keeps_alive-Kept p st h

-- The requests of a connection in order, each with what the others answer to it.
unfoldable pub run : List (World × Request) → State → Bool × State
unfolding handle
run [] st = (false, st)
run ((w, q) ∷ more) st =
    let r = handle w q st in let rest = run more r.1 in (if r.0 then true else rest.0, rest.1)

-- Whatever requests a connection sends, and whatever the services answer, no handler meets a missing
-- Janus handle: a connection that has joined has one, before and after.
pub run-IsReady :
    (requests : List (World × Request)) (st : State)
    → IsReady st
    → ((run requests st).0 ≡ false) × IsReady (run requests st).1
unfolding run
run-IsReady [] st h = (refl, h)
run-IsReady ((w, q) ∷ more) st h =
    let k = handle-Kept w q st h in
    let rest = run-IsReady more (handle w q st).1 k.ready in (rw k.no_panic rest.0, rest.1)

-- What a join that is answered rests on.
pub record MayJoin (w : World) (p : Option JoinParams) (st : State) : Type 0 where
  pub data_ : JoinParams
  pub meta : Meta
  pub live : LiveMeta
  pub bound : p ≡ some data_
  pub not_joined : st.ctx.joined ≡ false
  pub has_meta : w.room_meta st.ctx.room_id ≡ some meta
  pub has_live : w.live_meta st.ctx.room_id ≡ some live
  pub on_air : live.status ≡ room_status_on_air
  pub pin_known : (meta.pin ≡ "") ⊎ (data_.pin ≡ meta.pin)

module _ (w : World) where
  join_room-MayJoin :
      (d : JoinParams) (meta : Meta) (live : LiveMeta) (st : State) (r : JoinReply)
      → (join_room w d meta live st).0 ≡ answered r
      → (live.status ≡ room_status_on_air) × ((meta.pin ≡ "") ⊎ (d.pin ≡ meta.pin))
  unfolding join_room
  join_room-MayJoin d meta live st r e = elim (Bool-cases (live.status == room_status_on_air)) [
    | inr f ↦ absurd (ground (arith, rw (join_room, f) at e))
    | inl f ↦ elim (Bool-cases (meta.pin == "")) [
      | inl g ↦ ((eq_iff live.status room_status_on_air).0 f, inl ((eq_iff meta.pin "").0 g))
      | inr g ↦ elim (Bool-cases (d.pin == meta.pin)) [
        | inl k ↦ ((eq_iff live.status room_status_on_air).0 f, inr ((eq_iff d.pin meta.pin).0 k))
        | inr k ↦ absurd (ground (arith, rw (join_room, f, g, k) at e))
      ]
    ]
  ]

  -- A join is answered only to a connection that has not joined, for a room with metadata that is on
  -- air, and with the PIN of the room if it has one.
  pub handle_join-MayJoin :
      (p : Option JoinParams) (st : State) (r : JoinReply)
      → (handle_join w p st).0 ≡ answered r
      → MayJoin w p st
  unfolding handle_join
  handle_join-MayJoin p st r e = elim (Bool-cases st.ctx.joined) [
    | inl j ↦ absurd (ground (arith, rw (handle_join, j) at e))
    | inr j ↦ elim (Option-cases p) [
      | inl b ↦ absurd (ground (arith, rw (handle_join, j, b) at e))
      | inr (d, b) ↦ elim (Option-cases (w.room_meta st.ctx.room_id)) [
        | inl m ↦ absurd (ground (arith, rw (handle_join, j, b, m) at e))
        | inr (meta, m) ↦ elim (Option-cases (w.live_meta st.ctx.room_id)) [
          | inl l ↦ absurd (ground (arith, rw (handle_join, j, b, m, l) at e))
          | inr (live, l) ↦
              let f : (join_room w d meta live st).0 ≡ answered r =
                rw (handle_join, j, b, m, l) at e in
              let ok = join_room-MayJoin d meta live st r f in
              record {
                data_ = d;
                meta = meta;
                live = live;
                bound = b;
                not_joined = j;
                has_meta = m;
                has_live = l;
                on_air = ok.0;
                pin_known = ok.1;
              }
        ]
      ]
    ]
  ]
