-- ===== src/Rooms/Housekeeping/Laws.antt =====
-- Housekeeping removes the rooms that are stale, and no other.
use mathlib.Core.Path.{subst, sym}
use audio_rtc_exp.Prelude.{
  ℕ, ◌+◌, ◌<◌, ◌≡◌, refl, ◌≢◌, ◌⊎◌, ◌↔◌, inl, inr, String, List, [], ◌∷◌, none, some, arith, eq_iff,
  Map, lookup, ltb, ◌==◌, nat_eq, string_eq, true, Bool-cases, Option-cases, ◌&&◌,
}
use audio_rtc_exp.Etcdstate.{room_status_on_air}
use audio_rtc_exp.Etcdstate.Meta.{Meta}
use audio_rtc_exp.Etcdstate.LiveMeta.{LiveMeta}
use audio_rtc_exp.Etcdstate.Room.{RoomState}
use audio_rtc_exp.Rooms.Housekeeping.{
  start_timeout, inactive_graceful_period, room_max_age, since, is_exceed, is_stale,
  check_stale_room, check_stale_rooms,
}

-- Longer ago than a duration. The zero time is longer ago than any.
abbrev pub IsPast : ℕ → ℕ → ℕ → Type 0
IsPast now t duration = (t ≡ 0) ⊎ (t + duration < now)

-- Why a room is removed.
pub data Stale (now : ℕ) (state : RoomState) : Type 0 where
  malformed : state.meta ≡ none → Stale now state
  never_started :
      (m : Meta)
      → state.meta ≡ some m
      → state.live_meta ≡ none
      → IsPast now m.created_at start_timeout
      → Stale now state
  too_old :
      (m : Meta) (l : LiveMeta)
      → state.meta ≡ some m
      → state.live_meta ≡ some l
      → l.status ≡ room_status_on_air
      → IsPast now m.created_at room_max_age
      → Stale now state
  discarded :
      (m : Meta) (l : LiveMeta) (t : ℕ)
      → state.meta ≡ some m
      → state.live_meta ≡ some l
      → l.discard_at ≡ some t
      → t ≢ 0
      → t + inactive_graceful_period < now
      → Stale now state

ltb-since : (now t d : ℕ) → d < 9223372036854775807 → (ltb d (since now t) ≡ true) ↔ IsPast now t d
unfolding since
ltb-since now t d h = ground arith

Stale-is_stale : (now : ℕ) (state : RoomState) → Stale now state → is_stale now state ≡ true
unfolding is_stale is_exceed since
Stale-is_stale now state (malformed e) = ground (arith, e)
Stale-is_stale now state (never_started m e f p) =
    ground (arith, e, f, ltb-since now m.created_at start_timeout (ground arith))
Stale-is_stale now state (too_old m l e f s p) = ground (
  arith,
  e,
  f,
  s,
  eq_iff l.status room_status_on_air,
  ltb-since now m.created_at room_max_age (ground arith),
)
Stale-is_stale now state (discarded m l t e f g n p) = ground (arith, e, f, g)

is_stale-Stale : (now : ℕ) (state : RoomState) → is_stale now state ≡ true → Stale now state
unfolding is_stale is_exceed since
is_stale-Stale now state h = elim (Option-cases state.meta) [
  | inl e ↦ malformed e
  | inr (m, e) ↦ elim (Option-cases state.live_meta) [
    | inl f ↦ never_started m e f (ground (arith, e, f))
    | inr (l, f) ↦
        elim (Bool-cases
          (l.status == room_status_on_air && ltb room_max_age (since now m.created_at))) [
            | inl o ↦
                too_old m l e f (ground (arith, eq_iff l.status room_status_on_air)) (ground arith)
            | inr o ↦ elim (Option-cases l.discard_at) [
              | inl g ↦ absurd (ground (arith, e, f, g))
              | inr (t, g) ↦
                  discarded m l t e f g (ground (arith, e, f, g)) (ground (arith, e, f, g))
            ]
          ]
  ]
]

abbrev pub In : String → List String → Type 0
In r [] = ⊥
In r (x ∷ xs) = (r ≡ x) ⊎ In r xs

-- A room that the cache holds in a stale state.
pub record IsStale (now : ℕ) (cache : Map RoomState) (r : String) : Type 0 where
  pub state : RoomState
  pub cached : lookup r cache ≡ some state
  pub why : Stale now state

module _ (now : ℕ) (cache : Map RoomState) where
  -- What checkStaleRoom calls deleteRoom on: the room itself if it is stale, else nothing.
  data Checks (x : String) : Type 0 where
    removes : IsStale now cache x → check_stale_room now cache x ≡ x ∷ [] → Checks x
    keeps : (IsStale now cache x → ⊥) → check_stale_room now cache x ≡ [] → Checks x

  Checks-total : (x : String) → Checks x
  unfolding check_stale_room
  Checks-total x = elim (Option-cases (lookup x cache)) [
    | inl e ↦ keeps (λ s. absurd (ground (arith, e, s.cached))) (rw (check_stale_room, e) refl)
    | inr (s, e) ↦ elim (Bool-cases (is_stale now s)) [
      | inl o ↦
          removes (record { state = s; cached = e; why = is_stale-Stale now s o })
            (rw (check_stale_room, e, o) refl)
      | inr o ↦
          keeps
            (λ t.
              let same : t.state ≡ s = ground (arith, e, t.cached) in
              absurd (ground (arith, o, rw same at (Stale-is_stale now t.state t.why))))
            (rw (check_stale_room, e, o) refl)
    ]
  ]

  -- Housekeeping calls deleteRoom on a room exactly if the store lists the room and the cache
  -- holds it in a stale state: without metadata, not started for more than 10 minutes, on air for
  -- more than 3 hours, or discarded for more than a minute.
  pub check_stale_rooms_iff :
      (rooms : List String) (r : String)
      → In r (check_stale_rooms now cache (some rooms)) ↔ (In r rooms × IsStale now cache r)
  unfolding check_stale_rooms
  check_stale_rooms_iff [] r = (λ h. absurd h, λ h. absurd h.0)
  check_stale_rooms_iff (x ∷ rooms) r =
      let rest = check_stale_rooms_iff rooms r in
      elim (Checks-total x) [
        | removes s e ↦
            rw (check_stale_rooms, e)
              (
                λ h. elim h [
                  | inl same ↦ (inl same, subst (IsStale now cache) (sym same) s)
                  | inr more ↦ (inr (rest.0 more).0, (rest.0 more).1)
                ],
                λ h. elim h.0 [ inl same ↦ inl same | inr more ↦ inr (rest.1 (more, h.1)) ],
              )
        | keeps n e ↦
            rw (check_stale_rooms, e)
              (
                λ h. (inr (rest.0 h).0, (rest.0 h).1),
                λ h. elim h.0 [
                  | inl same ↦ absurd (n (subst (IsStale now cache) same h.1))
                  | inr more ↦ rest.1 (more, h.1)
                ],
              )
      ]
