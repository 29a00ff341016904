-- ===== src/Rooms/Pick/Laws.antt =====
-- The watcher holds exactly the healthy modules, and the choice is sound and complete.
use audio_rtc_exp.Prelude.{
  ℕ, zero, suc, ◌<◌, ◌≤◌, ◌≡◌, refl, ◌⊎◌, inl, inr, String, List, [], ◌∷◌, Option, none, some,
  arith, eq_iff, Map, lookup, lookup-insert, lookup-delete, length, ◌==◌, string_eq, nat_eq,
  if◌then◌else◌, true, false, Bool-cases, Option-cases, All,
}
use audio_rtc_exp.Etcdstate.Module.{
  ModuleState, is_healthy, is_pickable, get_heartbeat, get_capacity, get_status,
}
use audio_rtc_exp.Watcher.{update_cache}
use audio_rtc_exp.Rooms.Mirror.Events.{lookup-update_cache}
use audio_rtc_exp.Rooms.Pick.{
  Healths, process_change, get_all_healthy, may_pick, pickable_keys, at, random_pick_module,
}

-- A watcher that has seen the states of a cache holds those that are healthy.
abbrev pub HoldsHealthy : Map ModuleState → Healths → Type 0
HoldsHealthy seen healths =
    (id : String)
    → lookup id healths ≡ (if is_healthy (lookup id seen) then lookup id seen else none)

-- If the watcher holds exactly the healthy modules of the states seen, it does so after a change,
-- the changed module with its new state.
pub process_change-HoldsHealthy :
    (id : String) (s : Option ModuleState) (seen : Map ModuleState) (healths : Healths)
    → HoldsHealthy seen healths
    → HoldsHealthy (update_cache id s seen) (process_change id s healths)
unfolding process_change is_healthy get_heartbeat get_status
process_change-HoldsHealthy id none seen healths h k =
    ground (arith, h k, lookup-update_cache id k none seen, lookup-delete id k healths)
process_change-HoldsHealthy id (some s) seen healths h k = ground (
  arith,
  h k,
  lookup-update_cache id k (some s) seen,
  lookup-delete id k healths,
  lookup-insert id k s healths,
)

-- A module that may take one more room.
pub record IsEligible (streams : String → ℕ) (healths : Healths) (id : String) : Type 0 where
  pub state : ModuleState
  pub held : lookup id healths ≡ some state
  pub pickable : is_pickable (some state) ≡ true
  pub room : streams id < get_capacity (get_heartbeat (some state))

at-All :
    (P : String → Type 0) (ids : List String) (n : ℕ) → All P ids → n < length ids → P (at ids n)
unfolding at
at-All P [] n p h = absurd (omega arith)
at-All P (id ∷ ids) zero p h = p.0
at-All P (id ∷ ids) (suc n) p h = at-All P ids n p.1 (omega arith)

module _ (streams : String → ℕ) (healths : Healths) where
  may_pick-IsEligible :
      (id : String) → may_pick streams healths id ≡ true → IsEligible streams healths id
  unfolding may_pick
  may_pick-IsEligible id e = elim (Option-cases (lookup id healths)) [
    | inl f ↦ absurd (ground (arith, f))
    | inr (s, f) ↦ record {
      state = s;
      held = f;
      pickable = ground (arith, f);
      room = ground (arith, f);
    }
  ]

  IsEligible-may_pick :
      (id : String) → IsEligible streams healths id → may_pick streams healths id ≡ true
  unfolding may_pick
  IsEligible-may_pick id e = ground (arith, e.held, e.pickable, e.room)

  All-pickable :
      (ids : List String)
      → All (λ id. may_pick streams healths id ≡ true) (pickable_keys streams healths ids)
  unfolding pickable_keys
  All-pickable [] = tt
  All-pickable (id ∷ ids) = elim (Bool-cases (may_pick streams healths id)) [
    | inl e ↦ rw (pickable_keys, e) (e, All-pickable ids)
    | inr e ↦ rw (pickable_keys, e) (All-pickable ids)
  ]

  none-pickable :
      (id : String) (ids : Healths) (s : ModuleState)
      → length (pickable_keys streams healths (get_all_healthy ids)) ≡ 0
      → lookup id ids ≡ some s
      → may_pick streams healths id ≡ false
  unfolding pickable_keys get_all_healthy lookup
  none-pickable id [] s h e = absurd (ground arith)
  none-pickable id ((j, t) ∷ ids) s h e = ground (arith, eq_iff j id, none-pickable id ids s)

  -- If rand.IntN answers below its bound, the choice is a healthy module that is pickable and below
  -- its capacity; it is empty only when there is no such module.
  pub random_pick_module-IsEligible :
      (draw : ℕ → ℕ)
      → ((n : ℕ) → 1 ≤ n → draw n < n)
      → ((random_pick_module draw streams healths ≡ "")
          × ((id : String) → IsEligible streams healths id → ⊥))
        ⊎ IsEligible streams healths (random_pick_module draw streams healths)
  unfolding random_pick_module
  random_pick_module-IsEligible draw d =
      let keys = pickable_keys streams healths (get_all_healthy healths) in
      elim (Bool-cases (length keys == 0)) [
        | inl e ↦
            rw (random_pick_module, e)
              (inl (
                refl,
                λ id h.
                    let p = IsEligible-may_pick id h in
                    absurd
                      (ground (arith, p, none-pickable id healths h.state (ground arith) h.held)),
              ))
        | inr e ↦
            rw (random_pick_module, e)
              (inr (
                may_pick-IsEligible _ (
                  at-All (λ id. may_pick streams healths id ≡ true) keys (draw (length keys))
                    (All-pickable (get_all_healthy healths)) (d (length keys) (ground arith)))))
      ]
