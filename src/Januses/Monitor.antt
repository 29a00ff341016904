-- ===== src/Januses/Monitor.antt =====
-- backend/januses/watcher/janus_monitor.go: a canary room tells whether Janus was restarted. The
-- answers of GetRoom and CreateRoom are arguments, none or false for an error.
use mathlib.Core.List.{append-nil, append_assoc}
use audio_rtc_exp.Prelude.{
  ℕ, ◌≡◌, sym, ◌∙◌, String, List, [], ◌∷◌, Option, none, some, Bool, true, false, ◌++◌,
}

-- What the monitor has asked of Janus, and the reasons it has given to the restart handler.
pub record Monitor : Type 0 where
  pub created : List (ℕ × String × String)
  pub restarts : List String

module _ (canary_room_id : ℕ) (description : String) where
  -- The Boolean is true without an error of CreateRoom.
  unfoldable pub create_canary_room : Bool → Monitor → Bool × Monitor
  create_canary_room ok m =
      (ok, record m { created = m.created ++ ((canary_room_id, description, "111111") ∷ []) })

  -- An error of createCanaryRoom is logged.
  unfoldable pub handle_janus_restart : Bool → String → Monitor → Monitor
  unfolding create_canary_room
  handle_janus_restart ok reason m =
      let n = (create_canary_room ok m).1 in record n { restarts = n.restarts ++ (reason ∷ []) }

  unfoldable pub check_canary_room : Option Bool → Bool → Monitor → Monitor
  unfolding handle_janus_restart
  check_canary_room none ok m = m
  check_canary_room (some true) ok m = m
  check_canary_room (some false) ok m = handle_janus_restart ok "canary_room_disappeared" m

  -- The Boolean is true if the monitoring starts.
  unfoldable pub start : Option Bool → Bool → Monitor → Bool × Monitor
  unfolding create_canary_room
  start none ok m = (false, m)
  start (some true) ok m = (true, m)
  start (some false) ok m = create_canary_room ok m

  -- The ticks of the loop, each with the answers of Janus.
  unfoldable pub run : List (Option Bool × Bool) → Monitor → Monitor
  unfolding check_canary_room
  run [] m = m
  run ((existed, ok) ∷ ticks) m = run ticks (check_canary_room existed ok m)

  -- How often Janus said that the canary room is gone.
  abbrev pub losses : List (Option Bool × Bool) → List String
  losses [] = []
  losses ((some false, ok) ∷ ticks) = "canary_room_disappeared" ∷ losses ticks
  losses ((_, ok) ∷ ticks) = losses ticks

  -- The restart handler runs once for each tick at which Janus has no canary room, and at no other:
  -- an error of Janus is no restart, and a canary room that cannot be made again is reported anew.
  pub run-losses :
      (ticks : List (Option Bool × Bool)) (m : Monitor)
      → (run ticks m).restarts ≡ m.restarts ++ losses ticks
  unfolding run check_canary_room handle_janus_restart create_canary_room
  run-losses [] m = sym (append-nil m.restarts)
  run-losses ((none, ok) ∷ ticks) m = run-losses ticks m
  run-losses ((some true, ok) ∷ ticks) m = run-losses ticks m
  run-losses ((some false, ok) ∷ ticks) m = run-losses ticks _ ∙ append_assoc m.restarts _ _
