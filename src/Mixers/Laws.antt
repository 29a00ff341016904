-- ===== src/Mixers/Laws.antt =====
-- A change of a room starts, keeps or stops its stream.
use audio_rtc_exp.Prelude.{
  ℕ, ◌≡◌, refl, inl, inr, String, List, [], ◌∷◌, Option, none, some, lookup, insert, delete,
  string_eq, Bool, true, false, Bool-cases, Option-cases, is_some,
}
use audio_rtc_exp.Etcdstate.Room.{RoomState}
use audio_rtc_exp.Mixers.{
  ActiveRoom, RoomWatcher, call, update_mixer, start_ffmpeg, start_room_ffmpeg, stop_room_ffmpeg,
  sync_mixer_data, should_be_running, is_state_runner, given, process_change,
}

-- Every active room has a process that runs at its port.
abbrev pub IsValid : RoomWatcher → Type 0
IsValid w =
    (r : String) (a : ActiveRoom)
    → lookup r w.active_rooms ≡ some a
    → lookup r w.processes ≡ some (record { rtp_port = a.port; stopped = false })

-- A call keeps what its action keeps and the faults do not touch.
pub call-keeps :
    (P : RoomWatcher → Type 0) (f : RoomWatcher → RoomWatcher) (w : RoomWatcher)
    → ((fs : List Bool) → P (record w { faults = fs }))
    → ((v : RoomWatcher) → P v → P (f v))
    → P (call f w).1
unfolding call
call-keeps P f w same keeps = go w.faults refl
  where
    go : (fs : List Bool) → w.faults ≡ fs → P (call f w).1
    go [] e = rw (call, e) (keeps w (same w.faults))
    go (true ∷ fs) e = rw (call, e) (same fs)
    go (false ∷ fs) e = rw (call, e) (keeps (record w { faults = fs }) (same fs))

module _ (id mixer_ip : String) where
  -- The cases of one change.
  pub data Changes (p : Option ℕ) (r : String) (s : Option RoomState) (w : RoomWatcher)
      : Type 0 where
    starts :
        should_be_running id (given s) ≡ true
        → lookup r w.active_rooms ≡ none
        → process_change id mixer_ip p r s w ≡ start_room_ffmpeg id mixer_ip p r w
        → Changes p r s w
    syncs :
        (a : ActiveRoom)
        → should_be_running id (given s) ≡ true
        → lookup r w.active_rooms ≡ some a
        → process_change id mixer_ip p r s w ≡ update_mixer id mixer_ip r (some a.port) w
        → Changes p r s w
    stops :
        should_be_running id (given s) ≡ false
        → is_some (lookup r w.active_rooms) ≡ true
        → process_change id mixer_ip p r s w
          ≡ stop_room_ffmpeg id mixer_ip r (is_state_runner id (given s)) w
        → Changes p r s w
    stays :
        is_some (lookup r w.active_rooms) ≡ should_be_running id (given s)
        → process_change id mixer_ip p r s w ≡ (true, w)
        → Changes p r s w

  synced :
      (a : ActiveRoom) (r : String) (w : RoomWatcher)
      → lookup r w.active_rooms ≡ some a
      → sync_mixer_data id mixer_ip r w ≡ update_mixer id mixer_ip r (some a.port) w
  unfolding sync_mixer_data
  synced a r w e = rw (sync_mixer_data, e) refl

  pub Changes-total :
      (p : Option ℕ) (r : String) (s : Option RoomState) (w : RoomWatcher) → Changes p r s w
  unfolding process_change sync_mixer_data
  Changes-total p r s w = elim (Bool-cases (should_be_running id (given s))) [
    | inl y ↦ elim (Option-cases (lookup r w.active_rooms)) [
      | inl e ↦ starts y e (rw (process_change, y, e) refl)
      | inr (a, e) ↦ elim (Bool-cases (is_state_runner id (given s))) [
        | inl t ↦ stays (rw (y, e) refl) (rw (process_change, y, e, t) refl)
        | inr t ↦ syncs a y e (rw (process_change, y, e, t) (synced a r w e))
      ]
    ]
    | inr n ↦ elim (Option-cases (lookup r w.active_rooms)) [
      | inl e ↦ stays (rw (n, e) refl) (rw (process_change, n, e) refl)
      | inr (a, e) ↦ stops n (rw e refl) (rw (process_change, n, e) refl)
    ]
  ]

  pub update_mixer-IsValid :
      (r : String) (p : Option ℕ) (w : RoomWatcher)
      → IsValid w
      → IsValid (update_mixer id mixer_ip r p w).1
  unfolding update_mixer
  update_mixer-IsValid r none w v =
      call-keeps IsValid (λ u. record u { mixer_data = delete r u.mixer_data }) w (λ fs. v)
        (λ u h. h)
  update_mixer-IsValid r (some p) w v =
      call-keeps IsValid
        (λ u. record u {
          mixer_data = insert r (record { id = id; ip = mixer_ip; port = p }) u.mixer_data;
        })
        w (λ fs. v) (λ u h. h)

  -- What StartFFmpeg leaves: nothing changed, or a new process at the port.
  pub data StartsProcess (r : String) (p : ℕ) (w : RoomWatcher) : Type 0 where
    refused_start :
        (v : RoomWatcher)
        → start_ffmpeg r p w ≡ (false, v)
        → v.active_rooms ≡ w.active_rooms
        → v.processes ≡ w.processes
        → StartsProcess r p w
    started :
        (v : RoomWatcher)
        → start_ffmpeg r p w ≡ (true, v)
        → lookup r w.processes ≡ none
        → v.active_rooms ≡ w.active_rooms
        → v.processes ≡ insert r (record { rtp_port = p; stopped = false }) w.processes
        → StartsProcess r p w

  with_process : String → ℕ → RoomWatcher → RoomWatcher
  with_process r p u = record u {
    processes = insert r (record { rtp_port = p; stopped = false }) u.processes;
  }

  StartsProcess_faults :
      (r : String) (p : ℕ) (w : RoomWatcher) (fs : List Bool)
      → lookup r w.processes ≡ none
      → StartsProcess r p (record w { faults = fs })
  unfolding start_ffmpeg call with_process
  StartsProcess_faults r p w [] e =
      started (with_process r p (record w { faults = [] })) (rw (start_ffmpeg, e) refl) e refl refl
  StartsProcess_faults r p w (true ∷ fs) e =
      refused_start (record w { faults = fs }) (rw (start_ffmpeg, e) refl) refl refl
  StartsProcess_faults r p w (false ∷ []) e =
      started (with_process r p (record w { faults = [] })) (rw (start_ffmpeg, e) refl) e refl refl
  StartsProcess_faults r p w (false ∷ true ∷ fs) e =
      refused_start (record w { faults = fs }) (rw (start_ffmpeg, e) refl) refl refl
  StartsProcess_faults r p w (false ∷ false ∷ []) e =
      started (with_process r p (record w { faults = [] })) (rw (start_ffmpeg, e) refl) e refl refl
  StartsProcess_faults r p w (false ∷ false ∷ true ∷ fs) e =
      refused_start (record w { faults = fs }) (rw (start_ffmpeg, e) refl) refl refl
  StartsProcess_faults r p w (false ∷ false ∷ false ∷ fs) e =
      started (with_process r p (record w { faults = fs })) (rw (start_ffmpeg, e) refl) e refl refl

  pub StartsProcess_total : (r : String) (p : ℕ) (w : RoomWatcher) → StartsProcess r p w
  unfolding start_ffmpeg
  StartsProcess_total r p w = elim (Option-cases (lookup r w.processes)) [
    | inr (q, e) ↦ refused_start w (rw (start_ffmpeg, e) refl) refl refl
    | inl e ↦ StartsProcess_faults r p w w.faults e
  ]
