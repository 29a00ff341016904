-- ===== src/Watcher.antt =====
-- backend/internal/watcher/etcd/watcher.go: the cache of a prefix of etcd. The client's answers are
-- arguments; a step of the loop takes the branch of the `select` that is ready.
pub mod Values
pub mod Keys
pub mod Delay
mod Tests
use audio_rtc_exp.Prelude.{
  ℕ, suc, ◌+◌, String, List, [], ◌∷◌, Option, none, some, Map, lookup, insert, delete, ◌==◌,
  string_eq, if◌then◌else◌, Bool, true, false, is_some, ℤ, not, ◌&&◌, ◌++◌,
}
use audio_rtc_exp.Watcher.Keys.{parse_key}
use audio_rtc_exp.Watcher.Delay.{next_delay}

-- watcher.StateTransformer and ProcessChangeFunc, over the state S that they keep. The Boolean is
-- true without an error. A new state is an error or a state that may be nil; none is a panic.
pub data NewState {ℓ} (T : Type ℓ) : Type ℓ where
  next_state : Option T → NewState T
  failed : NewState T
  panicked : NewState T

pub record StateTransformer {ℓ κ} (T : Type ℓ) (S : Type κ) : Type (ℓ ⊔ κ) where
  pub rebuild_start : S → S × Bool
  pub rebuild_state : String → T → S → S × Bool
  pub rebuild_end : S → S × Bool
  pub new_state : String → String → String → Option T → NewState T
  pub process_change : String → Option T → S → S × Bool

unfoldable pub update_cache {ℓ} : {T : Type ℓ} → String → Option T → Map T → Map T
update_cache id none cache = delete id cache
update_cache id (some s) cache = insert id s cache

-- A list of no types allows every type.
unfoldable pub allowed : List String → String → Bool
allowed [] key_type = false
allowed (kt ∷ kts) key_type = if kt == key_type then true else allowed kts key_type

unfoldable pub is_allowed : List String → String → Bool
unfolding allowed
is_allowed [] key_type = true
is_allowed (kt ∷ kts) key_type = allowed (kt ∷ kts) key_type

-- The cache and the id of a key that was taken in; a panic ends the program.
pub data Parsed {ℓ} (T : Type ℓ) : Type ℓ where
  taken : String → Map T → Parsed T
  refused : Parsed T
  crashed : Parsed T

pub record Config {ℓ κ} (T : Type ℓ) (S : Type κ) : Type (ℓ ⊔ κ) where
  pub prefix_to_watch : String
  pub allowed_key_types : List String
  pub trans : StateTransformer T S

module _ {ℓ κ} {T : Type ℓ} {S : Type κ} (cfg : Config T S) where
  unfoldable pub store_new : String → NewState T → Map T → Parsed T
  unfolding update_cache
  store_new id (NewState.next_state s) cache = Parsed.taken id (update_cache id s cache)
  store_new id NewState.failed cache = Parsed.refused
  store_new id NewState.panicked cache = Parsed.crashed

  unfoldable pub parse_and_update_cache : String → String → Map T → Parsed T
  unfolding parse_key is_allowed store_new
  parse_and_update_cache key value cache = elim (parse_key cfg.prefix_to_watch key) [
    | none ↦ Parsed.refused
    | some k ↦
        let (id, key_type) = k in
        if is_allowed cfg.allowed_key_types key_type
        then store_new id (cfg.trans.new_state id key_type value (lookup id cache)) cache
        else Parsed.refused
  ]

-- What the loop changes: the cache, the failed attempts of each id, the state of the
-- transformer, and the calls of Enqueue, in order.
pub record Loop {ℓ κ} (T : Type ℓ) (S : Type κ) : Type (ℓ ⊔ κ) where
  pub cache : Map T
  pub retry_attempts : Map ℕ
  pub app : S
  pub enqueued : List (String × ℤ)

-- An event of a watch response.
pub data Event : Type 0 where
  put : String → String → Event
  deleted : String → Event

unfoldable pub attempts : String → Map ℕ → ℕ
attempts id m = elim (lookup id m) [ none ↦ 0 | some n ↦ n ]

module _ {ℓ κ} {T : Type ℓ} {S : Type κ} (cfg : Config T S) where
  -- The entries of the answer to Get, in order, with the ids that were taken in.
  unfoldable pub take_all : List (String × String) → Map T → Option (Map T × Map (Unit {0}))
  unfolding parse_and_update_cache
  take_all [] cache = some (cache, [])
  take_all ((key, value) ∷ kvs) cache = elim (parse_and_update_cache cfg key value cache) [
    | Parsed.crashed ↦ none
    | Parsed.refused ↦ take_all kvs cache
    | Parsed.taken id next ↦ elim (take_all kvs next) [
      | none ↦ none
      | some r ↦ some (r.0, insert id tt r.1)
    ]
  ]

  unfoldable pub rebuild_all : Map T → S → S × Bool
  rebuild_all [] s = (s, true)
  rebuild_all ((id, state) ∷ cache) s =
      let (t, ok) = cfg.trans.rebuild_state id state s in
      if ok then rebuild_all cache t else (t, false)

  unfoldable pub rebuild : Map T → S → S × Bool
  unfolding rebuild_all
  rebuild cache s =
      let (started, ok) = cfg.trans.rebuild_start s in
      if not ok
      then (started, false)
      else let (built, all) = rebuild_all cache started in
        if not all then (built, false) else cfg.trans.rebuild_end built

  unfoldable pub enqueue_all : Map (Unit {0}) → List (String × ℤ)
  enqueue_all [] = []
  enqueue_all ((id, u) ∷ ids) = (id, ℤ.pos 0) ∷ enqueue_all ids

  -- The first part of getAndWatchOnce, up to the call of Watch. The Boolean is true without error.
  unfoldable pub get_once : List (String × String) → Loop T S → Option (Loop T S × Bool)
  unfolding take_all rebuild enqueue_all
  get_once kvs w = elim (take_all kvs w.cache) [
    | none ↦ none
    | some r ↦
        let (cache, ids_to_process) = r in
        let (app, ok) = rebuild cache w.app in
        let enqueued = if ok then w.enqueued ++ enqueue_all ids_to_process else w.enqueued in
        some (record { cache = cache; retry_attempts = []; app = app; enqueued = enqueued }, ok)
  ]

  -- The branch of a key that the scheduler sends.
  unfoldable pub run_key : String → Loop T S → Loop T S
  unfolding attempts next_delay
  run_key key w =
      let (app, ok) = cfg.trans.process_change key (lookup key w.cache) w.app in
      let retry_count = attempts key w.retry_attempts in
      if ok
      then record w { app = app; retry_attempts = delete key w.retry_attempts }
      else record w {
        app = app;
        enqueued = w.enqueued ++ ((key, next_delay retry_count) ∷ []);
        retry_attempts = insert key (retry_count + 1) w.retry_attempts;
      }

  -- An id that was taken in: `Enqueue(id, 0)` and a new count of attempts, if the value is good.
  unfoldable pub announce : String → Map T → Bool → Loop T S → Loop T S
  announce id cache good w =
      if good
      then record w {
        cache = cache;
        enqueued = w.enqueued ++ ((id, ℤ.pos 0) ∷ []);
        retry_attempts = delete id w.retry_attempts;
      }
      else record w { cache = cache }

  unfoldable pub take_event : String → String → Bool → Loop T S → Option (Loop T S)
  unfolding parse_and_update_cache announce
  take_event key value good w = elim (parse_and_update_cache cfg key value w.cache) [
    | Parsed.crashed ↦ none
    | Parsed.refused ↦ some w
    | Parsed.taken id cache ↦ some (announce id cache good w)
  ]

  -- `unmarshals value` is true if json.Unmarshal reads the value as a T.
  unfoldable pub handle_event : (String → Bool) → Event → Loop T S → Option (Loop T S)
  unfolding take_event
  handle_event unmarshals (Event.put key value) w = take_event key value (unmarshals value) w
  handle_event unmarshals (Event.deleted key) w = take_event key "" true w

  unfoldable pub handle_watch : (String → Bool) → List Event → Loop T S → Option (Loop T S)
  unfolding handle_event
  handle_watch unmarshals [] w = some w
  handle_watch unmarshals (e ∷ events) w = elim (handle_event unmarshals e w) [
    | none ↦ none
    | some v ↦ handle_watch unmarshals events v
  ]
