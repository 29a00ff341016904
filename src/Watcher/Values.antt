-- ===== src/Watcher/Values.antt =====
-- backend/internal/watcher/etcd/util.go: the value of a key.
use audio_rtc_exp.Prelude.{String, Option, none, some, ◌==◌, string_eq, if◌then◌else◌}
use mathlib.Core.Option.{map}

-- An empty value is a nil pointer. A value that `json.Unmarshal` refuses is a panic, none.
unfoldable pub parse_value {ℓ} : {A : Type ℓ} → (String → Option A) → String → Option (Option A)
parse_value unmarshal value = if value == "" then some none else map some (unmarshal value)
