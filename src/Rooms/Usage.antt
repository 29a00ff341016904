-- ===== src/Rooms/Usage.antt =====
-- backend/rooms/service/moudle_usage.go: how many rooms use each module.
pub mod Laws
use audio_rtc_exp.Prelude.{
  ℕ, suc, ◌+◌, ◌-◌, String, [], Option, none, some, Map, lookup, insert, delete, leb, ◌==◌,
  string_eq, if◌then◌else◌,
}

pub record ModuleUsage : Type 0 where
  pub counts : Map ℕ
  pub assigns : Map String

abbrev pub new_module_usage : ModuleUsage
new_module_usage = record { counts = []; assigns = [] }

-- A key that is not there reads as the zero value.
unfoldable pub count : String → ModuleUsage → ℕ
count module_id m = elim (lookup module_id m.counts) [ none ↦ 0 | some n ↦ n ]

unfoldable pub assigned : String → ModuleUsage → String
assigned room_id m = elim (lookup room_id m.assigns) [ none ↦ "" | some id ↦ id ]

-- The room leaves its module. A count that would fall to 0 or below is deleted.
unfoldable pub release : String → String → ModuleUsage → ModuleUsage
unfolding count
release room_id old m =
    let n = count old m - 1 in
    record {
      counts = if leb n 0 then delete old m.counts else insert old n m.counts;
      assigns = delete room_id m.assigns;
    }

-- The room enters a module.
unfoldable pub assign : String → String → ModuleUsage → ModuleUsage
unfolding count
assign room_id new m = record {
  counts = insert new (count new m + 1) m.counts;
  assigns = insert room_id new m.assigns;
}

unfoldable pub set : String → String → ModuleUsage → ModuleUsage
unfolding assigned release assign
set room_id new m =
    let old = assigned room_id m in
    let left = if old == "" then m else release room_id old m in
    if old == new then m else if new == "" then left else assign room_id new left
