-- ===== src/Task/Plugin/State.antt =====
-- plugin/constants.go: the task states.
use nsw.Prelude.{String, Bool, true, false}

-- `State`, a string type with four constants.
pub data TaskState : Type 0 where
  initialized in_progress completed failed : TaskState
  other : String → TaskState

-- `s == Completed || s == Failed`
abbrev pub is_final : TaskState → Bool
is_final completed = true
is_final failed = true
is_final _ = false
