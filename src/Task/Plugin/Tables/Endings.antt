-- ===== src/Task/Plugin/Tables/Endings.antt =====
-- The three transition tables: where tasks end, and that an ended task stays as it is.
use nsw.Prelude.{refl}
use nsw.Task.Plugin.Fsm.Settling.{ends, settles_in, is_left_by_none, Settles}
use nsw.Task.Plugin.Tables.{payment_fsm, wait_for_event_fsm, simple_form_fsm}

-- All three tables settle: an edge that completes or fails the task leads to a plugin state that no edge leaves.
pub tables-Settles : Settles payment_fsm × Settles wait_for_event_fsm × Settles simple_form_fsm
unfolding Settles settles_in is_left_by_none ends payment_fsm wait_for_event_fsm simple_form_fsm
tables-Settles = (refl, refl, refl)
