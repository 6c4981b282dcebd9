-- ===== src/Gsbench/Restore/Examples.antt =====
-- Tests and an instance for the restore coordinator, on two runs whose second cannot be marked.
use text.Mathlib.Text.{◌==◌ as str_eq}
use gstop.Base.{◌≡◌, refl, true, false, ◌&&◌, not, [], ◌∷◌, none, some, if◌then◌else◌, ◌⊎◌}
use gstop.Gsbench.Action.Samples.{index_drop}
use gstop.Gsbench.Restore.Calls.{
  Outcome, degraded, restore_failed, Coordinator, RestoreRequest, marked, requested, stopped,
  group_restored, redetected, verified, released, database,
}
use gstop.Gsbench.Restore.{
  action_stage, same_stage, restore_action_group, is_nil, is_restore_failed, after_mark, with_run,
  successful_restore_run_outcome, for_runs, request_restore, stop_sessions, restore_group_of,
  restore_stages, restore_actions_contain_plan_change, repair, reconcile, carry_out, mark_runs,
  mark_again, mark_terminal_restore_outcomes, complete, finalize, restore_plan,
}
use gstop.Gsbench.Restore.Marks.{Marked}
use gstop.Gsbench.Restore.Summaries.{
  IsClosing, Answered, is_verified, ends_released, restore_plan-agrees,
}

abbrev forgetful : Coordinator (Unit {0})
forgetful = record {
  mark_restore_requested = λ run w. (none, w);
  stop_tagged_sessions = λ run w. (none, w);
  restore_group = λ actions w. (none, w);
  repair_baseline = λ w. (none, w);
  reconcile_restored_actions = none;
  redetect_topology = λ w. (none, w);
  verify_restore = λ runs actions w. (none, w);
  mark_restore_outcome =
      λ run o w. (if str_eq run "r2" && not (is_restore_failed o) then some "lost" else none, w);
  release = λ w. (none, w);
  is_plan_change_code = λ c. false;
}

abbrev request : RestoreRequest (Unit {0})
request = record { completed_outcome = degraded; after_success = none }

-- The first run is marked again, with the failure of the second.
marks_again :
    (restore_plan forgetful request ("r1" ∷ "r2" ∷ []) (index_drop ∷ []) tt).1
    ≡ requested "r1" none
      ∷ requested "r2" none
      ∷ stopped "r1" none
      ∷ stopped "r2" none
      ∷ group_restored "r1" database none
      ∷ redetected none
      ∷ verified none
      ∷ marked "r1" degraded none
      ∷ marked "r2" degraded (some "lost")
      ∷ marked "r1" restore_failed none
      ∷ marked "r2" restore_failed none
      ∷ released none
      ∷ []
unfolding action_stage same_stage restore_action_group is_nil is_restore_failed after_mark with_run
    successful_restore_run_outcome for_runs request_restore stop_sessions restore_group_of
    restore_stages restore_actions_contain_plan_change repair reconcile carry_out mark_runs
    mark_again mark_terminal_restore_outcomes complete finalize restore_plan
marks_again = refl

restore_plan-agrees_example :
    let s = (restore_plan forgetful request ("r1" ∷ "r2" ∷ []) (index_drop ∷ []) tt).0 in
    let l = (restore_plan forgetful request ("r1" ∷ "r2" ∷ []) (index_drop ∷ []) tt).1 in
    (final : Outcome) × Marked final ("r1" ∷ "r2" ∷ []) l
    × (IsClosing degraded final ⊎ (final ≡ restore_failed))
    × ((s.has_failed ≡ true)
        ⊎ (IsClosing degraded final
            × (Answered final ("r1" ∷ "r2" ∷ []) l × (is_verified l ≡ true))))
    × (ends_released l ≡ true)
restore_plan-agrees_example =
    restore_plan-agrees forgetful request ("r1" ∷ "r2" ∷ []) (index_drop ∷ []) tt
