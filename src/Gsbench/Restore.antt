-- ===== src/Gsbench/Restore.antt =====
-- The restore coordinator, internal/gsbench/restore.go: Restore from the plan of the runs and their
-- actions to the summary, over any backend. The discovery before it, the timeouts and the lock's file are
-- not modelled. A computation returns its result, the calls that it made, oldest first, and the world.
pub mod Calls
mod Marks
mod Loops
mod Outcomes
mod Summaries
mod Examples
use text.Mathlib.Text.{◌==◌ as str_eq}
use gstop.Base.{
  ℕ, String, Bool, true, false, ◌&&◌, ◌||◌, not, List, [], ◌∷◌, ◌++◌, Option, none, some,
  if◌then◌else◌,
}
use gstop.Gsbench.Action.{
  Action, ActionKind, sql_mutation, session_set, session_transaction, guc_file_change,
  network_qdisc, network_firewall, process_state, node_role, cloud_fault_job, data_baseline,
  other_kind,
}
use gstop.Gsbench.Journal.{push}
use Calls.{
  Call, Coordinator, Outcome, R, RestoreError, RestoreRequest, RestoreStage, RestoreSummary, calls,
  complete_failed, completed, completed_with_warnings, configuration, database, degraded,
  external_control, failed, group_failed, group_restored, listed, mark_failed, marked,
  not_applicable, not_implemented, pure, reconcile_failed, reconcile_mark_failed, reconciled,
  redetect_failed, redetected, release_failed, released, repair_failed, repaired, request_failed,
  requested, restore_failed, sessions, stop_failed, stopped, success, unset_outcome, unverified,
  verified, verify_failed, wrap, ◌>>=◌,
}

-- The stage of restoreActionOrder.
unfoldable pub action_stage : ActionKind → RestoreStage
action_stage session_set = sessions
action_stage session_transaction = sessions
action_stage network_firewall = external_control
action_stage network_qdisc = external_control
action_stage process_state = external_control
action_stage cloud_fault_job = external_control
action_stage guc_file_change = configuration
action_stage node_role = configuration
action_stage sql_mutation = database
action_stage data_baseline = database
action_stage (other_kind s) = database

unfoldable pub same_stage : RestoreStage → RestoreStage → Bool
same_stage sessions sessions = true
same_stage external_control external_control = true
same_stage configuration configuration = true
same_stage database database = true
same_stage _ _ = false

unfoldable pub restore_action_group : List Action → String → RestoreStage → List Action
restore_action_group [] run stage = []
restore_action_group (a ∷ actions) run stage =
    let rest = restore_action_group actions run stage in
    if str_eq a.run_id run && same_stage (action_stage a.kind) stage then a ∷ rest else rest

unfoldable pub is_nil : List RestoreError → Bool
is_nil [] = true
is_nil (e ∷ es) = false

unfoldable pub is_restore_failed : Outcome → Bool
is_restore_failed restore_failed = true
is_restore_failed _ = false

unfoldable pub successful_restore_run_outcome : Outcome → Outcome
successful_restore_run_outcome success = success
successful_restore_run_outcome not_applicable = not_applicable
successful_restore_run_outcome degraded = degraded
successful_restore_run_outcome not_implemented = not_implemented
successful_restore_run_outcome failed = failed
successful_restore_run_outcome completed_with_warnings = success
successful_restore_run_outcome unverified = success
successful_restore_run_outcome restore_failed = success
successful_restore_run_outcome unset_outcome = success

-- The outcome to attempt next, and the runs to mark again, after the mark of a run.
unfoldable pub after_mark : Outcome → Option String → Outcome
after_mark o none = o
after_mark o (some e) = restore_failed

unfoldable pub with_run : Outcome → String → List String → List String
with_run o run runs = if is_restore_failed o then runs else run ∷ runs

-- The errors of the actions count unless they were reconciled and the verification agrees.
abbrev pub judge : Option String → Bool → List RestoreError → List RestoreError
judge (some e) is_reconciled action_errs = action_errs ++ verify_failed e ∷ []
judge none true action_errs = []
judge none false action_errs = action_errs

abbrev pub is_answered : Option String → Bool
is_answered none = true
is_answered (some e) = false

abbrev pub summary : List RestoreError → Option String → RestoreSummary
summary errs release =
    let all = errs ++ listed (wrap release_failed release) in
    record {
      outcome = if is_nil all then success else restore_failed;
      has_failed = not (is_nil all);
      errors = all;
      restore_lock_released = is_answered release;
    }

module _ {W : Type 0} (B : Coordinator W) where
  -- A loop over the runs that collects the errors.
  unfoldable pub for_runs :
      (String → R W (Option RestoreError)) → List String → R W (List RestoreError)
  for_runs f [] = pure []
  for_runs f (run ∷ runs) = do e ← f run; es ← for_runs f runs; pure (push e es)

  unfoldable pub request_restore : String → R W (Option RestoreError)
  request_restore run = do
    e ← calls (requested run) (B.mark_restore_requested run)
    pure (wrap (request_failed run) e)

  unfoldable pub stop_sessions : String → R W (Option RestoreError)
  stop_sessions run = do
    e ← calls (stopped run) (B.stop_tagged_sessions run)
    pure (wrap (stop_failed run) e)

  -- A group that is empty is passed over.
  unfoldable pub restore_group_of : List Action → RestoreStage → String → R W (Option RestoreError)
  restore_group_of actions stage run =
      elim (restore_action_group actions run stage) as (λ _. R W (Option RestoreError)) [
        | [] ↦ pure none
        | a ∷ group ↦ do
          e ← calls (group_restored run stage) (B.restore_group (a ∷ group))
          pure (wrap (group_failed run stage) e)
      ]

  unfoldable pub restore_stages :
      List Action → List RestoreStage → List String → R W (List RestoreError)
  restore_stages actions [] runs = pure []
  restore_stages actions (stage ∷ stages) runs = do
    es ← for_runs (restore_group_of actions stage) runs
    rest ← restore_stages actions stages runs
    pure (es ++ rest)

  unfoldable pub restore_actions_contain_plan_change : List Action → Bool
  restore_actions_contain_plan_change [] = false
  restore_actions_contain_plan_change (a ∷ actions) =
      B.is_plan_change_code a.scenario_code || restore_actions_contain_plan_change actions

  unfoldable pub repair : Bool → R W (List RestoreError)
  repair false = pure []
  repair true = do e ← calls repaired B.repair_baseline; pure (listed (wrap repair_failed e))

  -- The errors of the reconciliation, and whether it took place.
  unfoldable pub reconcile :
      Option (List Action → Call W)
      → List Action
      → List RestoreError
      → R W (List RestoreError × Bool)
  reconcile f actions [] = pure ([], false)
  reconcile none actions (e ∷ es) = pure ([], false)
  reconcile (some f) actions (e ∷ es) = do
    r ← calls reconciled (f actions)
    pure (elim r as (λ _. List RestoreError × Bool) [
      | some x ↦ (reconcile_failed x ∷ [], false)
      | none ↦ ([], true)
    ])

  -- Up to the verification.
  unfoldable pub carry_out : List String → List Action → R W (List RestoreError)
  carry_out runs actions = do
    requests ← for_runs request_restore runs
    stops ← for_runs stop_sessions runs
    action_errs ←
        restore_stages actions (sessions ∷ external_control ∷ configuration ∷ database ∷ []) runs
    repairs ← repair (restore_actions_contain_plan_change actions)
    reconciliation ← reconcile B.reconcile_restored_actions actions action_errs
    e ← calls redetected B.redetect_topology
    v ← calls verified (B.verify_restore runs actions)
    pure (
        requests
        ++ (stops
            ++ (repairs
                ++ (reconciliation.0
                    ++ (listed (wrap redetect_failed e) ++ judge v reconciliation.1 action_errs)))))

  -- The first loop of markTerminalRestoreOutcomes: the outcome after it, the errors, and the runs that
  -- another outcome than a failure was attempted for.
  unfoldable pub mark_runs : Outcome → List String → R W (Outcome × List RestoreError × List String)
  mark_runs o [] = pure (o, [], [])
  mark_runs o (run ∷ runs) = do
    e ← calls (marked run o) (B.mark_restore_outcome run o)
    rest ← mark_runs (after_mark o e) runs
    pure (rest.0, push (wrap (mark_failed run o) e) rest.1, with_run o run rest.2)

  unfoldable pub mark_again : String → R W (Option RestoreError)
  mark_again run = do
    e ← calls (marked run restore_failed) (B.mark_restore_outcome run restore_failed)
    pure (wrap (reconcile_mark_failed run restore_failed) e)

  unfoldable pub mark_terminal_restore_outcomes : Outcome → List String → R W (List RestoreError)
  mark_terminal_restore_outcomes initial runs = do
    first ← mark_runs initial runs
    again ←
        if not (is_restore_failed first.0) || is_restore_failed initial
        then pure []
        else for_runs mark_again first.2
    pure (first.1 ++ again)

  abbrev pub persisted_outcome : RestoreRequest W → List RestoreError → Outcome
  persisted_outcome request errs =
      if is_nil errs
      then successful_restore_run_outcome request.completed_outcome
      else restore_failed

  unfoldable pub complete : Option (Call W) → List RestoreError → R W (List RestoreError)
  complete none errs = pure []
  complete (some f) (e ∷ errs) = pure []
  complete (some f) [] = do e ← calls completed f; pure (listed (wrap complete_failed e))

  -- From the errors of the restore to its summary.
  unfoldable pub finalize : RestoreRequest W → List String → List RestoreError → R W RestoreSummary
  finalize request runs errs = do
    marks ← mark_terminal_restore_outcomes (persisted_outcome request errs) runs
    last ← complete request.after_success (errs ++ marks)
    r ← calls released B.release
    pure (summary (errs ++ (marks ++ last)) r)

  unfoldable pub restore_plan : RestoreRequest W → List String → List Action → R W RestoreSummary
  restore_plan request runs actions = do errs ← carry_out runs actions; finalize request runs errs
