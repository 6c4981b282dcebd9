-- ===== src/Gsbench/Ledger/Examples.antt =====
-- Tests and instances for the recovery ledger.
use gstop.Base.{◌≡◌, ◌≤◌, refl, List, [], ◌∷◌, length, arith}
use gstop.Gsbench.Action.{
  Action, applied, restored, planned, process_state, validate, validate_action_payload,
  validate_journal_string_field, valid, known, requires_node, persistent,
}
use gstop.Gsbench.Action.Secrets.{
  has_secret_key, obvious_secret_key, members_credential, contains_credential,
}
use gstop.Gsbench.Action.Samples.{ascii_text, index_drop}
use gstop.Gsbench.Ledger.{
  ok, err, already_restored, put, put_stored, find, replace, update_existing, record_limit,
  sort_recovery_ledger_actions, before, insert_sorted, external_persistent_action_kind, kind_name,
  identity_contains_control, validate_recovery_ledger_put_action, validate_recovery_ledger_action,
}
use gstop.Gsbench.Ledger.Identity.{Unique}
use gstop.Gsbench.Ledger.Transitions.{Extends}
use gstop.Gsbench.Ledger.Histories.{puts, marks, run_operations, run_operations-Extends}
use gstop.Gsbench.Ledger.Limits.{length-put_stored-le}

abbrev stopped_process : Action
stopped_process = record index_drop { kind = process_state; node = "dn1"; state = planned }

abbrev one_planned : List Action
one_planned = stopped_process ∷ []

planned_then_applied :
    put ascii_text ok (record stopped_process { state = applied }) one_planned
    ≡ ok (record stopped_process { state = applied } ∷ [])
unfolding put put_stored find replace update_existing sort_recovery_ledger_actions insert_sorted
    before external_persistent_action_kind identity_contains_control kind_name
    validate_recovery_ledger_put_action validate_recovery_ledger_action validate valid known
    requires_node persistent validate_journal_string_field validate_action_payload has_secret_key
    obvious_secret_key members_credential contains_credential
planned_then_applied = refl

tombstone_refused :
    put_stored
      (record stopped_process { state = applied })
      (record stopped_process { state = restored } ∷ [])
    ≡ err already_restored
unfolding put_stored find update_existing kind_name
tombstone_refused = refl

one_stored : put_stored stopped_process [] ≡ ok one_planned
unfolding put_stored find sort_recovery_ledger_actions insert_sorted
one_stored = refl

one_planned-Unique : Unique one_planned
unfolding find
one_planned-Unique = (refl, tt)

run_operations-Extends_example : Extends one_planned (
    run_operations ascii_text ok one_planned
      (puts (record stopped_process { state = applied }) ∷ marks "r1" "plan_data" ∷ []))
run_operations-Extends_example =
    run_operations-Extends ascii_text ok (λ a b h. cc) one_planned
      (puts (record stopped_process { state = applied }) ∷ marks "r1" "plan_data" ∷ [])
      one_planned-Unique

length-put_stored-le_example : length one_planned ≤ record_limit
length-put_stored-le_example =
    length-put_stored-le stopped_process [] one_planned (omega arith) one_stored
