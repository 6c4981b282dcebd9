-- ===== src/Gsbench/Store/Examples.antt =====
-- Tests and instances for the SQL store, on a table of one run.
use gstop.Base.{Bool, false, ℕ, ◌≡◌, ◌≢◌, refl, String, true, [], ◌∷◌, none, some, if◌then◌else◌}
use text.Mathlib.Text.{◌==◌ as str_eq}
use gstop.Gsbench.Action.{
  Action, ActionError, planned, applied, validate, validate_action_payload,
  validate_journal_string_field, valid, known, requires_node, persistent,
}
use gstop.Gsbench.Action.Secrets.{
  GoText, object, end, has_secret_key, obvious_secret_key, members_credential, contains_credential,
}
use gstop.Gsbench.Action.ErrorText.{journal_safe_error_text}
use gstop.Gsbench.Action.Samples.{ascii_text, index_drop}
use gstop.Gsbench.Journal.{
  restore_action, restore_actions, undo, undo_claimed, mark_restored,
  action_skips_planned_inverse_when_restored,
}
use gstop.Gsbench.Journal.Calls.{ok}
use gstop.Gsbench.Store.{
  Row, World, Executor, sql_journal, planned_row, written, insert_planned, set_state, claim_action,
  nullable_string, journal_inverse_action_payload, max_action_id, matches, same_state, answer,
  perform, keyless, insert_checked, pending_rows,
}
use gstop.Gsbench.Store.Columns.{
  Marshal, stored_action_value_payload, stored_sql_action_payload, stored_journal_payload_is_legacy,
  scan_row, validate_loaded_journal_action, load, pending_actions,
}
use gstop.Gsbench.Store.Keys.{find}
use gstop.Gsbench.Store.Cells.{inserts, claims_for}
use gstop.Gsbench.Store.Steps.{Refines, run_calls, run_cells, run_calls-Refines}
use gstop.Gsbench.Store.RoundTrip.{recorded}
use gstop.Gsbench.Store.ReadBack.{insert_planned-pending_actions}
use gstop.Gsbench.Store.Claims.{reading, claim_action-granted}
use gstop.Gsbench.Store.Stale.{is_listed, insert_run, stale_runs}
use gstop.Gsbench.Store.Pending.{pending_actions-restore_actions}

-- As `ascii_text`, which also reads the empty object.
abbrev go_text : GoText
go_text = record ascii_text {
  unmarshal = λ s. if str_eq s "{}" then some (object end) else ascii_text.unmarshal s;
}

abbrev wrap : Marshal
wrap = record { value = λ s. "{value}"; sql = λ s. "{sql}"; sql_expected = λ s e. "{sql}" }

abbrev describe : ActionError → String
describe e = "invalid"

abbrev describe_row : String → ℕ → ActionError → String
describe_row run id e = "validate journal action"

-- The index is dropped, as the first action of its run.
abbrev dropped : Row
dropped = written applied none (planned_row "r1" index_drop 1)

abbrev table : World (Unit {0})
table = record { rows = dropped ∷ []; answers = []; cast = λ s. s; machine = tt }

abbrev obliging : Executor (Unit {0})
obliging = record {
  preflight = λ a e. (none, e);
  apply = λ a e. (none, e);
  restore = λ a e. (none, e);
  verify_restored = λ a e. (none, e);
}

index_drop-valid : validate go_text index_drop ≡ none
unfolding validate valid known requires_node persistent validate_journal_string_field
    validate_action_payload has_secret_key obvious_secret_key members_credential contains_credential
index_drop-valid = refl

numbers :
    (insert_planned go_text describe index_drop table).0
    ≡ ok (record index_drop { sequence = 2; state = planned })
unfolding insert_planned insert_checked perform answer max_action_id planned_row
    journal_safe_error_text validate valid known requires_node persistent
    validate_journal_string_field validate_action_payload has_secret_key obvious_secret_key
    members_credential contains_credential
numbers = refl

claims_once : (claim_action go_text describe index_drop table).0 ≡ ok true
unfolding claim_action perform answer keyless matches same_state planned_row
claims_once = refl

abbrev listed : Action
listed = record index_drop { sequence = 1 }

reads_back : pending_actions go_text wrap describe_row "r1" table.rows ≡ ok (listed ∷ [])
unfolding pending_actions load pending_rows scan_row planned_row nullable_string
    journal_inverse_action_payload stored_action_value_payload stored_sql_action_payload
    stored_journal_payload_is_legacy same_state validate_loaded_journal_action valid validate known
    requires_node persistent validate_journal_string_field validate_action_payload has_secret_key
    obvious_secret_key members_credential contains_credential
reads_back = refl

restores :
    (restore_actions go_text (sql_journal go_text describe obliging) (listed ∷ []) table).0 ≡ []
unfolding restore_actions restore_action undo undo_claimed mark_restored
    action_skips_planned_inverse_when_restored sql_journal claim_action set_state perform answer
    keyless matches same_state planned_row nullable_string journal_safe_error_text
restores = refl

run_calls-Refines_example :
    let c = reading table in
    ((run_calls go_text describe (inserts index_drop ∷ claims_for index_drop ∷ []) table).0
      ≡ (run_cells go_text describe (inserts index_drop ∷ claims_for index_drop ∷ []) c).0)
    × Refines
        (run_calls go_text describe (inserts index_drop ∷ claims_for index_drop ∷ []) table).1
        (run_cells go_text describe (inserts index_drop ∷ claims_for index_drop ∷ []) c).1
unfolding find
run_calls-Refines_example =
    run_calls-Refines go_text describe (inserts index_drop ∷ claims_for index_drop ∷ []) table
      (reading table)
      (record {
        same = record { reads = λ run id. refl; counts = λ run. refl; unique = (refl, tt) };
        same_answers = refl;
        same_cast = refl;
      })

insert_planned-pending_actions_example :
    pending_actions go_text wrap describe_row "r1"
      (insert_planned go_text describe index_drop table).1.rows
    ≡ ok (listed ∷ recorded (record index_drop { sequence = 2; state = planned }) 2 ∷ [])
insert_planned-pending_actions_example =
    insert_planned-pending_actions go_text wrap describe describe_row index_drop
      (record index_drop { sequence = 2; state = planned }) table (listed ∷ []) refl refl reads_back
      numbers

claim_action-granted_example :
    (claim_action go_text describe index_drop
      (run_calls go_text describe
        (inserts index_drop ∷ claims_for index_drop ∷ [])
        (claim_action go_text describe index_drop table).1).1).0
    ≢ ok true
unfolding same_state find
claim_action-granted_example =
    claim_action-granted go_text describe index_drop index_drop table
      (inserts index_drop ∷ claims_for index_drop ∷ []) (refl, tt) claims_once tt refl refl refl

abbrev any_order : String → String → Bool
any_order a b = true

lists_once : stale_runs any_order (dropped ∷ dropped ∷ []) ≡ "r1" ∷ []
unfolding stale_runs is_listed insert_run same_state planned_row
lists_once = refl

pending_actions-restore_actions_example :
    let rows =
      (restore_actions go_text
        (sql_journal go_text describe obliging)
        (listed ∷ [])
        table).2.rows in
    (pending_actions go_text wrap describe_row "r1" rows ≡ ok [])
    × (is_listed "r1" (stale_runs any_order rows) ≡ false)
unfolding find
pending_actions-restore_actions_example =
    pending_actions-restore_actions go_text wrap describe describe_row any_order obliging "r1"
      (listed ∷ []) table (refl, tt) reads_back restores
