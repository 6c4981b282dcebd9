-- ===== src/Gsbench/Ledger.antt =====
-- The local recovery ledger, internal/gsbench/recovery_ledger.go: the file's actions and the
-- operations Put, MarkRestored, Pending and Snapshot on them. Reading, canonical JSON and writing of
-- the file are not modelled: a payload is the text that canonicalRecoveryJSON returned for it.
pub mod Identity
pub mod Transitions
mod Histories
mod Limits
mod Examples
use Prim.Native.Nat.{Ordering}
use Prim.Native.String.{compare}
use text.Mathlib.Text.{◌==◌ as str_eq}
use gstop.Base.{
  ℕ, String, Bool, true, false, ◌&&◌, ◌||◌, not, List, [], ◌∷◌, Option, none, some, ◌==◌, ltb, leb,
  length, if◌then◌else◌, keep, ◌++◌, ◌≡◌, refl, ◌⊎◌, inl, inr,
}
use gstop.Gsbench.Action.{
  Action, ActionError, ActionKind, Product, MutationState, sql_mutation, session_set,
  session_transaction, data_baseline, other_kind, unknown_product, open_gauss, gauss_db, unset,
  planned, applied, restoring, restored, restore_failed, guc_file_change, network_qdisc,
  network_firewall, process_state, node_role, cloud_fault_job, validate,
  validate_journal_string_field, blank,
}
use gstop.Gsbench.Action.Secrets.{GoText, codes}

pub data LedgerError : Type 0 where
  reserved_restored legacy_sql_forbidden control_character bad_kind bad_state : LedgerError
  field_error action_error : ActionError → LedgerError
  identity_conflict already_restored diagnostic_conflict count_limit : LedgerError
  state_regression : MutationState → MutationState → LedgerError
  blank_run_id run_id_required target_required : LedgerError

unfoldable pub external_persistent_action_kind : ActionKind → Bool
external_persistent_action_kind guc_file_change = true
external_persistent_action_kind network_qdisc = true
external_persistent_action_kind network_firewall = true
external_persistent_action_kind process_state = true
external_persistent_action_kind node_role = true
external_persistent_action_kind cloud_fault_job = true
external_persistent_action_kind _ = false

-- The constants' own strings, which the sort and the comparison of two actions read.
unfoldable pub kind_name : ActionKind → String
kind_name sql_mutation = "SQL_MUTATION"
kind_name session_set = "SESSION_SET"
kind_name session_transaction = "SESSION_TRANSACTION"
kind_name guc_file_change = "GUC_FILE_CHANGE"
kind_name network_qdisc = "NETWORK_QDISC"
kind_name network_firewall = "NETWORK_FIREWALL"
kind_name process_state = "PROCESS_STATE"
kind_name node_role = "NODE_ROLE"
kind_name cloud_fault_job = "CLOUD_FAULT_JOB"
kind_name data_baseline = "DATA_BASELINE"
kind_name (other_kind s) = s

abbrev product_name : Product → String
product_name unknown_product = "unknown"
product_name open_gauss = "openGauss"
product_name gauss_db = "GaussDB"

abbrev pub same_state : MutationState → MutationState → Bool
same_state unset unset = true
same_state planned planned = true
same_state applied applied = true
same_state restoring restoring = true
same_state restored restored = true
same_state restore_failed restore_failed = true
same_state _ _ = false

unfoldable pub allowed_recovery_ledger_transition : MutationState → MutationState → Bool
allowed_recovery_ledger_transition from to = if same_state from to then true else elim from [
  | planned ↦ same_state to applied || same_state to restoring || same_state to restore_failed
  | applied ↦ same_state to restoring || same_state to restore_failed
  | restoring ↦ same_state to restore_failed
  | restore_failed ↦ same_state to restoring
  | unset ↦ false
  | restored ↦ false
]

-- sameRecoveryLedgerAction
unfoldable pub same_recovery_ledger_action : Action → Action → Bool
same_recovery_ledger_action left right =
    (left.sequence == right.sequence)
    && str_eq left.run_id right.run_id
    && (left.scenario_code == right.scenario_code)
    && str_eq (kind_name left.kind) (kind_name right.kind)
    && str_eq (product_name left.target_product) (product_name right.target_product)
    && str_eq left.target right.target
    && str_eq left.node right.node
    && str_eq left.original right.original
    && str_eq left.forward right.forward
    && str_eq left.inverse right.inverse
    && str_eq left.verify right.verify

abbrev str_lt : String → String → Bool
str_lt s t = elim (compare s t) [ Ordering.lt ↦ true | _ ↦ false ]

pub data Checked (A : Type 0) : Type 0 where
  ok : A → Checked A
  err : LedgerError → Checked A

pub Checked-cases :
    {A : Type 0} (r : Checked A) → ((a : A) × (r ≡ ok a)) ⊎ ((e : LedgerError) × (r ≡ err e))
Checked-cases (ok a) = inl (a, refl)
Checked-cases (err e) = inr (e, refl)

-- The order of sortRecoveryLedgerActions.
before : Action → Action → Bool
before left right =
    if not (str_eq left.run_id right.run_id)
    then str_lt left.run_id right.run_id
    else if not (left.sequence == right.sequence)
    then ltb right.sequence left.sequence
    else if not (str_eq left.target right.target)
    then str_lt left.target right.target
    else str_lt (kind_name left.kind) (kind_name right.kind)

insert_sorted : Action → List Action → List Action
insert_sorted a [] = a ∷ []
insert_sorted a (b ∷ l) = let rest = insert_sorted a l in if before b a then b ∷ rest else a ∷ b ∷ l

-- sort.Slice in that order, as an insertion sort.
pub sort_recovery_ledger_actions : List Action → List Action
sort_recovery_ledger_actions [] = []
sort_recovery_ledger_actions (a ∷ l) = insert_sorted a (sort_recovery_ledger_actions l)

abbrev pub record_limit : ℕ
record_limit = 256

abbrev pub has_identity : String → String → Action → Bool
has_identity run target a = str_eq a.run_id run && str_eq a.target target

-- What Put makes of an existing action with the same run and target.
unfoldable pub update_existing : Action → Action → Checked Action
unfolding same_recovery_ledger_action allowed_recovery_ledger_transition
update_existing existing stored =
    if not (same_recovery_ledger_action existing stored)
    then err identity_conflict
    else if not (allowed_recovery_ledger_transition existing.state stored.state)
    then err (
        if same_state existing.state restored
        then already_restored
        else state_regression existing.state stored.state)
    else if same_state existing.state stored.state && not (blank existing.last_error)
    then if blank stored.last_error
      then ok (record existing { state = stored.state; last_error = existing.last_error })
      else if str_eq stored.last_error existing.last_error
      then ok (record existing { state = stored.state; last_error = stored.last_error })
      else err diagnostic_conflict
    else ok (record existing { state = stored.state; last_error = stored.last_error })

-- The loops over the file stop at the first action with the identity.
pub find : String → String → List Action → Option Action
find run target [] = none
find run target (x ∷ xs) = if has_identity run target x then some x else find run target xs

-- The write to that action.
pub replace : Action → List Action → List Action
replace y [] = []
replace y (x ∷ xs) = if has_identity y.run_id y.target x then y ∷ xs else x ∷ replace y xs

abbrev pub append_stored : Action → List Action → Checked (List Action)
append_stored stored file =
    if leb record_limit (length file)
    then err count_limit
    else ok (sort_recovery_ledger_actions (file ++ stored ∷ []))

abbrev pub replace_stored : Checked Action → List Action → Checked (List Action)
replace_stored (err e) file = err e
replace_stored (ok y) file = ok (sort_recovery_ledger_actions (replace y file))

-- Put where the loop found nothing, and where it found an action.
abbrev pub put_found : Action → List Action → Option Action → Checked (List Action)
put_found stored file none = append_stored stored file
put_found stored file (some x) = replace_stored (update_existing x stored) file

-- Put on the actions of the file, with the canonical form of the action.
pub put_stored : Action → List Action → Checked (List Action)
put_stored stored file = put_found stored file (find stored.run_id stored.target file)

abbrev pub restored_action : Action → Action
restored_action x = record x { state = restored; last_error = "" }

abbrev pub mark_found : List Action → Option Action → List Action
mark_found file none = file
mark_found file (some x) =
    if same_state x.state restored
    then file
    else sort_recovery_ledger_actions (replace (restored_action x) file)

-- MarkRestored on the actions of the file.
pub mark_first : String → String → List Action → List Action
mark_first run target file = mark_found file (find run target file)

-- An action without a state is a planned one.
abbrev pub default_state : Action → Action
default_state a = if same_state a.state unset then record a { state = planned } else a

module _ (go : GoText) where
  abbrev any_control : List ℕ → Bool
  any_control [] = false
  any_control (c ∷ cs) = go.is_control c || any_control cs

  unfoldable pub identity_contains_control : String → Bool
  identity_contains_control value = any_control (codes value)

  abbrev field_check : String → Option LedgerError
  field_check s = elim (validate_journal_string_field go s) [
    | none ↦ none
    | some e ↦ some (field_error e)
  ]

  abbrev ledger_state : MutationState → Bool → Option LedgerError
  ledger_state planned allow = none
  ledger_state applied allow = none
  ledger_state restoring allow = none
  ledger_state restore_failed allow = none
  ledger_state restored allow = if allow then none else some bad_state
  ledger_state unset allow = some bad_state

  abbrev kind_check : ActionKind → Option LedgerError
  kind_check k = if external_persistent_action_kind k then none else some bad_kind

  unfoldable pub validate_recovery_ledger_action : Action → Bool → Option LedgerError
  validate_recovery_ledger_action a allow_restored =
      if a.legacy_sql
      then some legacy_sql_forbidden
      else if identity_contains_control a.run_id || identity_contains_control a.target
      then some control_character
      else elim (field_check a.run_id) [
        | some e ↦ some e
        | none ↦ elim (validate go a) [
          | some e ↦ some (action_error e)
          | none ↦ elim (kind_check a.kind) [
            | some e ↦ some e
            | none ↦ ledger_state a.state allow_restored
          ]
        ]
      ]

  unfoldable pub validate_recovery_ledger_put_action : Action → Option LedgerError
  validate_recovery_ledger_put_action a =
      if same_state a.state restored
      then some reserved_restored
      else validate_recovery_ledger_action a false

  -- Put; `canonical` is canonicalRecoveryLedgerAction.
  pub put : (Action → Checked Action) → Action → List Action → Checked (List Action)
  put canonical action file =
      let a = default_state action in
      elim (validate_recovery_ledger_put_action a) [
        | some e ↦ err e
        | none ↦ elim (canonical a) [ err e ↦ err e | ok stored ↦ put_stored stored file ]
      ]

  -- MarkRestored with its checks.
  pub mark_restored : String → String → List Action → Checked (List Action)
  mark_restored run target file =
      if blank (go.trim_space run)
      then err run_id_required
      else if blank (go.trim_space target)
      then err target_required
      else if identity_contains_control run || identity_contains_control target
      then err control_character
      else elim (field_check run) [
        | some e ↦ err e
        | none ↦ elim (field_check target) [
          | some e ↦ err e
          | none ↦ ok (mark_first run target file)
        ]
      ]

  pub snapshot : String → List Action → Checked (List Action)
  snapshot run file =
      if not (blank run) && blank (go.trim_space run)
      then err blank_run_id
      else if identity_contains_control run
      then err control_character
      else elim (field_check run) [
        | some e ↦ err e
        | none ↦ ok (keep (λ a. blank run || str_eq a.run_id run) file)
      ]

  pub pending : String → List Action → Checked (List Action)
  pending run file = elim (snapshot run file) [
    | err e ↦ err e
    | ok actions ↦ ok (keep (λ a. not (same_state a.state restored)) actions)
  ]
