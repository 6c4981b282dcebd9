-- ===== src/Gsbench/Action.antt =====
-- A recoverable mutation: internal/gsbench/action.go and the states of journal.go.
pub mod Secrets
pub mod ErrorText
pub mod Checks
pub mod Samples
mod Examples
use text.Mathlib.Text.{◌==◌ as str_eq}
use gstop.Base.{
  ℕ, String, Bool, true, false, ◌&&◌, ◌||◌, not, List, [], ◌∷◌, Option, none, some, ◌==◌,
  if◌then◌else◌,
}
use Secrets.{GoText, Json, Members, object, contains_credential, has_secret_key, members_credential}

-- type Product
pub data Product : Type 0 where
  unknown_product open_gauss gauss_db : Product

-- type ActionKind; `other_kind` is any string that is not one of the constants.
pub data ActionKind : Type 0 where
  sql_mutation session_set session_transaction guc_file_change network_qdisc : ActionKind
  network_firewall process_state node_role cloud_fault_job data_baseline : ActionKind
  other_kind : String → ActionKind

-- type MutationState; `unset` is the empty string.
pub data MutationState : Type 0 where
  unset planned applied restoring restored restore_failed : MutationState

-- type Action. A json.RawMessage is the text of the payload; the empty text is an absent one.
pub record Action : Type 0 where
  pub sequence : ℕ
  pub run_id : String
  pub scenario_code : ℕ
  pub kind : ActionKind
  pub target_product : Product
  pub target : String
  pub node : String
  pub original : String
  pub forward : String
  pub inverse : String
  pub verify : String
  pub state : MutationState
  pub last_error : String
  pub legacy_sql : Bool

unfoldable pub known : Product → Bool
known open_gauss = true
known gauss_db = true
known unknown_product = false

unfoldable pub valid : ActionKind → Bool
valid (other_kind s) = false
valid sql_mutation = true
valid _ = true

unfoldable pub requires_node : ActionKind → Bool
requires_node guc_file_change = true
requires_node network_qdisc = true
requires_node network_firewall = true
requires_node process_state = true
requires_node node_role = true
requires_node cloud_fault_job = true
requires_node _ = false

unfoldable pub persistent : ActionKind → Bool
persistent session_set = false
persistent session_transaction = false
persistent _ = true

-- The errors of Validate, by the field that they are about.
pub data ActionError : Type 0 where
  run_id_required scenario_code_required kind_invalid product_unknown : ActionError
  target_required node_required credential_in_field : ActionError
  payload_required payload_not_json payload_not_object payload_secret_key : String → ActionError
  payload_credential : String → ActionError

abbrev pub blank : String → Bool
blank s = str_eq s ""

-- A chain of checks: the first error stops it.
infixr 5 ◌orelse◌
abbrev pub ◌orelse◌ : Option ActionError → Option ActionError → Option ActionError
none orelse r = r
some e orelse r = some e

abbrev pub check : Bool → ActionError → Option ActionError
check true e = some e
check false e = none

module _ (go : GoText) where
  open go use {trim_space, unmarshal}

  unfoldable pub validate_journal_string_field : String → Option ActionError
  validate_journal_string_field value =
      check (not (blank value) && contains_credential go value) credential_in_field

  -- The decoded payload must be an object with no secret in a key or a value.
  unfoldable pub validate_decoded : String → Option Json → Option ActionError
  validate_decoded name none = some (payload_not_json name)
  validate_decoded name (some (object ms)) =
      check (has_secret_key go ms) (payload_secret_key name)
      orelse check (members_credential go ms) (payload_credential name)
  validate_decoded name (some _) = some (payload_not_object name)

  unfoldable pub validate_action_payload : String → String → Bool → Option ActionError
  unfolding validate_decoded
  validate_action_payload name payload required =
      if blank payload
      then check required (payload_required name)
      else validate_decoded name (unmarshal payload)

  unfoldable pub validate : Action → Option ActionError
  validate a =
      check (blank (trim_space a.run_id)) run_id_required
      orelse check (a.scenario_code == 0) scenario_code_required
      orelse check (not (valid a.kind)) kind_invalid
      orelse check (not (known a.target_product)) product_unknown
      orelse check (blank (trim_space a.target)) target_required
      orelse check (requires_node a.kind && blank (trim_space a.node)) node_required
      orelse validate_journal_string_field a.target
      orelse validate_journal_string_field a.node
      orelse validate_journal_string_field a.last_error
      orelse validate_action_payload "forward" a.forward true
      orelse validate_action_payload "inverse" a.inverse (persistent a.kind)
      orelse validate_action_payload "original" a.original false
      orelse validate_action_payload "verify" a.verify false
