-- ===== src/Gsbench/Store/Columns.antt =====
-- How a row of meta_journal, internal/gsbench/sqlstore.go, becomes an action again: Pending's decoding
-- of the columns. The texts that encoding/json makes of an old payload are the record `Marshal`.
use text.Mathlib.Text.{◌==◌ as str_eq}
use gstop.Base.{
  ℕ, String, Bool, true, false, ◌&&◌, not, List, [], ◌∷◌, Option, none, some, if◌then◌else◌,
}
use gstop.Gsbench.Action.{
  Action, ActionError, Product, unknown_product, open_gauss, gauss_db, sql_mutation, valid,
  validate,
}
use gstop.Gsbench.Action.Secrets.{GoText, Json, object, null}
use gstop.Gsbench.Journal.Calls.{Fallible, ok, err}
use gstop.Gsbench.Store.{Row, pending_rows}

pub record Marshal : Type 0 where
  pub value : String → String
  pub sql : String → String
  pub sql_expected : String → String → String

-- COALESCE(column, '')
abbrev pub coalesce : Option String → String
coalesce none = ""
coalesce (some s) = s

-- json.Unmarshal into a map, which takes null too
abbrev pub is_map : Option Json → Bool
is_map (some (object ms)) = true
is_map (some null) = true
is_map _ = false

module _ (go : GoText) (marshal : Marshal) where
  unfoldable pub stored_action_value_payload : String → String
  stored_action_value_payload value =
      if str_eq value ""
      then ""
      else if is_map (go.unmarshal value)
      then value
      else marshal.value value

  unfoldable pub stored_sql_action_payload : String → String → String
  stored_sql_action_payload value legacy_expected =
      if str_eq value ""
      then ""
      else if is_map (go.unmarshal value)
      then value
      else if not (str_eq legacy_expected "")
      then marshal.sql_expected value legacy_expected
      else marshal.sql value

  unfoldable pub stored_journal_payload_is_legacy : List String → Bool
  stored_journal_payload_is_legacy [] = false
  stored_journal_payload_is_legacy (value ∷ values) =
      let rest = stored_journal_payload_is_legacy values in
      if str_eq value "" then rest else if not (is_map (go.unmarshal value)) then true else rest

  -- What Pending reads of a row, before its validation.
  unfoldable pub scan_row : Row → Action
  scan_row r =
      let legacy = stored_journal_payload_is_legacy (
        coalesce r.original_state
        ∷ r.forward_action
        ∷ r.inverse_action
        ∷ coalesce r.verify_action
        ∷ []) in
      record {
        sequence = r.action_id;
        run_id = r.run_id;
        scenario_code = r.scenario_code;
        kind = if legacy && not (valid r.action_kind) then sql_mutation else r.action_kind;
        target_product = r.target_product;
        target = coalesce r.target_endpoint;
        node = coalesce r.target_node;
        original = stored_action_value_payload (coalesce r.original_state);
        forward = stored_sql_action_payload r.forward_action "";
        inverse = stored_sql_action_payload r.inverse_action "";
        verify = stored_sql_action_payload (coalesce r.verify_action) (coalesce r.verify_value);
        state = r.state;
        last_error = coalesce r.last_error;
        legacy_sql = legacy;
      }

abbrev known_product : Product → Product
known_product unknown_product = open_gauss
known_product open_gauss = open_gauss
known_product gauss_db = gauss_db

unfoldable pub validate_loaded_journal_action : GoText → Action → Option ActionError
validate_loaded_journal_action go a =
    if a.legacy_sql
    then validate go (record a { target_product = known_product a.target_product })
    else validate go a

abbrev pub push_action : Action → Fallible (List Action) → Fallible (List Action)
push_action a (ok actions) = ok (a ∷ actions)
push_action a (err e) = err e

module _ (go : GoText) (marshal : Marshal) (describe_row : String → ℕ → ActionError → String) where
  -- The loop over the rows of the query: the first invalid one ends it.
  unfoldable pub load : List Row → Fallible (List Action)
  load [] = ok []
  load (r ∷ rows) =
      let rest = load rows in
      let a = scan_row go marshal r in
      elim (validate_loaded_journal_action go a) [
        | some e ↦ err (describe_row a.run_id a.sequence e)
        | none ↦ push_action a rest
      ]

  unfoldable pub pending_actions : String → List Row → Fallible (List Action)
  pending_actions run rows =
      if str_eq (go.trim_space run) ""
      then err "journal run ID is required"
      else load (pending_rows run rows)
