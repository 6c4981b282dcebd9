-- ===== src/Gsbench/Journal.antt =====
-- The recovery journal, internal/gsbench/journal.go: a mutation is recorded before it is made, and
-- undone, verified and marked by a restore.
pub mod Calls
mod WriteAhead
mod Recovery
mod Examples
use text.Mathlib.Text.{◌==◌ as str_eq}
use gstop.Base.{
  ℕ, String, Bool, true, false, ◌&&◌, ◌||◌, not, List, [], ◌∷◌, Option, none, some, if◌then◌else◌,
  ltb, length, ◌==◌, map,
}
use gstop.Gsbench.Action.{
  Action, ActionError, MutationState, planned, applied, restoring, restored, restore_failed,
  validate,
}
use gstop.Gsbench.Action.Secrets.{GoText, SqlActionPayload}
use gstop.Gsbench.Action.ErrorText.{journal_safe_error_text}
use Calls.{
  Backend, M, ◌>>=◌, fmap, pure, Fallible, ok, err, preflight, apply, restore, verify_restored,
  insert_planned, set_action_state, claim_action,
}

-- The errors of ApplyAction; the last argument of `apply_failed` is that of the state change.
pub data ApplyError : Type 0 where
  legacy_provenance : ApplyError
  invalid_action : ActionError → ApplyError
  preflight_failed : String → String → ApplyError
  record_failed : String → ApplyError
  apply_failed : String → String → Option String → ApplyError
  mark_applied_failed : String → ApplyError

pub data Operation : Type 0 where
  preflight_restore restore_inverse verify_restore : Operation

-- The errors of restoreActions, one for an action.
pub data RestoreError : Type 0 where
  restore_step_failed : Operation → String → String → Option String → RestoreError
  mark_restoring_failed mark_restored_failed : ℕ → String → RestoreError

abbrev all_blank : List String → Bool
all_blank [] = true
all_blank (s ∷ ss) = str_eq s "" && all_blank ss

abbrev any_blank : List String → Bool
any_blank [] = false
any_blank (s ∷ ss) = str_eq s "" || any_blank ss

-- decodeSQLActionPayload after json.Unmarshal; `none` for each of its errors.
unfoldable pub check_sql_payload : GoText → SqlActionPayload → Option SqlActionPayload
check_sql_payload go p =
    let sql = go.trim_space p.sql in
    let session = map go.trim_space p.session_sql in
    if any_blank session
    then none
    else if str_eq sql "" && (length session == 0)
    then none
    else if not (str_eq sql "") && not (length session == 0)
    then none
    else some (record p { sql = sql; session_sql = session })

unfoldable pub decode_sql_action_payload : GoText → String → Option SqlActionPayload
unfolding check_sql_payload
decode_sql_action_payload go raw = elim (go.unmarshal_sql raw) [
  | none ↦ none
  | some p ↦ check_sql_payload go p
]

unfoldable pub action_skips_planned_inverse_when_restored : GoText → Action → Bool
unfolding decode_sql_action_payload
action_skips_planned_inverse_when_restored go a =
    if str_eq a.verify "" then false else elim (decode_sql_action_payload go a.verify) [
      | none ↦ false
      | some p ↦ p.skip_inverse_when_restored
    ]

abbrev pub is_restored : MutationState → Bool
is_restored restored = true
is_restored _ = false

abbrev pub push {ℓ} : {A : Type ℓ} → Option A → List A → List A
push none es = es
push (some e) es = e ∷ es

module _ (go : GoText) {W : Type 0} (B : Backend W) where
  -- The end of ApplyAction, from the recorded entry on.
  execute : Action → M W (Option ApplyError)
  execute entry = do
    failed ← apply B entry
    elim failed [
      | some e ↦ do
        marked ← set_action_state B entry planned (journal_safe_error_text go e)
        pure (some (apply_failed entry.target e marked))
      | none ↦ do
        marked ← set_action_state B entry applied ""
        pure (elim marked [ none ↦ none | some e ↦ some (mark_applied_failed e) ])
    ]

  -- ApplyAction after its validation.
  record_and_execute : Action → M W (Option ApplyError)
  unfolding execute
  record_and_execute a = do
    refused ← preflight B a
    elim refused [
      | some e ↦ pure (some (preflight_failed a.target e))
      | none ↦ do
        entry ← insert_planned B a
        elim entry [ err e ↦ pure (some (record_failed e)) | ok e ↦ execute e ]
    ]

  pub apply_action : Action → M W (Option ApplyError)
  unfolding record_and_execute
  apply_action action =
      if action.legacy_sql
      then pure (some legacy_provenance)
      else let a = record action { last_error = journal_safe_error_text go action.last_error } in
        elim (validate go a) [
          | some e ↦ pure (some (invalid_action e))
          | none ↦ record_and_execute a
        ]

  unfoldable pub mark_restore_failed : Action → Operation → String → M W (Option RestoreError)
  mark_restore_failed a operation e = do
    marked ← set_action_state B a restore_failed (journal_safe_error_text go e)
    pure (some (restore_step_failed operation a.target e marked))

  unfoldable pub mark_restored : Action → M W (Option RestoreError)
  mark_restored a = do
    marked ← set_action_state B a restored ""
    pure (elim marked [ none ↦ none | some e ↦ some (mark_restored_failed a.sequence e) ])

  -- The inverse, its verification and the final state.
  unfoldable pub undo : Action → M W (Option RestoreError)
  unfolding mark_restore_failed mark_restored
  undo a = do
    failed ← restore B a
    elim failed [
      | some e ↦ mark_restore_failed a restore_inverse e
      | none ↦ do
        differs ← verify_restored B a
        elim differs [ some e ↦ mark_restore_failed a verify_restore e | none ↦ mark_restored a ]
    ]

  -- A skip-marked action is verified first.
  unfoldable pub undo_claimed : Action → M W (Option RestoreError)
  unfolding undo
  undo_claimed a =
      if action_skips_planned_inverse_when_restored go a
      then (do
        differs ← verify_restored B a
        elim differs [ none ↦ mark_restored a | some e ↦ undo a ])
      else undo a

  -- The body of the loop of restoreActions.
  unfoldable pub restore_action : Action → M W (Option RestoreError)
  unfolding undo_claimed
  restore_action a = if is_restored a.state then pure none else (do
    refused ← preflight B a
    elim refused [
      | some e ↦ mark_restore_failed a preflight_restore e
      | none ↦ do
        claim ← claim_action B a
        elim claim [
          | err e ↦ pure (some (mark_restoring_failed a.sequence e))
          | ok mine ↦ if mine then undo_claimed a else pure none
        ]
    ])

  unfoldable pub restore_actions : List Action → M W (List RestoreError)
  restore_actions [] = pure []
  restore_actions (a ∷ rest) = do
    failed ← restore_action a
    fmap (push failed) (restore_actions rest)
