-- ===== src/Gsbench/Store/Cells.antt =====
-- What the store of internal/gsbench/sqlstore.go promises its callers: a map from a run and a number to
-- a row, in which a claim is a compare-and-swap, and numbers that grow. A new row stands under the run ID
-- as the INSERT statement casts it, and a call looks a row up by the run ID as it is.
use text.Mathlib.Text.{◌==◌ as str_eq}
use gstop.Base.{ℕ, ◌+◌, String, Bool, List, Option, none, some, if◌then◌else◌}
use gstop.Gsbench.Action.{Action, ActionError, MutationState, planned, validate}
use gstop.Gsbench.Action.Secrets.{GoText}
use gstop.Gsbench.Action.ErrorText.{journal_safe_error_text}
use gstop.Gsbench.Journal.Calls.{Fallible, ok, err}
use gstop.Gsbench.Store.{
  Row, written, planned_row, Answer, keyless, done, lost, refused, next_answer, nullable_string,
  missing_key, failure,
}
use gstop.Gsbench.Store.Keys.{same_key, change, claim_row, claimable}

pub data Call : Type 0 where
  inserts : Action → Call
  sets : Action → MutationState → String → Call
  claims_for : Action → Call

pub data Reply : Type 0 where
  inserted : Fallible Action → Reply
  was_set : Option String → Reply
  claimed : Fallible Bool → Reply

-- The abstract store: the rows by their keys, and the last number of each run.
pub record Cells : Type 0 where
  pub cell : String → ℕ → Option Row
  pub last_id : String → ℕ
  pub answers : List Answer
  -- The cast of a run ID, as in the world.
  pub cast : String → String

unfoldable pub answer_cells : {A : Type 0} → Answer → A → Cells → Cells → Fallible A × Cells
answer_cells done a after before = (ok a, after)
answer_cells (lost e) a after before = (err e, after)
answer_cells (refused e) a after before = (err e, before)

unfoldable pub perform_cells : {A : Type 0} → Cells → A → Cells → Fallible A × Cells
perform_cells c a after =
    let (x, xs) = next_answer c.answers in
    answer_cells x a (record after { answers = xs }) (record c { answers = xs })

abbrev pub put_cell : String → ℕ → (Option Row → Option Row) → Cells → Cells
put_cell r i f c = record c {
  cell = λ run id. if same_key run id r i then f (c.cell run id) else c.cell run id;
}

abbrev pub add_cell : String → Action → Cells → Cells
add_cell own a c =
    let id = c.last_id own + 1 in
    record (put_cell own id (λ o. some (planned_row own a id)) c) {
      last_id = λ run. if str_eq own run then id else c.last_id run;
    }

module _ (go : GoText) (describe : ActionError → String) where
  unfoldable pub insert_cells : Action → Option ActionError → Cells → Fallible Action × Cells
  insert_cells a (some e) c = (err (describe e), c)
  insert_cells a none c =
      let run = c.cast a.run_id in
      perform_cells c (record a { sequence = c.last_id run + 1; state = planned })
        (add_cell run a c)

  unfoldable pub call_cells : Call → Cells → Reply × Cells
  call_cells (inserts action) c =
      let a = record action { last_error = journal_safe_error_text go action.last_error } in
      let (r, d) = insert_cells a (validate go a) c in (inserted r, d)
  call_cells (sets a s detail) c =
      let e = nullable_string (journal_safe_error_text go detail) in
      let (r, d) =
        if keyless go a
        then (err missing_key, c)
        else perform_cells c tt (put_cell a.run_id a.sequence (change (written s e)) c) in
      (was_set (failure r), d)
  call_cells (claims_for a) c =
      let (r, d) =
        if keyless go a
        then (err missing_key, c)
        else perform_cells c (claimable (c.cell a.run_id a.sequence) a.state)
            (put_cell a.run_id a.sequence (change (claim_row a.state)) c) in
      (claimed r, d)
