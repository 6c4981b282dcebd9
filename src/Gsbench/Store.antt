-- ===== src/Gsbench/Store.antt =====
-- The SQL recovery store, internal/gsbench/sqlstore.go: InsertPlanned, SetState, ClaimAction and
-- Pending on the table meta_journal. A statement is modelled by what it does to the rows of the table;
-- whether the database executes it, and whether its answer arrives, is told by a list of answers. The
-- schema is valid, and an action's kind, product and state stand in their columns as their constants.
pub mod Columns
pub mod Keys
mod Cells
mod Steps
mod RoundTrip
mod ReadBack
mod Claims
mod Restoring
mod Stale
mod Query
mod Pending
mod Examples
use text.Mathlib.Text.{◌==◌ as str_eq}
use gstop.Base.{
  ℕ, ◌+◌, max, String, Bool, true, false, ◌&&◌, ◌||◌, not, List, [], ◌∷◌, ◌++◌, Option, none, some,
  ltb, leb, ◌==◌, if◌then◌else◌,
}
use gstop.Gsbench.Action.{
  Action, ActionKind, ActionError, Product, MutationState, unset, planned, applied, restoring,
  restored, restore_failed, validate,
}
use gstop.Gsbench.Action.Secrets.{GoText}
use gstop.Gsbench.Action.ErrorText.{journal_safe_error_text}
use gstop.Gsbench.Journal.Calls.{Backend, Fallible, ok, err}

-- The columns that the statements read and write, but updated_at; `none` is NULL.
pub record Row : Type 0 where
  pub run_id : String
  pub action_id : ℕ
  pub scenario_code : ℕ
  pub action_kind : ActionKind
  pub target_product : Product
  pub target_node : Option String
  pub target_endpoint : Option String
  pub original_state : Option String
  pub forward_action : String
  pub inverse_action : String
  pub verify_action : Option String
  pub verify_value : Option String
  pub state : MutationState
  pub last_error : Option String

unfoldable pub nullable_string : String → Option String
nullable_string value = if str_eq value "" then none else some value

unfoldable pub journal_inverse_action_payload : Action → String
journal_inverse_action_payload a = if str_eq a.inverse "" then "{}" else a.inverse

-- The columns that the INSERT statement writes: the run ID as it was cast, the number that the
-- statement allocates, and the other arguments.
unfoldable pub planned_row : String → Action → ℕ → Row
planned_row run a id = record {
  run_id = run;
  action_id = id;
  scenario_code = a.scenario_code;
  action_kind = a.kind;
  target_product = a.target_product;
  target_node = nullable_string a.node;
  target_endpoint = nullable_string a.target;
  original_state = nullable_string a.original;
  forward_action = a.forward;
  inverse_action = journal_inverse_action_payload a;
  verify_action = nullable_string a.verify;
  verify_value = none;
  state = planned;
  last_error = nullable_string a.last_error;
}

-- COALESCE(max(action_id), 0) over the rows of the run
unfoldable pub max_action_id : String → List Row → ℕ
max_action_id run [] = 0
max_action_id run (r ∷ rows) =
    let rest = max_action_id run rows in if str_eq r.run_id run then max r.action_id rest else rest

abbrev pub next_action_id : String → List Row → ℕ
next_action_id run rows = max_action_id run rows + 1

unfoldable pub matches : String → ℕ → Row → Bool
matches run id r = str_eq r.run_id run && (r.action_id == id)

unfoldable pub same_state : MutationState → MutationState → Bool
same_state unset unset = true
same_state planned planned = true
same_state applied applied = true
same_state restoring restoring = true
same_state restored restored = true
same_state restore_failed restore_failed = true
same_state _ _ = false

-- UPDATE ... SET ... WHERE, and the number of rows that it affects
abbrev pub update_where : (Row → Bool) → (Row → Row) → List Row → List Row
update_where p f [] = []
update_where p f (r ∷ rows) = (if p r then f r else r) ∷ update_where p f rows

abbrev pub count_where : (Row → Bool) → List Row → ℕ
count_where p [] = 0
count_where p (r ∷ rows) = (if p r then 1 else 0) + count_where p rows

abbrev pub written : MutationState → Option String → Row → Row
written s e r = record r { state = s; last_error = e }

abbrev pub claims : Action → Row → Bool
claims a r = matches a.run_id a.sequence r && same_state r.state a.state

-- SELECT ... WHERE run_id=$1 AND state<>$2 ORDER BY action_id
abbrev pub insert_by_id : Row → List Row → List Row
insert_by_id r [] = r ∷ []
insert_by_id r (s ∷ rows) =
    let rest = insert_by_id r rows in if leb r.action_id s.action_id then r ∷ s ∷ rows else s ∷ rest

unfoldable pub pending_rows : String → List Row → List Row
pending_rows run [] = []
pending_rows run (r ∷ rows) =
    let rest = pending_rows run rows in
    if str_eq r.run_id run && not (same_state r.state restored) then insert_by_id r rest else rest

-- What becomes of a statement or a transaction: it is executed, it is executed and its answer is lost,
-- or it has no effect. What the database makes of an executor is not the store's.
pub data Answer : Type 0 where
  done : Answer
  lost refused : String → Answer

pub record World (E : Type 0) : Type 0 where
  pub rows : List Row
  pub answers : List Answer
  -- CAST($1 AS varchar(96)), which cuts a text to 96 characters: an operation of the database
  pub cast : String → String
  pub machine : E

abbrev pub next_answer : List Answer → Answer × List Answer
next_answer [] = (done, [])
next_answer (x ∷ xs) = (x, xs)

-- The result and the rows of a statement, by its answer.
unfoldable pub answer : {A : Type 0} → Answer → A → List Row → List Row → Fallible A × List Row
answer done a after before = (ok a, after)
answer (lost e) a after before = (err e, after)
answer (refused e) a after before = (err e, before)

unfoldable pub perform : {E A : Type 0} → World E → A → List Row → Fallible A × World E
perform w a after =
    let (x, xs) = next_answer w.answers in
    let (r, rows) = answer x a after w.rows in (r, record w { rows = rows; answers = xs })

abbrev pub failure : {A : Type 0} → Fallible A → Option String
failure (ok a) = none
failure (err e) = some e

abbrev pub missing_key : String
missing_key = "journal run ID and positive action ID are required"

-- A run ID and a positive action ID are required.
unfoldable pub keyless : GoText → Action → Bool
keyless go a = str_eq (go.trim_space a.run_id) "" || (a.sequence == 0)

module _ (go : GoText) (describe : ActionError → String) {E : Type 0} where
  -- The transaction, after the check of the action.
  unfoldable pub insert_checked : Action → Option ActionError → World E → Fallible Action × World E
  insert_checked a (some e) w = (err (describe e), w)
  insert_checked a none w =
      let run = w.cast a.run_id in
      let id = next_action_id run w.rows in
      perform w (record a { sequence = id; state = planned }) (w.rows ++ planned_row run a id ∷ [])

  unfoldable pub insert_planned : Action → World E → Fallible Action × World E
  insert_planned action w =
      let a = record action { last_error = journal_safe_error_text go action.last_error } in
      insert_checked a (validate go a) w

  unfoldable pub set_state : Action → MutationState → String → World E → Option String × World E
  set_state a s detail w =
      let e = nullable_string (journal_safe_error_text go detail) in
      let (r, v) =
        if keyless go a
        then (err missing_key, w)
        else perform w tt (update_where (matches a.run_id a.sequence) (written s e) w.rows) in
      (failure r, v)

  unfoldable pub claim_action : Action → World E → Fallible Bool × World E
  claim_action a w =
      if keyless go a
      then (err missing_key, w)
      else perform w (count_where (claims a) w.rows == 1)
          (update_where (claims a) (written restoring none) w.rows)

-- What carries out and checks an action on its target: interface ActionExecutor.
pub record Executor (E : Type 0) : Type 0 where
  pub preflight : Action → E → Option String × E
  pub apply : Action → E → Option String × E
  pub restore : Action → E → Option String × E
  pub verify_restored : Action → E → Option String × E

abbrev on_machine :
    {E : Type 0} → (Action → E → Option String × E) → Action → World E → Option String × World E
on_machine f a w = let (r, e) = f a w.machine in (r, record w { machine = e })

-- The store and an executor, as the journal sees them: NewSQLJournalWithValidation.
unfoldable pub sql_journal :
    {E : Type 0} → GoText → (ActionError → String) → Executor E → Backend (World E)
sql_journal go describe x = record {
  preflight = on_machine x.preflight;
  apply = on_machine x.apply;
  restore = on_machine x.restore;
  verify_restored = on_machine x.verify_restored;
  insert_planned = insert_planned go describe;
  set_state = set_state go describe;
  claim_action = some (claim_action go describe);
}
