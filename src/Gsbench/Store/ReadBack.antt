-- ===== src/Gsbench/Store/ReadBack.antt =====
-- What Pending of internal/gsbench/sqlstore.go lists after InsertPlanned.
use text.Mathlib.Text.{◌==◌ as str_eq}
use text.Mathlib.TextEquality.{eq_iff}
use gstop.Base.{
  ℕ, ◌≤◌, ◌≡◌, refl, String, Bool, false, List, [], ◌∷◌, ◌++◌, Option, none, some, arith, ◌∙◌, sym,
  ap, subst, inl, inr, Bool-cases,
}
use gstop.Gsbench.Action.{
  Action, ActionError, planned, restored, blank, persistent, validate, validate_action_payload,
  validate_decoded,
}
use gstop.Gsbench.Action.Secrets.{GoText, object, end, has_secret_key, members_credential}
use gstop.Gsbench.Action.ErrorText.{journal_safe_error_text}
use gstop.Gsbench.Journal.Calls.{Fallible, ok, err}
use gstop.Gsbench.Store.{
  Row, World, planned_row, next_action_id, max_action_id, same_state, pending_rows, insert_by_id,
  insert_checked, insert_planned, journal_inverse_action_payload,
}
use gstop.Gsbench.Store.Columns.{
  Marshal, scan_row, validate_loaded_journal_action, push_action, load, pending_actions,
}
use gstop.Gsbench.Store.Claims.{granted-done}
use gstop.Gsbench.Store.RoundTrip.{recorded, scan_row-planned_row}

insert_by_id-append :
    (r x : Row) (rows : List Row)
    → r.action_id ≤ x.action_id
    → insert_by_id r (rows ++ x ∷ []) ≡ insert_by_id r rows ++ x ∷ []
insert_by_id-append r x [] h = ground arith
insert_by_id-append r x (s ∷ rows) h = ground (arith, insert_by_id-append r x rows h)

-- A row of the run with the greatest number comes last.
pending_rows-append :
    (run : String) (x : Row) (rows : List Row)
    → x.run_id ≡ run
    → same_state x.state restored ≡ false
    → max_action_id run rows ≤ x.action_id
    → pending_rows run (rows ++ x ∷ []) ≡ pending_rows run rows ++ x ∷ []
unfolding pending_rows max_action_id
pending_rows-append run x [] e n h = ground (arith, eq_iff x.run_id run)
pending_rows-append run x (r ∷ rows) e n h = elim (Bool-cases (str_eq r.run_id run)) [
  | inl q ↦
      let rest = pending_rows-append run x rows e n (ground arith) in
      rw (q, rest) (ground (arith, insert_by_id-append r x (pending_rows run rows) (ground arith)))
  | inr q ↦ rw q (pending_rows-append run x rows e n (ground arith))
]

module _ (go : GoText) where
  -- The empty object passes where an absent inverse did.
  inverse_payload :
      (a : Action) (required : Bool)
      → go.unmarshal "{}" ≡ some (object end)
      → validate_action_payload go "inverse" a.inverse required ≡ none
      → validate_action_payload go "inverse" (journal_inverse_action_payload a) required ≡ none
  unfolding journal_inverse_action_payload validate_action_payload validate_decoded has_secret_key
      members_credential
  inverse_payload a required u h = elim (Bool-cases (blank a.inverse)) [
    | inl e ↦ rw e (rw u refl)
    | inr e ↦
        let j : a.inverse ≡ journal_inverse_action_payload a = rw e refl in
        subst (λ t. validate_action_payload go "inverse" t required ≡ none) j h
  ]

  validate-recorded :
      (a : Action) (id : ℕ)
      → go.unmarshal "{}" ≡ some (object end)
      → validate go a ≡ none
      → validate go (recorded a id) ≡ none
  unfolding validate
  validate-recorded a id u h =
      let i = inverse_payload a (persistent a.kind) u (ground arith) in ground (arith, i)

  validate_loaded-recorded :
      (a : Action) (id : ℕ)
      → go.unmarshal "{}" ≡ some (object end)
      → validate go a ≡ none
      → validate_loaded_journal_action go (recorded a id) ≡ none
  unfolding validate_loaded_journal_action
  validate_loaded-recorded a id u h = validate-recorded a id u h

  planned_left :
      (a : Action) (id : ℕ) → same_state (planned_row a.run_id a id).state restored ≡ false
  unfolding same_state planned_row
  planned_left a id = refl

  one-checked :
      (a : Action) (d : ActionError → String) (o : Option ActionError)
      → o ≡ none
      → (elim o [ some e ↦ err (d e) | none ↦ push_action a (ok []) ]) ≡ ok (a ∷ [])
  one-checked a d none h = refl
  one-checked a d (some e) h = absurd (let q : ⊥ = cc in q)

  -- A list of rows whose first has been checked.
  checked-append :
      (a y : Action) (d : ActionError → String) (rest more : Fallible (List Action))
      → ((l : List Action) → rest ≡ ok l → more ≡ ok (l ++ y ∷ []))
      → (o : Option ActionError) (actions : List Action)
      → (elim o [ some e ↦ err (d e) | none ↦ push_action a rest ]) ≡ ok actions
      → (elim o [ some e ↦ err (d e) | none ↦ push_action a more ]) ≡ ok (actions ++ y ∷ [])
  checked-append a y d rest more f (some e) actions h = absurd (let q : ⊥ = cc in q)
  checked-append a y d (err m) more f none actions h = absurd (let q : ⊥ = cc in q)
  checked-append a y d (ok l) more f none [] h = absurd (let q : ⊥ = cc in q)
  checked-append a y d (ok l) more f none (b ∷ actions) h =
      rw (f l refl) (let q : ok (a ∷ l) ≡ ok (b ∷ actions) = h in cc)

  module _ (marshal : Marshal) (describe_row : String → ℕ → ActionError → String) where
    load-append :
        (x : Row) (rows : List Row) (actions : List Action)
        → validate_loaded_journal_action go (scan_row go marshal x) ≡ none
        → load go marshal describe_row rows ≡ ok actions
        → load go marshal describe_row (rows ++ x ∷ []) ≡ ok (actions ++ scan_row go marshal x ∷ [])
    unfolding load
    load-append x [] [] v h =
        let a = scan_row go marshal x in
        one-checked a (describe_row a.run_id a.sequence) (validate_loaded_journal_action go a) v
    load-append x [] (a ∷ actions) v h = absurd (let q : ⊥ = cc in q)
    load-append x (r ∷ rows) actions v h =
        let a = scan_row go marshal r in
        checked-append a (scan_row go marshal x) (describe_row a.run_id a.sequence)
          (load go marshal describe_row rows) (load go marshal describe_row (rows ++ x ∷ []))
          (λ l q. load-append x rows l v q) (validate_loaded_journal_action go a) actions h

    -- The pending actions of a run with one more row, of the greatest number.
    pending_actions-append :
        (run : String) (x : Row) (rows : List Row) (actions : List Action)
        → x.run_id ≡ run
        → same_state x.state restored ≡ false
        → max_action_id run rows ≤ x.action_id
        → validate_loaded_journal_action go (scan_row go marshal x) ≡ none
        → pending_actions go marshal describe_row run rows ≡ ok actions
        → pending_actions go marshal describe_row run (rows ++ x ∷ [])
          ≡ ok (actions ++ scan_row go marshal x ∷ [])
    unfolding pending_actions
    pending_actions-append run x rows actions e n m v h =
        elim (Bool-cases (str_eq (go.trim_space run) "")) [
          | inl q ↦ absurd (let k : ⊥ = cc (h, q) in k)
          | inr q ↦ rw q (
              rw (pending_rows-append run x rows e n m)
                (load-append x (pending_rows run rows) actions v (loaded q)))
        ]
      where
        loaded :
            str_eq (go.trim_space run) "" ≡ false
            → load go marshal describe_row (pending_rows run rows) ≡ ok actions
        loaded q = cc

    -- What a stored action adds to them.
    stored-append :
        {E : Type 0} (describe : ActionError → String) (b stored : Action) (o : Option ActionError)
        (w : World E) (actions : List Action)
        → go.unmarshal "{}" ≡ some (object end)
        → w.cast b.run_id ≡ b.run_id
        → validate go b ≡ o
        → pending_actions go marshal describe_row b.run_id w.rows ≡ ok actions
        → (insert_checked go describe b o w).0 ≡ ok stored
        → pending_actions go marshal describe_row b.run_id (insert_checked go describe b o w).1.rows
          ≡ ok (actions ++ recorded stored stored.sequence ∷ [])
    unfolding insert_checked planned_row journal_inverse_action_payload
    stored-append describe b stored (some e) w actions u fits v h q = absurd (let k : ⊥ = cc in k)
    stored-append describe b stored none w actions u fits v h q =
        let own = w.cast b.run_id in
        let n = next_action_id own w.rows in
        let g =
          granted-done w (record b { sequence = n; state = planned }) stored
            (w.rows ++ planned_row own b n ∷ []) q in
        let x = planned_row b.run_id b n in
        let read = scan_row-planned_row go marshal b n u v in
        let add : pending_actions go marshal describe_row b.run_id (w.rows ++ x ∷ [])
            ≡ ok (actions ++ scan_row go marshal x ∷ []) =
          pending_actions-append b.run_id x w.rows actions refl (planned_left b n)
            (omega (arith, ap (λ run. max_action_id run w.rows) fits))
            (rw read (validate_loaded-recorded b n u v)) h in
        subst
          (λ rows.
            pending_actions go marshal describe_row b.run_id rows
            ≡ ok (actions ++ recorded stored stored.sequence ∷ []))
          (sym g.1)
          (subst
            (λ run.
              pending_actions go marshal describe_row b.run_id (w.rows ++ planned_row run b n ∷ [])
              ≡ ok (actions ++ recorded stored stored.sequence ∷ []))
            (sym fits)
            (add
              ∙ ap (λ a. ok (actions ++ a ∷ []))
                  (read ∙ ap (λ (z : Action). recorded z z.sequence) g.0)))

-- Pending lists what InsertPlanned has recorded: where InsertPlanned returns an action without an error,
-- Pending for its run, which listed some actions before, lists the same ones and after them the action
-- that was returned, with its number, planned, with an empty object for an absent inverse and without
-- legacy provenance. This is for a run ID that the cast of the INSERT statement leaves as it is.
pub insert_planned-pending_actions :
    (go : GoText) (marshal : Marshal) (describe : ActionError → String)
    (describe_row : String → ℕ → ActionError → String) {E : Type 0} (action stored : Action)
    (w : World E) (actions : List Action)
    → go.unmarshal "{}" ≡ some (object end)
    → w.cast action.run_id ≡ action.run_id
    → pending_actions go marshal describe_row action.run_id w.rows ≡ ok actions
    → (insert_planned go describe action w).0 ≡ ok stored
    → pending_actions go marshal describe_row action.run_id
        (insert_planned go describe action w).1.rows
      ≡ ok (actions ++ recorded stored stored.sequence ∷ [])
unfolding insert_planned
insert_planned-pending_actions go marshal describe describe_row action stored w actions u fits h q =
    let b = record action { last_error = journal_safe_error_text go action.last_error } in
    stored-append go marshal describe_row describe b stored (validate go b) w actions u fits refl h
      q
