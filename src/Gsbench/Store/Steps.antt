-- ===== src/Gsbench/Store/Steps.antt =====
-- The store of internal/gsbench/sqlstore.go keeps its promise of Cells: the same replies, and rows that are
-- those of the map.
use text.Mathlib.TextEquality.{eq_iff}
use gstop.Base.{
  ℕ, ◌+◌, ◌≡◌, refl, String, Bool, true, false, List, [], ◌∷◌, ◌++◌, Option, none, some, ◌==◌,
  if◌then◌else◌, arith, ◌∙◌, ap, subst,
}
use gstop.Gsbench.Action.{Action, ActionError, MutationState, planned, restoring, validate}
use gstop.Gsbench.Action.Secrets.{GoText}
use gstop.Gsbench.Action.ErrorText.{journal_safe_error_text}
use gstop.Gsbench.Journal.Calls.{Fallible, ok, err}
use gstop.Gsbench.Store.{
  Row, matches, max_action_id, next_action_id, update_where, count_where, written, claims,
  planned_row, World, Answer, insert_checked, keyless, done, lost, refused, next_answer, answer,
  perform, insert_planned, set_state, claim_action, nullable_string, missing_key, failure,
}
use gstop.Gsbench.Store.Keys.{
  find, Unique, same_key, change, find-written, find-claims, claim_row, find-added, find_above,
  claimable, count_where-claims, max_action_id-update_where, max_action_id-append,
  update_where-Unique, append-Unique,
}
use gstop.Gsbench.Store.Cells.{
  Call, inserts, sets, claims_for, Reply, inserted, was_set, claimed, Cells, answer_cells,
  perform_cells, put_cell, add_cell, insert_cells, call_cells,
}

module _ (go : GoText) (describe : ActionError → String) where
  unfoldable pub call : {E : Type 0} → Call → World E → Reply × World E
  call (inserts a) w = let (r, v) = insert_planned go describe a w in (inserted r, v)
  call (sets a s detail) w = let (r, v) = set_state go describe a s detail w in (was_set r, v)
  call (claims_for a) w = let (r, v) = claim_action go describe a w in (claimed r, v)

-- The rows of a table are those of the abstract store.
pub record Same (rows : List Row) (c : Cells) : Type 0 where
  pub reads : (run : String) (id : ℕ) → find run id rows ≡ c.cell run id
  pub counts : (run : String) → max_action_id run rows ≡ c.last_id run
  pub unique : Unique rows

pub record Refines {E : Type 0} (w : World E) (c : Cells) : Type 0 where
  pub same : Same w.rows c
  pub same_answers : w.answers ≡ c.answers
  pub same_cast : w.cast ≡ c.cast

abbrev Agree : {E A : Type 0} → Fallible A × World E → Fallible A × Cells → Type 0
Agree r s = (r.0 ≡ s.0) × Refines r.1 s.1

answer-Agree :
    {E A : Type 0} (x : Answer) (xs : List Answer) (w : World E) (c : Cells) (a b : A)
    (after : List Row) (d : Cells)
    → Same w.rows c
    → w.cast ≡ c.cast
    → w.cast ≡ d.cast
    → a ≡ b
    → Same after d
    → Agree
        ((answer x a after w.rows).0, record w { rows = (answer x a after w.rows).1; answers = xs })
        (answer_cells x b (record d { answers = xs }) (record c { answers = xs }))
unfolding answer answer_cells
answer-Agree done xs w c a b after d r p q e s = (
  ap ok e,
  record {
    same = record { reads = s.reads; counts = s.counts; unique = s.unique };
    same_answers = refl;
    same_cast = q;
  },
)
answer-Agree (lost m) xs w c a b after d r p q e s = (
  refl,
  record {
    same = record { reads = s.reads; counts = s.counts; unique = s.unique };
    same_answers = refl;
    same_cast = q;
  },
)
answer-Agree (refused m) xs w c a b after d r p q e s = (
  refl,
  record {
    same = record { reads = r.reads; counts = r.counts; unique = r.unique };
    same_answers = refl;
    same_cast = p;
  },
)

perform-Agree :
    {E A : Type 0} (w : World E) (c : Cells) (a b : A) (after : List Row) (d : Cells)
    → Refines w c
    → w.cast ≡ d.cast
    → a ≡ b
    → Same after d
    → Agree (perform w a after) (perform_cells c b d)
unfolding perform perform_cells answer answer_cells
perform-Agree w c a b after d r q e s =
    subst
      (λ ys. Agree (perform w a after) (
        answer_cells (next_answer ys).0 b (record d { answers = (next_answer ys).1 })
          (record c { answers = (next_answer ys).1 })))
      r.same_answers
      (answer-Agree (next_answer w.answers).0 (next_answer w.answers).1 w c a b after d r.same
        r.same_cast q e s)

Same-written :
    (a : Action) (st : MutationState) (e : Option String) (rows : List Row) (c : Cells)
    → Same rows c
    → Same
        (update_where (matches a.run_id a.sequence) (written st e) rows)
        (put_cell a.run_id a.sequence (change (written st e)) c)
Same-written a st e rows c s = record {
  reads = λ run id.
      find-written run a.run_id id a.sequence st e rows
      ∙ ap
          (λ (o : Option Row).
            if same_key run id a.run_id a.sequence then change (written st e) o else o)
          (s.reads run id);
  counts =
      λ run. max_action_id-update_where run (matches a.run_id a.sequence) st e rows ∙ s.counts run;
  unique = update_where-Unique (matches a.run_id a.sequence) st e rows s.unique;
}

Same-claims :
    (a : Action) (rows : List Row) (c : Cells)
    → Same rows c
    → Same
        (update_where (claims a) (written restoring none) rows)
        (put_cell a.run_id a.sequence (change (claim_row a.state)) c)
Same-claims a rows c s = record {
  reads = λ run id.
      find-claims run id a rows
      ∙ ap
          (λ (o : Option Row).
            if same_key run id a.run_id a.sequence then change (claim_row a.state) o else o)
          (s.reads run id);
  counts = λ run. max_action_id-update_where run (claims a) restoring none rows ∙ s.counts run;
  unique = update_where-Unique (claims a) restoring none rows s.unique;
}

Same-added :
    (own : String) (a : Action) (rows : List Row) (c : Cells)
    → Same rows c
    → Same (rows ++ planned_row own a (next_action_id own rows) ∷ []) (add_cell own a c)
unfolding planned_row
Same-added own a rows c s = record {
  reads = λ run id. ground (arith, find-added own a rows run id, s.counts own, s.reads run id);
  counts = λ run. ground (
    arith,
    max_action_id-append run (planned_row own a (next_action_id own rows)) rows,
    s.counts own,
    s.counts run,
    eq_iff own run,
  );
  unique =
      append-Unique (planned_row own a (next_action_id own rows)) rows
        (find_above own (next_action_id own rows) rows (omega arith)) s.unique;
}

module _ (go : GoText) (describe : ActionError → String) {E : Type 0} where
  abbrev Follows : Reply × World E → Reply × Cells → Type 0
  Follows r s = (r.0 ≡ s.0) × Refines r.1 s.1

  insert-Agree :
      (a : Action) (o : Option ActionError) (w : World E) (c : Cells)
      → Refines w c
      → Agree (insert_checked go describe a o w) (insert_cells go describe a o c)
  unfolding insert_checked insert_cells
  insert-Agree a (some e) w c r = (refl, r)
  insert-Agree a none w c r =
      let own = w.cast a.run_id in
      let e : own ≡ c.cast a.run_id = ap (λ (f : String → String). f a.run_id) r.same_cast in
      let rows = w.rows ++ planned_row own a (next_action_id own w.rows) ∷ [] in
      perform-Agree w c (record a { sequence = next_action_id own w.rows; state = planned })
        (record a { sequence = c.last_id (c.cast a.run_id) + 1; state = planned }) rows
        (add_cell (c.cast a.run_id) a c) r r.same_cast
        (ap (λ (n : ℕ). record a { sequence = n + 1; state = planned })
          (r.same.counts own ∙ ap c.last_id e))
        (subst (λ run. Same rows (add_cell run a c)) e (Same-added own a w.rows c r.same))

  -- Two results of one test follow each other if they do in both cases.
  if-Agree :
      {A : Type 0} (b : Bool) (x y : Fallible A × World E) (u v : Fallible A × Cells)
      → Agree x u
      → Agree y v
      → Agree (if b then x else y) (if b then u else v)
  if-Agree true x y u v h k = h
  if-Agree false x y u v h k = k

  call-Follows :
      (k : Call) (w : World E) (c : Cells)
      → Refines w c
      → Follows (call go describe k w) (call_cells go describe k c)
  unfolding call call_cells insert_planned set_state claim_action
  call-Follows (inserts action) w c r =
      let a = record action { last_error = journal_safe_error_text go action.last_error } in
      let p = insert-Agree a (validate go a) w c r in (ap inserted p.0, p.1)
  call-Follows (sets a s detail) w c r =
      let e = nullable_string (journal_safe_error_text go detail) in
      let p =
        if-Agree (keyless go a) (err missing_key, w)
          (perform w tt (update_where (matches a.run_id a.sequence) (written s e) w.rows))
          (err missing_key, c)
          (perform_cells c tt (put_cell a.run_id a.sequence (change (written s e)) c)) (refl, r)
          (perform-Agree w c tt tt (update_where (matches a.run_id a.sequence) (written s e) w.rows)
            (put_cell a.run_id a.sequence (change (written s e)) c) r r.same_cast refl
            (Same-written a s e w.rows c r.same)) in
      (ap (λ (x : Fallible (Unit {0})). was_set (failure x)) p.0, p.1)
  call-Follows (claims_for a) w c r =
      let p =
        if-Agree (keyless go a) (err missing_key, w)
          (perform w (count_where (claims a) w.rows == 1)
            (update_where (claims a) (written restoring none) w.rows))
          (err missing_key, c)
          (perform_cells c (claimable (c.cell a.run_id a.sequence) a.state)
            (put_cell a.run_id a.sequence (change (claim_row a.state)) c))
          (refl, r)
          (perform-Agree w c (count_where (claims a) w.rows == 1)
            (claimable (c.cell a.run_id a.sequence) a.state)
            (update_where (claims a) (written restoring none) w.rows)
            (put_cell a.run_id a.sequence (change (claim_row a.state)) c) r r.same_cast
            (count_where-claims a w.rows r.same.unique
              ∙ ap (λ (o : Option Row). claimable o a.state) (r.same.reads a.run_id a.sequence))
            (Same-claims a w.rows c r.same)) in
      (ap claimed p.0, p.1)

  unfoldable pub run_calls : List Call → World E → List Reply × World E
  run_calls [] w = ([], w)
  run_calls (k ∷ ks) w =
      let (r, v) = call go describe k w in let (rs, u) = run_calls ks v in (r ∷ rs, u)

unfoldable pub run_cells : GoText → (ActionError → String) → List Call → Cells → List Reply × Cells
run_cells go describe [] c = ([], c)
run_cells go describe (k ∷ ks) c =
    let (r, d) = call_cells go describe k c in
    let (rs, e) = run_cells go describe ks d in (r ∷ rs, e)

-- The store refines the map with compare-and-swap, for every cast of the run IDs, which both use for a
-- new row and neither for the key of a later call: over any calls, executed or failing as the answers
-- tell, both give the same replies, and afterwards the table still reads as the map, no key stands in
-- it twice, and its numbers are those that the map allocated.
pub run_calls-Refines :
    (go : GoText) (describe : ActionError → String) {E : Type 0} (ks : List Call) (w : World E)
    (c : Cells)
    → Refines w c
    → ((run_calls go describe ks w).0 ≡ (run_cells go describe ks c).0)
      × Refines (run_calls go describe ks w).1 (run_cells go describe ks c).1
unfolding run_calls run_cells
run_calls-Refines go describe [] w c r = (refl, r)
run_calls-Refines go describe (k ∷ ks) w c r =
    let p = call-Follows go describe k w c r in
    let q =
      run_calls-Refines go describe ks (call go describe k w).1 (call_cells go describe k c).1
        p.1 in
    (rw (p.0, q.0) refl, q.1)
