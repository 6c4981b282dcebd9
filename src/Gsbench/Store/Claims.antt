-- ===== src/Gsbench/Store/Claims.antt =====
-- Who owns an action of the table of internal/gsbench/sqlstore.go.
use gstop.Base.{
  ℕ, ◌≡◌, ◌≢◌, refl, String, Bool, true, false, List, [], ◌∷◌, ◌++◌, Option, none, some, ◌==◌,
  arith, if-elim, ◌∙◌, sym, ap, subst,
}
use gstop.Gsbench.Action.{Action, ActionError, MutationState, planned, restoring, validate}
use gstop.Gsbench.Action.Secrets.{GoText}
use gstop.Gsbench.Action.ErrorText.{journal_safe_error_text}
use gstop.Gsbench.Journal.Calls.{Fallible, ok, err}
use gstop.Gsbench.Store.{
  Row, max_action_id, matches, next_action_id, update_where, count_where, written, claims,
  planned_row, same_state, World, Answer, done, lost, refused, next_answer, answer, perform,
  insert_planned, set_state, claim_action, insert_checked, keyless, nullable_string, missing_key,
}
use gstop.Gsbench.Store.Keys.{
  find-claims_own, find, Unique, same_key, change, find-written, find-claims, claim_row,
  find-append_found, claimable, count_where-claims, perform-rows, update_where-Unique,
}
use gstop.Gsbench.Store.Cells.{Call, inserts, sets, claims_for, Cells}
use gstop.Gsbench.Store.Steps.{call, run_calls, run_calls-Refines}

-- The row of the action is being restored.
abbrev Held : String → ℕ → List Row → Type 0
Held run id rows = (r : Row) × (find run id rows ≡ some r) × (r.state ≡ restoring)

-- No call writes the state of the action.
abbrev pub Unset : String → ℕ → List Call → Type 0
Unset run id [] = Unit
Unset run id (sets a s d ∷ ks) = (same_key run id a.run_id a.sequence ≡ false) × Unset run id ks
Unset run id (_ ∷ ks) = Unset run id ks

module _ (run : String) (id : ℕ) where
  written-Held :
      (a : Action) (s : MutationState) (e : Option String) (rows : List Row)
      → same_key run id a.run_id a.sequence ≡ false
      → Held run id rows
      → Held run id (update_where (matches a.run_id a.sequence) (written s e) rows)
  written-Held a s e rows n h =
      (h.0, find-written run a.run_id id a.sequence s e rows ∙ rw n h.1, h.2)

  claim_row-restoring :
      (s : MutationState) (r : Row) → r.state ≡ restoring → (claim_row s r).state ≡ restoring
  claim_row-restoring s r h = ground arith

  claims-Held :
      (a : Action) (rows : List Row)
      → Held run id rows
      → Held run id (update_where (claims a) (written restoring none) rows)
  claims-Held a rows h =
      if-elim
        (λ (o : Option Row).
          find run id (update_where (claims a) (written restoring none) rows) ≡ o
          → Held run id (update_where (claims a) (written restoring none) rows))
        (same_key run id a.run_id a.sequence) (change (claim_row a.state) (find run id rows))
        (find run id rows)
        (λ e q. (
          claim_row a.state h.0,
          q ∙ ap (change (claim_row a.state)) h.1,
          claim_row-restoring a.state h.0 h.2,
        ))
        (λ e q. (h.0, q ∙ h.1, h.2)) (find-claims run id a rows)

  call-Held :
      (go : GoText) (describe : ActionError → String) {E : Type 0} (k : Call) (w : World E)
      → Unset run id (k ∷ [])
      → Held run id w.rows
      → Held run id (call go describe k w).1.rows
  unfolding call insert_planned insert_checked set_state claim_action
  call-Held go describe {E = E} (inserts a) w u h =
      by_check (record a { last_error = journal_safe_error_text go a.last_error }) (validate go _)
    where
      by_check :
          (b : Action) (o : Option ActionError)
          → Held run id (insert_checked go describe b o w).1.rows
      by_check b (some e) = h
      by_check b none =
          let run' = w.cast b.run_id in
          let x = planned_row run' b (next_action_id run' w.rows) in
          perform-rows (Held run id) w
            (record b { sequence = next_action_id run' w.rows; state = planned }) (w.rows ++ x ∷ [])
            h (h.0, find-append_found run id w.rows x h.0 h.1, h.2)
  call-Held go describe {E = E} (sets a s d) w u h =
      let e = nullable_string (journal_safe_error_text go d) in
      if-elim (λ (r : Fallible (Unit {0}) × World E). Held run id r.1.rows) (keyless go a)
        (err missing_key, w)
        (perform w tt (update_where (matches a.run_id a.sequence) (written s e) w.rows)) (λ q. h)
        (λ q.
          perform-rows (Held run id) w tt
            (update_where (matches a.run_id a.sequence) (written s e) w.rows) h
            (written-Held a s e w.rows u.0 h))
  call-Held go describe {E = E} (claims_for a) w u h =
      if-elim (λ (r : Fallible Bool × World E). Held run id r.1.rows) (keyless go a)
        (err missing_key, w)
        (perform w (count_where (claims a) w.rows == 1)
          (update_where (claims a) (written restoring none) w.rows))
        (λ q. h)
        (λ q.
          perform-rows (Held run id) w (count_where (claims a) w.rows == 1)
            (update_where (claims a) (written restoring none) w.rows) h (claims-Held a w.rows h))

  run_calls-Held :
      (go : GoText) (describe : ActionError → String) {E : Type 0} (ks : List Call) (w : World E)
      → Unset run id ks
      → Held run id w.rows
      → Held run id (run_calls go describe ks w).1.rows
  unfolding run_calls
  run_calls-Held go describe [] w u h = h
  run_calls-Held go describe (inserts a ∷ ks) w u h =
      run_calls-Held go describe ks _ u (call-Held go describe (inserts a) w tt h)
  run_calls-Held go describe (sets a s d ∷ ks) w u h =
      run_calls-Held go describe ks _ u.1 (call-Held go describe (sets a s d) w (u.0, tt) h)
  run_calls-Held go describe (claims_for a ∷ ks) w u h =
      run_calls-Held go describe ks _ u (call-Held go describe (claims_for a) w tt h)

pub granted-done :
    {E A : Type 0} (w : World E) (a b : A) (after : List Row)
    → (perform w a after).0 ≡ ok b
    → (a ≡ b) × ((perform w a after).1.rows ≡ after)
unfolding perform answer
granted-done w a b after h = granted (next_answer w.answers).0 h
  where
    granted :
        (x : Answer)
        → (answer x a after w.rows).0 ≡ ok b
        → (a ≡ b) × ((answer x a after w.rows).1 ≡ after)
    granted done q = (cc, refl)
    granted (lost e) q = absurd (let k : ⊥ = cc in k)
    granted (refused e) q = absurd (let k : ⊥ = cc in k)

claimable-find :
    (o : Option Row) (s : MutationState)
    → claimable o s ≡ true
    → (r : Row) × (o ≡ some r) × (same_state r.state s ≡ true)
claimable-find none s h = absurd (let q : ⊥ = cc in q)
claimable-find (some r) s h = (r, refl, h)

claimable-restoring :
    (run : String) (id : ℕ) (rows : List Row) (s : MutationState)
    → Held run id rows
    → same_state restoring s ≡ false
    → claimable (find run id rows) s ≡ false
claimable-restoring run id rows s h n = rw h.1 (rw h.2 n)

-- An answered claim tells whether it found the row in the expected state, and leaves the updated rows.
pub answered-claimable :
    (go : GoText) (describe : ActionError → String) {E : Type 0} (a : Action) (b : Bool)
    (w : World E)
    → Unique w.rows
    → (claim_action go describe a w).0 ≡ ok b
    → (claimable (find a.run_id a.sequence w.rows) a.state ≡ b)
      × ((claim_action go describe a w).1.rows
          ≡ update_where (claims a) (written restoring none) w.rows)
unfolding claim_action
answered-claimable go describe {E = E} a b w u =
    if-elim
      (λ (r : Fallible Bool × World E).
        r.0 ≡ ok b
        → (claimable (find a.run_id a.sequence w.rows) a.state ≡ b)
          × (r.1.rows ≡ update_where (claims a) (written restoring none) w.rows))
      (keyless go a) (err missing_key, w)
      (perform w (count_where (claims a) w.rows == 1)
        (update_where (claims a) (written restoring none) w.rows))
      (λ q h. absurd (let k : ⊥ = cc in k))
      (λ q h.
        let g =
          granted-done w (count_where (claims a) w.rows == 1) b
            (update_where (claims a) (written restoring none) w.rows) h in
        (sym (count_where-claims a w.rows u) ∙ g.0, g.1))

granted-Held :
    (go : GoText) (describe : ActionError → String) {E : Type 0} (a : Action) (w : World E)
    → Unique w.rows
    → (claim_action go describe a w).0 ≡ ok true
    → Held a.run_id a.sequence (claim_action go describe a w).1.rows
granted-Held go describe a w u h =
    let g = answered-claimable go describe a true w u h in
    let f = claimable-find (find a.run_id a.sequence w.rows) a.state g.0 in
    (
      claim_row a.state f.0,
      ap (find a.run_id a.sequence) g.1
          ∙ find-claims_own a w.rows
          ∙ ap (change (claim_row a.state)) f.1,
      rw f.2 refl,
    )

abbrev pub reading : {E : Type 0} → World E → Cells
reading w = record {
  cell = λ run id. find run id w.rows;
  last_id = λ run. max_action_id run w.rows;
  answers = w.answers;
  cast = w.cast;
}

run_calls-Unique :
    (go : GoText) (describe : ActionError → String) {E : Type 0} (ks : List Call) (w : World E)
    → Unique w.rows
    → Unique (run_calls go describe ks w).1.rows
run_calls-Unique go describe ks w u =
    (run_calls-Refines go describe ks w (reading w) (record {
      same = record { reads = λ run id. refl; counts = λ run. refl; unique = u };
      same_answers = refl;
      same_cast = refl;
    })).1.same.unique

-- One owner: once ClaimAction is granted for an action, then whatever calls any owners make, in any
-- order and however they fail, no second claim of it from a state other than RESTORING is granted
-- until a call writes the state of the action.
pub claim_action-granted :
    (go : GoText) (describe : ActionError → String) {E : Type 0} (a b : Action) (w : World E)
    (ks : List Call)
    → Unique w.rows
    → (claim_action go describe a w).0 ≡ ok true
    → Unset a.run_id a.sequence ks
    → b.run_id ≡ a.run_id
    → b.sequence ≡ a.sequence
    → same_state restoring b.state ≡ false
    → (claim_action go describe b (run_calls go describe ks (claim_action go describe a w).1).1).0
      ≢ ok true
claim_action-granted go describe a b w ks u h n r q s k =
    let v = (claim_action go describe a w).1 in
    let u1 : Unique v.rows =
      subst Unique (sym (answered-claimable go describe a true w u h).1)
        (update_where-Unique (claims a) restoring none w.rows u) in
    let held =
      run_calls-Held a.run_id a.sequence go describe ks v n (granted-Held go describe a w u h) in
    let g =
      answered-claimable go describe b true (run_calls go describe ks v).1
        (run_calls-Unique go describe ks v u1) k in
    let held_b =
      subst (λ id. Held b.run_id id (run_calls go describe ks v).1.rows) (sym q)
        (subst (λ run. Held run a.sequence (run_calls go describe ks v).1.rows) (sym r) held) in
    let no =
      claimable-restoring b.run_id b.sequence (run_calls go describe ks v).1.rows b.state held_b
        s in
    let x : ⊥ = cc (g.0, no) in x
