-- ===== src/Gsbench/Store/Pending.antt =====
-- Pending of internal/gsbench/sqlstore.go after a restore: nothing is left.
use text.Mathlib.Text.{◌==◌ as str_eq}
use text.Mathlib.TextEquality.{eq_iff}
use gstop.Base.{
  Bool, ℕ, ◌≡◌, refl, String, true, false, List, [], ◌∷◌, Option, none, some, arith, if-elim, ◌∙◌,
  sym, subst, inl, inr, Bool-cases, map,
}
use gstop.Gsbench.Action.{Action, ActionError, MutationState, restored}
use gstop.Gsbench.Action.Secrets.{GoText}
use gstop.Gsbench.Journal.Calls.{Fallible, ok, err}
use gstop.Gsbench.Journal.{restore_action, restore_actions, is_restored, push}
use gstop.Gsbench.Store.{Row, matches, same_state, World, Executor, sql_journal, pending_rows}
use gstop.Gsbench.Store.Columns.{
  Marshal, scan_row, load, push_action, pending_actions, validate_loaded_journal_action,
}
use gstop.Gsbench.Store.Keys.{find, Unique, same_key}
use gstop.Gsbench.Store.Restoring.{B, Marked, restore_action-Marked}
use gstop.Gsbench.Store.Stale.{is_listed, stale_runs, is_listed-stale_runs}
use gstop.Gsbench.Store.Query.{
  only_pending, find-pending_rows, Left, pending_rows-Left, pending_rows-Unique,
}

-- The rows of the run that are not restored are those that are still to do.
record Open (run : String) (todo rows : List Row) : Type 0 where
  todo_unique : Unique todo
  unique : Unique rows
  left : Left run todo
  opens :
      (id : ℕ) (p : Row)
      → find run id todo ≡ some p
      → (r : Row) × (find run id rows ≡ some r) × (same_state r.state p.state ≡ true)
  closed :
      (id : ℕ) (r : Row)
      → find run id todo ≡ none
      → find run id rows ≡ some r
      → same_state r.state restored ≡ true

same_state_self : (s : MutationState) → same_state s s ≡ true
unfolding same_state
same_state_self s = ground arith

only_pending-some : (o : Option Row) (p : Row) → only_pending o ≡ some p → o ≡ some p
only_pending-some none p h = h
only_pending-some (some r) p h = ground arith

only_pending-none :
    (o : Option Row) (r : Row)
    → only_pending o ≡ none
    → o ≡ some r
    → same_state r.state restored ≡ true
only_pending-none none r h e = absurd (let q : ⊥ = cc in q)
only_pending-none (some s) r h e = ground arith

pending_rows-Open :
    (run : String) (rows : List Row) → Unique rows → Open run (pending_rows run rows) rows
pending_rows-Open run rows u = record {
  todo_unique = pending_rows-Unique run rows u;
  unique = u;
  left = pending_rows-Left run rows;
  opens = λ id p h. (
    p,
    only_pending-some (find run id rows) p (sym (find-pending_rows run id rows u) ∙ h),
    same_state_self p.state,
  );
  closed =
      λ id r h. only_pending-none (find run id rows) r (sym (find-pending_rows run id rows u) ∙ h);
}

found_first :
    (run : String) (p : Row) (ps : List Row)
    → p.run_id ≡ run
    → find run p.action_id (p ∷ ps) ≡ some p
unfolding find matches
found_first run p ps e = ground (arith, eq_iff p.run_id run)

matches-key :
    (run : String) (id : ℕ) (p : Row)
    → matches run id p ≡ true
    → (p.run_id ≡ run) × (p.action_id ≡ id)
unfolding matches
matches-key run id p e = ground (arith, eq_iff p.run_id run)

same_key-matches :
    (run : String) (id : ℕ) (p : Row) (r : String) (i : ℕ)
    → r ≡ p.run_id
    → i ≡ p.action_id
    → same_key run id r i ≡ matches run id p
unfolding matches
same_key-matches run id p r i q n = rw (q, n) refl

pending_rows-nil : (run : String) (rows : List Row) → Open run [] rows → pending_rows run rows ≡ []
unfolding find
pending_rows-nil run rows o =
    nothing (pending_rows run rows) (pending_rows-Left run rows)
      (λ id. find-pending_rows run id rows o.unique)
  where
    gone : (id : ℕ) (c : Option Row) → find run id rows ≡ c → only_pending c ≡ none
    gone id none e = refl
    gone id (some r) e =
        let k : same_state r.state restored ≡ true = o.closed id r refl e in rw k refl

    nothing :
        (ps : List Row)
        → Left run ps
        → ((id : ℕ) → find run id ps ≡ only_pending (find run id rows))
        → ps ≡ []
    nothing [] l f = refl
    nothing (p ∷ ps) l f =
        let g = f p.action_id ∙ gone p.action_id (find run p.action_id rows) refl in
        let k : find run p.action_id (p ∷ ps) ≡ some p = found_first run p ps l.0 in
        absurd (let q : ⊥ = cc in q)

Open-cons :
    (run : String) (p : Row) (todo before after : List Row) (a : Action)
    → a.run_id ≡ p.run_id
    → a.sequence ≡ p.action_id
    → Open run (p ∷ todo) before
    → Marked a before after
    → Open run todo after
unfolding find same_state
Open-cons run p todo before after a q n o m = record {
  todo_unique = o.todo_unique.1;
  unique = m.0.1 o.unique;
  left = o.left.2;
  opens = λ id s h. elim (Bool-cases (matches run id p)) [
    | inl e ↦ absurd (let k = mine id e in let z : ⊥ = cc in z)
    | inr e ↦ let r = o.opens id s (rw e h) in (r.0, other id e ∙ r.1, r.2)
  ];
  closed = λ id s h g. elim (Bool-cases (matches run id p)) [
    | inl e ↦
        let k : find run id after ≡ some m.1.0 = at id e in
        let l : some s ≡ some m.1.0 = cc in let t : s ≡ m.1.0 = cc in rw t (rw m.1.2 refl)
    | inr e ↦ o.closed id s (rw e h) (sym (other id e) ∙ g)
  ];
}
  where
    key : (id : ℕ) → same_key run id a.run_id a.sequence ≡ matches run id p
    key id = same_key-matches run id p a.run_id a.sequence q n

    other : (id : ℕ) → matches run id p ≡ false → find run id after ≡ find run id before
    other id e = m.0.0 run id (key id ∙ e)

    mine : (id : ℕ) → matches run id p ≡ true → find run id todo ≡ none
    mine id e =
        let k = matches-key run id p e in
        subst (λ r. find r id todo ≡ none) k.0
          (subst (λ i. find p.run_id i todo ≡ none) k.1 o.todo_unique.0)

    at : (id : ℕ) → matches run id p ≡ true → find run id after ≡ some m.1.0
    at id e =
        let k = matches-key run id p e in
        subst (λ r. find r id after ≡ some m.1.0) (q ∙ k.0)
          (subst (λ i. find a.run_id i after ≡ some m.1.0) (n ∙ k.1) m.1.1)

load-map :
    (go : GoText) (marshal : Marshal) (describe_row : String → ℕ → ActionError → String)
    (rows : List Row) (actions : List Action)
    → load go marshal describe_row rows ≡ ok actions
    → actions ≡ map (scan_row go marshal) rows
unfolding load scan_row
load-map go marshal describe_row [] actions h = cc
load-map go marshal describe_row (r ∷ rows) actions h =
    loaded (validate_loaded_journal_action go (scan_row go marshal r))
      (load go marshal describe_row rows) (load-map go marshal describe_row rows) h
  where
    pushed :
        (rest : Fallible (List Action))
        → ((l : List Action) → rest ≡ ok l → l ≡ map (scan_row go marshal) rows)
        → push_action (scan_row go marshal r) rest ≡ ok actions
        → actions ≡ map (scan_row go marshal) (r ∷ rows)
    pushed (ok l) f e = let k = f l refl in cc
    pushed (err x) f e = absurd (let q : ⊥ = cc in q)

    loaded :
        (o : Option ActionError) (rest : Fallible (List Action))
        → ((l : List Action) → rest ≡ ok l → l ≡ map (scan_row go marshal) rows)
        → (elim o as (λ _. Fallible (List Action)) [
          | some e ↦ err (describe_row r.run_id r.action_id e)
          | none ↦ push_action (scan_row go marshal r) rest
        ])
          ≡ ok actions
        → actions ≡ map (scan_row go marshal) (r ∷ rows)
    loaded (some x) rest f e = absurd (let q : ⊥ = cc in q)
    loaded none rest f e = pushed rest f e

pushed-nil {ℓ} : {A : Type ℓ} (e : Option A) (es : List A) → push e es ≡ [] → (e ≡ none) × (es ≡ [])
pushed-nil none es h = (refl, h)
pushed-nil (some x) es h = absurd (cc)

not_restored : (s : MutationState) → same_state s restored ≡ false → is_restored s ≡ false
unfolding same_state
not_restored s h = ground arith

module _ (go : GoText) (marshal : Marshal) (describe : ActionError → String) {E : Type 0}
    (x : Executor E) where
  restore_actions-Open :
      (run : String) (todo : List Row) (w : World E)
      → Open run todo w.rows
      → (restore_actions go (B go describe x) (map (scan_row go marshal) todo) w).0 ≡ []
      → Open run [] (restore_actions go (B go describe x) (map (scan_row go marshal) todo) w).2.rows
  unfolding restore_actions scan_row find
  restore_actions-Open run [] w o h = o
  restore_actions-Open run (p ∷ todo) w o h =
      let a = scan_row go marshal p in
      let v = (restore_action go (B go describe x) a w).2 in
      let (first, rest) = pushed-nil _ _ h in
      let f = o.opens p.action_id p (found_first run p todo o.left.0) in
      let m =
        restore_action-Marked go describe x a w o.unique
          (f.0, subst (λ r. find r p.action_id w.rows ≡ some f.0) (sym o.left.0) f.1, f.2)
          (not_restored p.state o.left.1) first in
      restore_actions-Open run todo v (Open-cons run p todo w.rows v.rows a refl refl o m) rest

read-load :
    (go : GoText) (marshal : Marshal) (describe_row : String → ℕ → ActionError → String)
    (run : String) (rows : List Row) (actions : List Action)
    → pending_actions go marshal describe_row run rows ≡ ok actions
    → (load go marshal describe_row (pending_rows run rows) ≡ ok actions)
      × (str_eq (go.trim_space run) "" ≡ false)
unfolding pending_actions
read-load go marshal describe_row run rows actions =
    if-elim
      (λ (r : Fallible (List Action)).
        r ≡ ok actions
        → (load go marshal describe_row (pending_rows run rows) ≡ ok actions)
          × (str_eq (go.trim_space run) "" ≡ false))
      (str_eq (go.trim_space run) "") (err "journal run ID is required")
      (load go marshal describe_row (pending_rows run rows)) (λ e h. absurd (let q : ⊥ = cc in q))
      (λ e h. (h, e))

-- The journal over the SQL store: where Pending has read the actions of a run, and restoreActions
-- of them ends without an error, Pending of the run reads no action afterwards and StaleRuns does not
-- list the run, on a table with its primary key, whatever becomes of each statement and whatever the executor answers.
pub pending_actions-restore_actions :
    (go : GoText) (marshal : Marshal) (describe : ActionError → String)
    (describe_row : String → ℕ → ActionError → String) (before : String → String → Bool)
    {E : Type 0} (x : Executor E) (run : String) (actions : List Action) (w : World E)
    → Unique w.rows
    → pending_actions go marshal describe_row run w.rows ≡ ok actions
    → (restore_actions go (sql_journal go describe x) actions w).0 ≡ []
    → let rows = (restore_actions go (sql_journal go describe x) actions w).2.rows in
      (pending_actions go marshal describe_row run rows ≡ ok [])
      × (is_listed run (stale_runs before rows) ≡ false)
unfolding pending_actions load
pending_actions-restore_actions go marshal describe describe_row before x run actions w u h n =
    let q = read-load go marshal describe_row run w.rows actions h in
    let e = load-map go marshal describe_row (pending_rows run w.rows) actions q.0 in
    let o =
      restore_actions-Open go marshal describe x run (pending_rows run w.rows) w
        (pending_rows-Open run w.rows u)
        (subst (λ l. (restore_actions go (sql_journal go describe x) l w).0 ≡ []) e n) in
    let p =
      subst (λ l. pending_rows run (restore_actions go (sql_journal go describe x) l w).2.rows ≡ [])
        (sym e) (pending_rows-nil run _ o) in
    (
      rw (q.1, p) refl,
      is_listed-stale_runs before run
          (restore_actions go (sql_journal go describe x) actions w).2.rows p,
    )
