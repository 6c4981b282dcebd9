-- ===== src/Gsbench/Ledger/Histories.antt =====
-- Histories of the recovery ledger of internal/gsbench/recovery_ledger.go.
use gstop.Base.{
  String, ◌≡◌, ◌≢◌, refl, sym, ◌⊎◌, inl, inr, true, List, [], ◌∷◌, none, arith, ◌∙◌, ap, subst,
}
use gstop.Gsbench.Action.{Action, MutationState, restored}
use gstop.Gsbench.Action.Secrets.{GoText}
use gstop.Gsbench.Ledger.{
  Checked, Checked-cases, ok, err, put_stored, mark_first, put, mark_restored, default_state,
  allowed_recovery_ledger_transition, validate_recovery_ledger_put_action,
}
use gstop.Gsbench.Ledger.Identity.{Unique}
use gstop.Gsbench.Ledger.Transitions.{
  restated, Keeps, Extends, Extends-refl, put_stored-Extends, mark_first-Extends,
}

-- A call of the ledger by another part of the program.
pub data Operation : Type 0 where
  puts : Action → Operation
  marks : String → String → Operation

abbrev kept : List Action → Checked (List Action) → List Action
kept file (ok l) = l
kept file (err e) = file

-- An operation that returns an error leaves the file as it was.
pub step : GoText → (Action → Checked Action) → List Action → Operation → List Action
step go canonical file (puts a) = kept file (put go canonical a file)
step go canonical file (marks run target) = kept file (mark_restored go run target file)

pub run_operations : GoText → (Action → Checked Action) → List Action → List Operation → List Action
run_operations go canonical file [] = file
run_operations go canonical file (o ∷ os) =
    run_operations go canonical (step go canonical file o) os

allowed_trans :
    (s t u : MutationState)
    → allowed_recovery_ledger_transition s t ≡ true
    → allowed_recovery_ledger_transition t u ≡ true
    → allowed_recovery_ledger_transition s u ≡ true
unfolding allowed_recovery_ledger_transition
allowed_trans s t u h k = ground arith

moves_trans :
    (s t u : MutationState)
    → (allowed_recovery_ledger_transition s t ≡ true) ⊎ (t ≡ restored)
    → (allowed_recovery_ledger_transition t u ≡ true) ⊎ (u ≡ restored)
    → (t ≡ restored → u ≡ t)
    → (allowed_recovery_ledger_transition s u ≡ true) ⊎ (u ≡ restored)
moves_trans s t u (inl h) (inl k) stop = inl (allowed_trans s t u h k)
moves_trans s t u (inl h) (inr k) stop = inr k
moves_trans s t u (inr h) k stop = inr (stop h ∙ h)

Keeps-trans : (a b c : Action) → Keeps a b → Keeps b c → Keeps a c
Keeps-trans a b c h k = record {
  same_record = k.same_record ∙ ap (λ x. restated x c.state c.last_error) h.same_record;
  moves =
      moves_trans a.state b.state c.state h.moves k.moves (λ e. ap (λ x. x.state) (k.tombstone e));
  forward = omega (arith, h.forward, k.forward);
  tombstone = λ e. k.tombstone (ap (λ x. x.state) (h.tombstone e) ∙ e) ∙ h.tombstone e;
}

Extends-trans : (l k j : List Action) → Extends l k → Extends k j → Extends l j
Extends-trans l k j h g = (
  g.0,
  λ run target a found.
      let (b, at_b, keep_b) = h.1 run target a found in
      let (c, at_c, keep_c) = g.1 run target b at_b in (c, at_c, Keeps-trans a b c keep_b keep_c),
)

put-ok :
    (go : GoText) (canonical : Action → Checked Action) (a : Action) (l k : List Action)
    → put go canonical a l ≡ ok k
    → (validate_recovery_ledger_put_action go (default_state a) ≡ none)
      × ((stored : Action) × (canonical (default_state a) ≡ ok stored)
          × (put_stored stored l ≡ ok k))
unfolding put
put-ok go canonical a l k h = (
  ground arith,
  elim (Checked-cases (canonical (default_state a))) [
    | inl (stored, e) ↦ (stored, e, ground arith)
    | inr (x, e) ↦ (a, ground arith, ground arith)
  ],
)

put_validated :
    (go : GoText) (a : Action)
    → validate_recovery_ledger_put_action go a ≡ none
    → a.state ≢ restored
unfolding validate_recovery_ledger_put_action
put_validated go a h = ground arith

module _ (go : GoText) (canonical : Action → Checked Action)
    (state_kept : (a b : Action) → canonical a ≡ ok b → b.state ≡ a.state) where
  put-Extends :
      (a : Action) (l : List Action) (r : Checked (List Action))
      → put go canonical a l ≡ r
      → Unique l
      → Extends l (kept l r)
  put-Extends a l (err e) h u = Extends-refl l u
  put-Extends a l (ok k) h u =
      let (passed, rest) = put-ok go canonical a l k h in
      let (stored, form, put_it) = rest in
      put_stored-Extends stored l k
        (λ e. put_validated go (default_state a) passed (sym (state_kept _ stored form) ∙ e)) u
        put_it

  marked-Extends :
      (run target : String) (l : List Action) (r : Checked (List Action))
      → mark_restored go run target l ≡ r
      → Unique l
      → Extends l (kept l r)
  unfolding mark_restored
  marked-Extends run target l (err e) h u = Extends-refl l u
  marked-Extends run target l (ok k) h u =
      subst (Extends l) (marked_to h) (mark_first-Extends run target l u)
    where
      marked_to : mark_restored go run target l ≡ ok k → mark_first run target l ≡ k
      marked_to e = ground arith

  step-Extends : (l : List Action) (o : Operation) → Unique l → Extends l (step go canonical l o)
  unfolding step
  step-Extends l (puts a) u = put-Extends a l (put go canonical a l) refl u
  step-Extends l (marks run target) u =
      marked-Extends run target l (mark_restored go run target l) refl u

  -- Whatever sequence of Put and MarkRestored calls the program makes, and whichever of them fail, a
  -- file that holds one action for each run and target goes on to do so; every action that it holds
  -- is still found afterwards, with its kind, its sequence number and its payloads as recorded; its
  -- state has moved only along the allowed transitions or to restored, which never lead back from
  -- applied to planned, from a restore to applied, or from restored; and once it is restored nothing
  -- about it changes. `canonical` may rewrite the payloads of a new action, not its state.
  pub run_operations-Extends :
      (l : List Action) (os : List Operation)
      → Unique l
      → Extends l (run_operations go canonical l os)
  unfolding run_operations
  run_operations-Extends l [] u = Extends-refl l u
  run_operations-Extends l (o ∷ os) u =
      let first = step-Extends l o u in
      Extends-trans l (step go canonical l o) _ first
        (run_operations-Extends (step go canonical l o) os first.0)
