-- ===== src/Gsbench/Store/Restoring.antt =====
-- The journal of internal/gsbench/journal.go over the SQL store of internal/gsbench/sqlstore.go: a
-- restore without an error leaves nothing to restore.
use gstop.Base.{
  ℕ, ◌≡◌, refl, String, Bool, true, false, List, Option, none, some, if◌then◌else◌, if-elim, ◌∙◌,
  sym, ap, subst,
}
use gstop.Gsbench.Action.{Action, ActionError, MutationState, restoring, restored}
use gstop.Gsbench.Action.Secrets.{GoText}
use gstop.Gsbench.Action.ErrorText.{journal_safe_error_text}
use gstop.Gsbench.Journal.Calls.{Backend, M, pure, Fallible, ok, err}
use gstop.Gsbench.Journal.{
  mark_restored, mark_restore_failed, undo, undo_claimed, restore_action, is_restored, RestoreError,
  mark_restored_failed, mark_restoring_failed, action_skips_planned_inverse_when_restored,
}
use gstop.Gsbench.Store.{
  Row, matches, update_where, written, claims, same_state, World, Answer, done, lost, refused,
  next_answer, answer, perform, set_state, claim_action, keyless, nullable_string, missing_key,
  failure, Executor, sql_journal,
}
use gstop.Gsbench.Store.Claims.{answered-claimable}
use gstop.Gsbench.Store.Keys.{
  change, find-claims_own, find, Unique, same_key, find-written, find-claims, claim_row, claimable,
  same_key_self, update_where-Unique,
}

-- The action has a row.
abbrev Present : Action → List Row → Type 0
Present a rows = (r : Row) × (find a.run_id a.sequence rows ≡ some r)

-- Rows of other actions stay as they are.
abbrev pub Kept : Action → List Row → List Row → Type 0
Kept a before after =
    ((run : String) (id : ℕ)
      → same_key run id a.run_id a.sequence ≡ false
      → find run id after ≡ find run id before)
    × (Unique before → Unique after)

-- ... and the row of this one is marked restored.
abbrev pub Marked : Action → List Row → List Row → Type 0
Marked a before after =
    Kept a before after
    × ((r : Row) × (find a.run_id a.sequence after ≡ some r) × (r.state ≡ restored))

Kept-Marked : (a : Action) (r s t : List Row) → Kept a r s → Marked a s t → Marked a r t
Kept-Marked a r s t k m = ((λ run id n. m.0.0 run id n ∙ k.0 run id n, λ u. m.0.1 (k.1 u)), m.1)

answer-failure :
    {A : Type 0} (y : Answer) (a : A) (after before : List Row)
    → failure (answer y a after before).0 ≡ none
    → (answer y a after before).1 ≡ after
unfolding answer
answer-failure done a after before h = refl
answer-failure (lost e) a after before h = absurd (let q : ⊥ = cc in q)
answer-failure (refused e) a after before h = absurd (let q : ⊥ = cc in q)

module _ (go : GoText) (describe : ActionError → String) {E : Type 0} where
  set_state-rows :
      (a : Action) (s : MutationState) (detail : String) (w : World E)
      → (set_state go describe a s detail w).0 ≡ none
      → (set_state go describe a s detail w).1.rows
        ≡ update_where
            (matches a.run_id a.sequence)
            (written s (nullable_string (journal_safe_error_text go detail)))
            w.rows
  unfolding set_state perform
  set_state-rows a s detail w =
      let after =
        update_where (matches a.run_id a.sequence)
          (written s (nullable_string (journal_safe_error_text go detail))) w.rows in
      if-elim (λ (r : Fallible (Unit {0}) × World E). failure r.0 ≡ none → r.1.rows ≡ after)
        (keyless go a) (err missing_key, w) (perform w tt after)
        (λ q h. absurd (let k : ⊥ = cc in k))
        (λ q h. answer-failure (next_answer w.answers).0 tt after w.rows h)

  set_state-Marked :
      (a : Action) (w : World E)
      → Present a w.rows
      → (set_state go describe a restored "" w).0 ≡ none
      → Marked a w.rows (set_state go describe a restored "" w).1.rows
  set_state-Marked a w p h =
      let e = nullable_string (journal_safe_error_text go "") in
      let q = set_state-rows a restored "" w h in
      (
        (
          λ run id n.
              ap (find run id) q
              ∙ find-written run a.run_id id a.sequence restored e w.rows
              ∙ rw n refl,
          λ u.
              subst Unique (sym q)
                (update_where-Unique (matches a.run_id a.sequence) restored e w.rows u),
        ),
        (
          written restored e p.0,
          ap (find a.run_id a.sequence) q
              ∙ find-written a.run_id a.run_id a.sequence a.sequence restored e w.rows
              ∙ rw (same_key_self a.run_id a.sequence, p.1) refl,
          refl,
        ),
      )

no_error :
    (o : Option String) (f : String → RestoreError)
    → (elim o as (λ _. Option RestoreError) [ none ↦ none | some e ↦ some (f e) ]) ≡ none
    → o ≡ none
no_error none f h = refl
no_error (some e) f h = absurd (let q : ⊥ = cc in q)

-- A property of a step that goes by an optional error is one of both its ways.
by_error :
    {W : Type 0} (P : Option RestoreError → W → Type 0) (o : Option String)
    (f : String → M W (Option RestoreError)) (m : M W (Option RestoreError)) (w : W)
    → ((e : String) → P (f e w).0 (f e w).2)
    → P (m w).0 (m w).2
    → (let r = (elim o as (λ _. M W (Option RestoreError)) [ none ↦ m | some e ↦ f e ]) w in
        P r.0 r.2)
by_error P none f m w h k = k
by_error P (some e) f m w h k = h e

module _ (go : GoText) (describe : ActionError → String) {E : Type 0} (x : Executor E) where
  abbrev pub B : Backend (World E)
  B = sql_journal go describe x

  mark_restored-Marked :
      (a : Action) (w : World E)
      → Present a w.rows
      → (mark_restored go B a w).0 ≡ none
      → Marked a w.rows (mark_restored go B a w).2.rows
  unfolding mark_restored sql_journal
  mark_restored-Marked a w p h =
      set_state-Marked go describe a w p (no_error _ (mark_restored_failed a.sequence) h)

  undo-Marked :
      (a : Action) (w : World E)
      → Present a w.rows
      → (undo go B a w).0 ≡ none
      → Marked a w.rows (undo go B a w).2.rows
  unfolding undo sql_journal mark_restore_failed
  undo-Marked a w p =
      let v = record w { machine = (x.restore a w.machine).1 } in
      by_error (λ o u. o ≡ none → Marked a w.rows u.rows) (x.restore a w.machine).0 _ _ v
        (λ e h. absurd (let q : ⊥ = cc in q))
        (by_error (λ o u. o ≡ none → Marked a w.rows u.rows) (x.verify_restored a v.machine).0 _ _ _
          (λ e h. absurd (let q : ⊥ = cc in q))
          (mark_restored-Marked a (record v { machine = (x.verify_restored a v.machine).1 }) p))

  undo_claimed-Marked :
      (a : Action) (w : World E)
      → Present a w.rows
      → (undo_claimed go B a w).0 ≡ none
      → Marked a w.rows (undo_claimed go B a w).2.rows
  unfolding undo_claimed sql_journal
  undo_claimed-Marked a w p =
      let v = record w { machine = (x.verify_restored a w.machine).1 } in
      if-elim
        (λ (m : M (World E) (Option RestoreError)). (m w).0 ≡ none → Marked a w.rows (m w).2.rows)
        (action_skips_planned_inverse_when_restored go a) _ (undo go B a)
        (λ q.
          by_error (λ o u. o ≡ none → Marked a w.rows u.rows) (x.verify_restored a w.machine).0 _ _
            v (λ e. undo-Marked a v p) (mark_restored-Marked a v p))
        (λ q. undo-Marked a w p)

  -- A property of a restore after an answered claim is one of its three ways.
  by_claim :
      (P : Option RestoreError → World E → Type 0) (r : Fallible Bool) (a : Action) (w : World E)
      → (r ≡ ok true → P (undo_claimed go B a w).0 (undo_claimed go B a w).2)
      → (r ≡ ok false → P none w)
      → ((e : RestoreError) → P (some e) w)
      → (let t =
            (elim r as (λ _. M (World E) (Option RestoreError)) [
              | err e ↦ pure (some (mark_restoring_failed a.sequence e))
              | ok mine ↦ if mine then undo_claimed go B a else pure none
            ])
              w in
          P t.0 t.2)
  by_claim P (ok true) a w h k l = h refl
  by_claim P (ok false) a w h k l = k refl
  by_claim P (err e) a w h k l = l (mark_restoring_failed a.sequence e)

  claim_action-Kept :
      (a : Action) (b : Bool) (w : World E)
      → Unique w.rows
      → (claim_action go describe a w).0 ≡ ok b
      → Present a w.rows
      → Kept a w.rows (claim_action go describe a w).1.rows
        × Present a (claim_action go describe a w).1.rows
  claim_action-Kept a b w u h p =
      let q = (answered-claimable go describe a b w u h).1 in
      (
        (
          λ run id n. ap (find run id) q ∙ find-claims run id a w.rows ∙ rw n refl,
          λ v. subst Unique (sym q) (update_where-Unique (claims a) restoring none w.rows v),
        ),
        (
          claim_row a.state p.0,
          ap (find a.run_id a.sequence) q
              ∙ find-claims_own a w.rows
              ∙ ap (change (claim_row a.state)) p.1,
        ),
      )

  pub restore_action-Marked :
      (a : Action) (w : World E)
      → Unique w.rows
      → ((r : Row) × (find a.run_id a.sequence w.rows ≡ some r)
          × (same_state r.state a.state ≡ true))
      → is_restored a.state ≡ false
      → (restore_action go B a w).0 ≡ none
      → Marked a w.rows (restore_action go B a w).2.rows
  unfolding restore_action sql_journal mark_restore_failed
  restore_action-Marked a w u f n =
      let v : World E = record w { machine = (x.preflight a w.machine).1 } in
      let c = claim_action go describe a v in
      rw n (
        by_error (λ o t. o ≡ none → Marked a w.rows t.rows) (x.preflight a w.machine).0 _ _ v
          (λ e h. absurd (let q : ⊥ = cc in q))
          (by_claim (λ o t. o ≡ none → Marked a w.rows t.rows) c.0 a c.1
            (λ q h.
              let k = claim_action-Kept a true v u q (f.0, f.1) in
              Kept-Marked a w.rows c.1.rows (undo_claimed go B a c.1).2.rows k.0
                (undo_claimed-Marked a c.1 k.1 h))
            (λ q h.
              let g = (answered-claimable go describe a false v u q).0 in
              let l : claimable (find a.run_id a.sequence w.rows) a.state ≡ true = rw f.1 f.2 in
              absurd (let z : ⊥ = cc in z))
            (λ e h. absurd (let q : ⊥ = cc in q))))
