-- ===== src/Gsbench/Restore/Summaries.antt =====
-- Restore of internal/gsbench/restore.go: its summary and what it has done.
use gstop.Base.{
  ◌≡◌, ◌≢◌, refl, String, Bool, true, false, ◌||◌, not, List, [], ◌∷◌, ◌++◌, Option, none, some,
  ◌⊎◌, inl, inr, All, sym, subst,
}
use gstop.Gsbench.Action.{Action}
use gstop.Gsbench.Journal.{push}
use gstop.Gsbench.Restore.Calls.{
  Outcome, success, completed_with_warnings, unverified, not_applicable, degraded, not_implemented,
  failed, restore_failed, unset_outcome, Coordinator, Call, RestoreRequest, RestoreSummary, Event,
  sessions, external_control, configuration, database, redetect_failed, redetected, verified,
  released, marked, mark_failed, RestoreError, verify_failed, release_failed, wrap, listed,
}
use gstop.Gsbench.Restore.{
  is_nil, for_runs, mark_runs, after_mark, mark_terminal_restore_outcomes, judge,
  successful_restore_run_outcome, complete, finalize, carry_out, restore_plan, request_restore,
  stop_sessions, restore_stages, repair, reconcile, restore_actions_contain_plan_change,
}
use gstop.Gsbench.Restore.Marks.{last_mark, Marked, All-map}
use gstop.Gsbench.Restore.Outcomes.{before-Marked, after-Marked, mark_terminal-Agrees}

abbrev is_good_verification : Event → Bool
is_good_verification (verified none) = true
is_good_verification _ = false

-- The state has been verified, without an error.
abbrev pub is_verified : List Event → Bool
is_verified [] = false
is_verified (x ∷ l) = is_good_verification x || is_verified l

abbrev is_release : Event → Bool
is_release (released e) = true
is_release _ = false

-- The last call releases the lock.
abbrev pub ends_released : List Event → Bool
ends_released [] = false
ends_released (x ∷ []) = is_release x
ends_released (x ∷ (y ∷ l)) = ends_released (y ∷ l)

ends_released-append : (l k : List Event) → ends_released k ≡ true → ends_released (l ++ k) ≡ true
ends_released-append [] k h = h
ends_released-append (x ∷ []) [] h = absurd (let q : ⊥ = cc in q)
ends_released-append (x ∷ []) (y ∷ k) h = h
ends_released-append (x ∷ (y ∷ l)) k h = ends_released-append (y ∷ l) k h

or_true : (b c : Bool) → c ≡ true → (b || c) ≡ true
or_true true c h = refl
or_true false c h = h

or_left : (a b c : Bool) → (b ≡ true → c ≡ true) → (a || b) ≡ true → (a || c) ≡ true
or_left true b c f h = refl
or_left false b c f h = f h

is_verified-append : (l k : List Event) → is_verified k ≡ true → is_verified (l ++ k) ≡ true
is_verified-append [] k h = h
is_verified-append (x ∷ l) k h =
    or_true (is_good_verification x) (is_verified (l ++ k)) (is_verified-append l k h)

is_verified-before : (l k : List Event) → is_verified l ≡ true → is_verified (l ++ k) ≡ true
is_verified-before [] k h = absurd (let q : ⊥ = cc in q)
is_verified-before (x ∷ l) k h =
    or_left (is_good_verification x) (is_verified l) (is_verified (l ++ k)) (is_verified-before l k)
      h

append-nil : (a b : List RestoreError) → a ++ b ≡ [] → b ≡ []
append-nil [] b h = h
append-nil (e ∷ a) b h = absurd (let q : ⊥ = cc in q)

judge-nil : (v : Option String) (b : Bool) (es : List RestoreError) → judge v b es ≡ [] → v ≡ none
judge-nil none b es h = refl
judge-nil (some e) b es h =
    let k = append-nil es (verify_failed e ∷ []) h in absurd (let q : ⊥ = cc in q)

has_error : (a b c : List RestoreError) → a ≢ [] → not (is_nil ((a ++ b) ++ c)) ≡ true
unfolding is_nil
has_error [] b c n = absurd (n refl)
has_error (e ∷ a) b c n = refl

abbrev pub In : {A : Type 0} → A → List A → Type 0
In x [] = ⊥
In x (y ∷ l) = (x ≡ y) ⊎ In x l

-- How a restore that has succeeded closes its runs: with the outcome that was asked for, if it is one
-- of five, and else with SUCCESS.
abbrev pub IsClosing : Outcome → Outcome → Type 0
IsClosing asked final =
    (In asked (success ∷ not_applicable ∷ degraded ∷ not_implemented ∷ failed ∷ [])
      × (final ≡ asked))
    ⊎ (In asked (completed_with_warnings ∷ unverified ∷ restore_failed ∷ unset_outcome ∷ [])
        × (final ≡ success))

successful-IsClosing : (o : Outcome) → IsClosing o (successful_restore_run_outcome o)
unfolding successful_restore_run_outcome
successful-IsClosing success = inl (inl refl, refl)
successful-IsClosing not_applicable = inl (inr (inl refl), refl)
successful-IsClosing degraded = inl (inr (inr (inl refl)), refl)
successful-IsClosing not_implemented = inl (inr (inr (inr (inl refl))), refl)
successful-IsClosing failed = inl (inr (inr (inr (inr (inl refl)))), refl)
successful-IsClosing completed_with_warnings = inr (inl refl, refl)
successful-IsClosing unverified = inr (inr (inl refl), refl)
successful-IsClosing restore_failed = inr (inr (inr (inl refl)), refl)
successful-IsClosing unset_outcome = inr (inr (inr (inr (inl refl))), refl)

-- Each run has been marked with the outcome, and the mark was answered without an error.
abbrev pub Answered : Outcome → List String → List Event → Type 0
Answered o runs l = All (λ run. In (marked run o none) l) runs

In-left : (x : Event) (l k : List Event) → In x l → In x (l ++ k)
In-left x [] k h = absurd h
In-left x (y ∷ l) k (inl e) = inl e
In-left x (y ∷ l) k (inr h) = inr (In-left x l k h)

In-right : (x : Event) (l k : List Event) → In x k → In x (l ++ k)
In-right x [] k h = h
In-right x (y ∷ l) k h = inr (In-right x l k h)

before-Answered :
    (o : Outcome) (runs : List String) (l k : List Event)
    → Answered o runs l
    → Answered o runs (l ++ k)
before-Answered o runs l k =
    All-map (λ run. In (marked run o none) l) (λ run. In (marked run o none) (l ++ k)) runs
      (λ run h. In-left (marked run o none) l k h)

after-Answered :
    (o : Outcome) (runs : List String) (l k : List Event)
    → Answered o runs k
    → Answered o runs (l ++ k)
after-Answered o runs l k =
    All-map (λ run. In (marked run o none) k) (λ run. In (marked run o none) (l ++ k)) runs
      (λ run h. In-right (marked run o none) l k h)

nil-append : (a b : List RestoreError) → a ++ b ≡ [] → a ≡ []
nil-append [] b h = refl
nil-append (e ∷ a) b h = absurd (let q : ⊥ = cc in q)

nil-cases : (a : List RestoreError) → (a ≡ []) ⊎ (a ≢ [])
nil-cases [] = inl refl
nil-cases (e ∷ a) = inr (λ h. (let q : ⊥ = cc in q))

-- The marks of a run and of those after it, by the answer for the first.
first-Answered :
    {W : Type 0} (run : String) (o : Outcome) (e : Option String) (runs : List String)
    (rest : Outcome → (Outcome × List RestoreError × List String) × List Event × W)
    → push (wrap (mark_failed run o) e) (rest (after_mark o e)).0.1 ≡ []
    → ((rest o).0.1 ≡ [] → Answered o runs (rest o).1)
    → Answered o (run ∷ runs) (marked run o e ∷ ((rest (after_mark o e)).1 ++ []))
unfolding after_mark
first-Answered run o none runs rest h f = (
  inl refl,
  after-Answered o runs (marked run o none ∷ []) _ (before-Answered o runs (rest o).1 [] (f h)),
)
first-Answered run o (some e) runs rest h f = absurd (let q : ⊥ = cc in q)

module _ {W : Type 0} (B : Coordinator W) where
  -- A restore without an error up to the verification has verified the state.
  carry_out-verified :
      (runs : List String) (actions : List Action) (w : W)
      → (carry_out B runs actions w).0 ≡ []
      → is_verified (carry_out B runs actions w).1 ≡ true
  unfolding carry_out
  carry_out-verified runs actions w h =
      let r1 = for_runs B (request_restore B) runs w in
      let r2 = for_runs B (stop_sessions B) runs r1.2 in
      let r3 =
        restore_stages B actions (sessions ∷ external_control ∷ configuration ∷ database ∷ []) runs
          r2.2 in
      let r4 = repair B (restore_actions_contain_plan_change B actions) r3.2 in
      let r5 = reconcile B B.reconcile_restored_actions actions r3.0 r4.2 in
      let e = B.redetect_topology r5.2 in
      let v = B.verify_restore runs actions e.1 in
      let errs4 = listed (wrap redetect_failed e.0) ++ judge v.0 r5.0.1 r3.0 in
      let errs3 = r5.0.0 ++ errs4 in
      let errs2 = r4.0 ++ errs3 in
      let errs1 = r2.0 ++ errs2 in
      let h5 = append-nil (listed (wrap redetect_failed e.0)) (judge v.0 r5.0.1 r3.0) (
        append-nil r5.0.0 errs4
          (append-nil r4.0 errs3 (append-nil r2.0 errs2 (append-nil r1.0 errs1 h)))) in
      let l5 = redetected e.0 ∷ verified v.0 ∷ [] in
      let l4 = r5.1 ++ l5 in
      let l3 = r4.1 ++ l4 in
      let l2 = r3.1 ++ l3 in
      let l1 = r2.1 ++ l2 in
      is_verified-append r1.1 l1 (
        is_verified-append r2.1 l2 (
          is_verified-append r3.1 l3 (
            is_verified-append r4.1 l4
              (is_verified-append r5.1 l5 (answered v.0 (judge-nil v.0 r5.0.1 r3.0 h5))))))
    where
      answered :
          (v : Option String) → v ≡ none → (is_good_verification (verified v) || false) ≡ true
      answered v e = rw e refl

  complete-unmarked :
      (f : Option (Call W)) (errs : List RestoreError) (w : W) (r : Option String) (run : String)
      → last_mark run ((complete B f errs w).1 ++ released r ∷ []) ≡ none
  unfolding complete last_mark
  complete-unmarked none errs w r run = refl
  complete-unmarked (some f) (e ∷ errs) w r run = refl
  complete-unmarked (some f) [] w r run = refl

  -- Where the first marks have told no error, each run has a mark that was answered without one.
  mark_runs-Answered :
      (o : Outcome) (runs : List String) (w : W)
      → (mark_runs B o runs w).0.1 ≡ []
      → Answered o runs (mark_runs B o runs w).1
  unfolding mark_runs
  mark_runs-Answered o [] w h = tt
  mark_runs-Answered o (run ∷ runs) w h =
      let m = B.mark_restore_outcome run o w in
      first-Answered run o m.0 runs (λ o'. mark_runs B o' runs m.1) h
        (mark_runs-Answered o runs m.1)

  mark_terminal-Answered :
      (o : Outcome) (runs : List String) (w : W)
      → (mark_terminal_restore_outcomes B o runs w).0 ≡ []
      → Answered o runs (mark_terminal_restore_outcomes B o runs w).1
  unfolding mark_terminal_restore_outcomes
  mark_terminal-Answered o runs w h =
      let first = mark_runs B o runs w in
      before-Answered o runs first.1 _ (mark_runs-Answered o runs w (nil-append first.0.1 _ h))

  abbrev Finished :
      RestoreRequest W → List String → List RestoreError → RestoreSummary → List Event → Type 0
  Finished request runs errs s l =
      let asked = request.completed_outcome in
      (final : Outcome) × Marked final runs l
      × (IsClosing asked final ⊎ (final ≡ restore_failed))
      × ((s.has_failed ≡ true) ⊎ (IsClosing asked final × (Answered final runs l × (errs ≡ []))))
      × (ends_released l ≡ true)

  finalize-Finished :
      (request : RestoreRequest W) (runs : List String) (errs : List RestoreError) (w : W)
      → Finished request runs errs
          (finalize B request runs errs w).0
          (finalize B request runs errs w).1
  unfolding finalize is_nil
  finalize-Finished request runs [] w =
      let asked = request.completed_outcome in
      let done = successful_restore_run_outcome asked in
      let t = mark_terminal_restore_outcomes B done runs w in
      let a = mark_terminal-Agrees B done runs w in
      let c = complete B request.after_success t.0 t.2 in
      let r = (B.release c.2).0 in
      let k = c.1 ++ released r ∷ [] in
      let closing : (o : Outcome) → o ≡ done → IsClosing asked o =
        λ o q. subst (IsClosing asked) (sym q) (successful-IsClosing asked) in
      (
        a.0,
        before-Marked a.0 runs t.1 k (complete-unmarked request.after_success t.0 t.2 r) a.1,
        elim a.2 [ inl q ↦ inl (closing a.0 q) | inr q ↦ inr q ],
        elim (nil-cases t.0) [
          | inr n ↦ inl (has_error t.0 c.0 (listed (wrap release_failed r)) n)
          | inl z ↦ elim a.3 [
            | inl n ↦ absurd (n z)
            | inr q ↦ inr (
              closing a.0 q,
              (
                before-Answered a.0 runs t.1 k (
                    subst (λ o. Answered o runs t.1) (sym q)
                      (mark_terminal-Answered done runs w z)),
                refl,
              ),
            )
          ]
        ],
        ends_released-append t.1 k (ends_released-append c.1 (released r ∷ []) refl),
      )
  finalize-Finished request runs (e ∷ errs) w =
      let t = mark_terminal_restore_outcomes B restore_failed runs w in
      let a = mark_terminal-Agrees B restore_failed runs w in
      let c = complete B request.after_success ((e ∷ errs) ++ t.0) t.2 in
      let r = (B.release c.2).0 in
      (
        a.0,
        before-Marked a.0 runs t.1 (c.1 ++ released r ∷ [])
            (complete-unmarked request.after_success ((e ∷ errs) ++ t.0) t.2 r) a.1,
        elim a.2 [ inl q ↦ inr q | inr q ↦ inr q ],
        inl refl,
        ends_released-append t.1 (c.1 ++ released r ∷ [])
            (ends_released-append c.1 (released r ∷ []) refl),
      )

-- What a restore from a plan leaves behind, whatever its calls answer. One outcome is the last that
-- is marked, or attempted to be, for each of its runs: RESTORE_FAILED or the one that closes the
-- restore, where SUCCESS, NOT_APPLICABLE, DEGRADED, NOT_IMPLEMENTED and FAILED close it as they were
-- asked for and any other request closes it with SUCCESS. The last call releases the lock. Where the
-- summary tells no failure, the outcome is the closing one, each run's mark with it was answered
-- without an error, and the restored state was verified without an error.
pub restore_plan-agrees :
    {W : Type 0} (B : Coordinator W) (request : RestoreRequest W) (runs : List String)
    (actions : List Action) (w : W)
    → let asked = request.completed_outcome in
      let s = (restore_plan B request runs actions w).0 in
      let l = (restore_plan B request runs actions w).1 in
      (final : Outcome) × Marked final runs l
      × (IsClosing asked final ⊎ (final ≡ restore_failed))
      × ((s.has_failed ≡ true)
          ⊎ (IsClosing asked final × (Answered final runs l × (is_verified l ≡ true))))
      × (ends_released l ≡ true)
unfolding restore_plan
restore_plan-agrees B request runs actions w =
    let c = carry_out B runs actions w in
    let f = finalize-Finished B request runs c.0 c.2 in
    let k = (finalize B request runs c.0 c.2).1 in
    (
      f.0,
      after-Marked f.0 runs c.1 k f.1,
      f.2,
      elim f.3 [
        | inl q ↦ inl q
        | inr (q, (m, e)) ↦ inr (
          q,
          (
            after-Answered f.0 runs c.1 k m,
            is_verified-before c.1 k (carry_out-verified B runs actions w e),
          ),
        )
      ],
      ends_released-append c.1 k f.4,
    )
