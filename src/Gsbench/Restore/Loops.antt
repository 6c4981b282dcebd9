-- ===== src/Gsbench/Restore/Loops.antt =====
-- The two loops of markTerminalRestoreOutcomes, internal/gsbench/restore.go.
use gstop.Base.{
  ◌≡◌, refl, String, false, List, [], ◌∷◌, ◌++◌, Option, none, some, ◌∙◌, sym, subst, ◌≢◌, ◌⊎◌, inl,
  inr, All,
}
use gstop.Gsbench.Journal.{push}
use gstop.Gsbench.Restore.Calls.{
  Outcome, restore_failed, Coordinator, Event, marked, RestoreError, wrap, mark_failed,
}
use gstop.Gsbench.Restore.{is_restore_failed, after_mark, with_run, for_runs, mark_runs, mark_again}
use gstop.Gsbench.Restore.Marks.{
  last_mark, Marked, Only, Member, All-map, head_mark, head-Marked, head-Only,
}

after_mark-failed : (e : Option String) → after_mark restore_failed e ≡ restore_failed
unfolding after_mark
after_mark-failed none = refl
after_mark-failed (some x) = refl

module _ {W : Type 0} (B : Coordinator W) where
  abbrev pub Marks : Type 0
  Marks = (Outcome × List RestoreError × List String) × List Event × W

  -- The loop went through with its outcome.
  abbrev pub Kept : Outcome → List String → Marks → Type 0
  Kept o runs m = (m.0.0 ≡ o) × Marked o runs m.1 × Only o m.1

  -- The loop ended with a failure: it has told an error, and each run is to be marked again or is
  -- marked so.
  abbrev pub Broke : List String → Marks → Type 0
  Broke runs m =
      (m.0.0 ≡ restore_failed)
      × (m.0.1 ≢ [])
      × All (λ run. Member run m.0.2 ⊎ (last_mark run m.1 ≡ some restore_failed)) runs

  pub mark_runs-Kept :
      (runs : List String) (w : W) → Kept restore_failed runs (mark_runs B restore_failed runs w)
  unfolding mark_runs last_mark
  mark_runs-Kept [] w = (refl, tt, λ run. inl refl)
  mark_runs-Kept (run ∷ runs) w =
      let (e, v) = B.mark_restore_outcome run restore_failed w in
      let t =
        subst (λ o. Kept restore_failed runs (mark_runs B o runs v)) (sym (after_mark-failed e))
          (mark_runs-Kept runs v) in
      let l = (mark_runs B (after_mark restore_failed e) runs v).1 in
      (t.0, head-Marked run runs restore_failed e l t.2 t.1, head-Only run restore_failed e l t.2)

  -- What a mark and the loop after it make together.
  abbrev after_run : Outcome → String → Option String → Marks → Marks
  after_run o run e m = (
    (m.0.0, push (wrap (mark_failed run o) e) m.0.1, with_run o run m.0.2),
    marked run o e ∷ (m.1 ++ []),
    m.2,
  )

  later-Broke :
      (o : Outcome) (run : String) (e : Option String) (runs : List String) (m : Marks)
      → All (λ r. Member r m.0.2 ⊎ (last_mark r m.1 ≡ some restore_failed)) runs
      → All
          (λ r.
            Member r (run ∷ m.0.2)
            ⊎ (last_mark r (marked run o e ∷ (m.1 ++ [])) ≡ some restore_failed))
          runs
  later-Broke o run e runs m a =
      All-map (λ r. Member r m.0.2 ⊎ (last_mark r m.1 ≡ some restore_failed))
        (λ r.
          Member r (run ∷ m.0.2)
          ⊎ (last_mark r (marked run o e ∷ (m.1 ++ [])) ≡ some restore_failed))
        runs
        (λ r h. elim h [ inl k ↦ inl (inr k) | inr q ↦ inr (head_mark r run o e m.1 ∙ rw q refl) ])
        a

  pub mark_runs-Ends :
      (o : Outcome) (runs : List String) (w : W)
      → is_restore_failed o ≡ false
      → Kept o runs (mark_runs B o runs w) ⊎ Broke runs (mark_runs B o runs w)
  unfolding mark_runs last_mark after_mark with_run
  mark_runs-Ends o [] w n = inl (refl, tt, λ run. inl refl)
  mark_runs-Ends o (run ∷ runs) w n =
      let (e, v) = B.mark_restore_outcome run o w in
      by_answer v e (mark_runs-Ends o runs v n) (mark_runs-Kept runs v)
    where
      again-Broke :
          (e : Option String) (m : Marks)
          → All (λ r. Member r m.0.2 ⊎ (last_mark r m.1 ≡ some restore_failed)) runs
          → All
              (λ r.
                Member r (with_run o run m.0.2)
                ⊎ (last_mark r (marked run o e ∷ (m.1 ++ [])) ≡ some restore_failed))
              (run ∷ runs)
      again-Broke e m a =
          let q : run ∷ m.0.2 ≡ with_run o run m.0.2 = rw n refl in
          subst
            (λ rc.
              All
                (λ r.
                  Member r rc ⊎ (last_mark r (marked run o e ∷ (m.1 ++ [])) ≡ some restore_failed))
                (run ∷ runs))
            q (inl (inl refl), later-Broke o run e runs m a)

      by_answer :
          (v : W) (e : Option String)
          → Kept o runs (mark_runs B o runs v) ⊎ Broke runs (mark_runs B o runs v)
          → Kept restore_failed runs (mark_runs B restore_failed runs v)
          → Kept o (run ∷ runs) (after_run o run e (mark_runs B (after_mark o e) runs v))
            ⊎ Broke (run ∷ runs) (after_run o run e (mark_runs B (after_mark o e) runs v))
      by_answer v none (inl t) k =
          let l = (mark_runs B o runs v).1 in
          inl (t.0, head-Marked run runs o none l t.2 t.1, head-Only run o none l t.2)
      by_answer v none (inr t) k = inr (t.0, t.1, again-Broke none (mark_runs B o runs v) t.2)
      by_answer v (some x) t k =
          let m = mark_runs B restore_failed runs v in
          inr (
            k.0,
            λ q. (let z : ⊥ = cc in z),
            again-Broke (some x) m (
                All-map (λ r. last_mark r m.1 ≡ some restore_failed)
                  (λ r. Member r m.0.2 ⊎ (last_mark r m.1 ≡ some restore_failed)) runs
                  (λ r h. inr h) k.1),
          )

  -- The second loop marks each of its runs, and with a failure only.
  pub mark_again-Marked :
      (runs : List String) (w : W)
      → Marked restore_failed runs (for_runs B (mark_again B) runs w).1
        × Only restore_failed (for_runs B (mark_again B) runs w).1
  unfolding for_runs mark_again last_mark
  mark_again-Marked [] w = (tt, λ run. inl refl)
  mark_again-Marked (run ∷ runs) w =
      let (e, v) = B.mark_restore_outcome run restore_failed w in
      let t = mark_again-Marked runs v in
      let l = (for_runs B (mark_again B) runs v).1 in
      (head-Marked run runs restore_failed e l t.1 t.0, head-Only run restore_failed e l t.1)
