-- ===== src/Gsbench/Restore/Outcomes.antt =====
-- What a restore, internal/gsbench/restore.go, leaves behind on each of its ways.
use gstop.Base.{
  ◌≡◌, ◌≢◌, refl, String, true, false, ◌||◌, not, List, [], ◌∷◌, ◌++◌, none, some, if-elim, arith,
  ap, ◌∙◌, sym, subst, ◌⊎◌, inl, inr, Bool-cases,
}
use gstop.Gsbench.Restore.Calls.{Outcome, restore_failed, Coordinator, Event, RestoreError, R, pure}
use gstop.Gsbench.Restore.{
  is_restore_failed, for_runs, mark_runs, mark_again, mark_terminal_restore_outcomes,
}
use gstop.Gsbench.Restore.Marks.{
  or_last, last_mark, last_mark-append, Marked, Member, All-member, All-map,
}
use gstop.Gsbench.Restore.Loops.{Kept, Broke, mark_runs-Kept, mark_runs-Ends, mark_again-Marked}

-- One outcome stands for all runs: the one to be marked, or a failure that is told.
abbrev pub Agrees : Outcome → List String → List RestoreError → List Event → Type 0
Agrees initial runs errs l =
    (final : Outcome) × Marked final runs l
    × ((final ≡ initial) ⊎ (final ≡ restore_failed))
    × ((errs ≢ []) ⊎ (final ≡ initial))

is_restore_failed_lem : (o : Outcome) → is_restore_failed o ≡ true → o ≡ restore_failed
unfolding is_restore_failed
is_restore_failed_lem o h = ground arith

test_restore_failed : is_restore_failed restore_failed ≡ true
unfolding is_restore_failed
test_restore_failed = refl

pub before-Marked :
    (o : Outcome) (runs : List String) (l k : List Event)
    → ((run : String) → last_mark run k ≡ none)
    → Marked o runs l
    → Marked o runs (l ++ k)
before-Marked o runs l k n =
    All-map (λ run. last_mark run l ≡ some o) (λ run. last_mark run (l ++ k) ≡ some o) runs
      (λ run h. last_mark-append run l k ∙ rw (n run) h)

pub after-Marked :
    (o : Outcome) (runs : List String) (l k : List Event) → Marked o runs k → Marked o runs (l ++ k)
after-Marked o runs l k =
    All-map (λ run. last_mark run k ≡ some o) (λ run. last_mark run (l ++ k) ≡ some o) runs
      (λ run h. last_mark-append run l k ∙ rw h refl)

append-not-nil : (a b : List RestoreError) → a ≢ [] → (a ++ b) ≢ []
append-not-nil [] b n h = n refl
append-not-nil (e ∷ a) b n h = (let q : ⊥ = cc in q)

last_mark-twice :
    (run : String) (l k : List Event)
    → last_mark run (l ++ (k ++ [])) ≡ or_last (last_mark run k) (last_mark run l)
unfolding last_mark
last_mark-twice run l k =
    last_mark-append run l (k ++ [])
    ∙ ap (λ q. or_last q (last_mark run l)) (last_mark-append run k [])

module _ {W : Type 0} (B : Coordinator W) (initial : Outcome) (runs : List String) (w : W) where
  first : (Outcome × List RestoreError × List String) × List Event × W
  first = mark_runs B initial runs w

  again : List RestoreError × List Event × W
  again = for_runs B (mark_again B) first.0.2 first.2

  Kept-Agrees : Kept B initial runs first → Agrees initial runs (first.0.1 ++ []) (first.1 ++ [])
  unfolding first last_mark
  Kept-Agrees k =
      (initial, before-Marked initial runs first.1 [] (λ run. refl) k.1, inl refl, inr refl)

  Broke-Agrees :
      Broke B runs first → Agrees initial runs (first.0.1 ++ again.0) (first.1 ++ (again.1 ++ []))
  unfolding first again
  Broke-Agrees b =
      let a = mark_again-Marked B first.0.2 first.2 in
      (
        restore_failed,
        All-map (λ run. Member run first.0.2 ⊎ (last_mark run first.1 ≡ some restore_failed))
            (λ run. last_mark run (first.1 ++ (again.1 ++ [])) ≡ some restore_failed) runs
            (λ run h. last_mark-twice run first.1 again.1 ∙ last run a.0 (a.1 run) h) b.2,
        inr refl,
        inl (append-not-nil first.0.1 again.0 b.1),
      )
    where
      last :
          (run : String)
          → Marked restore_failed first.0.2 again.1
          → (last_mark run again.1 ≡ none) ⊎ (last_mark run again.1 ≡ some restore_failed)
          → Member run first.0.2 ⊎ (last_mark run first.1 ≡ some restore_failed)
          → or_last (last_mark run again.1) (last_mark run first.1) ≡ some restore_failed
      last run a o (inl m) =
          rw (All-member (λ r. last_mark r again.1 ≡ some restore_failed) run first.0.2 a m) refl
      last run a (inl n) (inr h) = rw n h
      last run a (inr q) (inr h) = rw q refl

  pub mark_terminal-Agrees :
      let t = mark_terminal_restore_outcomes B initial runs w in Agrees initial runs t.0 t.1
  unfolding mark_terminal_restore_outcomes first again
  mark_terminal-Agrees =
      if-elim
        (λ (g : R W (List RestoreError)).
          Agrees initial runs (first.0.1 ++ (g first.2).0) (first.1 ++ ((g first.2).1 ++ [])))
        (not (is_restore_failed first.0.0) || is_restore_failed initial) (pure [])
        (for_runs B (mark_again B) first.0.2)
        (λ c. elim (Bool-cases (is_restore_failed initial)) [
          | inl e ↦ Kept-Agrees (
              subst (λ o. Kept B o runs (mark_runs B o runs w))
                (sym (is_restore_failed_lem initial e)) (mark_runs-Kept B runs w))
          | inr n ↦ elim (mark_runs-Ends B initial runs w n) [
            | inl k ↦ Kept-Agrees k
            | inr b ↦ absurd (stuck b.0 n c)
          ]
        ])
        (λ c. elim (Bool-cases (is_restore_failed initial)) [
          | inl e ↦ absurd (failing e c)
          | inr n ↦ elim (mark_runs-Ends B initial runs w n) [
            | inl k ↦ absurd (unbroken (ap is_restore_failed k.0 ∙ n) c)
            | inr b ↦ Broke-Agrees b
          ]
        ])
    where
      stuck :
          first.0.0 ≡ restore_failed
          → is_restore_failed initial ≡ false
          → (not (is_restore_failed first.0.0) || is_restore_failed initial) ≡ true
          → ⊥
      stuck e n c = let k = ap is_restore_failed e ∙ test_restore_failed in ground arith

      failing :
          is_restore_failed initial ≡ true
          → (not (is_restore_failed first.0.0) || is_restore_failed initial) ≡ false
          → ⊥
      failing e c = ground arith

      unbroken :
          is_restore_failed first.0.0 ≡ false
          → (not (is_restore_failed first.0.0) || is_restore_failed initial) ≡ false
          → ⊥
      unbroken e c = ground arith
