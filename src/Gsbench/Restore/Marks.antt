-- ===== src/Gsbench/Restore/Marks.antt =====
-- markTerminalRestoreOutcomes of internal/gsbench/restore.go: what the runs are marked with at last.
use text.Mathlib.Text.{◌==◌ as str_eq}
use text.Mathlib.TextEquality.{eq_iff}
use gstop.Base.{
  ◌≡◌, refl, String, Bool, true, false, List, [], ◌∷◌, ◌++◌, Option, none, some, if◌then◌else◌,
  arith, ap, ◌∙◌, sym, subst, ◌⊎◌, inl, inr, All,
}
use gstop.Gsbench.Restore.Calls.{
  Outcome, Event, marked, requested, stopped, group_restored, repaired, reconciled, redetected,
  verified, completed, released,
}

abbrev pub or_last : Option Outcome → Option Outcome → Option Outcome
or_last (some o) before = some o
or_last none before = before

-- The outcome that a run was marked with last, whatever the answer.
unfoldable pub last_mark : String → List Event → Option Outcome
last_mark run [] = none
last_mark run (marked r o e ∷ l) =
    let rest = last_mark run l in or_last rest (if str_eq run r then some o else none)
last_mark run (requested r e ∷ l) = last_mark run l
last_mark run (stopped r e ∷ l) = last_mark run l
last_mark run (group_restored r s e ∷ l) = last_mark run l
last_mark run (repaired e ∷ l) = last_mark run l
last_mark run (reconciled e ∷ l) = last_mark run l
last_mark run (redetected e ∷ l) = last_mark run l
last_mark run (verified e ∷ l) = last_mark run l
last_mark run (completed e ∷ l) = last_mark run l
last_mark run (released e ∷ l) = last_mark run l

or_last_assoc : (a b c : Option Outcome) → or_last (or_last a b) c ≡ or_last a (or_last b c)
or_last_assoc none b c = refl
or_last_assoc (some o) b c = refl

or_last-none : (a : Option Outcome) → a ≡ or_last a none
or_last-none none = refl
or_last-none (some o) = refl

pub last_mark-append :
    (run : String) (l k : List Event)
    → last_mark run (l ++ k) ≡ or_last (last_mark run k) (last_mark run l)
unfolding last_mark
last_mark-append run [] k = or_last-none (last_mark run k)
last_mark-append run (marked r o e ∷ l) k =
    ap (λ q. or_last q (if str_eq run r then some o else none)) (last_mark-append run l k)
    ∙ or_last_assoc (last_mark run k) (last_mark run l) (if str_eq run r then some o else none)
last_mark-append run (requested r e ∷ l) k = last_mark-append run l k
last_mark-append run (stopped r e ∷ l) k = last_mark-append run l k
last_mark-append run (group_restored r s e ∷ l) k = last_mark-append run l k
last_mark-append run (repaired e ∷ l) k = last_mark-append run l k
last_mark-append run (reconciled e ∷ l) k = last_mark-append run l k
last_mark-append run (redetected e ∷ l) k = last_mark-append run l k
last_mark-append run (verified e ∷ l) k = last_mark-append run l k
last_mark-append run (completed e ∷ l) k = last_mark-append run l k
last_mark-append run (released e ∷ l) k = last_mark-append run l k

-- Every run is marked with the outcome last.
abbrev pub Marked : Outcome → List String → List Event → Type 0
Marked o runs l = All (λ run. last_mark run l ≡ some o) runs

-- No mark but with the outcome.
abbrev pub Only : Outcome → List Event → Type 0
Only o l = (run : String) → (last_mark run l ≡ none) ⊎ (last_mark run l ≡ some o)

abbrev pub Member : String → List String → Type 0
Member run [] = ⊥
Member run (r ∷ runs) = (run ≡ r) ⊎ Member run runs

pub All-member :
    (P : String → Type 0) (run : String) (runs : List String) → All P runs → Member run runs → P run
All-member P run [] a m = absurd m
All-member P run (r ∷ runs) a (inl e) = subst P (sym e) a.0
All-member P run (r ∷ runs) a (inr m) = All-member P run runs a.1 m

pub All-map :
    (P Q : String → Type 0) (runs : List String)
    → ((run : String) → P run → Q run)
    → All P runs
    → All Q runs
All-map P Q [] f a = tt
All-map P Q (r ∷ runs) f a = (f r a.0, All-map P Q runs f a.1)

-- A mark before others.
pub head_mark :
    (run r : String) (o : Outcome) (e : Option String) (l : List Event)
    → last_mark run (marked r o e ∷ (l ++ []))
      ≡ or_last (last_mark run l) (if str_eq run r then some o else none)
unfolding last_mark
head_mark run r o e l =
    ap (λ q. or_last q (if str_eq run r then some o else none)) (last_mark-append run l [])

pub head-Marked :
    (r : String) (runs : List String) (o : Outcome) (e : Option String) (l : List Event)
    → Only o l
    → Marked o runs l
    → Marked o (r ∷ runs) (marked r o e ∷ (l ++ []))
head-Marked r runs o e l only m = (
  head_mark r r o e l ∙ own (only r),
  All-map (λ run. last_mark run l ≡ some o)
      (λ run. last_mark run (marked r o e ∷ (l ++ [])) ≡ some o) runs
      (λ run h. head_mark run r o e l ∙ rw h refl) m,
)
  where
    own :
        (last_mark r l ≡ none) ⊎ (last_mark r l ≡ some o)
        → or_last (last_mark r l) (if str_eq r r then some o else none) ≡ some o
    own (inl n) = rw n (ground (arith, eq_iff r r))
    own (inr h) = rw h refl

pub head-Only :
    (r : String) (o : Outcome) (e : Option String) (l : List Event)
    → Only o l
    → Only o (marked r o e ∷ (l ++ []))
head-Only r o e l only run = by_tail (only run)
  where
    by_test :
        (b : Bool) → ((if b then some o else none) ≡ none) ⊎ ((if b then some o else none) ≡ some o)
    by_test true = inr refl
    by_test false = inl refl

    by_tail :
        (last_mark run l ≡ none) ⊎ (last_mark run l ≡ some o)
        → (last_mark run (marked r o e ∷ (l ++ [])) ≡ none)
          ⊎ (last_mark run (marked r o e ∷ (l ++ [])) ≡ some o)
    by_tail (inr h) = inr (head_mark run r o e l ∙ rw h refl)
    by_tail (inl n) = elim (by_test (str_eq run r)) [
      | inl q ↦ inl (head_mark run r o e l ∙ rw n q)
      | inr q ↦ inr (head_mark run r o e l ∙ rw n q)
    ]
