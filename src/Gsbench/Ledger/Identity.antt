-- ===== src/Gsbench/Ledger/Identity.antt =====
-- One action for a run and a target: what the operations of internal/gsbench/recovery_ledger.go do to
-- the action with an identity, and to the others.
use text.Mathlib.TextEquality.{eq_iff}
use gstop.Base.{
  suc, String, ◌≡◌, refl, List, [], ◌∷◌, ◌++◌, none, some, length, if◌then◌else◌, arith, ◌∙◌, ap,
}
use gstop.Gsbench.Action.{Action}
use gstop.Gsbench.Ledger.{find, replace, has_identity, insert_sorted, sort_recovery_ledger_actions}

-- No two actions have the same run and target.
abbrev pub Unique : List Action → Type 0
Unique [] = Unit
Unique (x ∷ xs) = (find x.run_id x.target xs ≡ none) × Unique xs

find-insert_sorted :
    (a : Action) (l : List Action) (run target : String)
    → find a.run_id a.target l ≡ none
    → find run target (insert_sorted a l)
      ≡ (if has_identity run target a then some a else find run target l)
unfolding insert_sorted find
find-insert_sorted a [] run target h = refl
find-insert_sorted a (b ∷ l) run target h = ground (
  arith,
  eq_iff a.run_id run,
  eq_iff a.target target,
  eq_iff b.run_id run,
  eq_iff b.target target,
  eq_iff b.run_id a.run_id,
  eq_iff b.target a.target,
  find-insert_sorted a l run target,
)

pub find-sort :
    (l : List Action) (run target : String)
    → Unique l
    → find run target (sort_recovery_ledger_actions l) ≡ find run target l
unfolding sort_recovery_ledger_actions find
find-sort [] run target u = refl
find-sort (a ∷ l) run target u =
    find-insert_sorted a (sort_recovery_ledger_actions l) run target
      (find-sort l a.run_id a.target u.1 ∙ u.0)
    ∙ ap (λ r. if has_identity run target a then some a else r) (find-sort l run target u.1)

insert_sorted-Unique :
    (a : Action) (l : List Action)
    → find a.run_id a.target l ≡ none
    → Unique l
    → Unique (insert_sorted a l)
unfolding insert_sorted find
insert_sorted-Unique a [] h u = (refl, tt)
insert_sorted-Unique a (b ∷ l) h u = ground (
  arith,
  eq_iff b.run_id a.run_id,
  eq_iff b.target a.target,
  eq_iff a.run_id b.run_id,
  eq_iff a.target b.target,
  find-insert_sorted a l b.run_id b.target,
  insert_sorted-Unique a l,
)

pub sort-Unique : (l : List Action) → Unique l → Unique (sort_recovery_ledger_actions l)
unfolding sort_recovery_ledger_actions
sort-Unique [] u = tt
sort-Unique (a ∷ l) u =
    insert_sorted-Unique a (sort_recovery_ledger_actions l)
      (find-sort l a.run_id a.target u.1 ∙ u.0) (sort-Unique l u.1)

length-insert_sorted : (a : Action) (l : List Action) → length (insert_sorted a l) ≡ suc (length l)
unfolding insert_sorted
length-insert_sorted a [] = refl
length-insert_sorted a (b ∷ l) = ground (arith, length-insert_sorted a l)

pub length-sort : (l : List Action) → length (sort_recovery_ledger_actions l) ≡ length l
unfolding sort_recovery_ledger_actions
length-sort [] = refl
length-sort (a ∷ l) =
    omega (arith, length-insert_sorted a (sort_recovery_ledger_actions l), length-sort l)

pub find-append :
    (l : List Action) (a : Action) (run target : String)
    → find a.run_id a.target l ≡ none
    → find run target (l ++ a ∷ [])
      ≡ (if has_identity run target a then some a else find run target l)
unfolding find
find-append [] a run target h = refl
find-append (b ∷ l) a run target h = ground (
  arith,
  eq_iff a.run_id run,
  eq_iff a.target target,
  eq_iff b.run_id run,
  eq_iff b.target target,
  eq_iff b.run_id a.run_id,
  eq_iff b.target a.target,
  find-append l a run target,
)

pub append-Unique :
    (l : List Action) (a : Action)
    → find a.run_id a.target l ≡ none
    → Unique l
    → Unique (l ++ a ∷ [])
unfolding find
append-Unique [] a h u = (refl, tt)
append-Unique (b ∷ l) a h u = ground (
  arith,
  eq_iff b.run_id a.run_id,
  eq_iff b.target a.target,
  eq_iff a.run_id b.run_id,
  eq_iff a.target b.target,
  find-append l a b.run_id b.target,
  append-Unique l a,
)

pub find-replace :
    (y : Action) (l : List Action) (run target : String) {x : Action}
    → find y.run_id y.target l ≡ some x
    → find run target (replace y l)
      ≡ (if has_identity run target y then some y else find run target l)
unfolding find replace
find-replace y [] run target h = absurd (cc)
find-replace y (b ∷ l) run target {x} h = ground (
  arith,
  eq_iff y.run_id run,
  eq_iff y.target target,
  eq_iff b.run_id run,
  eq_iff b.target target,
  eq_iff b.run_id y.run_id,
  eq_iff b.target y.target,
  find-replace y l run target {x = x},
)

find-replace-none :
    (y : Action) (l : List Action) (run target : String)
    → find run target l ≡ none
    → find run target (replace y l) ≡ none
unfolding find replace
find-replace-none y [] run target h = refl
find-replace-none y (b ∷ l) run target h = ground (
  arith,
  eq_iff y.run_id run,
  eq_iff y.target target,
  eq_iff b.run_id run,
  eq_iff b.target target,
  eq_iff b.run_id y.run_id,
  eq_iff b.target y.target,
  find-replace-none y l run target,
)

pub replace-Unique : (y : Action) (l : List Action) → Unique l → Unique (replace y l)
unfolding find replace
replace-Unique y [] u = tt
replace-Unique y (b ∷ l) u = ground (
  arith,
  eq_iff b.run_id y.run_id,
  eq_iff b.target y.target,
  find-replace-none y l b.run_id b.target,
  replace-Unique y l,
)

pub length-replace : (y : Action) (l : List Action) → length (replace y l) ≡ length l
unfolding replace
length-replace y [] = refl
length-replace y (b ∷ l) = ground (arith, length-replace y l)

pub find-identity :
    (l : List Action) (run target : String) {x : Action}
    → find run target l ≡ some x
    → (x.run_id ≡ run) × (x.target ≡ target)
unfolding find
find-identity [] run target h = absurd (cc)
find-identity (b ∷ l) run target {x} h =
    ground (arith, eq_iff b.run_id run, eq_iff b.target target, find-identity l run target {x = x})
