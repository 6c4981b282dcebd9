-- ===== src/Gsbench/Store/Keys.antt =====
-- The table of internal/gsbench/sqlstore.go as a map from a run and an action's number to a row.
use text.Mathlib.Text.{◌==◌ as str_eq}
use text.Mathlib.TextEquality.{eq_iff}
use gstop.Base.{
  ℕ, ◌<◌, ◌≡◌, refl, max, String, Bool, true, false, ◌&&◌, List, [], ◌∷◌, ◌++◌, Option, none, some,
  ◌==◌, if◌then◌else◌, arith, if-elim, ◌∙◌, subst, Bool-cases, inl, inr,
}
use gstop.Gsbench.Action.{Action, MutationState, restoring}
use gstop.Gsbench.Store.{
  World, Answer, done, lost, refused, next_answer, answer, perform, Row, matches, max_action_id,
  next_action_id, update_where, count_where, written, claims, planned_row, same_state,
}

unfoldable pub find : String → ℕ → List Row → Option Row
find run id [] = none
find run id (r ∷ rows) = if matches run id r then some r else find run id rows

-- The primary key.
abbrev pub Unique : List Row → Type 0
Unique [] = Unit
Unique (r ∷ rows) = (find r.run_id r.action_id rows ≡ none) × Unique rows

abbrev pub same_key : String → ℕ → String → ℕ → Bool
same_key run id r i = str_eq r run && (i == id)

abbrev pub change : {A : Type 0} → (A → A) → Option A → Option A
change f none = none
change f (some a) = some (f a)

pub find-written :
    (run r : String) (id i : ℕ) (s : MutationState) (e : Option String) (rows : List Row)
    → find run id (update_where (matches r i) (written s e) rows)
      ≡ (if same_key run id r i then change (written s e) (find run id rows) else find run id rows)
unfolding find matches
find-written run r id i s e [] = ground arith
find-written run r id i s e (x ∷ rows) =
    ground (
      arith,
      eq_iff r run,
      eq_iff x.run_id run,
      eq_iff x.run_id r,
      find-written run r id i s e rows,
    )

-- The claim of an action, on one row.
abbrev pub claim_row : MutationState → Row → Row
claim_row s r = if same_state r.state s then written restoring none r else r

pub find-claims :
    (run : String) (id : ℕ) (a : Action) (rows : List Row)
    → find run id (update_where (claims a) (written restoring none) rows) ≡ (
        if same_key run id a.run_id a.sequence
        then change (claim_row a.state) (find run id rows)
        else find run id rows)
unfolding find matches
find-claims run id a [] = ground arith
find-claims run id a (x ∷ rows) = ground (
  arith,
  eq_iff a.run_id run,
  eq_iff x.run_id run,
  eq_iff x.run_id a.run_id,
  find-claims run id a rows,
)

find-append :
    (run : String) (id : ℕ) (rows : List Row) (x : Row)
    → find run id rows ≡ none
    → find run id (rows ++ x ∷ []) ≡ (if matches run id x then some x else none)
unfolding find
find-append run id [] x h = refl
find-append run id (r ∷ rows) x h = ground (arith, find-append run id rows x)

find-append_other :
    (run : String) (id : ℕ) (rows : List Row) (x : Row)
    → matches run id x ≡ false
    → find run id (rows ++ x ∷ []) ≡ find run id rows
unfolding find
find-append_other run id [] x h = ground arith
find-append_other run id (r ∷ rows) x h = ground (arith, find-append_other run id rows x h)

pub find-append_found :
    (run : String) (id : ℕ) (rows : List Row) (x r : Row)
    → find run id rows ≡ some r
    → find run id (rows ++ x ∷ []) ≡ some r
unfolding find
find-append_found run id [] x r h = absurd (let q : ⊥ = cc in q)
find-append_found run id (s ∷ rows) x r h = ground (arith, find-append_found run id rows x r)

-- No row of the run has a number above the greatest.
pub find_above :
    (run : String) (id : ℕ) (rows : List Row)
    → max_action_id run rows < id
    → find run id rows ≡ none
unfolding find matches max_action_id
find_above run id [] h = refl
find_above run id (r ∷ rows) h = ground (arith, find_above run id rows)

-- On a table with its primary key, a claim affects one row or none.
abbrev pub claimable : Option Row → MutationState → Bool
claimable none s = false
claimable (some r) s = same_state r.state s

count_where-absent :
    (a : Action) (rows : List Row)
    → find a.run_id a.sequence rows ≡ none
    → count_where (claims a) rows ≡ 0
unfolding find
count_where-absent a [] h = refl
count_where-absent a (r ∷ rows) h = ground (arith, count_where-absent a rows)

pub count_where-claims :
    (a : Action) (rows : List Row)
    → Unique rows
    → (count_where (claims a) rows == 1) ≡ claimable (find a.run_id a.sequence rows) a.state
unfolding find matches
count_where-claims a [] u = refl
count_where-claims a (r ∷ rows) u =
    ground
      (arith, eq_iff r.run_id a.run_id, count_where-absent a rows, count_where-claims a rows u.1)

pub max_action_id-update_where :
    (run : String) (p : Row → Bool) (s : MutationState) (e : Option String) (rows : List Row)
    → max_action_id run (update_where p (written s e) rows) ≡ max_action_id run rows
unfolding max_action_id
max_action_id-update_where run p s e [] = refl
max_action_id-update_where run p s e (r ∷ rows) =
    ground (arith, max_action_id-update_where run p s e rows)

max-later :
    (b c : Bool) (m n k i : ℕ)
    → k ≡ (if c then max i n else n)
    → (if b then max m k else k)
      ≡ (if c then max i (if b then max m n else n) else if b then max m n else n)
max-later true true m n k i h = omega (arith, h)
max-later true false m n k i h = omega (arith, h)
max-later false true m n k i h = h
max-later false false m n k i h = h

pub max_action_id-append :
    (run : String) (x : Row) (rows : List Row)
    → max_action_id run (rows ++ x ∷ []) ≡ (
        if str_eq x.run_id run
        then max x.action_id (max_action_id run rows)
        else max_action_id run rows)
unfolding max_action_id
max_action_id-append run x [] = refl
max_action_id-append run x (r ∷ rows) =
    max-later (str_eq r.run_id run) (str_eq x.run_id run) r.action_id (max_action_id run rows)
      (max_action_id run (rows ++ x ∷ [])) x.action_id (max_action_id-append run x rows)

find-written-none :
    (run : String) (id : ℕ) (p : Row → Bool) (s : MutationState) (e : Option String)
    (rows : List Row)
    → find run id rows ≡ none
    → find run id (update_where p (written s e) rows) ≡ none
unfolding find matches
find-written-none run id p s e [] h = refl
find-written-none run id p s e (r ∷ rows) h = ground (arith, find-written-none run id p s e rows)

pub update_where-Unique :
    (p : Row → Bool) (s : MutationState) (e : Option String) (rows : List Row)
    → Unique rows
    → Unique (update_where p (written s e) rows)
update_where-Unique p s e [] u = tt
update_where-Unique p s e (r ∷ rows) u =
    if-elim (λ (x : Row). Unique (x ∷ update_where p (written s e) rows)) (p r) (written s e r) r
      (λ _.
        (find-written-none r.run_id r.action_id p s e rows u.0, update_where-Unique p s e rows u.1))
      (λ _.
        (find-written-none r.run_id r.action_id p s e rows u.0, update_where-Unique p s e rows u.1))

pub append-Unique :
    (x : Row) (rows : List Row)
    → find x.run_id x.action_id rows ≡ none
    → Unique rows
    → Unique (rows ++ x ∷ [])
unfolding find matches
append-Unique x [] h u = (refl, tt)
append-Unique x (r ∷ rows) h u =
    let k : find x.run_id x.action_id rows ≡ none = ground arith in
    (
      find-append r.run_id r.action_id rows x u.0
          ∙ ground (arith, eq_iff x.run_id r.run_id, eq_iff r.run_id x.run_id),
      append-Unique x rows k u.1,
    )

pub find-added :
    (own : String) (a : Action) (rows : List Row) (run : String) (id : ℕ)
    → find run id (rows ++ planned_row own a (next_action_id own rows) ∷ []) ≡ (
        if same_key run id own (next_action_id own rows)
        then some (planned_row own a (next_action_id own rows))
        else find run id rows)
unfolding planned_row matches
find-added own a rows run id =
    let n = next_action_id own rows in
    elim (Bool-cases (same_key run id own n)) [
      | inl e ↦
          let k : own ≡ run = ground (arith, eq_iff own run) in
          let l : n ≡ id = ground arith in
          let fresh : find run id rows ≡ none =
            subst (λ r. find r id rows ≡ none) k (find_above own id rows (omega (arith, l))) in
          rw e (find-append run id rows (planned_row own a n) fresh ∙ rw e refl)
      | inr e ↦ rw e (find-append_other run id rows (planned_row own a n) e)
    ]

-- Whatever becomes of a statement, the rows are those from before or those that it makes.
answer-rows :
    {A : Type 0} (P : List Row → Type 0) (x : Answer) (a : A) (after before : List Row)
    → P before
    → P after
    → P (answer x a after before).1
unfolding answer
answer-rows P done a after before h k = k
answer-rows P (lost e) a after before h k = k
answer-rows P (refused e) a after before h k = h

pub perform-rows :
    {E A : Type 0} (P : List Row → Type 0) (w : World E) (a : A) (after : List Row)
    → P w.rows
    → P after
    → P (perform w a after).1.rows
unfolding perform
perform-rows P w a after h k = answer-rows P (next_answer w.answers).0 a after w.rows h k

pub same_key_self : (run : String) (id : ℕ) → same_key run id run id ≡ true
same_key_self run id = ground (arith, eq_iff run run)

-- The row of the action itself, after its claim.
pub find-claims_own :
    (a : Action) (rows : List Row)
    → find a.run_id a.sequence (update_where (claims a) (written restoring none) rows)
      ≡ change (claim_row a.state) (find a.run_id a.sequence rows)
find-claims_own a rows =
    find-claims a.run_id a.sequence a rows ∙ rw (same_key_self a.run_id a.sequence) refl
