-- ===== src/Gsbench/Ledger/Transitions.antt =====
-- What Put and MarkRestored of internal/gsbench/recovery_ledger.go change.
use text.Mathlib.TextEquality.{eq_iff}
use gstop.Base.{
  ℕ, ◌≤◌, String, ◌≡◌, ◌≢◌, refl, sym, ◌⊎◌, inl, inr, true, false, List, [], ◌∷◌, ◌++◌, Option,
  none, some, if◌then◌else◌, arith, Bool-cases, ◌∙◌, ap, subst,
}
use gstop.Gsbench.Action.{
  Action, MutationState, unset, planned, applied, restoring, restore_failed, restored,
}
use gstop.Gsbench.Ledger.{
  has_identity, sort_recovery_ledger_actions, Checked, ok, err, find, replace, update_existing,
  put_stored, put_found, append_stored, replace_stored, restored_action, mark_first, mark_found,
  same_state, allowed_recovery_ledger_transition,
}
use gstop.Gsbench.Ledger.Identity.{
  Unique, find-sort, sort-Unique, find-append, append-Unique, find-replace, replace-Unique,
  find-identity,
}

-- An action as it was recorded, with another state and diagnosis.
abbrev pub restated : Action → MutationState → String → Action
restated a s e = record a { state = s; last_error = e }

update_existing-restated :
    (x stored y : Action)
    → update_existing x stored ≡ ok y
    → (y ≡ restated x stored.state y.last_error)
      × (allowed_recovery_ledger_transition x.state stored.state ≡ true)
unfolding update_existing
update_existing-restated x stored y h = (ground arith, ground arith)

-- A change at the identity of one action, that leaves the rest of a well-formed file alone.
abbrev Changes : Action → List Action → List Action → Type 0
Changes y l k =
    ((run target : String)
      → find run target k ≡ (if has_identity run target y then some y else find run target l))
    × Unique k

replaced :
    (y x : Action) (l : List Action)
    → find y.run_id y.target l ≡ some x
    → Unique l
    → Changes y l (sort_recovery_ledger_actions (replace y l))
replaced y x l h u = (
  λ run target.
      find-sort (replace y l) run target (replace-Unique y l u) ∙ find-replace y l run target h,
  sort-Unique (replace y l) (replace-Unique y l u),
)

appended :
    (y : Action) (l : List Action)
    → find y.run_id y.target l ≡ none
    → Unique l
    → Changes y l (sort_recovery_ledger_actions (l ++ y ∷ []))
appended y l h u = (
  λ run target.
      find-sort (l ++ y ∷ []) run target (append-Unique l y h u) ∙ find-append l y run target h,
  sort-Unique (l ++ y ∷ []) (append-Unique l y h u),
)

-- How far an action has come: a restore that is repeated after a failure goes neither back nor on.
abbrev pub progress : MutationState → ℕ
progress unset = 0
progress planned = 1
progress applied = 2
progress restoring = 3
progress restore_failed = 3
progress restored = 4

allowed-progress :
    (s t : MutationState) → allowed_recovery_ledger_transition s t ≡ true → progress s ≤ progress t
unfolding allowed_recovery_ledger_transition
allowed-progress s t h = ground arith

progress-restored : (s : MutationState) → progress s ≤ 4
progress-restored s = ground arith

-- What a file promises of an action that it holds: it is never dropped, its payloads and its
-- identity stay as they were recorded, its state moves only along the allowed transitions or to
-- restored and never back, and once it is restored nothing about it changes.
pub record Keeps (a b : Action) : Type 0 where
  pub same_record : b ≡ restated a b.state b.last_error
  pub moves : (allowed_recovery_ledger_transition a.state b.state ≡ true) ⊎ (b.state ≡ restored)
  pub tombstone : a.state ≡ restored → b ≡ a
  pub forward : progress a.state ≤ progress b.state

pub Keeps-refl : (a : Action) → Keeps a a
unfolding allowed_recovery_ledger_transition
Keeps-refl a = ground arith

allowed_of_restored :
    (s t : MutationState)
    → allowed_recovery_ledger_transition s t ≡ true
    → s ≡ restored
    → t ≡ restored
unfolding allowed_recovery_ledger_transition
allowed_of_restored s t h e = ground arith

update_existing-Keeps :
    (x stored y : Action) → stored.state ≢ restored → update_existing x stored ≡ ok y → Keeps x y
update_existing-Keeps x stored y n h =
    let (same, allowed) = update_existing-restated x stored y h in
    let state : y.state ≡ stored.state = ap (λ a. a.state) same in
    record {
      same_record = subst (λ s. y ≡ restated x s y.last_error) (sym state) same;
      moves =
          inl
            (subst (λ s. allowed_recovery_ledger_transition x.state s ≡ true) (sym state) allowed);
      tombstone = λ r. absurd (n (allowed_of_restored x.state stored.state allowed r));
      forward =
          subst (λ s. progress x.state ≤ progress s) (sym state)
            (allowed-progress x.state stored.state allowed);
    }

restored_action-Keeps :
    (x : Action) → same_state x.state restored ≡ false → Keeps x (restored_action x)
restored_action-Keeps x h = ground (arith, progress-restored x.state)

-- A file that holds one action for each identity, and all that another file held.
abbrev pub Extends : List Action → List Action → Type 0
Extends l k =
    Unique k
    × ((run target : String) (a : Action)
        → find run target l ≡ some a
        → (b : Action) × (find run target k ≡ some b) × Keeps a b)

has_identity-eq :
    (run target : String) (y : Action)
    → has_identity run target y ≡ true
    → (y.run_id ≡ run) × (y.target ≡ target)
has_identity-eq run target y h = ground (arith, eq_iff y.run_id run, eq_iff y.target target)

Changes-Extends :
    (y : Action) (l k : List Action)
    → Changes y l k
    → ((x : Action) → find y.run_id y.target l ≡ some x → Keeps x y)
    → Extends l k
Changes-Extends y l k c keeps = (
  c.1,
  λ run target a h. elim (Bool-cases (has_identity run target y)) [
    | inl e ↦
        let (r, t) = has_identity-eq run target y e in
        (y, c.0 run target ∙ rw e refl, keeps a (rw (r, t) h))
    | inr e ↦ (a, c.0 run target ∙ rw e h, Keeps-refl a)
  ],
)

pub Extends-refl : (l : List Action) → Unique l → Extends l l
Extends-refl l u = (u, λ run target a h. (a, h, Keeps-refl a))

some-injective : {a b : Action} → some a ≡ some b → a ≡ b
some-injective h = cc

find_at :
    (l : List Action) (run target run' target' : String) {x : Action}
    → run' ≡ run
    → target' ≡ target
    → find run target l ≡ some x
    → find run' target' l ≡ some x
find_at l run target run' target' {x} r t h =
    subst (λ v. find v target' l ≡ some x) (sym r) (subst (λ v. find run v l ≡ some x) (sym t) h)

replace_stored-Extends :
    (stored x : Action) (l k : List Action) (r : Checked Action)
    → update_existing x stored ≡ r
    → stored.state ≢ restored
    → Unique l
    → find stored.run_id stored.target l ≡ some x
    → replace_stored r l ≡ ok k
    → Extends l k
replace_stored-Extends stored x l k (err e) q n u found h = absurd (cc)
replace_stored-Extends stored x l k (ok y) q n u found h =
    let (same, _) = update_existing-restated x stored y q in
    let (r, t) = find-identity l stored.run_id stored.target found in
    let here : find y.run_id y.target l ≡ some x =
      find_at l stored.run_id stored.target y.run_id y.target (ap (λ a. a.run_id) same ∙ r)
        (ap (λ a. a.target) same ∙ t) found in
    subst (Extends l) (replaced_to h) (
      Changes-Extends y l _ (replaced y x l here u) (λ x' found'.
        subst (λ z. Keeps z y) (some-injective (sym here ∙ found'))
          (update_existing-Keeps x stored y n q)))
  where
    replaced_to : replace_stored (ok y) l ≡ ok k → sort_recovery_ledger_actions (replace y l) ≡ k
    replaced_to e = cc

append_stored-Extends :
    (stored : Action) (l k : List Action)
    → Unique l
    → find stored.run_id stored.target l ≡ none
    → append_stored stored l ≡ ok k
    → Extends l k
append_stored-Extends stored l k u absent h =
    subst (Extends l) (appended_to h)
      (Changes-Extends stored l _ (appended stored l absent u) (λ x found. absurd (clash x found)))
  where
    appended_to :
        append_stored stored l ≡ ok k → sort_recovery_ledger_actions (l ++ stored ∷ []) ≡ k
    appended_to e = ground arith

    clash : (x : Action) → find stored.run_id stored.target l ≡ some x → ⊥
    clash x found = cc

put_found-Extends :
    (stored : Action) (l k : List Action) (o : Option Action)
    → find stored.run_id stored.target l ≡ o
    → stored.state ≢ restored
    → Unique l
    → put_found stored l o ≡ ok k
    → Extends l k
put_found-Extends stored l k none absent n u h = append_stored-Extends stored l k u absent h
put_found-Extends stored l k (some x) found n u h =
    replace_stored-Extends stored x l k (update_existing x stored) refl n u found h

pub put_stored-Extends :
    (stored : Action) (l k : List Action)
    → stored.state ≢ restored
    → Unique l
    → put_stored stored l ≡ ok k
    → Extends l k
unfolding put_stored
put_stored-Extends stored l k n u h =
    put_found-Extends stored l k (find stored.run_id stored.target l) refl n u h

mark_found-Extends :
    (run target : String) (l : List Action) (o : Option Action)
    → find run target l ≡ o
    → Unique l
    → Extends l (mark_found l o)
mark_found-Extends run target l none e u = Extends-refl l u
mark_found-Extends run target l (some x) found u = elim (Bool-cases (same_state x.state restored)) [
  | inl e ↦ rw e (Extends-refl l u)
  | inr e ↦
      let (r, t) = find-identity l run target found in
      let here : find x.run_id x.target l ≡ some x =
        find_at l run target x.run_id x.target r t found in
      rw e (
        Changes-Extends (restored_action x) l _ (replaced (restored_action x) x l here u)
          (λ x' found'.
            subst (λ z. Keeps z (restored_action x)) (some-injective (sym here ∙ found'))
              (restored_action-Keeps x e)))
]

pub mark_first-Extends :
    (run target : String) (l : List Action) → Unique l → Extends l (mark_first run target l)
unfolding mark_first
mark_first-Extends run target l u = mark_found-Extends run target l (find run target l) refl u
