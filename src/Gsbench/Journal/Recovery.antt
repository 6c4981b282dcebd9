-- ===== src/Gsbench/Journal/Recovery.antt =====
-- What restoreActions of internal/gsbench/journal.go does to the actions that it is given.
use gstop.Base.{
  ◌≡◌, refl, ap, ◌⊎◌, inl, inr, true, false, not, List, [], ◌∷◌, ◌++◌, Option, none, some, keep,
  All, arith, if◌then◌else◌, Bool-cases,
}
use gstop.Gsbench.Action.{Action, unset, planned, applied, restoring, restored, restore_failed}
use gstop.Gsbench.Action.Secrets.{GoText}
use gstop.Gsbench.Journal.Calls.{
  Backend, Event, preflighted, executed, undone, verified, inserted, state_set, claimed, ok, err,
}
use gstop.Gsbench.Journal.{is_restored, restore_action, restore_actions, push}

-- The actions that were preflighted, in order.
abbrev pub attempted : List Event → List Action
attempted [] = []
attempted (preflighted a r ∷ l) = a ∷ attempted l
attempted (executed a r ∷ l) = attempted l
attempted (undone a r ∷ l) = attempted l
attempted (verified a r ∷ l) = attempted l
attempted (inserted a r ∷ l) = attempted l
attempted (state_set a s d r ∷ l) = attempted l
attempted (claimed a r ∷ l) = attempted l

attempted-append : (l k : List Event) → attempted (l ++ k) ≡ attempted l ++ attempted k
attempted-append [] k = refl
attempted-append (preflighted a r ∷ l) k = ap (◌∷◌ a) (attempted-append l k)
attempted-append (executed a r ∷ l) k = attempted-append l k
attempted-append (undone a r ∷ l) k = attempted-append l k
attempted-append (verified a r ∷ l) k = attempted-append l k
attempted-append (inserted a r ∷ l) k = attempted-append l k
attempted-append (state_set a s d r ∷ l) k = attempted-append l k
attempted-append (claimed a r ∷ l) k = attempted-append l k

-- The mark "restored" comes directly after a verification of the same action without an error, and
-- an inverse is executed only while the claim of the same action stands: `own` is the action whose
-- claim was granted last, `good` the action that the last call has verified.
abbrev pub Disciplined : Option Action → Option Action → List Event → Type 0
Disciplined own good [] = Unit
Disciplined own good (preflighted a r ∷ l) = Disciplined none none l
Disciplined own good (claimed a (ok true) ∷ l) = Disciplined (some a) none l
Disciplined own good (claimed a (ok false) ∷ l) = Disciplined none none l
Disciplined own good (claimed a (err e) ∷ l) = Disciplined none none l
Disciplined own good (undone a r ∷ l) = (own ≡ some a) × Disciplined own none l
Disciplined own good (verified a none ∷ l) = Disciplined own (some a) l
Disciplined own good (verified a (some e) ∷ l) = Disciplined own none l
Disciplined own good (state_set a restored d r ∷ l) = (good ≡ some a) × Disciplined own none l
Disciplined own good (state_set a unset d r ∷ l) = Disciplined own none l
Disciplined own good (state_set a planned d r ∷ l) = Disciplined own none l
Disciplined own good (state_set a applied d r ∷ l) = Disciplined own none l
Disciplined own good (state_set a restoring d r ∷ l) = Disciplined own none l
Disciplined own good (state_set a restore_failed d r ∷ l) = Disciplined own none l
Disciplined own good (inserted a r ∷ l) = Disciplined own none l
Disciplined own good (executed a r ∷ l) = Disciplined own none l

Disciplined-append :
    (own good : Option Action) (l k : List Event)
    → Disciplined own good l
    → ((o g : Option Action) → Disciplined o g k)
    → Disciplined own good (l ++ k)
Disciplined-append own good [] k h next = next own good
Disciplined-append own good (preflighted a r ∷ l) k h next = Disciplined-append none none l k h next
Disciplined-append own good (claimed a (ok true) ∷ l) k h next =
    Disciplined-append (some a) none l k h next
Disciplined-append own good (claimed a (ok false) ∷ l) k h next =
    Disciplined-append none none l k h next
Disciplined-append own good (claimed a (err e) ∷ l) k h next =
    Disciplined-append none none l k h next
Disciplined-append own good (undone a r ∷ l) k h next =
    (h.0, Disciplined-append own none l k h.1 next)
Disciplined-append own good (verified a none ∷ l) k h next =
    Disciplined-append own (some a) l k h next
Disciplined-append own good (verified a (some e) ∷ l) k h next =
    Disciplined-append own none l k h next
Disciplined-append own good (state_set a restored d r ∷ l) k h next =
    (h.0, Disciplined-append own none l k h.1 next)
Disciplined-append own good (state_set a unset d r ∷ l) k h next =
    Disciplined-append own none l k h next
Disciplined-append own good (state_set a planned d r ∷ l) k h next =
    Disciplined-append own none l k h next
Disciplined-append own good (state_set a applied d r ∷ l) k h next =
    Disciplined-append own none l k h next
Disciplined-append own good (state_set a restoring d r ∷ l) k h next =
    Disciplined-append own none l k h next
Disciplined-append own good (state_set a restore_failed d r ∷ l) k h next =
    Disciplined-append own none l k h next
Disciplined-append own good (inserted a r ∷ l) k h next = Disciplined-append own none l k h next
Disciplined-append own good (executed a r ∷ l) k h next = Disciplined-append own none l k h next

-- A call that settles the action: it is marked restored, or another owner has its claim.
abbrev pub Settles : Action → Event → Type 0
Settles a (state_set b restored d none) = b ≡ a
Settles a (claimed b (ok false)) = b ≡ a
Settles a _ = ⊥

abbrev pub Settled : Action → List Event → Type 0
Settled a [] = ⊥
Settled a (e ∷ l) = Settles a e ⊎ Settled a l

Settled-append_left : (a : Action) (l k : List Event) → Settled a l → Settled a (l ++ k)
Settled-append_left a [] k h = absurd h
Settled-append_left a (e ∷ l) k (inl h) = inl h
Settled-append_left a (e ∷ l) k (inr h) = inr (Settled-append_left a l k h)

Settled-append_right : (a : Action) (l k : List Event) → Settled a k → Settled a (l ++ k)
Settled-append_right a [] k h = h
Settled-append_right a (e ∷ l) k h = inr (Settled-append_right a l k h)

Settled-left :
    (a : Action) (l k : List Event)
    → (is_restored a.state ≡ true) ⊎ Settled a l
    → (is_restored a.state ≡ true) ⊎ Settled a (l ++ k)
Settled-left a l k (inl h) = inl h
Settled-left a l k (inr h) = inr (Settled-append_left a l k h)

Settled-right :
    (l k : List Event) (actions : List Action)
    → All (λ a. (is_restored a.state ≡ true) ⊎ Settled a k) actions
    → All (λ a. (is_restored a.state ≡ true) ⊎ Settled a (l ++ k)) actions
Settled-right l k [] h = tt
Settled-right l k (a ∷ actions) h = (settled_right_one h.0, Settled-right l k actions h.1)
  where
    settled_right_one :
        (is_restored a.state ≡ true) ⊎ Settled a k
        → (is_restored a.state ≡ true) ⊎ Settled a (l ++ k)
    settled_right_one (inl e) = inl e
    settled_right_one (inr e) = inr (Settled-append_right a l k e)

push-eq-nil {ℓ} :
    {A : Type ℓ} (e : Option A) (es : List A) → push e es ≡ [] → (e ≡ none) × (es ≡ [])
push-eq-nil none es h = (refl, h)
push-eq-nil (some x) es h = absurd (cc)

module _ (go : GoText) {W : Type 0} (B : Backend W) where
  attempted-restore_action :
      (a : Action) (w : W)
      → attempted (restore_action go B a w).1 ≡ (if is_restored a.state then [] else a ∷ [])
  unfolding restore_action
  attempted-restore_action a w = ground arith

  -- Every action that is not yet marked restored is preflighted, once and in the order given,
  -- whatever went wrong with the actions before it.
  pub attempted-restore_actions :
      (actions : List Action) (w : W)
      → attempted (restore_actions go B actions w).1 ≡ keep (λ a. not (is_restored a.state)) actions
  unfolding restore_actions
  attempted-restore_actions [] w = refl
  attempted-restore_actions (a ∷ actions) w =
      let v = (restore_action go B a w).2 in
      rw
        (
          attempted-append (restore_action go B a w).1 (restore_actions go B actions v).1,
          attempted-restore_action a w,
          attempted-restore_actions actions v,
        )
        (elim (Bool-cases (is_restored a.state)) [ inl e ↦ rw e | inr e ↦ rw e ])

  Settled-restore_action :
      (a : Action) (w : W)
      → (restore_action go B a w).0 ≡ none
      → (is_restored a.state ≡ true) ⊎ Settled a (restore_action go B a w).1
  unfolding restore_action
  Settled-restore_action a w h = ground arith

  -- Where restoreActions returns no error, each action was marked restored before, or is marked
  -- restored by a state change that succeeds, or its claim is refused because another owner has it.
  pub Settled-restore_actions :
      (actions : List Action) (w : W)
      → (restore_actions go B actions w).0 ≡ []
      → All
          (λ a. (is_restored a.state ≡ true) ⊎ Settled a (restore_actions go B actions w).1)
          actions
  unfolding restore_actions
  Settled-restore_actions [] w h = tt
  Settled-restore_actions (a ∷ actions) w h =
      let (first, rest) = push-eq-nil _ _ h in
      let v = (restore_action go B a w).2 in
      let l = (restore_action go B a w).1 in
      (
        Settled-left a l (restore_actions go B actions v).1 (Settled-restore_action a w first),
        Settled-right l (restore_actions go B actions v).1 actions
            (Settled-restore_actions actions v rest),
      )

  Disciplined-restore_action :
      (a : Action) (w : W) (own good : Option Action)
      → Disciplined own good (restore_action go B a w).1
  unfolding restore_action
  Disciplined-restore_action a w own good = ground arith

  -- The calls of restoreActions are disciplined.
  pub Disciplined-restore_actions :
      (actions : List Action) (w : W) (own good : Option Action)
      → Disciplined own good (restore_actions go B actions w).1
  unfolding restore_actions
  Disciplined-restore_actions [] w own good = tt
  Disciplined-restore_actions (a ∷ actions) w own good =
      Disciplined-append own good (restore_action go B a w).1 _
        (Disciplined-restore_action a w own good)
        (Disciplined-restore_actions actions (restore_action go B a w).2)
