-- ===== src/Gsbench/Journal/Calls.antt =====
-- The interfaces ActionStore, ActionExecutor, actionStateStore and actionClaimStore, as one record
-- over an unknown world, and the calls that are made of them. A computation returns its result, the
-- calls that it made, oldest first, and the world that it leaves.
use gstop.Base.{
  String, ◌≡◌, refl, ◌⊎◌, inl, inr, Bool, true, List, [], ◌∷◌, ◌++◌, Option, none, some,
}
use gstop.Gsbench.Action.{Action, MutationState, restoring}

-- A result with a Go error, whose text is all that the journal looks at.
pub data Fallible (A : Type 0) : Type 0 where
  ok : A → Fallible A
  err : String → Fallible A

pub Fallible-cases :
    {A : Type 0} (r : Fallible A) → ((a : A) × (r ≡ ok a)) ⊎ ((e : String) × (r ≡ err e))
Fallible-cases (ok a) = inl (a, refl)
Fallible-cases (err e) = inr (e, refl)

pub record Backend (W : Type 0) : Type 0 where
  pub preflight : Action → W → Option String × W
  pub apply : Action → W → Option String × W
  pub restore : Action → W → Option String × W
  pub verify_restored : Action → W → Option String × W
  pub insert_planned : Action → W → Fallible Action × W
  -- SetActionState where the store has it, and SetState otherwise
  pub set_state : Action → MutationState → String → W → Option String × W
  -- `none`: the store is no actionClaimStore
  pub claim_action : Option (Action → W → Fallible Bool × W)

-- A call with its answer.
pub data Event : Type 0 where
  preflighted executed undone verified : Action → Option String → Event
  inserted : Action → Fallible Action → Event
  state_set : Action → MutationState → String → Option String → Event
  claimed : Action → Fallible Bool → Event

abbrev pub M : Type 0 → Type 0 → Type 0
M W A = W → A × List Event × W

infixl 5 ◌>>=◌
abbrev pub ◌>>=◌ : {W A B : Type 0} → M W A → (A → M W B) → M W B
◌>>=◌ m f w = let (a, l, v) = m w in let (b, k, u) = f a v in (b, l ++ k, u)

module _ {W : Type 0} where
  abbrev pub pure : {A : Type 0} → A → M W A
  pure a w = (a, [], w)

-- The result of a computation changed by a function.
abbrev pub fmap : {W A B : Type 0} → (A → B) → M W A → M W B
fmap f m w = let (a, l, v) = m w in (f a, l, v)

module _ {W : Type 0} (B : Backend W) where
  abbrev pub preflight : Action → M W (Option String)
  preflight a w = let (r, v) = B.preflight a w in (r, preflighted a r ∷ [], v)

  abbrev pub apply : Action → M W (Option String)
  apply a w = let (r, v) = B.apply a w in (r, executed a r ∷ [], v)

  abbrev pub restore : Action → M W (Option String)
  restore a w = let (r, v) = B.restore a w in (r, undone a r ∷ [], v)

  abbrev pub verify_restored : Action → M W (Option String)
  verify_restored a w = let (r, v) = B.verify_restored a w in (r, verified a r ∷ [], v)

  abbrev pub insert_planned : Action → M W (Fallible Action)
  insert_planned a w = let (r, v) = B.insert_planned a w in (r, inserted a r ∷ [], v)

  abbrev pub set_action_state : Action → MutationState → String → M W (Option String)
  set_action_state a s detail w =
      let (r, v) = B.set_state a s detail w in (r, state_set a s detail r ∷ [], v)

  -- What claimAction makes of the answer to its state change.
  abbrev pub granted : Option String → Fallible Bool
  granted none = ok true
  granted (some e) = err e

  abbrev pub claim_with : Option (Action → W → Fallible Bool × W) → Action → M W (Fallible Bool)
  claim_with none a w =
      let (r, v) = B.set_state a restoring "" w in
      (granted r, state_set a restoring "" r ∷ claimed a (granted r) ∷ [], v)
  claim_with (some claim) a w = let (r, v) = claim a w in (r, claimed a r ∷ [], v)

  abbrev pub claim_action : Action → M W (Fallible Bool)
  claim_action a = claim_with B.claim_action a
