-- ===== src/Gsbench/Journal/WriteAhead.antt =====
-- What ApplyAction of internal/gsbench/journal.go has written when it touches the target.
use gstop.Base.{
  ℕ, zero, suc, String, ◌≡◌, ◌⊎◌, inl, inr, false, List, [], ◌∷◌, Option, none, some, take, arith,
}
use gstop.Gsbench.Action.{Action, planned, applied, validate}
use gstop.Gsbench.Action.Secrets.{GoText}
use gstop.Gsbench.Action.ErrorText.{journal_safe_error_text}
use gstop.Gsbench.Journal.Calls.{
  Backend, Event, preflighted, executed, undone, verified, inserted, state_set, claimed, Fallible,
  ok, err, Fallible-cases,
}
use gstop.Gsbench.Journal.{apply_failed, apply_action}

abbrev pub In : {A : Type 0} → A → List A → Type 0
In x [] = ⊥
In x (y ∷ l) = (x ≡ y) ⊎ In x l

-- Every action that is executed is one that the store has returned as planned.
abbrev pub Ahead : List Action → List Event → Type 0
Ahead recorded [] = Unit
Ahead recorded (inserted a (ok entry) ∷ l) = Ahead (entry ∷ recorded) l
Ahead recorded (inserted a (err e) ∷ l) = Ahead recorded l
Ahead recorded (executed entry r ∷ l) = In entry recorded × Ahead recorded l
Ahead recorded (preflighted a r ∷ l) = Ahead recorded l
Ahead recorded (undone a r ∷ l) = Ahead recorded l
Ahead recorded (verified a r ∷ l) = Ahead recorded l
Ahead recorded (state_set a s d r ∷ l) = Ahead recorded l
Ahead recorded (claimed a r ∷ l) = Ahead recorded l

Ahead-take :
    (n : ℕ) (recorded : List Action) (l : List Event) → Ahead recorded l → Ahead recorded (take n l)
Ahead-take zero recorded l h = tt
Ahead-take (suc n) recorded [] h = tt
Ahead-take (suc n) recorded (inserted a (ok entry) ∷ l) h = Ahead-take n (entry ∷ recorded) l h
Ahead-take (suc n) recorded (inserted a (err e) ∷ l) h = Ahead-take n recorded l h
Ahead-take (suc n) recorded (executed entry r ∷ l) h = (h.0, Ahead-take n recorded l h.1)
Ahead-take (suc n) recorded (preflighted a r ∷ l) h = Ahead-take n recorded l h
Ahead-take (suc n) recorded (undone a r ∷ l) h = Ahead-take n recorded l h
Ahead-take (suc n) recorded (verified a r ∷ l) h = Ahead-take n recorded l h
Ahead-take (suc n) recorded (state_set a s d r ∷ l) h = Ahead-take n recorded l h
Ahead-take (suc n) recorded (claimed a r ∷ l) h = Ahead-take n recorded l h

module _ (go : GoText) {W : Type 0} (B : Backend W) where
  apply_action-Ahead_whole : (a : Action) (w : W) → Ahead [] (apply_action go B a w).1
  unfolding apply_action
  apply_action-Ahead_whole a w = ground arith

  -- Wherever ApplyAction is cut off, after any number of its calls of the store and the executor, an
  -- action that it has executed is one that the store had already returned as planned.
  pub apply_action-Ahead :
      (a : Action) (w : W) (n : ℕ) → Ahead [] (take n (apply_action go B a w).1)
  apply_action-Ahead a w n = Ahead-take n [] _ (apply_action-Ahead_whole a w)

  -- The answer of InsertPlanned.
  abbrev recorded : Action → W → Fallible Action
  recorded a w =
      let b = record a { last_error = journal_safe_error_text go a.last_error } in
      (B.insert_planned b (B.preflight b w).1).0

  -- ApplyAction returns no error only after these four calls and no other: the preflight, the record,
  -- the execution of the recorded entry and its mark as applied, each without an error; and only for
  -- an action that passes validation and has no legacy provenance.
  pub apply_action-done :
      (a : Action) (w : W)
      → (apply_action go B a w).0 ≡ none
      → let b = record a { last_error = journal_safe_error_text go a.last_error } in
        (a.legacy_sql ≡ false)
        × (validate go b ≡ none)
        × ((entry : Action) × ((apply_action go B a w).1
              ≡ preflighted b none
                ∷ inserted b (ok entry)
                ∷ executed entry none
                ∷ state_set entry applied "" none
                ∷ []))
  unfolding apply_action
  apply_action-done a w h = (
    ground arith,
    ground arith,
    elim (Fallible-cases (recorded a w)) [
      | inl (entry, e) ↦ (entry, ground arith)
      | inr (x, e) ↦ (a, ground arith)
    ],
  )

  -- The world after the execution.
  abbrev executed_in : Action → Action → W → W
  executed_in a entry w =
      let b = record a { last_error = journal_safe_error_text go a.last_error } in
      (B.apply entry (B.insert_planned b (B.preflight b w).1).1).1

  -- Where ApplyAction has executed an entry and the execution failed, it returns that failure, the
  -- entry is the one that was recorded, and its last call keeps the entry planned and stores the safe
  -- text of the error; it makes no other call of the store after the record.
  pub apply_action-apply_failed :
      (a entry : Action) (e : String) (w : W)
      → In (executed entry (some e)) (apply_action go B a w).1
      → let b = record a { last_error = journal_safe_error_text go a.last_error } in
        (marked : Option String) × ((apply_action go B a w).0
          ≡ some (apply_failed entry.target e marked))
        × ((apply_action go B a w).1
            ≡ preflighted b none
              ∷ inserted b (ok entry)
              ∷ executed entry (some e)
              ∷ state_set entry planned (journal_safe_error_text go e) marked
              ∷ [])
  unfolding apply_action
  apply_action-apply_failed a entry e w h = (
    (B.set_state entry planned (journal_safe_error_text go e) (executed_in a entry w)).0,
    ground arith,
    ground arith,
  )
