-- ===== src/Gsbench/Journal/Examples.antt =====
-- Tests and instances for the journal, over a store that numbers its rows.
use gstop.Base.{
  ℕ, ◌+◌, ◌≡◌, refl, String, ◌⊎◌, inl, inr, Option, true, false, not, List, [], ◌∷◌, none, some,
  keep, take, All,
}
use gstop.Gsbench.Action.{
  Action, planned, applied, restored, validate, validate_action_payload,
  validate_journal_string_field, valid, known, requires_node, persistent,
}
use gstop.Gsbench.Action.Secrets.{
  has_secret_key, obvious_secret_key, members_credential, contains_credential,
}
use gstop.Gsbench.Action.ErrorText.{journal_safe_error_text}
use gstop.Gsbench.Action.Samples.{ascii_text, index_drop}
use gstop.Gsbench.Journal.Calls.{Backend, preflighted, executed, inserted, state_set, ok}
use gstop.Gsbench.Journal.{
  is_restored, apply_action, apply_failed, restore_action, restore_actions,
  action_skips_planned_inverse_when_restored,
}
use gstop.Gsbench.Journal.WriteAhead.{
  In, Ahead, apply_action-Ahead, apply_action-done, apply_action-apply_failed,
}
use gstop.Gsbench.Journal.Recovery.{
  attempted, Settled, Disciplined, attempted-restore_actions, Settled-restore_actions,
  Disciplined-restore_actions,
}

-- The world counts the rows.
abbrev counting : Backend ℕ
counting = record {
  preflight = λ a w. (none, w);
  apply = λ a w. (none, w);
  restore = λ a w. (none, w);
  verify_restored = λ a w. (none, w);
  insert_planned = λ a w. (ok (record a { sequence = w + 1; state = planned }), w + 1);
  set_state = λ a s d w. (none, w);
  claim_action = none;
}

-- As `counting`, with a target that refuses every mutation.
abbrev refusing : Backend ℕ
refusing = record counting { apply = λ a w. (some "refused", w) }

applies : (apply_action ascii_text counting index_drop 0).0 ≡ none
unfolding apply_action journal_safe_error_text validate valid known requires_node persistent
    validate_journal_string_field validate_action_payload has_secret_key obvious_secret_key
    members_credential contains_credential
applies = refl

refuses :
    (apply_action ascii_text refusing index_drop 0).0
    ≡ some (apply_failed "plan_data" "refused" none)
unfolding apply_action journal_safe_error_text validate valid known requires_node persistent
    validate_journal_string_field validate_action_payload has_secret_key obvious_secret_key
    members_credential contains_credential
refuses = refl

-- The entry that the store returns for the action.
abbrev stored_drop : Action
stored_drop = record index_drop {
  last_error = journal_safe_error_text ascii_text "";
  sequence = 1;
  state = planned;
}

executes :
    In (executed stored_drop (some "refused")) (apply_action ascii_text refusing index_drop 0).1
unfolding apply_action journal_safe_error_text validate valid known requires_node persistent
    validate_journal_string_field validate_action_payload has_secret_key obvious_secret_key
    members_credential contains_credential
executes = inr (inr (inl refl))

abbrev pair : List Action
pair = index_drop ∷ record index_drop { state = restored } ∷ []

restores : (restore_actions ascii_text counting pair 0).0 ≡ []
unfolding restore_actions restore_action action_skips_planned_inverse_when_restored
restores = refl

apply_action-Ahead_example : Ahead [] (take 3 (apply_action ascii_text counting index_drop 0).1)
apply_action-Ahead_example = apply_action-Ahead ascii_text counting index_drop 0 3

apply_action-done_example :
    let b = record index_drop { last_error = journal_safe_error_text ascii_text "" } in
    (index_drop.legacy_sql ≡ false)
    × (validate ascii_text b ≡ none)
    × ((entry : Action) × ((apply_action ascii_text counting index_drop 0).1
          ≡ preflighted b none
            ∷ inserted b (ok entry)
            ∷ executed entry none
            ∷ state_set entry applied "" none
            ∷ []))
apply_action-done_example = apply_action-done ascii_text counting index_drop 0 applies

apply_action-apply_failed_example :
    let b = record index_drop { last_error = journal_safe_error_text ascii_text "" } in
    (marked : Option String) × ((apply_action ascii_text refusing index_drop 0).0
      ≡ some (apply_failed "plan_data" "refused" marked))
    × ((apply_action ascii_text refusing index_drop 0).1
        ≡ preflighted b none
          ∷ inserted b (ok stored_drop)
          ∷ executed stored_drop (some "refused")
          ∷ state_set stored_drop planned (journal_safe_error_text ascii_text "refused") marked
          ∷ [])
apply_action-apply_failed_example =
    apply_action-apply_failed ascii_text refusing index_drop stored_drop "refused" 0 executes

attempted-restore_actions_example :
    attempted (restore_actions ascii_text counting pair 0).1
    ≡ keep (λ a. not (is_restored a.state)) pair
attempted-restore_actions_example = attempted-restore_actions ascii_text counting pair 0

Settled-restore_actions_example :
    All
      (λ a. (is_restored a.state ≡ true) ⊎ Settled a (restore_actions ascii_text counting pair 0).1)
      pair
Settled-restore_actions_example = Settled-restore_actions ascii_text counting pair 0 restores

Disciplined-restore_actions_example :
    Disciplined none none (restore_actions ascii_text counting pair 0).1
Disciplined-restore_actions_example =
    Disciplined-restore_actions ascii_text counting pair 0 none none
