-- ===== src/Gsbench/Store/RoundTrip.antt =====
-- An action that InsertPlanned of internal/gsbench/sqlstore.go stores is read back by Pending.
use text.Mathlib.Text.{◌==◌ as str_eq}
use text.Mathlib.TextEquality.{eq_iff}
use gstop.Base.{
  ℕ, ◌≡◌, refl, String, Bool, true, false, ◌&&◌, ◌||◌, not, [], ◌∷◌, none, some, if◌then◌else◌,
  arith, ap, ◌∙◌, ◌⊎◌, inl, inr, Bool-cases,
}
use gstop.Gsbench.Action.{sql_mutation, Action, valid, validate, planned, blank}
use gstop.Gsbench.Action.Checks.{IsRecoverable, IsCleanObject, validate-IsRecoverable}
use gstop.Gsbench.Action.Secrets.{GoText, object, end}
use gstop.Gsbench.Store.{planned_row, nullable_string, journal_inverse_action_payload}
use gstop.Gsbench.Store.Columns.{
  Marshal, coalesce, is_map, stored_action_value_payload, stored_sql_action_payload,
  stored_journal_payload_is_legacy, scan_row,
}

-- The action that a row stands for: what was recorded, with its number.
abbrev pub recorded : Action → ℕ → Action
recorded a id = record a {
  sequence = id;
  state = planned;
  inverse = journal_inverse_action_payload a;
  legacy_sql = false;
}

-- A payload that is absent or an object.
abbrev pub IsPayload : GoText → String → Type 0
IsPayload go s = (str_eq s "" || is_map (go.unmarshal s)) ≡ true

coalesce-nullable_string : (s : String) → coalesce (nullable_string s) ≡ s
unfolding nullable_string
coalesce-nullable_string s = ground (arith, eq_iff s "")

module _ (go : GoText) (marshal : Marshal) where
  stored_action_value_payload-IsPayload :
      (s : String) → IsPayload go s → stored_action_value_payload go marshal s ≡ s
  unfolding stored_action_value_payload
  stored_action_value_payload-IsPayload s h = ground (arith, eq_iff s "")

  stored_sql_action_payload-IsPayload :
      (s e : String) → IsPayload go s → stored_sql_action_payload go marshal s e ≡ s
  unfolding stored_sql_action_payload
  stored_sql_action_payload-IsPayload s e h = ground (arith, eq_iff s "")

  is_map-object : (s : String) → IsCleanObject go s → IsPayload go s
  is_map-object s c = rw (c.1) ground arith

  IsPayload-optional : (s : String) → (blank s ≡ true) ⊎ IsCleanObject go s → IsPayload go s
  IsPayload-optional s (inl e) = ground arith
  IsPayload-optional s (inr c) = is_map-object s c

  IsPayload-inverse :
      (a : Action)
      → go.unmarshal "{}" ≡ some (object end)
      → IsRecoverable go a
      → IsPayload go (journal_inverse_action_payload a)
  unfolding journal_inverse_action_payload
  IsPayload-inverse a u r = elim (Bool-cases (blank a.inverse)) [
    | inl e ↦ rw e (rw u refl)
    | inr e ↦ elim r.inverse_clean [
      | inl h ↦ absurd (let q : ⊥ = cc in q)
      | inr c ↦ rw e (is_map-object a.inverse c)
    ]
  ]

  not-legacy :
      (o f i v : String)
      → IsPayload go o
      → IsPayload go f
      → IsPayload go i
      → IsPayload go v
      → stored_journal_payload_is_legacy go marshal (o ∷ f ∷ i ∷ v ∷ []) ≡ false
  unfolding stored_journal_payload_is_legacy
  not-legacy o f i v p q r t = ground arith

-- The columns that InsertPlanned writes of an action that passes Validate, under the action's own run
-- ID, are decoded to the same action, with its number, planned, with an empty object for an absent
-- inverse, and without legacy provenance.
pub scan_row-planned_row :
    (go : GoText) (marshal : Marshal) (a : Action) (id : ℕ)
    → go.unmarshal "{}" ≡ some (object end)
    → validate go a ≡ none
    → scan_row go marshal (planned_row a.run_id a id) ≡ recorded a id
unfolding scan_row planned_row
scan_row-planned_row go marshal a id u h =
    let r = validate-IsRecoverable go a h in
    let po = IsPayload-optional go marshal a.original r.original_clean in
    let pf = is_map-object go marshal a.forward r.forward_clean in
    let pi = IsPayload-inverse go marshal a u r in
    let pv = IsPayload-optional go marshal a.verify r.verify_clean in
    let co = coalesce-nullable_string a.original in
    let cv = coalesce-nullable_string a.verify in
    let l =
      ap
        (λ (p : String × String).
          stored_journal_payload_is_legacy go marshal
            (p.0 ∷ a.forward ∷ journal_inverse_action_payload a ∷ p.1 ∷ []))
        (λ i. (co i, cv i))
      ∙ not-legacy go marshal a.original a.forward (journal_inverse_action_payload a) a.verify po pf
          pi pv in
    λ i. record {
      sequence = id;
      run_id = a.run_id;
      scenario_code = a.scenario_code;
      kind = ap (λ (b : Bool). if b && not (valid a.kind) then sql_mutation else a.kind) l i;
      target_product = a.target_product;
      target = coalesce-nullable_string a.target i;
      node = coalesce-nullable_string a.node i;
      original =
          (ap (stored_action_value_payload go marshal) co
              ∙ stored_action_value_payload-IsPayload go marshal a.original po)
            i;
      forward = stored_sql_action_payload-IsPayload go marshal a.forward "" pf i;
      inverse =
          stored_sql_action_payload-IsPayload go marshal (journal_inverse_action_payload a) "" pi i;
      verify =
          (ap (λ (s : String). stored_sql_action_payload go marshal s "") cv
              ∙ stored_sql_action_payload-IsPayload go marshal a.verify "" pv)
            i;
      state = planned;
      last_error = coalesce-nullable_string a.last_error i;
      legacy_sql = l i;
    }
