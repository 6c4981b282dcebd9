-- ===== src/Gsbench/Action/Checks.antt =====
-- What Validate of internal/gsbench/action.go lets through.
use gstop.Base.{
  String, ◌≡◌, refl, ◌≢◌, ◌⊎◌, inl, inr, Bool, true, false, Option, none, some, arith, Bool-cases,
}
use gstop.Gsbench.Action.{
  Action, known, valid, requires_node, persistent, blank, validate_journal_string_field,
  validate_decoded, validate_action_payload, validate,
}
use gstop.Gsbench.Action.Secrets.{
  GoText, Json, object, Members, array, scalar, string, null, contains_credential, has_secret_key,
  members_credential,
}

-- A payload that decodes to an object with no secret in a key or a value.
abbrev pub IsCleanObject : GoText → String → Type 0
IsCleanObject go payload =
    (ms : Members) × (go.unmarshal payload ≡ some (object ms))
    × (has_secret_key go ms ≡ false)
    × (members_credential go ms ≡ false)

-- A field with no credential material.
abbrev pub IsCleanField : GoText → String → Type 0
IsCleanField go s = (blank s ≡ true) ⊎ (contains_credential go s ≡ false)

pub record IsRecoverable (go : GoText) (a : Action) : Type 0 where
  pub run_id_given : blank (go.trim_space a.run_id) ≡ false
  pub scenario_code_given : a.scenario_code ≢ 0
  pub kind_valid : valid a.kind ≡ true
  pub product_known : known a.target_product ≡ true
  pub target_given : blank (go.trim_space a.target) ≡ false
  pub node_given : requires_node a.kind ≡ true → blank (go.trim_space a.node) ≡ false
  pub target_clean : IsCleanField go a.target
  pub node_clean : IsCleanField go a.node
  pub last_error_clean : IsCleanField go a.last_error
  pub forward_clean : IsCleanObject go a.forward
  pub inverse_clean :
      ((blank a.inverse ≡ true) × (persistent a.kind ≡ false)) ⊎ IsCleanObject go a.inverse
  pub original_clean : (blank a.original ≡ true) ⊎ IsCleanObject go a.original
  pub verify_clean : (blank a.verify ≡ true) ⊎ IsCleanObject go a.verify

module _ (go : GoText) where
  decoded_clean :
      (name : String) (j : Option Json)
      → validate_decoded go name j ≡ none
      → (ms : Members) × (j ≡ some (object ms))
        × (has_secret_key go ms ≡ false)
        × (members_credential go ms ≡ false)
  unfolding validate_decoded
  decoded_clean name (some (object ms)) h = (ms, refl, ground arith, ground arith)
  decoded_clean name none h = absurd (cc)
  decoded_clean name (some null) h = absurd (cc)
  decoded_clean name (some (scalar s)) h = absurd (cc)
  decoded_clean name (some (string s)) h = absurd (cc)
  decoded_clean name (some (array xs)) h = absurd (cc)

  payload_clean :
      (name payload : String) (required : Bool)
      → validate_action_payload go name payload required ≡ none
      → ((blank payload ≡ true) × (required ≡ false)) ⊎ IsCleanObject go payload
  unfolding validate_action_payload
  payload_clean name payload required h = elim (Bool-cases (blank payload)) [
    | inl e ↦ inl (e, ground arith)
    | inr e ↦ inr (decoded_clean name (go.unmarshal payload) (ground arith))
  ]

  field_clean : (s : String) → validate_journal_string_field go s ≡ none → IsCleanField go s
  unfolding validate_journal_string_field
  field_clean s h = ground arith

  optional_clean :
      (name payload : String)
      → validate_action_payload go name payload false ≡ none
      → (blank payload ≡ true) ⊎ IsCleanObject go payload
  optional_clean name payload h = elim (payload_clean name payload false h) [
    | inl p ↦ inl p.0
    | inr c ↦ inr c
  ]

  required_clean :
      (name payload : String)
      → validate_action_payload go name payload true ≡ none
      → IsCleanObject go payload
  required_clean name payload h = elim (payload_clean name payload true h) [
    | inl p ↦ absurd (cc p.1)
    | inr c ↦ c
  ]

  -- An action that passes Validate has a run, a scenario, a known kind and product and a target, a
  -- node where its kind needs one, no credential in its fields, a forward payload and, for a kind
  -- that outlives its session, an inverse payload; and each payload that it has decodes to an object
  -- with no secret key and no credential in it.
  pub validate-IsRecoverable : (a : Action) → validate go a ≡ none → IsRecoverable go a
  unfolding validate
  validate-IsRecoverable a h = record {
    run_id_given = ground arith;
    scenario_code_given = ground arith;
    kind_valid = ground arith;
    product_known = ground arith;
    target_given = ground arith;
    node_given = ground arith;
    target_clean = field_clean a.target (ground arith);
    node_clean = field_clean a.node (ground arith);
    last_error_clean = field_clean a.last_error (ground arith);
    forward_clean = required_clean "forward" a.forward (ground arith);
    inverse_clean = payload_clean "inverse" a.inverse (persistent a.kind) (ground arith);
    original_clean = optional_clean "original" a.original (ground arith);
    verify_clean = optional_clean "verify" a.verify (ground arith);
  }
