-- ===== src/Gsbench/Action/Examples.antt =====
-- Tests of the action checks.
use gstop.Base.{◌≡◌, refl, ◌⊎◌, ◌≤◌, [], ◌∷◌, none, some, true, false, length, All}
use gstop.Gsbench.Action.{
  payload_required, validate, validate_action_payload, validate_journal_string_field, valid, known,
  requires_node, persistent,
}
use gstop.Gsbench.Action.Secrets.{
  codes, obvious_secret_key, action_payload_key_segments, has_secret_key, members_credential,
  contains_credential,
}
use gstop.Gsbench.Action.ErrorText.{chars, redacted, separates, journal_safe_error_text}
use gstop.Gsbench.Action.ErrorText.Bounds.{IsKept, journal_safe_error_text_bounds}
use gstop.Gsbench.Action.Samples.{ascii_text, index_drop}

segments_of_api_key :
    action_payload_key_segments ascii_text "dbApiKey" ≡ codes "db" ∷ codes "api" ∷ codes "key" ∷ []
unfolding action_payload_key_segments
segments_of_api_key = refl

api_key_is_secret : obvious_secret_key ascii_text "dbApiKey" ≡ true
unfolding obvious_secret_key
api_key_is_secret = refl

key_id_is_no_secret : obvious_secret_key ascii_text "api_key_id" ≡ false
unfolding obvious_secret_key
key_id_is_no_secret = refl

index_drop_valid : validate ascii_text index_drop ≡ none
unfolding validate valid known requires_node persistent validate_journal_string_field
    validate_action_payload has_secret_key obvious_secret_key members_credential contains_credential
index_drop_valid = refl

no_inverse :
    validate ascii_text (record index_drop { inverse = "" }) ≡ some (payload_required "inverse")
unfolding validate valid known requires_node persistent validate_journal_string_field
    validate_action_payload has_secret_key obvious_secret_key members_credential contains_credential
no_inverse = refl

spaces_joined : journal_safe_error_text ascii_text "a  b" ≡ "a b"
unfolding journal_safe_error_text contains_credential
spaces_joined = refl

journal_safe_error_text_bounds_example :
    let stored = journal_safe_error_text ascii_text "lock  timeout" in
    (stored ≡ redacted)
    ⊎ ((length (chars stored) ≤ 512) × All (IsKept (separates ascii_text)) (chars stored))
journal_safe_error_text_bounds_example = journal_safe_error_text_bounds ascii_text "lock  timeout"
