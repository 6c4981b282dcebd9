-- ===== src/Gsbench/Action/Secrets.antt =====
-- Secrets in payloads and texts: the key and value scans of internal/gsbench/action.go.
-- The functions of Go's strings, unicode, regexp and encoding/json are the fields of `GoText`.
use Prim.Native.Char.{code}
use Prim.Native.String.{String}
use gstop.Base.{
  ℕ, Bool, true, false, ◌&&◌, ◌||◌, List, [], ◌∷◌, ◌++◌, Option, none, some, ◌==◌, if◌then◌else◌,
  length,
}
use mathlib.Core.List.{reverse}

-- A decoded JSON value; the lists stand in the block.
mutual
  pub data Json : Type 0 where
    null : Json
    scalar : String → Json
    string : String → Json
    array : Items → Json
    object : Members → Json

  pub data Items : Type 0 where
    nil : Items
    cons : Json → Items → Items

  pub data Members : Type 0 where
    end : Members
    member : String → Json → Members → Members

-- type sqlActionPayload, of internal/gsbench/sqlstore.go
pub record SqlActionPayload : Type 0 where
  pub sql : String
  pub session_sql : List String
  pub expected : String
  pub comparison : String
  pub skip_inverse_when_restored : Bool

pub record GoText : Type 0 where
  pub trim_space : String → String
  -- regexp: does the pattern match the text?
  pub match_string : String → String → Bool
  -- json.Unmarshal into any, and into a sqlActionPayload
  pub unmarshal : String → Option Json
  pub unmarshal_sql : String → Option SqlActionPayload
  pub is_upper : ℕ → Bool
  pub is_lower : ℕ → Bool
  pub is_letter : ℕ → Bool
  pub is_digit : ℕ → Bool
  pub is_control : ℕ → Bool
  pub is_space : ℕ → Bool
  pub to_lower : ℕ → ℕ

-- The code points of a text.
abbrev pub codes : String → List ℕ
codes String.[] = []
codes (String.◌∷◌ c s) = code c ∷ codes s

abbrev pub same : List ℕ → List ℕ → Bool
same [] [] = true
same [] (y ∷ ys) = false
same (x ∷ xs) [] = false
same (x ∷ xs) (y ∷ ys) = x == y && same xs ys

abbrev one_of : List ℕ → List String → Bool
one_of s [] = false
one_of s (w ∷ ws) = same s (codes w) || one_of s ws

abbrev last_is : ℕ → List ℕ → Bool
last_is c [] = false
last_is c (x ∷ xs) = c == x

-- strings.FieldsFunc: the non-empty runs between separators; `word` is the run so far, reversed.
module _ {ℓ} {A : Type ℓ} where
  abbrev pub flush : List A → List (List A) → List (List A)
  flush [] rest = rest
  flush (c ∷ word) rest = reverse (c ∷ word) ∷ rest

  unfoldable pub fields : (A → Bool) → List A → List A → List (List A)
  fields sep word [] = flush word []
  fields sep word (c ∷ cs) =
      let inside = fields sep (c ∷ word) cs in
      let outside = flush word (fields sep [] cs) in if sep c then outside else inside

abbrev last_two : List (List ℕ) → List (List ℕ × List ℕ)
last_two [] = []
last_two (x ∷ []) = []
last_two (x ∷ y ∷ r) = (x, y) ∷ last_two (y ∷ r)

abbrev last_of : List ℕ → List (List ℕ) → List ℕ
last_of d [] = d
last_of d (x ∷ xs) = last_of x xs

secret_pairs : List (List ℕ × List ℕ) → Bool
secret_pairs [] = false
secret_pairs ((a, b) ∷ r) =
    one_of (a ++ b'_' ∷ b) ("private_key" ∷ "api_key" ∷ "client_secret" ∷ []) || secret_pairs r

-- The tests of obviousSecretKey on the segments of a key.
unfoldable pub secret_segments : List (List ℕ) → Bool
unfolding secret_pairs
secret_segments [] = false
secret_segments (s ∷ rest) =
    let last = last_of s rest in
    if one_of last ("ref" ∷ "id" ∷ [])
    then false
    else if one_of last (
        "password" ∷ "passwd" ∷ "pwd" ∷ "secret" ∷ "token" ∷ "authorization" ∷ "credential"
        ∷ "credentials" ∷ [])
    then true
    else if secret_pairs (last_two (s ∷ rest))
    then true
    else length rest == 0
      && one_of s (
          "apikey" ∷ "dbpassword" ∷ "oauthtoken" ∷ "accesstoken" ∷ "refreshtoken" ∷ "authtoken"
          ∷ "privatekey" ∷ "clientsecret" ∷ [])

-- credentialMaterialPatterns
abbrev credential_patterns : List String
credential_patterns =
    "(?i)\\b(?:password|passwd)\\b\\s*=\\s*[^\\s;,]+"
    ∷ "(?i)\\b(?:password|passwd)\\b\\s+to\\s+[^\\s;,]+"
    ∷ "(?is)\\b(?:alter|create)\\s+(?:role|user)\\b.*\\b(?:password|passwd)\\b\\s+(?:'|\"|\\$|[^\\s;,]+)"
    ∷ "(?i)(?:authorization\\s*:\\s*)?bearer\\s+[^\\s,;]+"
    ∷ "(?i)(?:authorization\\s*:\\s*)?basic\\s+[A-Za-z0-9+/=]{8,}"
    ∷ "(?i)-----BEGIN [A-Z0-9 ]*PRIVATE KEY-----"
    ∷ "(?i)\\b[a-z][a-z0-9+.-]*://[^\\s/@:]+:[^@\\s/]+@"
    ∷ "(?i)(?:[?&;])(?:x-(?:amz|goog)-signature|signature|sig|access_token|auth(?:orization)?|api[_-]?key|token)=[^&#\\s]+"
    ∷ []

abbrev any_match : (String → Bool) → List String → Bool
any_match f [] = false
any_match f (p ∷ ps) = f p || any_match f ps

module _ (go : GoText) where
  open go use {
    trim_space, match_string, is_upper, is_lower, is_letter, is_digit, is_control, is_space,
    to_lower,
  }

  -- journalStringContainsCredentialMaterial
  unfoldable pub contains_credential : String → Bool
  contains_credential value = any_match (λ p. match_string p value) credential_patterns

  lower_head : List ℕ → Bool
  lower_head [] = false
  lower_head (c ∷ cs) = is_lower c

  -- Whether an underscore is put between `previous` and the upper-case letter `current`.
  breaks_before : Option ℕ → ℕ → List ℕ → Bool
  unfolding lower_head
  breaks_before none current rest = false
  breaks_before (some previous) current rest =
      is_upper current
      && (is_lower previous || is_digit previous || (is_upper previous && lower_head rest))

  -- The loop of actionPayloadKeySegments; `built` is the builder, last character first.
  normalize : Option ℕ → List ℕ → List ℕ → List ℕ
  unfolding breaks_before
  normalize previous built [] = built
  normalize previous built (c ∷ rest) =
      let broken = if breaks_before previous c rest then b'_' ∷ built else built in
      normalize (some c)
        (if is_letter c || is_digit c
          then to_lower c ∷ broken
          else if last_is b'_' broken
          then broken
          else b'_' ∷ broken)
        rest

  unfoldable pub action_payload_key_segments : String → List (List ℕ)
  unfolding normalize fields
  action_payload_key_segments key =
      fields (λ c. c == b'_') [] (reverse (normalize none [] (codes (trim_space key))))

  unfoldable pub obvious_secret_key : String → Bool
  unfolding action_payload_key_segments secret_segments
  obvious_secret_key key = secret_segments (action_payload_key_segments key)

  -- secretActionPayloadKey, as the test that it found a key.
  unfoldable mutual
    pub value_has_secret_key : Json → Bool
    value_has_secret_key (array xs) = items_have_secret_key xs
    value_has_secret_key (object ms) = has_secret_key ms
    value_has_secret_key null = false
    value_has_secret_key (scalar s) = false
    value_has_secret_key (string s) = false

    pub items_have_secret_key : Items → Bool
    items_have_secret_key nil = false
    items_have_secret_key (cons x xs) = value_has_secret_key x || items_have_secret_key xs

    pub has_secret_key : Members → Bool
    has_secret_key end = false
    has_secret_key (member k v ms) =
        (obvious_secret_key k || value_has_secret_key v) || has_secret_key ms

  -- actionPayloadContainsCredentialMaterial
  unfoldable mutual
    pub value_credential : Json → Bool
    value_credential (array xs) = items_credential xs
    value_credential (object ms) = members_credential ms
    value_credential (string s) = contains_credential s
    value_credential null = false
    value_credential (scalar s) = false

    pub items_credential : Items → Bool
    items_credential nil = false
    items_credential (cons x xs) = value_credential x || items_credential xs

    pub members_credential : Members → Bool
    members_credential end = false
    members_credential (member k v ms) = value_credential v || members_credential ms
