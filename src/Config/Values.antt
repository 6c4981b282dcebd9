-- ===== src/Config/Values.antt =====
-- How internal/config/value.go reads a value. What the code takes from Go's strings and strconv beyond
-- ASCII is the record GoStrings; a float64 is a parameter.
use gstop.Base.{
  ℕ, ◌+◌, ◌-◌, ◌*◌, ◌^◌, Bool, true, false, ◌&&◌, ◌||◌, not, [], ◌∷◌, Option, none, some, length,
  take, drop, ltb, leb, ◌==◌, if◌then◌else◌,
}
use gstop.Config.Keys.{Bytes, same_bytes, ℤ, pos, Value, int, float, bool, text}

pub record GoStrings (F : Type 0) : Type 0 where
  pub trim_space : Bytes → Bytes
  pub to_lower : Bytes → Bytes
  -- strconv.ParseFloat
  pub parse_float : Bytes → Option F
  -- the conversion of a float64 to an int
  pub truncate : F → ℤ

-- strings.HasPrefix and strings.HasSuffix, for one byte
unfoldable pub starts_with : ℕ → Bytes → Bool
starts_with c [] = false
starts_with c (d ∷ s) = c == d

unfoldable pub ends_with : ℕ → Bytes → Bool
ends_with c [] = false
ends_with c (d ∷ []) = c == d
ends_with c (d ∷ (e ∷ s)) = ends_with c (e ∷ s)

unfoldable pub index_byte : ℕ → Bytes → Option ℕ
index_byte c [] = none
index_byte c (d ∷ s) =
    let rest = index_byte c s in
    if c == d
    then some 0
    else (elim rest as (λ _. Option ℕ) [ none ↦ none | some i ↦ some (i + 1) ])

unfoldable pub all_digits : Bytes → Bool
all_digits [] = true
all_digits (c ∷ s) = leb b'0' c && leb c b'9' && all_digits s

unfoldable pub is_digits : Bytes → Bool
is_digits [] = false
is_digits (c ∷ s) = all_digits (c ∷ s)

-- strings.Replace of the first dot
unfoldable pub without_dot : Bytes → Bytes
without_dot [] = []
without_dot (c ∷ s) = let rest = without_dot s in if c == b'.' then s else c ∷ rest

unfoldable pub contains : ℕ → Bytes → Bool
contains c [] = false
contains c (d ∷ s) = c == d || contains c s

unfoldable pub is_decimal : Bytes → Bool
is_decimal value =
    if not (contains b'.' value)
    then false
    else if starts_with b'.' value || ends_with b'.' value
    then false
    else is_digits (without_dot value)

-- strconv.ParseInt of digits
unfoldable pub digits_value : ℕ → Bytes → ℕ
digits_value n [] = n
digits_value n (c ∷ s) = digits_value (10 * n + (c - b'0')) s

unfoldable pub parse_int : Bytes → Option ℤ
parse_int s = let n = digits_value 0 s in if ltb n (2 ^ 63) then some (pos n) else none

abbrev pub or_else : {A : Type 0} → Option A → A → A
or_else none b = b
or_else (some a) b = a

abbrev pub when : {A : Type 0} → Bool → Option A → Option A
when b o = if b then o else none

unfoldable pub is_quoted : Bytes → Bool
is_quoted value =
    leb 2 (length value)
    && (starts_with 34 value && ends_with 34 value || starts_with 39 value && ends_with 39 value)

abbrev pub true_word : Bytes
true_word = b't' ∷ b'r' ∷ b'u' ∷ b'e' ∷ []

abbrev pub false_word : Bytes
false_word = b'f' ∷ b'a' ∷ b'l' ∷ b's' ∷ b'e' ∷ []

unfoldable pub as_int : {F : Type 0} → Option ℤ → Option (Value F)
as_int none = none
as_int (some n) = some (int n)

unfoldable pub as_float : {F : Type 0} → Option F → Option (Value F)
as_float none = none
as_float (some x) = some (float x)

-- The switch on the words of the Booleans.
unfoldable pub word_value : {F : Type 0} → GoStrings F → Bytes → Value F
word_value go value =
    if same_bytes (go.to_lower value) true_word
    then bool true
    else if same_bytes (go.to_lower value) false_word
    then bool false
    else text value

unfoldable pub parse_value : {F : Type 0} → GoStrings F → Bytes → Value F
parse_value go raw =
    let value = go.trim_space raw in
    if is_quoted value
    then text (take (length value - 2) (drop 1 value))
    else or_else (when (is_digits value) (as_int (parse_int value)))
        (or_else (when (is_decimal value) (as_float (go.parse_float value))) (word_value go value))
