-- ===== src/Gsbench/Capacity.antt =====
-- parseTablespaceQuota of internal/gsbench/dataset_capacity.go. The text is a list of bytes, an
-- accepted int64 is a number, and strings.ToUpper and strings.TrimSpace are parameters.
mod Quota
mod Examples
use gstop.Base.{
  ℕ, ◌+◌, ◌-◌, ◌*◌, ◌/◌, Bool, true, false, ◌||◌, ◌&&◌, List, [], ◌∷◌, Option, none, some, ltb, leb,
  ◌==◌, if◌then◌else◌,
}

pub data QuotaError : Type 0 where
  empty_quota no_number number_range unsupported_unit outside_int64 : QuotaError

pub data Parsed : Type 0 where
  bad_quota : QuotaError → Parsed
  quota : ℕ → Parsed

abbrev pub max_int64 : ℕ
max_int64 = 9223372036854775807

abbrev pub is_digit : ℕ → Bool
is_digit c = leb b'0' c && leb c b'9'

-- The digits in front, and the rest.
unfoldable pub split_digits : List ℕ → List ℕ × List ℕ
split_digits [] = ([], [])
split_digits (c ∷ cs) =
    let rest = split_digits cs in if is_digit c then (c ∷ rest.0, rest.1) else ([], c ∷ cs)

unfoldable pub digits_value : ℕ → List ℕ → ℕ
digits_value value [] = value
digits_value value (c ∷ cs) = digits_value (value * 10 + (c - b'0')) cs

-- strconv.ParseInt of digits, in base 10 for 64 bits.
unfoldable pub parse_int : List ℕ → Option ℕ
parse_int cs = let v = digits_value 0 cs in if leb v max_int64 then some v else none

-- The multipliers of the prefixes, without and with the B behind them.
unfoldable pub prefix_multiplier : ℕ → Option ℕ
prefix_multiplier c =
    if c == b'K'
    then some 1024
    else if c == b'M'
    then some 1048576
    else if c == b'G'
    then some 1073741824
    else if c == b'T'
    then some 1099511627776
    else if c == b'P'
    then some 1125899906842624
    else none

unfoldable pub multiplier : List ℕ → Option ℕ
multiplier [] = some 1
multiplier (c ∷ []) = if c == b'B' then some 1 else prefix_multiplier c
multiplier (c ∷ d ∷ []) = if d == b'B' then prefix_multiplier c else none
multiplier (c ∷ d ∷ e ∷ cs) = none

unfoldable pub scaled : ℕ → Option ℕ → Parsed
scaled number none = bad_quota unsupported_unit
scaled number (some m) =
    if (number == 0) || ltb (max_int64 / m) number
    then bad_quota outside_int64
    else quota (number * m)

unfoldable pub with_number : Option ℕ → Option ℕ → Parsed
with_number none unit = bad_quota number_range
with_number (some number) unit = scaled number unit

module _ (to_upper trim_space : List ℕ → List ℕ) where
  unfoldable pub parse_digits : List ℕ → List ℕ → Parsed
  parse_digits [] unit = bad_quota no_number
  parse_digits (c ∷ cs) unit = with_number (parse_int (c ∷ cs)) (multiplier (trim_space unit))

  unfoldable pub parse_trimmed : List ℕ → Parsed
  parse_trimmed [] = bad_quota empty_quota
  parse_trimmed (c ∷ cs) = let s = split_digits (c ∷ cs) in parse_digits s.0 s.1

  unfoldable pub parse_tablespace_quota : List ℕ → Parsed
  parse_tablespace_quota value = parse_trimmed (to_upper (trim_space value))
