-- ===== src/Gsbench/Capacity/Quota.antt =====
-- Which quotas parseTablespaceQuota of internal/gsbench/dataset_capacity.go accepts.
use native.Mathlib.Nat.{le-div_iff_mul-le}
use gstop.Base.{
  ℕ, ◌*◌, ◌/◌, ◌≤◌, ◌<◌, ◌≡◌, refl, true, List, [], ◌∷◌, ◌++◌, Option, none, some, leb, arith,
  if-elim, ap,
}
use gstop.Gsbench.Capacity.{
  quota, max_int64, is_digit, split_digits, digits_value, parse_int, prefix_multiplier, multiplier,
  scaled, with_number, parse_digits, parse_trimmed, parse_tablespace_quota,
}

abbrev AllDigits : List ℕ → Type 0
AllDigits [] = Unit
AllDigits (c ∷ cs) = (is_digit c ≡ true) × AllDigits cs

-- The text is digits and a unit, and their product is a positive int64.
pub record IsQuota (trim_space : List ℕ → List ℕ) (text : List ℕ) (bytes : ℕ) : Type 0 where
  pub digits : List ℕ
  pub unit : List ℕ
  pub factor : ℕ
  pub splits : text ≡ digits ++ unit
  pub all_digits : AllDigits digits
  pub known_unit : multiplier (trim_space unit) ≡ some factor
  pub product : bytes ≡ digits_value 0 digits * factor
  pub positive : 0 < digits_value 0 digits
  pub in_range : bytes ≤ max_int64

split_digits_splits :
    (cs : List ℕ)
    → (cs ≡ (split_digits cs).0 ++ (split_digits cs).1) × AllDigits (split_digits cs).0
unfolding split_digits
split_digits_splits [] = (refl, tt)
split_digits_splits (c ∷ cs) =
    if-elim (λ (s : List ℕ × List ℕ). (c ∷ cs ≡ s.0 ++ s.1) × AllDigits s.0) (is_digit c)
      (c ∷ (split_digits cs).0, (split_digits cs).1) ([], c ∷ cs)
      (λ e.
        (ap (λ (ds : List ℕ). c ∷ ds) (split_digits_splits cs).0, (e, (split_digits_splits cs).1)))
      (λ e. (refl, tt))

prefix_multiplier_pos : (c m : ℕ) → prefix_multiplier c ≡ some m → 0 < m
unfolding prefix_multiplier
prefix_multiplier_pos c m e = ground arith

multiplier_pos : (cs : List ℕ) (m : ℕ) → multiplier cs ≡ some m → 0 < m
unfolding multiplier
multiplier_pos [] m e = ground arith
multiplier_pos (c ∷ []) m e = grind (arith, prefix_multiplier_pos c m)
multiplier_pos (c ∷ d ∷ []) m e = grind (arith, prefix_multiplier_pos c m)
multiplier_pos (c ∷ d ∷ x ∷ cs) m e = absurd (let h : ⊥ = cc in h)

scaled_cases :
    (number m bytes : ℕ)
    → 0 < m
    → scaled number (some m) ≡ quota bytes
    → (0 < number) × (bytes ≡ number * m) × (number ≤ max_int64 / m)
unfolding scaled
scaled_cases number m bytes p e = (ground arith, ground arith, ground arith)

with_number_cases :
    (ds : List ℕ) (unit : Option ℕ) (bytes : ℕ)
    → with_number (parse_int ds) unit ≡ quota bytes
    → (m : ℕ) × (unit ≡ some m) × (scaled (digits_value 0 ds) (some m) ≡ quota bytes)
unfolding with_number parse_int scaled
with_number_cases ds none bytes =
    if-elim
      (λ (n : Option ℕ).
        with_number n none ≡ quota bytes
        → (m : ℕ) × (none ≡ some m) × (scaled (digits_value 0 ds) (some m) ≡ quota bytes))
      (leb (digits_value 0 ds) max_int64) (some (digits_value 0 ds)) none
      (λ e q. absurd (let h : ⊥ = cc in h)) (λ e q. absurd (let h : ⊥ = cc in h))
with_number_cases ds (some m) bytes =
    if-elim
      (λ (n : Option ℕ).
        with_number n (some m) ≡ quota bytes
        → (k : ℕ) × (some m ≡ some k) × (scaled (digits_value 0 ds) (some k) ≡ quota bytes))
      (leb (digits_value 0 ds) max_int64) (some (digits_value 0 ds)) none (λ e q. (m, refl, q))
      (λ e q. absurd (let h : ⊥ = cc in h))

module _ (to_upper trim_space : List ℕ → List ℕ) where
  parse_digits-IsQuota :
      (text ds unit : List ℕ) (bytes : ℕ)
      → text ≡ ds ++ unit
      → AllDigits ds
      → parse_digits to_upper trim_space ds unit ≡ quota bytes
      → IsQuota trim_space text bytes
  unfolding parse_digits
  parse_digits-IsQuota text [] unit bytes s a e = absurd (let h : ⊥ = cc in h)
  parse_digits-IsQuota text (c ∷ cs) unit bytes s a e =
      let w = with_number_cases (c ∷ cs) (multiplier (trim_space unit)) bytes e in
      let p = multiplier_pos (trim_space unit) w.0 w.1 in
      let r = scaled_cases (digits_value 0 (c ∷ cs)) w.0 bytes p w.2 in
      record {
        digits = c ∷ cs;
        unit = unit;
        factor = w.0;
        splits = s;
        all_digits = a;
        known_unit = w.1;
        product = r.1;
        positive = r.0;
        in_range = omega (arith, r.1, (le-div_iff_mul-le p).0 r.2);
      }

  parse_trimmed-IsQuota :
      (text : List ℕ) (bytes : ℕ)
      → parse_trimmed to_upper trim_space text ≡ quota bytes
      → IsQuota trim_space text bytes
  unfolding parse_trimmed
  parse_trimmed-IsQuota [] bytes e = absurd (let h : ⊥ = cc in h)
  parse_trimmed-IsQuota (c ∷ cs) bytes e =
      let s = split_digits_splits (c ∷ cs) in
      parse_digits-IsQuota (c ∷ cs) (split_digits (c ∷ cs)).0 (split_digits (c ∷ cs)).1 bytes s.0
        s.1 e

-- A quota that parseTablespaceQuota accepts is a positive decimal number in front of a known unit, its
-- bytes are their product without any wrap-around, and they fit in an int64.
pub parse_tablespace_quota-IsQuota :
    (to_upper trim_space : List ℕ → List ℕ) (value : List ℕ) (bytes : ℕ)
    → parse_tablespace_quota to_upper trim_space value ≡ quota bytes
    → IsQuota trim_space (to_upper (trim_space value)) bytes
unfolding parse_tablespace_quota
parse_tablespace_quota-IsQuota to_upper trim_space value bytes e =
    parse_trimmed-IsQuota to_upper trim_space (to_upper (trim_space value)) bytes e
