-- ===== src/Gsbench/Capacity/Examples.antt =====
-- Tests and instances for the quotas, with identities for the texts that are trimmed and upper-case.
use gstop.Base.{ℕ, ◌≡◌, refl, List, [], ◌∷◌}
use gstop.Gsbench.Capacity.{
  bad_quota, outside_int64, parse_tablespace_quota, parse_trimmed, parse_digits, split_digits,
  digits_value, parse_int, multiplier, prefix_multiplier, scaled, with_number,
}
use gstop.Gsbench.Capacity.Quota.{IsQuota, parse_tablespace_quota-IsQuota}

abbrev twelve_kb : List ℕ
twelve_kb = b'1' ∷ b'2' ∷ b'K' ∷ b'B' ∷ []

nine_thousand_peta :
    parse_tablespace_quota (λ s. s) (λ s. s) (b'9' ∷ b'0' ∷ b'0' ∷ b'0' ∷ b'P' ∷ [])
    ≡ bad_quota outside_int64
unfolding parse_tablespace_quota parse_trimmed parse_digits split_digits digits_value parse_int
    multiplier prefix_multiplier scaled with_number
nine_thousand_peta = refl

parse_tablespace_quota-IsQuota_example : IsQuota (λ s. s) twelve_kb 12288
unfolding parse_tablespace_quota parse_trimmed parse_digits split_digits digits_value parse_int
    multiplier prefix_multiplier scaled with_number
parse_tablespace_quota-IsQuota_example =
    parse_tablespace_quota-IsQuota (λ s. s) (λ s. s) twelve_kb 12288 refl
