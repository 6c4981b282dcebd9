-- ===== src/Sqlshape/Symbols.antt =====
-- The operators of internal/sqlshape/signature.go, and the bytes that are tokens by themselves.
use gstop.Base.{ℕ, ◌≡◌, refl, Bool, true, false, ◌&&◌, [], ◌∷◌, ◌==◌, All}
use gstop.Sqlshape.{
  is_space, is_digit, is_word_start, is_word_part, next, has_prefix, scan_operator, operators,
  quote, double_quote, step,
}
use gstop.Sqlshape.Lexing.{Final, Closed, scan_operator-single}

-- A byte of none of the cases before the last.
unfoldable pub IsPlain : ℕ → Type 0
IsPlain c =
    (is_space c ≡ false)
    × ((c == quote) ≡ false)
    × ((c == double_quote) ≡ false)
    × ((c == b'?') ≡ false)
    × (is_digit c ≡ false)
    × (is_word_start c ≡ false)
    × ((c == b';') ≡ false)

pub and_false : (b : Bool) → (b && false) ≡ false
and_false true = refl
and_false false = refl

pub no_digit : is_digit b' ' ≡ false
unfolding is_digit
no_digit = refl

pub no_word : is_word_start b' ' ≡ false
unfolding is_word_start
no_word = refl

-- A byte of no other case is a token by itself, before a space or at the end.
pub plain-Final : (c : ℕ) → IsPlain c → Final (c ∷ [])
unfolding step IsPlain next
plain-Final c p =
    rw (p.0, p.1, p.2, p.3, p.4, p.5, p.6) (simp and_false (scan_operator-single c [] refl))

pub plain-Closed : (c : ℕ) → IsPlain c → Closed (c ∷ [])
unfolding step IsPlain next
plain-Closed c p u =
    rw (p.0, p.1, p.2, p.3, p.4, p.5, p.6)
      (simp (and_false, no_digit, no_word) (scan_operator-single c (b' ' ∷ u) refl))

pub operators-Final : All (λ o. Final o × Closed o) operators
unfolding step is_space is_digit is_word_start scan_operator has_prefix next
operators-Final = (
  (refl, λ u. refl),
  (
    (refl, λ u. refl),
    (
      (refl, λ u. refl),
      (
        (refl, λ u. refl),
        (
          (refl, λ u. refl),
          (
            (refl, λ u. refl),
            (
              (refl, λ u. refl),
              (
                (refl, λ u. refl),
                ((refl, λ u. refl), ((refl, λ u. refl), ((refl, λ u. refl), tt))),
              ),
            ),
          ),
        ),
      ),
    ),
  ),
)

pub no_part : is_word_part b' ' ≡ false
unfolding is_word_part is_word_start is_digit
no_part = refl
