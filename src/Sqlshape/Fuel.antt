-- ===== src/Sqlshape/Fuel.antt =====
-- The loop of Canonical, internal/sqlshape/signature.go, ends: each round takes a byte at least.
use gstop.Base.{
  ℕ, zero, suc, ◌≤◌, ◌≡◌, Bool, true, false, ◌&&◌, ◌||◌, List, [], ◌∷◌, length, ◌==◌, if-elim,
  arith, ap, ◌∙◌, sym, All,
}
use gstop.Sqlshape.{
  Bytes, is_space, is_digit, is_word_start, is_word_part, next, after_next, drop_while, skip_line,
  skip_block, quoted, skip_sign, skip_exponent, skip_number, has_prefix, drop_bytes, Step, skips,
  emits, scan_operator, operators, quote, double_quote, step, tokens,
}
use gstop.Sqlshape.Lexing.{tokens-nil}

-- The rest that a round leaves is no longer than this.
abbrev Within : ℕ → Step → Type 0
Within n (skips r) = length r ≤ n
Within n (emits t r) = length r ≤ n

length-drop_while-le : (p : ℕ → Bool) (s : Bytes) → length (drop_while p s) ≤ length s
unfolding drop_while
length-drop_while-le p [] = omega arith
length-drop_while-le p (c ∷ s) = ground (arith, length-drop_while-le p s)

length-skip_line-le : (s : Bytes) → length (skip_line s) ≤ length s
unfolding skip_line
length-skip_line-le [] = omega arith
length-skip_line-le (c ∷ s) = ground (arith, length-skip_line-le s)

length-skip_block-le : (s : Bytes) → length (skip_block s) ≤ length s
unfolding skip_block
length-skip_block-le [] = omega arith
length-skip_block-le (c ∷ []) = omega arith
length-skip_block-le (c ∷ (d ∷ s)) = ground (arith, length-skip_block-le (d ∷ s))

length-quoted-le : (q : ℕ) (flag : Bool) (s : Bytes) → length (quoted q flag s).1 ≤ length s
unfolding quoted
length-quoted-le q flag [] = omega arith
length-quoted-le q false (c ∷ s) = omega (arith, length-quoted-le q (c == q) s)
length-quoted-le q true (c ∷ s) =
    if-elim (λ (r : Bytes × Bytes). length r.1 ≤ suc (length s)) (c == q)
      (c ∷ (quoted q false s).0, (quoted q false s).1) ([], c ∷ s)
      (λ _. omega (arith, length-quoted-le q false s)) (λ _. omega arith)

length-skip_sign-le : (s : Bytes) → length (skip_sign s) ≤ length s
unfolding skip_sign
length-skip_sign-le [] = omega arith
length-skip_sign-le (c ∷ s) = ground arith

length-skip_exponent-le : (s : Bytes) → length (skip_exponent s) ≤ length s
unfolding skip_exponent
length-skip_exponent-le [] = omega arith
length-skip_exponent-le (c ∷ s) =
    ground (arith, length-drop_while-le is_digit (skip_sign s), length-skip_sign-le s)

length-skip_number-le :
    (c : ℕ) (s : Bytes) → (is_digit c || c == b'.') ≡ true → length (skip_number (c ∷ s)) ≤ length s
unfolding skip_number drop_while
length-skip_number-le c s h = rw h (
    omega (
      arith,
      length-skip_exponent-le (drop_while (λ d. is_digit d || d == b'.') s),
      length-drop_while-le (λ d. is_digit d || d == b'.') s,
    ))

length-after_next-le : (s : Bytes) → length (after_next s) ≤ length s
length-after_next-le [] = omega arith
length-after_next-le (c ∷ s) = omega arith

length-drop_bytes-le : (o s : Bytes) → length (drop_bytes o s) ≤ length s
length-drop_bytes-le [] s = omega arith
length-drop_bytes-le (c ∷ o) [] = omega arith
length-drop_bytes-le (c ∷ o) (d ∷ s) = omega (arith, length-drop_bytes-le o s)

abbrev Some : Bytes → Type 0
Some [] = ⊥
Some (c ∷ o) = Unit

scan_operator-Within :
    (os : List Bytes) (c : ℕ) (s : Bytes) → All Some os → Within (length s) (scan_operator os c s)
unfolding scan_operator
scan_operator-Within [] c s a = omega arith
scan_operator-Within ([] ∷ os) c s a = absurd a.0
scan_operator-Within ((d ∷ o) ∷ os) c s a =
    if-elim (Within (length s)) (has_prefix (d ∷ o) (c ∷ s)) (emits (d ∷ o) (drop_bytes o s))
      (scan_operator os c s) (λ _. length-drop_bytes-le o s) (λ _. scan_operator-Within os c s a.1)

step-Within : (c : ℕ) (s : Bytes) → Within (length s) (step c s)
unfolding step
step-Within c s =
    let n = length s in
    let l = length-after_next-le s in
    if-elim (Within n) (is_space c) _ _ (λ _. omega arith)
      (λ _.
        if-elim (Within n) (c == b'-' && next (λ d. d == b'-') s) _ _
          (λ _. omega (arith, l, length-skip_line-le (after_next s)))
          (λ _.
            if-elim (Within n) (c == b'/' && next (λ d. d == b'*') s) _ _
              (λ _. omega (arith, l, length-skip_block-le (after_next s)))
              (λ _.
                if-elim (Within n) (c == quote) _ _ (λ _. length-quoted-le quote false s)
                  (λ _.
                    if-elim (Within n) (c == double_quote) _ _
                      (λ _. length-quoted-le double_quote false s)
                      (λ _.
                        if-elim (Within n) (c == b'?') _ _ (λ _. omega arith)
                          (λ _.
                            if-elim (Within n) (c == b'$' && next is_digit s) _ _
                              (λ _. omega (arith, l, length-drop_while-le is_digit (after_next s)))
                              (λ _.
                                if-elim (Within n) (c == b':' && next is_word_start s) _ _
                                  (λ _.
                                    omega
                                      (arith, l, length-drop_while-le is_word_part (after_next s)))
                                  (λ _.
                                    if-elim (Within n) (is_digit c || c == b'.' && next is_digit s)
                                      _ _ (λ e. length-skip_number-le c s (ground arith))
                                      (λ _.
                                        if-elim (Within n) (is_word_start c) _ _
                                          (λ _. length-drop_while-le is_word_part s)
                                          (λ _.
                                            if-elim (Within n) (c == b';') _ _ (λ _. omega arith)
                                              (λ _. scan_operator-Within operators c s (
                                                tt,
                                                (
                                                  tt,
                                                  (
                                                    tt,
                                                    (
                                                      tt,
                                                      (tt, (tt, (tt, (tt, (tt, (tt, (tt, tt))))))),
                                                    ),
                                                  ),
                                                ),
                                              ))))))))))))

-- Any fuel that covers the bytes gives the same tokens.
pub tokens_enough : (m n : ℕ) (s : Bytes) → length s ≤ m → length s ≤ n → tokens m s ≡ tokens n s
unfolding tokens
tokens_enough m n [] h k = tokens-nil m ∙ sym (tokens-nil n)
tokens_enough zero n (c ∷ s) h k = absurd (omega (arith, h))
tokens_enough (suc m) zero (c ∷ s) h k = absurd (omega (arith, k))
tokens_enough (suc m) (suc n) (c ∷ s) h k = by_step (step c s) (step-Within c s) (tokens_enough m n)
  where
    by_step :
        (st : Step)
        → Within (length s) st
        → ((r : Bytes) → length r ≤ m → length r ≤ n → tokens m r ≡ tokens n r)
        → (elim st as (λ _. List Bytes) [ skips r ↦ tokens m r | emits t r ↦ t ∷ tokens m r ])
          ≡ (elim st as (λ _. List Bytes) [ skips r ↦ tokens n r | emits t r ↦ t ∷ tokens n r ])
    by_step (skips r) g ih = ih r (omega (arith, g, h)) (omega (arith, g, k))
    by_step (emits t r) g ih = ap (λ ts. t ∷ ts) (ih r (omega (arith, g, h)) (omega (arith, g, k)))
