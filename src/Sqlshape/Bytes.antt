-- ===== src/Sqlshape/Bytes.antt =====
-- The bytes that the lexer of internal/sqlshape/signature.go tells apart are those of the pieces.
use gstop.Base.{ℕ, ◌≡◌, refl, Bool, false, ◌||◌, List, [], ◌∷◌, ◌==◌, arith, subst, All, ◌∙◌, ◌&&◌}
use gstop.Sqlshape.{
  Bytes, is_space, is_digit, is_word_start, is_word_part, lower, next, has_prefix, scan_operator,
  operators, emits, step,
}
use gstop.Sqlshape.Symbols.{IsPlain, and_false}
use gstop.Sqlshape.Pieces.{
  is_blank, digit, letter, word_byte, small, IsSymbol, begins, pairs, is_pair,
}

pub is_blank-eq : (c : ℕ) → is_blank c ≡ is_space c
unfolding is_space
is_blank-eq c = ground arith

pub digit-eq : digit ≡ is_digit
unfolding is_digit
digit-eq = refl

pub letter-eq : (c : ℕ) → letter c ≡ is_word_start c
unfolding is_word_start
letter-eq c = ground arith

word_byte_at : (c : ℕ) → word_byte c ≡ is_word_part c
unfolding is_word_part is_word_start is_digit
word_byte_at c = ground arith

pub word_byte-eq : word_byte ≡ is_word_part
word_byte-eq = λ i c. word_byte_at c i

small_at : (c : ℕ) → small c ≡ lower c
unfolding lower
small_at c = ground arith

pub small-eq : small ≡ lower
small-eq = λ i c. small_at c i

pub IsSymbol-IsPlain : (c : ℕ) → IsSymbol c → IsPlain c
unfolding IsPlain is_space is_digit is_word_start
IsSymbol-IsPlain c s = ground arith

scan_operator-none :
    (os : List Bytes) (c : ℕ) (u : Bytes)
    → All (λ o. has_prefix o (c ∷ u) ≡ false) os
    → scan_operator os c u ≡ emits (c ∷ []) u
unfolding scan_operator
scan_operator-none [] c u a = refl
scan_operator-none (o ∷ os) c u a = rw (a.0) (scan_operator-none os c u a.1)

no_pair :
    (x y : ℕ) (r : Bytes) (c d : ℕ) (u : Bytes)
    → (c == x && d == y) ≡ false
    → has_prefix (x ∷ (y ∷ r)) (c ∷ (d ∷ u)) ≡ false
unfolding has_prefix
no_pair x y r c d u h = ground arith

no_byte : (x y : ℕ) (r : Bytes) (c : ℕ) → has_prefix (x ∷ (y ∷ r)) (c ∷ []) ≡ false
unfolding has_prefix
no_byte x y r c = ground arith

or_false : (a b : Bool) → (a || b) ≡ false → (a ≡ false) × (b ≡ false)
or_false a b h = (ground arith, ground arith)

no_pairs :
    (c d : ℕ) (ps : List (ℕ × ℕ))
    → is_pair c d ps ≡ false
    → All (λ p. (c == p.0 && d == p.1) ≡ false) ps
no_pairs c d [] h = tt
no_pairs c d ((x, y) ∷ ps) h =
    let q = or_false (c == x && d == y) (is_pair c d ps) h in (q.0, no_pairs c d ps q.1)

scan_operator-pairs :
    (c d : ℕ) (u : Bytes)
    → All (λ p. (c == p.0 && d == p.1) ≡ false) pairs
    → scan_operator operators c (d ∷ u) ≡ emits (c ∷ []) (d ∷ u)
scan_operator-pairs c d u (p0, (p1, (p2, (p3, (p4, (p5, (p6, (p7, (p8, (p9, (p10, rest))))))))))) =
    scan_operator-none operators c (d ∷ u) (
      no_pair b'-' b'>' (b'>' ∷ []) c d u p2,
      (
        no_pair b'#' b'>' (b'>' ∷ []) c d u p3,
        (
          no_pair b':' b':' ([]) c d u p4,
          (
            no_pair b'|' b'|' ([]) c d u p6,
            (
              no_pair b'>' b'=' ([]) c d u p7,
              (
                no_pair b'<' b'=' ([]) c d u p8,
                (
                  no_pair b'<' b'>' ([]) c d u p9,
                  (
                    no_pair b'!' b'=' ([]) c d u p10,
                    (
                      no_pair b'-' b'>' ([]) c d u p2,
                      (no_pair b'#' b'>' ([]) c d u p3, (no_pair b':' b'=' ([]) c d u p5, tt)),
                    ),
                  ),
                ),
              ),
            ),
          ),
        ),
      ),
    )

scan_operator-last : (c : ℕ) → scan_operator operators c [] ≡ emits (c ∷ []) []
scan_operator-last c = scan_operator-none operators c [] (
  no_byte b'-' b'>' (b'>' ∷ []) c,
  (
    no_byte b'#' b'>' (b'>' ∷ []) c,
    (
      no_byte b':' b':' ([]) c,
      (
        no_byte b'|' b'|' ([]) c,
        (
          no_byte b'>' b'=' ([]) c,
          (
            no_byte b'<' b'=' ([]) c,
            (
              no_byte b'<' b'>' ([]) c,
              (
                no_byte b'!' b'=' ([]) c,
                (
                  no_byte b'-' b'>' ([]) c,
                  (no_byte b'#' b'>' ([]) c, (no_byte b':' b'=' ([]) c, tt)),
                ),
              ),
            ),
          ),
        ),
      ),
    ),
  ),
)

no_value :
    (c d : ℕ)
    → (c == b'$' && digit d || (c == b':' && letter d || c == b'.' && digit d)) ≡ false
    → ((c == b'$' && is_digit d) ≡ false)
      × ((c == b':' && is_word_start d) ≡ false)
      × ((c == b'.' && is_digit d) ≡ false)
unfolding is_digit
no_value c d h =
    let a = or_false (c == b'$' && digit d) (c == b':' && letter d || c == b'.' && digit d) h in
    let b = or_false (c == b':' && letter d) (c == b'.' && digit d) a.1 in
    (a.0, subst (λ t. (c == b':' && t) ≡ false) (letter-eq d) b.0, b.1)

-- No case before the last of a round takes the byte.
step-last :
    (c : ℕ) (u : Bytes)
    → IsPlain c
    → ((c == b'-' && next (λ d. d == b'-') u) ≡ false)
    → ((c == b'/' && next (λ d. d == b'*') u) ≡ false)
    → ((c == b'$' && next is_digit u) ≡ false)
    → ((c == b':' && next is_word_start u) ≡ false)
    → ((c == b'.' && next is_digit u) ≡ false)
    → step c u ≡ scan_operator operators c u
unfolding step IsPlain
step-last c u (p0, p1, p2, p3, p4, p5, p6) a b e f g =
    rw (p0, a, b, p1, p2, p3, e, f, p4, g, p5, p6) refl

-- A symbol that begins nothing with the byte after it is a token by itself.
pub step-symbol :
    (c : ℕ) (u : Bytes) → IsSymbol c → next (begins c) u ≡ false → step c u ≡ emits (c ∷ []) u
unfolding next begins
step-symbol c [] s h =
    step-last c [] (IsSymbol-IsPlain c s) (and_false (c == b'-')) (and_false (c == b'/'))
      (and_false (c == b'$')) (and_false (c == b':')) (and_false (c == b'.'))
    ∙ scan_operator-last c
step-symbol c (d ∷ u) s h =
    let (pair, value) =
      or_false (is_pair c d pairs)
        (c == b'$' && digit d || (c == b':' && letter d || c == b'.' && digit d)) h in
    let ps = no_pairs c d pairs pair in
    let n = no_value c d value in
    step-last c (d ∷ u) (IsSymbol-IsPlain c s) ps.0 ps.1.0 n.0 n.1 n.2
    ∙ scan_operator-pairs c d u ps
