-- ===== src/Sqlshape.antt =====
-- The shape of an SQL text, internal/sqlshape/signature.go: Canonical, whose SHA-256 sum is the
-- signature. A text is a list of bytes, and the loop over it recurses on the rest of the text that is
-- still to be read, with one unit of fuel for each byte.
mod Lexing
mod Symbols
mod Fuel
mod Relexing
mod Pieces
mod Bytes
mod Shapes
mod Examples
use gstop.Base.{
  ℕ, zero, suc, ◌+◌, Bool, true, false, ◌&&◌, ◌||◌, List, [], ◌∷◌, ◌++◌, map, length, ltb, leb,
  ◌==◌, if◌then◌else◌,
}

abbrev pub Bytes : Type 0
Bytes = List ℕ

unfoldable pub is_space : ℕ → Bool
is_space c = c == b' ' || c == 9 || c == 13 || c == 10 || c == 12

unfoldable pub is_digit : ℕ → Bool
is_digit c = leb b'0' c && leb c b'9'

unfoldable pub is_word_start : ℕ → Bool
is_word_start c = c == b'_' || leb b'a' c && leb c b'z' || leb b'A' c && leb c b'Z'

unfoldable pub is_word_part : ℕ → Bool
is_word_part c = is_word_start c || is_digit c || c == b'$'

-- strings.ToLower, on a byte of a word
unfoldable pub lower : ℕ → ℕ
lower c = if leb b'A' c && leb c b'Z' then c + 32 else c

-- Is there a next byte, and does it pass the test?
unfoldable pub next : (ℕ → Bool) → Bytes → Bool
next p [] = false
next p (c ∷ s) = p c

abbrev pub after_next : Bytes → Bytes
after_next [] = []
after_next (c ∷ s) = s

unfoldable pub take_while : (ℕ → Bool) → Bytes → Bytes
take_while p [] = []
take_while p (c ∷ s) = let rest = take_while p s in if p c then c ∷ rest else []

unfoldable pub drop_while : (ℕ → Bool) → Bytes → Bytes
drop_while p [] = []
drop_while p (c ∷ s) = let rest = drop_while p s in if p c then rest else c ∷ s

-- The rest of a line, and of a block comment: of one that is not closed, its last byte is left.
unfoldable pub skip_line : Bytes → Bytes
skip_line [] = []
skip_line (c ∷ s) = let rest = skip_line s in if c == 10 then c ∷ s else rest

unfoldable pub skip_block : Bytes → Bytes
skip_block [] = []
skip_block (c ∷ []) = c ∷ []
skip_block (c ∷ (d ∷ s)) =
    let rest = skip_block (d ∷ s) in if c == b'*' && (d == b'/') then s else rest

-- skipQuoted after the opening quote: what belongs to the token, and what follows it. The flag tells
-- that the byte before was a quote, which closes the token unless another one follows.
unfoldable pub quoted : ℕ → Bool → Bytes → Bytes × Bytes
quoted q flag [] = ([], [])
quoted q false (c ∷ s) = let (t, r) = quoted q (c == q) s in (c ∷ t, r)
quoted q true (c ∷ s) = let (t, r) = quoted q false s in if c == q then (c ∷ t, r) else ([], c ∷ s)

unfoldable pub skip_sign : Bytes → Bytes
skip_sign [] = []
skip_sign (c ∷ s) = if c == b'+' || c == b'-' then s else c ∷ s

unfoldable pub skip_exponent : Bytes → Bytes
skip_exponent [] = []
skip_exponent (c ∷ s) = if c == b'e' || c == b'E' then drop_while is_digit (skip_sign s) else c ∷ s

unfoldable pub skip_number : Bytes → Bytes
skip_number s = skip_exponent (drop_while (λ c. is_digit c || c == b'.') s)

unfoldable pub has_prefix : Bytes → Bytes → Bool
has_prefix [] s = true
has_prefix (c ∷ p) [] = false
has_prefix (c ∷ p) (d ∷ s) = (c == d) && has_prefix p s

abbrev pub drop_bytes : Bytes → Bytes → Bytes
drop_bytes [] s = s
drop_bytes (c ∷ p) [] = []
drop_bytes (c ∷ p) (d ∷ s) = drop_bytes p s

-- What the loop does next: it leaves bytes out, or appends a token; with the rest of the text.
pub data Step : Type 0 where
  skips : Bytes → Step
  emits : Bytes → Bytes → Step

unfoldable pub scan_operator : List Bytes → ℕ → Bytes → Step
scan_operator [] c s = emits (c ∷ []) s
scan_operator (o ∷ os) c s =
    let rest = scan_operator os c s in
    if has_prefix o (c ∷ s) then emits o (drop_bytes o (c ∷ s)) else rest

-- ->> #>> :: || >= <= <> != -> #> :=
abbrev pub operators : List Bytes
operators =
    (b'-' ∷ b'>' ∷ b'>' ∷ [])
    ∷ (b'#' ∷ b'>' ∷ b'>' ∷ [])
    ∷ (b':' ∷ b':' ∷ [])
    ∷ (b'|' ∷ b'|' ∷ [])
    ∷ (b'>' ∷ b'=' ∷ [])
    ∷ (b'<' ∷ b'=' ∷ [])
    ∷ (b'<' ∷ b'>' ∷ [])
    ∷ (b'!' ∷ b'=' ∷ [])
    ∷ (b'-' ∷ b'>' ∷ [])
    ∷ (b'#' ∷ b'>' ∷ [])
    ∷ (b':' ∷ b'=' ∷ [])
    ∷ []

abbrev pub mark : Bytes
mark = b'?' ∷ []

abbrev pub quote : ℕ
quote = 39

abbrev pub double_quote : ℕ
double_quote = 34

-- One round of the loop, at a byte with the bytes after it.
unfoldable pub step : ℕ → Bytes → Step
step c s =
    if is_space c
    then skips s
    else if c == b'-' && next (λ d. d == b'-') s
    then skips (skip_line (after_next s))
    else if c == b'/' && next (λ d. d == b'*') s
    then skips (skip_block (after_next s))
    else if c == quote
    then emits mark (quoted quote false s).1
    else if c == double_quote
    then (let (t, r) = quoted double_quote false s in emits (c ∷ t) r)
    else if c == b'?'
    then emits mark s
    else if c == b'$' && next is_digit s
    then emits mark (drop_while is_digit (after_next s))
    else if c == b':' && next is_word_start s
    then emits mark (drop_while is_word_part (after_next s))
    else if is_digit c || c == b'.' && next is_digit s
    then emits mark (skip_number (c ∷ s))
    else if is_word_start c
    then emits (map lower (c ∷ take_while is_word_part s)) (drop_while is_word_part s)
    else if c == b';'
    then skips s
    else scan_operator operators c s

unfoldable pub tokens : ℕ → Bytes → List Bytes
tokens zero s = []
tokens (suc fuel) [] = []
tokens (suc fuel) (c ∷ s) = elim (step c s) [
  | skips r ↦ tokens fuel r
  | emits t r ↦ t ∷ tokens fuel r
]

-- strings.Join(tokens, " ")
unfoldable pub join : List Bytes → Bytes
join [] = []
join (t ∷ []) = t
join (t ∷ (u ∷ ts)) = t ++ b' ' ∷ join (u ∷ ts)

unfoldable pub canonical : Bytes → Bytes
canonical sql = join (tokens (length sql) sql)
