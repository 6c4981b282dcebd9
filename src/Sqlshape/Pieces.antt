-- ===== src/Sqlshape/Pieces.antt =====
-- SQL texts that are put together from pieces, as Canonical of internal/sqlshape/signature.go is meant to
-- see them: values, names, comments and symbols. The classes of bytes and the operators stand here as
-- SQL has them, apart from those of the lexer.
use gstop.Base.{
  ℕ, ◌≡◌, Bool, true, false, ◌&&◌, ◌||◌, not, List, [], ◌∷◌, ◌++◌, map, Option, none, some, leb,
  ◌==◌, ◌+◌, ◌-◌, if◌then◌else◌, All,
}
use gstop.Sqlshape.{Bytes}

abbrev pub is_blank : ℕ → Bool
is_blank c = c == b' ' || (leb 9 c && leb c 10 || leb 12 c && leb c 13)

abbrev pub digit : ℕ → Bool
digit c = leb b'0' c && leb c b'9'

abbrev pub letter : ℕ → Bool
letter c = leb b'a' c && leb c b'z' || leb b'A' c && leb c b'Z' || c == b'_'

abbrev pub word_byte : ℕ → Bool
word_byte c = digit c || letter c || c == b'$'

abbrev pub small : ℕ → ℕ
small c = if leb b'A' c && leb c b'Z' then c + (b'a' - b'A') else c

pub data Sign : Type 0 where
  unsigned plus minus : Sign

-- ->> -> #>> #> :: := || >= <= <> !=
pub data Operator : Type 0 where
  text_arrow arrow text_path path cast assign concat at_least at_most differs not_equal : Operator

pub data Piece : Type 0 where
  blank : ℕ → Piece
  -- after its dashes, and without the end of its line
  line_comment : Bytes → Piece
  block_comment : Bytes → Piece
  semicolon : Piece
  -- the value of a string, and the spelling of a quoted identifier, without their quotes
  text : Bytes → Piece
  name : Bytes → Piece
  -- ?, $1 and :name
  placeholder : Piece
  numbered : ℕ → Bytes → Piece
  named : ℕ → Bytes → Piece
  number : ℕ → Bytes → Piece
  scientific : ℕ → Bytes → Sign → ℕ → Bytes → Piece
  word : ℕ → Bytes → Piece
  operator : Operator → Piece
  symbol : ℕ → Piece

-- Quotes are doubled.
unfoldable pub escape : ℕ → Bytes → Bytes
escape q [] = []
escape q (c ∷ v) = let rest = escape q v in if c == q then q ∷ q ∷ rest else c ∷ rest

abbrev pub sign_bytes : Sign → Bytes
sign_bytes unsigned = []
sign_bytes plus = b'+' ∷ []
sign_bytes minus = b'-' ∷ []

abbrev pub operator_first : Operator → ℕ
operator_first text_arrow = b'-'
operator_first arrow = b'-'
operator_first text_path = b'#'
operator_first path = b'#'
operator_first cast = b':'
operator_first assign = b':'
operator_first concat = b'|'
operator_first at_least = b'>'
operator_first at_most = b'<'
operator_first differs = b'<'
operator_first not_equal = b'!'

abbrev pub operator_others : Operator → Bytes
operator_others text_arrow = b'>' ∷ b'>' ∷ []
operator_others arrow = b'>' ∷ []
operator_others text_path = b'>' ∷ b'>' ∷ []
operator_others path = b'>' ∷ []
operator_others cast = b':' ∷ []
operator_others assign = b'=' ∷ []
operator_others concat = b'|' ∷ []
operator_others at_least = b'=' ∷ []
operator_others at_most = b'=' ∷ []
operator_others differs = b'>' ∷ []
operator_others not_equal = b'=' ∷ []

abbrev pub first : Piece → ℕ
first (blank c) = c
first (line_comment t) = b'-'
first (block_comment t) = b'/'
first semicolon = b';'
first (text v) = 39
first (name v) = 34
first placeholder = b'?'
first (numbered d ds) = b'$'
first (named c w) = b':'
first (number d ds) = d
first (scientific d ds s e es) = d
first (word c w) = c
first (operator o) = operator_first o
first (symbol c) = c

abbrev pub others : Piece → Bytes
others (blank c) = []
others (line_comment t) = b'-' ∷ t
others (block_comment t) = b'*' ∷ (t ++ (b'*' ∷ b'/' ∷ []))
others semicolon = []
others (text v) = escape 39 v ++ 39 ∷ []
others (name v) = escape 34 v ++ 34 ∷ []
others placeholder = []
others (numbered d ds) = d ∷ ds
others (named c w) = c ∷ w
others (number d ds) = ds
others (scientific d ds s e es) = ds ++ (b'e' ∷ (sign_bytes s ++ e ∷ es))
others (word c w) = w
others (operator o) = operator_others o
others (symbol c) = []

-- The bytes of the pieces, with nothing between them.
unfoldable pub print : List Piece → Bytes
print [] = []
print (p ∷ ps) = first p ∷ (others p ++ print ps)

-- A block comment does not hold its own end.
abbrev pub IsOpen : Bytes → Type 0
IsOpen [] = Unit
IsOpen (c ∷ []) = Unit
IsOpen (c ∷ (d ∷ t)) = ((c == b'*' && (d == b'/')) ≡ false) × IsOpen (d ∷ t)

abbrev pub AreDigits : Bytes → Type 0
AreDigits = All (λ c. digit c ≡ true)

-- Digits and dots.
abbrev pub AreDecimals : Bytes → Type 0
AreDecimals = All (λ c. (digit c || c == b'.') ≡ true)

abbrev pub AreWordBytes : Bytes → Type 0
AreWordBytes = All (λ c. word_byte c ≡ true)

-- A byte that no other piece begins with.
abbrev pub IsSymbol : ℕ → Type 0
IsSymbol c =
    (is_blank c ≡ false)
    × ((c == 39) ≡ false)
    × ((c == 34) ≡ false)
    × ((c == b'?') ≡ false)
    × (digit c ≡ false)
    × (letter c ≡ false)
    × ((c == b';') ≡ false)

abbrev pub IsValid : Piece → Type 0
IsValid (blank c) = is_blank c ≡ true
IsValid (line_comment t) = All (λ c. (c == 10) ≡ false) t
IsValid (block_comment t) = IsOpen t
IsValid semicolon = Unit
IsValid (text v) = Unit
IsValid (name v) = Unit
IsValid placeholder = Unit
IsValid (numbered d ds) = (digit d ≡ true) × AreDigits ds
IsValid (named c w) = (letter c ≡ true) × AreWordBytes w
IsValid (number d ds) = (digit d ≡ true) × AreDecimals ds
IsValid (scientific d ds s e es) =
    (digit d ≡ true) × AreDecimals ds × (digit e ≡ true) × AreDigits es
IsValid (word c w) = (letter c ≡ true) × AreWordBytes w
IsValid (operator o) = Unit
IsValid (symbol c) = IsSymbol c

-- -- /* -> #> :: := || >= <= <> !=
abbrev pub pairs : List (ℕ × ℕ)
pairs =
    (b'-', b'-')
    ∷ (b'/', b'*')
    ∷ (b'-', b'>')
    ∷ (b'#', b'>')
    ∷ (b':', b':')
    ∷ (b':', b'=')
    ∷ (b'|', b'|')
    ∷ (b'>', b'=')
    ∷ (b'<', b'=')
    ∷ (b'<', b'>')
    ∷ (b'!', b'=')
    ∷ []

abbrev pub is_pair : ℕ → ℕ → List (ℕ × ℕ) → Bool
is_pair c d [] = false
is_pair c d ((x, y) ∷ ps) = (c == x && d == y) || is_pair c d ps

-- Do two bytes begin an operator, a comment, a bind or a number?
unfoldable pub begins : ℕ → ℕ → Bool
begins c d =
    is_pair c d pairs || (c == b'$' && digit d || (c == b':' && letter d || c == b'.' && digit d))

-- Would the byte after a piece belong to it?
abbrev pub joins : Piece → ℕ → Bool
joins (blank c) d = false
joins (line_comment t) d = not (d == 10)
joins (block_comment t) d = false
joins semicolon d = false
joins (text v) d = d == 39
joins (name v) d = d == 34
joins placeholder d = false
joins (numbered _ ds) d = digit d
joins (named c w) d = word_byte d
joins (number _ ds) d = digit d || d == b'.' || (d == b'e' || d == b'E')
joins (scientific _ ds s e es) d = digit d
joins (word c w) d = word_byte d
joins (operator arrow) d = d == b'>'
joins (operator path) d = d == b'>'
joins (operator _) d = false
joins (symbol c) d = begins c d

-- No piece is joined by the one after it.
abbrev pub AreApart : List Piece → Type 0
AreApart [] = Unit
AreApart (p ∷ []) = Unit
AreApart (p ∷ (q ∷ ps)) = (joins p (first q) ≡ false) × AreApart (q ∷ ps)

-- What a piece is for the shape: values and binds are all the same, words are folded to lower case,
-- and blanks, comments and semicolons are nothing.
abbrev pub shape : Piece → Option Bytes
shape (blank c) = none
shape (line_comment t) = none
shape (block_comment t) = none
shape semicolon = none
shape (text v) = some (b'?' ∷ [])
shape (name v) = some (34 ∷ (escape 34 v ++ 34 ∷ []))
shape placeholder = some (b'?' ∷ [])
shape (numbered d ds) = some (b'?' ∷ [])
shape (named c w) = some (b'?' ∷ [])
shape (number d ds) = some (b'?' ∷ [])
shape (scientific d ds s e es) = some (b'?' ∷ [])
shape (word c w) = some (map small (c ∷ w))
shape (operator o) = some (operator_first o ∷ operator_others o)
shape (symbol c) = some (c ∷ [])

abbrev pub add_shape : Option Bytes → List Bytes → List Bytes
add_shape none ts = ts
add_shape (some t) ts = t ∷ ts

unfoldable pub shapes : List Piece → List Bytes
shapes [] = []
shapes (p ∷ ps) = add_shape (shape p) (shapes ps)
