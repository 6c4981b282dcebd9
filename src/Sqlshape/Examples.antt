-- ===== src/Sqlshape/Examples.antt =====
-- Tests and an instance for the shapes of SQL texts.
use gstop.Base.{arith, ◌≡◌, refl, List, [], ◌∷◌}
use gstop.Sqlshape.{
  Bytes, is_space, is_digit, is_word_start, is_word_part, lower, next, take_while, drop_while,
  skip_line, skip_block, quoted, skip_exponent, skip_sign, skip_number, has_prefix, scan_operator,
  step, tokens, join, canonical,
}
use gstop.Sqlshape.Pieces.{
  Piece, blank, line_comment, block_comment, semicolon, text, name, numbered, number, scientific,
  word, operator, at_least, symbol, minus, escape, print, shapes, begins,
}
use gstop.Sqlshape.Relexing.{canonical-canonical}
use gstop.Sqlshape.Shapes.{canonical-print}

-- Id>=1.5e-7 --x, a line end, /*y*/'it''s'"A",$1;a=1
abbrev pieces : List Piece
pieces =
    word b'I' (b'd' ∷ [])
    ∷ operator at_least
    ∷ scientific b'1' (b'.' ∷ b'5' ∷ []) minus b'7' []
    ∷ blank b' '
    ∷ line_comment (b'x' ∷ [])
    ∷ blank 10
    ∷ block_comment (b'y' ∷ [])
    ∷ text (b'i' ∷ b't' ∷ 39 ∷ b's' ∷ [])
    ∷ name (b'A' ∷ [])
    ∷ symbol b','
    ∷ numbered b'1' []
    ∷ semicolon
    ∷ word b'a' []
    ∷ symbol b'='
    ∷ number b'1' []
    ∷ []

-- id >= ? ? "A" , ? a = ?
abbrev shaped : Bytes
shaped =
    b'i' ∷ b'd' ∷ b' ' ∷ b'>' ∷ b'=' ∷ b' ' ∷ b'?' ∷ b' ' ∷ b'?' ∷ b' ' ∷ 34 ∷ b'A' ∷ 34 ∷ b' '
    ∷ b',' ∷ b' ' ∷ b'?' ∷ b' ' ∷ b'a' ∷ b' ' ∷ b'=' ∷ b' ' ∷ b'?' ∷ []

shapes-pieces : join (shapes pieces) ≡ shaped
unfolding join shapes escape
shapes-pieces = refl

canonical-pieces : canonical (print pieces) ≡ shaped
unfolding canonical print join escape tokens step is_space is_digit is_word_start is_word_part lower
    next take_while drop_while skip_line skip_block quoted skip_exponent skip_sign skip_number
    has_prefix scan_operator
canonical-pieces = refl

-- x /*ab: the last byte of a comment that is not closed is a token.
last_byte : canonical (b'x' ∷ b' ' ∷ b'/' ∷ b'*' ∷ b'a' ∷ b'b' ∷ []) ≡ b'x' ∷ b' ' ∷ b'b' ∷ []
unfolding canonical join tokens step is_space is_digit is_word_start is_word_part lower next
    take_while drop_while skip_block
last_byte = refl

canonical-print_example : canonical (print pieces) ≡ join (shapes pieces)
unfolding begins
canonical-print_example =
    canonical-print pieces
      (
        (refl, (refl, tt)),
        (
          tt,
          (
            (refl, (refl, (refl, tt)), refl, tt),
            (
              refl,
              (
                (refl, tt),
                (
                  refl,
                  (
                    tt,
                    (
                      tt,
                      (
                        tt,
                        (
                          (refl, refl, refl, refl, refl, refl, refl),
                          (
                            (refl, tt),
                            (
                              tt,
                              (
                                (refl, tt),
                                ((refl, refl, refl, refl, refl, refl, refl), ((refl, tt), tt)),
                              ),
                            ),
                          ),
                        ),
                      ),
                    ),
                  ),
                ),
              ),
            ),
          ),
        ),
      )
      (
        refl,
        (
          refl,
          (
            refl,
            (
              refl,
              (refl, (refl, (refl, (refl, (refl, (refl, (refl, (refl, (refl, (refl, tt)))))))))),
            ),
          ),
        ),
      )

canonical-canonical_example :
    (canonical (canonical (print pieces)) ≡ canonical (print pieces))
    × (canonical (print pieces) ≡ join (tokens 60 (print pieces)))
unfolding print escape
canonical-canonical_example = canonical-canonical (print pieces) 60 (omega arith)
