-- ===== src/Assembler/Lexer.antt =====
-- `next_token` and `tokenize_line`, on the bytes of a line up to its end.
use cputwo.Base.{
  ℕ, ◌-◌, ◌^◌, ◌&&◌, ◌||◌, Option, none, some, List, [], ◌∷◌, ltb, ◌==◌, if◌then◌else◌,
}
use cputwo.Base.Int.{signed64}
use cputwo.Base.Text.{is_digit, is_alpha, is_alnum, digit_value, read_digits, take}
use cputwo.Assembler.Token.{
  Token, ident, int, string, comma, lbracket, rbracket, plus, minus, rshift, colon, dot_ident,
}

-- What a call of `next_token` gives: a token with what is left of the line, the end of the line, an
-- error that it has reported, or a read behind the end of the line.
pub data Lexed : Type 0 where
  token : Token → List ℕ → Lexed
  line_end : Lexed
  lex_error : Lexed
  behind_line : Lexed

unfoldable pub skip_ws : List ℕ → List ℕ
skip_ws [] = []
skip_ws (c ∷ cs) = let rest = skip_ws cs in if c == b' ' || c == b'\t' then rest else c ∷ cs

unfoldable pub escape : ℕ → ℕ
escape d =
    if d == b'n'
    then 10
    else if d == b'r'
    then 13
    else if d == b't'
    then 9
    else if d == b'0'
    then 0
    else d

unfoldable pub skip_quote : List ℕ → List ℕ
skip_quote [] = []
skip_quote (c ∷ cs) = if c == b'"' then cs else c ∷ cs

unfoldable pub prepend : ℕ → Option (List ℕ × List ℕ) → Option (List ℕ × List ℕ)
prepend c none = none
prepend c (some (s, rest)) = some (c ∷ s, rest)

-- The loop of a string literal, for `room` more bytes. A backslash at the end of the line takes the
-- terminator for its byte and goes on behind it: none.
unfoldable pub scan_string : ℕ → List ℕ → Option (List ℕ × List ℕ)
scan_string ℕ.zero cs = some ([], skip_quote cs)
scan_string (ℕ.suc room) [] = some ([], [])
scan_string (ℕ.suc room) (c ∷ []) =
    if c == b'"' then some ([], []) else if c == b'\\' then none else some (c ∷ [], [])
scan_string (ℕ.suc room) (c ∷ d ∷ cs) =
    let escaped = scan_string room cs in
    let plain = scan_string room (d ∷ cs) in
    if c == b'"'
    then some ([], d ∷ cs)
    else if c == b'\\'
    then prepend (escape d) escaped
    else prepend c plain

-- The letters, digits and underscores at the front.
unfoldable pub scan_word : List ℕ → List ℕ × List ℕ
scan_word [] = ([], [])
scan_word (c ∷ cs) =
    let (word, rest) = scan_word cs in
    if is_alnum c || c == b'_' then (c ∷ word, rest) else ([], c ∷ cs)

-- `strtoull(p, &end, 0)` at a digit: 0x and a hexadecimal digit, or 0, choose the base; a number
-- that does not fit is 2^64 - 1.
unfoldable pub read_number : List ℕ → ℕ × List ℕ
read_number (c ∷ x ∷ d ∷ cs) =
    if c == b'0' && (x == b'x' || x == b'X') && ltb (digit_value d) 16
    then read_digits 16 0 (d ∷ cs)
    else read_digits (if c == b'0' then 8 else 10) 0 (c ∷ x ∷ d ∷ cs)
read_number (c ∷ cs) = read_digits (if c == b'0' then 8 else 10) 0 (c ∷ cs)
read_number [] = (0, [])

-- The cast to `int64_t`.
unfoldable pub number_token : ℕ × List ℕ → Lexed
number_token (n, rest) = token (int (signed64 (if ltb n (2 ^ 64) then n else 2 ^ 64 - 1))) rest

-- A name, with a colon behind it or not.
unfoldable pub name_token : List ℕ × List ℕ → Lexed
name_token (word, rest) = with_colon (skip_ws rest)
  where
    with_colon : List ℕ → Lexed
    with_colon [] = token (ident (take 255 word)) []
    with_colon (c ∷ cs) =
        if c == b':'
        then token (colon (take 255 word)) cs
        else token (ident (take 255 word)) (c ∷ cs)

unfoldable pub string_token : Option (List ℕ × List ℕ) → Lexed
string_token none = behind_line
string_token (some (s, rest)) = token (string s) rest

unfoldable pub dot_token : List ℕ × List ℕ → Lexed
dot_token (word, rest) = token (dot_ident (b'.' ∷ take 254 word)) rest

-- `>>`, or an error.
unfoldable pub shift_token : List ℕ → Lexed
shift_token [] = lex_error
shift_token (c ∷ cs) = if c == b'>' then token rshift cs else lex_error

-- The token at a byte that is no blank.
unfoldable pub token_at : ℕ → List ℕ → Lexed
token_at c cs =
    if c == b'\n' || c == b';'
    then line_end
    else if c == b','
    then token comma cs
    else if c == b'['
    then token lbracket cs
    else if c == b']'
    then token rbracket cs
    else if c == b'+'
    then token plus cs
    else if c == b'-'
    then token minus cs
    else if c == b'>'
    then shift_token cs
    else if c == b'"'
    then string_token (scan_string 255 cs)
    else if c == b'.'
    then dot_token (scan_word cs)
    else if is_digit c
    then number_token (read_number (c ∷ cs))
    else if is_alpha c || c == b'_'
    then name_token (scan_word (c ∷ cs))
    else lex_error

unfoldable pub next_token : List ℕ → Lexed
next_token cs = first (skip_ws cs)
  where
    first : List ℕ → Lexed
    first [] = line_end
    first (c ∷ rest) = token_at c rest

-- How the tokens of a line end: with the line or the room for tokens, with an error, or with a read
-- behind the line.
pub data Ending : Type 0 where
  fine complained outside : Ending

-- `tokenize_line`, for `n` more tokens.
unfoldable pub tokenize : ℕ → List ℕ → List Token × Ending
tokenize ℕ.zero cs = ([], fine)
tokenize (ℕ.suc n) cs = elim (next_token cs) [
  | token t rest ↦ let (ts, e) = tokenize n rest in (t ∷ ts, e)
  | line_end ↦ ([], fine)
  | lex_error ↦ ([], complained)
  | behind_line ↦ ([], outside)
]

abbrev pub max_toks : ℕ
max_toks = 64

unfoldable pub tokenize_line : List ℕ → List Token × Ending
tokenize_line line = tokenize max_toks line
