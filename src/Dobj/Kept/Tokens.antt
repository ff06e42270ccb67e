-- ===== src/Dobj/Kept/Tokens.antt =====
-- The names in the tokens of a line have no zero among their bytes.
use cputwo.Base.{
  ℕ, zero, suc, ◌<◌, ◌≡◌, true, ◌||◌, Option, some, none, List, [], ◌∷◌, ◌==◌, if◌then◌else◌,
  if_intro, arith,
}
use cputwo.Base.Text.{is_digit, is_alpha, is_alnum, take}
use cputwo.Assembler.Token.{Token, ident, colon}
use cputwo.Assembler.Lexer.{
  Lexed, Ending, fine, complained, outside, token, line_end, lex_error, behind_line, skip_ws,
  scan_string, scan_word, number_token, name_token, string_token, dot_token, shift_token, token_at,
  next_token, tokenize,
}
use cputwo.Dobj.Fields.{NoZero}
use cputwo.Dobj.Records.{AllFit}

abbrev pub NamedToken : Token → Type 0
NamedToken (ident name) = NoZero name
NamedToken (colon name) = NoZero name
NamedToken t = Unit {0}

abbrev pub AllNamed : List Token → Type 0
AllNamed = AllFit NamedToken

-- What a call of `next_token` gives.
abbrev NamedLexed : Lexed → Type 0
NamedLexed (token t rest) = NamedToken t
NamedLexed other = Unit {0}

take-NoZero : (n : ℕ) (cs : List ℕ) → NoZero cs → NoZero (take n cs)
unfolding take
take-NoZero zero cs h = tt
take-NoZero (suc n) [] h = tt
take-NoZero (suc n) (c ∷ cs) (p, ps) = (p, take-NoZero n cs ps)

letter-pos : (c : ℕ) → (is_alnum c || c == b'_') ≡ true → 0 < c
unfolding is_alnum is_digit is_alpha
letter-pos c h = ground arith

scan_word-NoZero : (cs : List ℕ) → NoZero (scan_word cs).0
unfolding scan_word
scan_word-NoZero [] = tt
scan_word-NoZero (c ∷ cs) =
    if_intro (λ (p : List ℕ × List ℕ). NoZero p.0) (is_alnum c || c == b'_')
      (λ e. (letter-pos c e, scan_word-NoZero cs)) (λ e. tt)

name_token-Named : (p : List ℕ × List ℕ) → NoZero p.0 → NamedLexed (name_token p)
unfolding name_token
name_token-Named (word, rest) h = by_rest (skip_ws rest)
  where
    by_rest :
        (after : List ℕ)
        → NamedLexed (elim after [
          | [] ↦ token (ident (take 255 word)) []
          | c ∷ cs ↦
              if c == 58
              then token (colon (take 255 word)) cs
              else token (ident (take 255 word)) (c ∷ cs)
        ])
    by_rest [] = take-NoZero 255 word h
    by_rest (c ∷ cs) =
        if_intro NamedLexed (c == 58) (λ e. take-NoZero 255 word h) (λ e. take-NoZero 255 word h)

shift_token-Named : (cs : List ℕ) → NamedLexed (shift_token cs)
unfolding shift_token
shift_token-Named [] = tt
shift_token-Named (c ∷ cs) = if_intro NamedLexed (c == b'>') (λ e. tt) (λ e. tt)

string_token-Named : (o : Option (List ℕ × List ℕ)) → NamedLexed (string_token o)
unfolding string_token
string_token-Named none = tt
string_token-Named (some (s, rest)) = tt

token_at-Named : (c : ℕ) (cs : List ℕ) → NamedLexed (token_at c cs)
unfolding token_at dot_token number_token
token_at-Named c cs =
    if_intro NamedLexed (c == b'\n' || c == b';') (λ e. tt)
      λ e.
        if_intro NamedLexed (c == b',') (λ e. tt)
          λ e.
            if_intro NamedLexed (c == b'[') (λ e. tt)
              λ e.
                if_intro NamedLexed (c == b']') (λ e. tt)
                  λ e.
                    if_intro NamedLexed (c == b'+') (λ e. tt)
                      λ e.
                        if_intro NamedLexed (c == b'-') (λ e. tt)
                          λ e.
                            if_intro NamedLexed (c == b'>') (λ e. shift_token-Named cs)
                              λ e.
                                if_intro NamedLexed (c == b'"')
                                  (λ e. string_token-Named (scan_string 255 cs))
                                  λ e.
                                    if_intro NamedLexed (c == b'.') (λ e. tt)
                                      λ e.
                                        if_intro NamedLexed (is_digit c) (λ e. tt)
                                          λ e.
                                            if_intro NamedLexed (is_alpha c || c == b'_')
                                              (λ e.
                                                name_token-Named (scan_word (c ∷ cs))
                                                  (scan_word-NoZero (c ∷ cs)))
                                              (λ e. tt)

next_token-Named : (cs : List ℕ) → NamedLexed (next_token cs)
unfolding next_token
next_token-Named cs = by_rest (skip_ws cs)
  where
    by_rest :
        (after : List ℕ) → NamedLexed (elim after [ [] ↦ line_end | c ∷ rest ↦ token_at c rest ])
    by_rest [] = tt
    by_rest (c ∷ rest) = token_at-Named c rest

pub tokenize-AllNamed : (n : ℕ) (cs : List ℕ) → AllNamed (tokenize n cs).0
unfolding tokenize
tokenize-AllNamed zero cs = tt
tokenize-AllNamed (suc n) cs =
    by_token (next_token cs) (next_token-Named cs) (λ rest. tokenize-AllNamed n rest)
  where
    by_token :
        (l : Lexed)
        → NamedLexed l
        → ((rest : List ℕ) → AllNamed (tokenize n rest).0)
        → AllNamed
            (elim l as (λ x. List Token × Ending) [
              | token t rest ↦ (t ∷ (tokenize n rest).0, (tokenize n rest).1)
              | line_end ↦ ([], fine)
              | lex_error ↦ ([], complained)
              | behind_line ↦ ([], outside)
            ]).0
    by_token (token t rest) h more = (h, more rest)
    by_token line_end h more = tt
    by_token lex_error h more = tt
    by_token behind_line h more = tt
