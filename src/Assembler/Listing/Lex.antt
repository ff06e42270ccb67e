-- ===== src/Assembler/Listing/Lex.antt =====
-- The tokens in printed text: words, numbers, and the bytes between them.
use cputwo.Base.{ℕ, zero, suc, ◌<◌, ◌≡◌, ◌⊎◌, refl, List, [], ◌∷◌, length, arith}
use cputwo.Assembler.Token.{Token, comma, lbracket, rbracket, plus, minus}
use cputwo.Assembler.Lexer.{token, fine, skip_ws, token_at, next_token, tokenize}

-- A text with these tokens.
abbrev pub Lexes : List ℕ → List Token → Type 0
Lexes cs ts = (n : ℕ) → length ts < n → tokenize n cs ≡ (ts, fine)

pub Lexes-end : Lexes [] []
unfolding tokenize next_token skip_ws
Lexes-end zero h = absurd (omega arith)
Lexes-end (suc n) h = refl

pub Lexes-token :
    (cs rest : List ℕ) (t : Token) (ts : List Token)
    → next_token cs ≡ token t rest
    → Lexes rest ts
    → Lexes cs (t ∷ ts)
unfolding tokenize
Lexes-token cs rest t ts first more zero h = absurd (omega arith)
Lexes-token cs rest t ts first more (suc n) h = rw (tokenize, first, more n (omega arith)) refl

-- What may stand behind an operand: nothing, or one of the bytes between operands.
abbrev pub Stops : List ℕ → Type 0
Stops [] = Unit {0}
Stops (c ∷ cs) = (c ≡ b',') ⊎ (c ≡ b']') ⊎ (c ≡ b'+')

-- The bytes between operands.
pub comma_token : (cs : List ℕ) → next_token (b',' ∷ cs) ≡ token comma cs
unfolding next_token token_at skip_ws
comma_token cs = refl

pub lbracket_token : (cs : List ℕ) → next_token (b'[' ∷ cs) ≡ token lbracket cs
unfolding next_token token_at skip_ws
lbracket_token cs = refl

pub rbracket_token : (cs : List ℕ) → next_token (b']' ∷ cs) ≡ token rbracket cs
unfolding next_token token_at skip_ws
rbracket_token cs = refl

pub plus_token : (cs : List ℕ) → next_token (b'+' ∷ cs) ≡ token plus cs
unfolding next_token token_at skip_ws
plus_token cs = refl

pub minus_token : (cs : List ℕ) → next_token (b'-' ∷ cs) ≡ token minus cs
unfolding next_token token_at skip_ws
minus_token cs = refl
