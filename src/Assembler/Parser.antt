-- ===== src/Assembler/Parser.antt =====
-- Parsers over the tokens of a line: `toks[i]` is the head of the list and `i++` drops it.
use cputwo.Base.{List}
use cputwo.Assembler.Token.{Token}
use cputwo.Assembler.Parse
use cputwo.Assembler.Parse.{Parse, ok}

abbrev pub Parser {ℓ} : Type ℓ → Type ℓ
Parser A = List Token → Parse (A × List Token)

abbrev pub pure {ℓ} : {A : Type ℓ} → A → Parser A
pure a ts = ok (a, ts)

module _ {ℓ κ} {A : Type ℓ} {B : Type κ} where
  infixl 1 ◌>>=◌ ◌>>◌
  abbrev pub ◌>>=◌ : Parser A → (A → Parser B) → Parser B
  p >>= f = λ ts. Parse.◌>>=◌ (p ts) λ (a, rest). f a rest

  abbrev pub ◌>>◌ : Parser A → Parser B → Parser B
  p >> q = p >>= λ u. q

-- A result that reads no token.
abbrev pub lift {ℓ} : {A : Type ℓ} → Parse A → Parser A
lift p ts = Parse.◌>>=◌ p λ a. ok (a, ts)
