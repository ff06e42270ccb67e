-- ===== src/Assembler/Listing/Word.antt =====
-- Words in printed text: registers and mnemonics.
use cputwo.Base.{
  ℕ, zero, suc, ◌<◌, ◌≡◌, ◌⊎◌, inl, inr, refl, ap, sym, ◌∙◌, subst, Bool, true, false, ◌&&◌, ◌||◌,
  some, List, [], ◌∷◌, ◌++◌, ◌==◌, arith,
}
use cputwo.Base.Text.{
  is_digit, is_alpha, is_alnum, take, same_nocase, to_upper, read_digits, digit_value,
}
use cputwo.Assembler.Token.{ident}
use cputwo.Assembler.Lexer.{token, skip_ws, scan_word, name_token, token_at, next_token}
use cputwo.Assembler.Operands.{numbered_register, parse_register}
use cputwo.Emulator.Disasm.{reg_name}
use cputwo.Assembler.Listing.Lex.{Stops}

-- A word: a letter, then letters, digits and underscores.
abbrev pub all_word : List ℕ → Bool
all_word [] = true
all_word (c ∷ cs) = (is_alnum c || c == b'_') && all_word cs

abbrev pub is_word : List ℕ → Bool
is_word [] = false
is_word (c ∷ cs) = is_alpha c && all_word cs

and_split : (a b : Bool) → (a && b) ≡ true → (a ≡ true) × (b ≡ true)
and_split true b h = (refl, h)
and_split false b h = absurd (cc)

alpha_word : (c : ℕ) (w : List ℕ) → is_alpha c ≡ true → all_word w ≡ true → all_word (c ∷ w) ≡ true
unfolding is_alnum
alpha_word c w first more = ground arith

scan_word-append :
    (w rest : List ℕ)
    → all_word w ≡ true
    → (scan_word rest ≡ ([], rest))
    → scan_word (w ++ rest) ≡ (w, rest)
unfolding scan_word
scan_word-append [] rest h e = e
scan_word-append (c ∷ w) rest h e =
    let (first, more) = and_split (is_alnum c || c == b'_') (all_word w) h in
    rw (scan_word, first, scan_word-append w rest more e) refl

letter_first :
    (c : ℕ) (cs : List ℕ)
    → is_alpha c ≡ true
    → next_token (c ∷ cs) ≡ name_token (scan_word (c ∷ cs))
unfolding next_token token_at skip_ws is_digit is_alpha
letter_first c cs h = ground arith

-- No colon comes next.
abbrev pub NoColon : List ℕ → Type 0
NoColon [] = Unit {0}
NoColon (c ∷ cs) = (c == b':') ≡ false

name_token_lem :
    (w rest cs : List ℕ)
    → take 255 w ≡ w
    → skip_ws rest ≡ cs
    → NoColon cs
    → name_token (w, rest) ≡ token (ident w) cs
unfolding name_token
name_token_lem w rest [] fits e h = rw (name_token, e, fits) refl
name_token_lem w rest (c ∷ cs) fits e h = rw (name_token, e, fits, h) refl

-- A word, and what stands behind it.
pub word_token :
    (w rest cs : List ℕ)
    → is_word w ≡ true
    → take 255 w ≡ w
    → scan_word rest ≡ ([], rest)
    → skip_ws rest ≡ cs
    → NoColon cs
    → next_token (w ++ rest) ≡ token (ident w) cs
word_token [] rest cs h fits e behind colon = absurd (cc)
word_token (c ∷ w) rest cs h fits e behind colon =
    let (first, more) = and_split (is_alpha c) (all_word w) h in
    letter_first c (w ++ rest) first
    ∙ ap name_token (scan_word-append (c ∷ w) rest (alpha_word c w first more) e)
    ∙ name_token_lem (c ∷ w) rest cs fits behind colon

scan_word-Stops : (rest : List ℕ) → Stops rest → scan_word rest ≡ ([], rest)
unfolding scan_word is_alnum is_alpha is_digit
scan_word-Stops [] s = refl
scan_word-Stops (c ∷ cs) s = ground arith

skip_ws-Stops : (rest : List ℕ) → Stops rest → skip_ws rest ≡ rest
unfolding skip_ws
skip_ws-Stops [] s = refl
skip_ws-Stops (c ∷ cs) s = ground arith

Stops-NoColon : (rest : List ℕ) → Stops rest → NoColon rest
Stops-NoColon [] s = tt
Stops-NoColon (c ∷ cs) s = ground arith

-- Something that holds below a bound.
abbrev pub AllBelow : (ℕ → Type 0) → ℕ → Type 0
AllBelow P zero = Unit {0}
AllBelow P (suc n) = P n × AllBelow P n

eq_or_below : (i n : ℕ) → i < suc n → (i ≡ n) ⊎ (i < n)
eq_or_below i n h = omega arith

pub below : (P : ℕ → Type 0) (n i : ℕ) → AllBelow P n → i < n → P i
below P zero i all h = absurd (omega arith)
below P (suc n) i (here, more) h = elim (eq_or_below i n h) [
  | inl e ↦ subst P (sym e) here
  | inr lt ↦ below P n i more lt
]

abbrev Register : ℕ → Type 0
Register r =
    (is_word (reg_name r) ≡ true)
    × (take 255 (reg_name r) ≡ reg_name r)
    × (parse_register (reg_name r) ≡ some r)

registers : AllBelow Register 16
unfolding reg_name parse_register numbered_register is_alpha is_alnum is_digit take same_nocase
    to_upper read_digits digit_value
registers = search

pub reg_name-Register : (r : ℕ) → r < 16 → Register r
reg_name-Register r h = below Register 16 r registers h

pub register_token :
    (r : ℕ) (rest : List ℕ)
    → r < 16
    → Stops rest
    → next_token (reg_name r ++ rest) ≡ token (ident (reg_name r)) rest
register_token r rest h s =
    let (word, fits, parsed) = reg_name-Register r h in
    word_token (reg_name r) rest rest word fits (scan_word-Stops rest s) (skip_ws-Stops rest s)
      (Stops-NoColon rest s)
