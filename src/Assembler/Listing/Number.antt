-- ===== src/Assembler/Listing/Number.antt =====
-- Numbers in printed text, in decimal and in hexadecimal digits.
use cputwo.Base.{
  ℕ, zero, suc, ◌+◌, ◌*◌, ◌/◌, ◌%◌, ◌^◌, ◌<◌, ◌≤◌, ◌≡◌, ◌⊎◌, refl, ap, sym, ◌∙◌, false, ◌||◌, List,
  [], ◌∷◌, ltb, ◌==◌, if_intro, lt→ltb, arith,
}
use cputwo.Base.Int.{pos}
use cputwo.Base.Text.{is_digit, digit_value, read_digits}
use cputwo.Assembler.Token.{int}
use cputwo.Assembler.Lexer.{token, skip_ws, read_number, number_token, token_at, next_token}
use cputwo.Emulator.Disasm.{hex_digit, hex_onto, hex, decimal_onto, print_unsigned}
use cputwo.Assembler.Listing.Lex.{Stops}

stop_value : (c : ℕ) → (c ≡ b',') ⊎ (c ≡ b']') ⊎ (c ≡ b'+') → digit_value c ≡ 16
unfolding digit_value is_digit
stop_value c s = ground arith

not_ltb : (a b : ℕ) → b ≤ a → ltb a b ≡ false
not_ltb a b h = ground arith

read_digits-Stops :
    (base : ℕ) (acc : ℕ) (cs : List ℕ) → base ≤ 16 → Stops cs → read_digits base acc cs ≡ (acc, cs)
unfolding read_digits
read_digits-Stops base acc [] h s = refl
read_digits-Stops base acc (c ∷ cs) h s = rw (stop_value c s, not_ltb 16 base h) refl

digit_lem : (d : ℕ) → d < 10 → digit_value (b'0' + d) ≡ d
unfolding digit_value is_digit
digit_lem d h = ground arith

hex_digit_lem : (d : ℕ) → d < 16 → digit_value (hex_digit d) ≡ d
unfolding digit_value is_digit hex_digit
hex_digit_lem d h = ground arith

-- Reading one more digit.
read_digit :
    (base acc c d : ℕ) (cs : List ℕ)
    → digit_value c ≡ d
    → d < base
    → read_digits base acc (c ∷ cs) ≡ read_digits base (acc * base + d) cs
unfolding read_digits
read_digit base acc c d cs e h = rw (e, lt→ltb d base h) refl

-- A number that `k` divisions make zero.
abbrev pub Vanishes : ℕ → ℕ → ℕ → Type 0
Vanishes base zero n = n ≡ 0
Vanishes base (suc k) n = Vanishes base k (n / base)

read_digits-hex_onto :
    (k n : ℕ) (out : List ℕ)
    → Vanishes 16 k n
    → read_digits 16 0 (hex_onto k n out) ≡ read_digits 16 n out
unfolding hex_onto
read_digits-hex_onto zero n out h = rw h refl
read_digits-hex_onto (suc k) n out h =
    read_digits-hex_onto k (n / 16) (hex_digit (n % 16) ∷ out) h
    ∙ read_digit 16 (n / 16) (hex_digit (n % 16)) (n % 16) out
        (hex_digit_lem (n % 16) (omega arith)) (omega arith)
    ∙ ap (λ m. read_digits 16 m out) (omega arith)

read_digits-decimal_onto :
    (k n : ℕ) (out : List ℕ)
    → Vanishes 10 (suc k) n
    → read_digits 10 0 (decimal_onto k n out) ≡ read_digits 10 n out
unfolding decimal_onto
read_digits-decimal_onto zero n out h =
    read_digit 10 0 (b'0' + n % 10) (n % 10) out (digit_lem (n % 10) (omega arith)) (omega arith)
    ∙ ap (λ m. read_digits 10 m out) (omega arith)
read_digits-decimal_onto (suc k) n out h =
    if_intro (λ (cs : List ℕ). read_digits 10 0 cs ≡ read_digits 10 n out) (ltb n 10)
      (λ e.
        read_digit 10 0 (b'0' + n % 10) (n % 10) out (digit_lem (n % 10) (omega arith))
          (omega arith)
        ∙ ap (λ m. read_digits 10 m out) (ground arith))
      (λ e.
        read_digits-decimal_onto k (n / 10) ((b'0' + n % 10) ∷ out) h
        ∙ read_digit 10 (n / 10) (b'0' + n % 10) (n % 10) out (digit_lem (n % 10) (omega arith))
            (omega arith)
        ∙ ap (λ m. read_digits 10 m out) (omega arith))

-- A positive number begins with a digit from 1 to 9.
abbrev Leads : List ℕ → Type 0
Leads cs = (c : ℕ) × (rest : List ℕ) × (cs ≡ c ∷ rest) × (b'0' < c) × (c ≤ b'9')

decimal_onto-Leads :
    (k n : ℕ) (out : List ℕ) → Vanishes 10 (suc k) n → 0 < n → Leads (decimal_onto k n out)
unfolding decimal_onto
decimal_onto-Leads zero n out h more = (b'0' + n % 10, out, refl, omega arith, omega arith)
decimal_onto-Leads (suc k) n out h more =
    if_intro Leads (ltb n 10) (λ e. (b'0' + n % 10, out, refl, ground arith, ground arith))
      (λ e. decimal_onto-Leads k (n / 10) ((b'0' + n % 10) ∷ out) h (ground arith))

not_zero : (c : ℕ) → b'0' < c → (c == b'0') ≡ false
not_zero c h = ground arith

read_number_plain :
    (c : ℕ) (cs : List ℕ) → b'0' < c → read_number (c ∷ cs) ≡ read_digits 10 0 (c ∷ cs)
unfolding read_number
read_number_plain c [] h = rw (not_zero c h) refl
read_number_plain c (x ∷ []) h = rw (not_zero c h) refl
read_number_plain c (x ∷ d ∷ cs) h = rw (not_zero c h) refl

digit_first :
    (c : ℕ) (cs : List ℕ)
    → b'0' ≤ c
    → c ≤ b'9'
    → next_token (c ∷ cs) ≡ number_token (read_number (c ∷ cs))
unfolding next_token token_at skip_ws is_digit
digit_first c cs h k = ground arith

number_lem :
    (base n : ℕ) (rest : List ℕ)
    → base ≤ 16
    → n < 2 ^ 63
    → Stops rest
    → number_token (read_digits base n rest) ≡ token (int (pos n)) rest
unfolding number_token
number_lem base n rest h k s =
    rw (read_digits-Stops base n rest h s, lt→ltb n (2 ^ 64) (omega arith), lt→ltb n (2 ^ 63) k)
      refl

not_x : (x d : ℕ) → (x ≡ b',') ⊎ (x ≡ b']') ⊎ (x ≡ b'+') → (x == b'x' || x == b'X') ≡ false
not_x x d s = ground arith

-- A zero at the end of the digits is octal.
read_zero : (rest : List ℕ) → Stops rest → read_number (b'0' ∷ rest) ≡ read_digits 8 0 rest
unfolding read_number read_digits digit_value is_digit
read_zero [] s = refl
read_zero (x ∷ []) s = refl
read_zero (x ∷ d ∷ cs) s = rw (not_x x d s) refl

zero_token :
    (rest : List ℕ) → Stops rest → next_token (decimal_onto 4 0 rest) ≡ token (int (pos 0)) rest
unfolding decimal_onto
zero_token rest s =
    digit_first b'0' rest (omega arith) (omega arith)
    ∙ ap number_token (read_zero rest s)
    ∙ number_lem 8 0 rest (omega arith) (omega arith) s

-- `%u`
pub unsigned_token :
    (n : ℕ) (rest : List ℕ)
    → n < 10 ^ 5
    → Stops rest
    → next_token (print_unsigned n rest) ≡ token (int (pos n)) rest
unfolding print_unsigned
unsigned_token zero rest h s = zero_token rest s
unsigned_token (suc n) rest h s =
    let (c, cs, e, low, high) = decimal_onto-Leads 4 (suc n) rest (omega arith) (omega arith) in
    ap next_token e
    ∙ digit_first c cs (omega arith) high
    ∙ ap number_token (
        read_number_plain c cs low
        ∙ ap (read_digits 10 0) (sym e)
        ∙ read_digits-decimal_onto 4 (suc n) rest (omega arith))
    ∙ number_lem 10 (suc n) rest (omega arith) (omega arith) s

-- Hexadecimal digits begin with one.
abbrev LeadsHex : List ℕ → Type 0
LeadsHex cs = (c : ℕ) × (rest : List ℕ) × (cs ≡ c ∷ rest) × (digit_value c < 16)

hex_onto-LeadsHex : (k n : ℕ) (out : List ℕ) → LeadsHex out → LeadsHex (hex_onto k n out)
unfolding hex_onto
hex_onto-LeadsHex zero n out h = h
hex_onto-LeadsHex (suc k) n out h =
    hex_onto-LeadsHex k (n / 16) (hex_digit (n % 16) ∷ out)
      (hex_digit (n % 16), out, refl, omega (arith, hex_digit_lem (n % 16)))

read_number_hex :
    (c : ℕ) (cs : List ℕ)
    → digit_value c < 16
    → read_number (b'0' ∷ b'x' ∷ c ∷ cs) ≡ read_digits 16 0 (c ∷ cs)
unfolding read_number
read_number_hex c cs h = rw (lt→ltb (digit_value c) 16 h) refl

-- `0x%0kX`
pub hex_token :
    (k n : ℕ) (rest : List ℕ)
    → Vanishes 16 (suc k) n
    → n < 2 ^ 63
    → Stops rest
    → next_token (hex (suc k) n rest) ≡ token (int (pos n)) rest
unfolding hex hex_onto
hex_token k n rest h b s =
    let (c, cs, e, low) =
      hex_onto-LeadsHex k (n / 16) (hex_digit (n % 16) ∷ rest)
        (hex_digit (n % 16), rest, refl, omega (arith, hex_digit_lem (n % 16))) in
    digit_first b'0' (b'x' ∷ hex_onto k (n / 16) (hex_digit (n % 16) ∷ rest)) (omega arith)
      (omega arith)
    ∙ ap number_token (
        ap (λ (t : List ℕ). read_number (b'0' ∷ b'x' ∷ t)) e
        ∙ read_number_hex c cs low
        ∙ ap (read_digits 16 0) (sym e)
        ∙ read_digits-hex_onto (suc k) n rest h)
    ∙ number_lem 16 n rest (omega arith) b s
