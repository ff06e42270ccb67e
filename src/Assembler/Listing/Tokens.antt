-- ===== src/Assembler/Listing/Tokens.antt =====
-- The tokens of a printed instruction.
use mathlib.Core.List.{append-nil}
use cputwo.Base.{
  ℕ, ◌+◌, ◌-◌, ◌^◌, ◌<◌, ◌≡◌, inl, inr, refl, subst, true, List, [], ◌∷◌, ◌++◌, ltb, if_intro,
  bit_and, add32, arith,
}
use cputwo.Base.Bits.{bit_and_mask}
use cputwo.Base.Int.{ℤ, pos, negsuc}
use cputwo.Base.Text.{is_alnum}
use cputwo.Assembler.Token.{Token, ident, int, comma, lbracket, rbracket, plus, minus}
use cputwo.Emulator.Decode.{Fields, decode}
use cputwo.Emulator.Disasm.{
  hex, print_unsigned, print_signed, reg_name, Shape, regs3, regs2, regs_cmp, shift5, mem, idx,
  cond_target, rd_target, rd_hex, no_operands, signed_imm, unsigned_imm, shift_imm, cmp_imm,
  unknown, reg_comma, signed16, print_operands,
}
use cputwo.Assembler.Listing.Lex.{
  Lexes, Lexes-end, Lexes-token, Stops, comma_token, lbracket_token, rbracket_token, plus_token,
  minus_token,
}
use cputwo.Assembler.Listing.Number.{unsigned_token, hex_token}
use cputwo.Assembler.Listing.Word.{is_word, reg_name-Register, register_token}
use cputwo.Assembler.Listing.Rows.{Starts, is_regular}

abbrev pub reg : ℕ → Token
reg r = ident (reg_name r)

-- A printed number, and what stands behind it.
abbrev pub signed_tokens : ℤ → List Token → List Token
signed_tokens (pos n) ts = int (pos n) ∷ ts
signed_tokens (negsuc n) ts = minus ∷ int (pos (n + 1)) ∷ ts

abbrev pub operands : Shape → ℕ → Fields → List Token
operands regs3 addr d = reg d.rd ∷ comma ∷ reg d.rs1 ∷ comma ∷ reg d.rs2 ∷ []
operands regs2 addr d = reg d.rd ∷ comma ∷ reg d.rs1 ∷ []
operands regs_cmp addr d = reg d.rs1 ∷ comma ∷ reg d.rs2 ∷ []
operands shift5 addr d = reg d.rd ∷ comma ∷ reg d.rs1 ∷ comma ∷ int (pos d.shift) ∷ []
operands mem addr d =
    reg d.rd
    ∷ comma
    ∷ lbracket
    ∷ reg d.rs1
    ∷ plus
    ∷ signed_tokens (signed16 d.imm16) (rbracket ∷ [])
operands idx addr d = reg d.rd ∷ comma ∷ lbracket ∷ reg d.rs1 ∷ plus ∷ reg d.rs2 ∷ rbracket ∷ []
operands cond_target addr d = int (pos (add32 addr d.soff)) ∷ []
operands rd_target addr d = reg d.rd ∷ comma ∷ int (pos (add32 addr d.soff)) ∷ []
operands rd_hex addr d = reg d.rd ∷ comma ∷ int (pos d.imm16) ∷ []
operands no_operands addr d = []
operands signed_imm addr d =
    reg d.rd ∷ comma ∷ reg d.rs1 ∷ comma ∷ signed_tokens (signed16 d.imm16) []
operands unsigned_imm addr d = reg d.rd ∷ comma ∷ reg d.rs1 ∷ comma ∷ int (pos d.imm16) ∷ []
operands shift_imm addr d =
    reg d.rd ∷ comma ∷ reg d.rs1 ∷ comma ∷ int (pos (bit_and d.imm16 0x1f)) ∷ []
operands cmp_imm addr d = reg d.rs1 ∷ comma ∷ signed_tokens (signed16 d.imm16) []
operands unknown addr d = []

pub record Fits (d : Fields) : Type 0 where
  pub rd : d.rd < 16
  pub rs1 : d.rs1 < 16
  pub rs2 : d.rs2 < 16
  pub shift : d.shift < 32
  pub imm16 : d.imm16 < 2 ^ 16

pub decode-Fits : (w : ℕ) → Fits (decode w)
unfolding decode
decode-Fits w = record {
  rd = omega (arith, bit_and_mask 4);
  rs1 = omega (arith, bit_and_mask 4);
  rs2 = omega (arith, bit_and_mask 4);
  shift = omega (arith, bit_and_mask 5);
  imm16 = omega (arith, bit_and_mask 16);
}

Lexes-reg :
    (r : ℕ) (rest : List ℕ) (ts : List Token)
    → r < 16
    → Stops rest
    → Lexes rest ts
    → Lexes (reg_name r ++ rest) (reg r ∷ ts)
Lexes-reg r rest ts h s more =
    Lexes-token (reg_name r ++ rest) rest (reg r) ts (register_token r rest h s) more

Lexes-last : (r : ℕ) → r < 16 → Lexes (reg_name r) (reg r ∷ [])
Lexes-last r h =
    subst (λ (cs : List ℕ). Lexes cs (reg r ∷ [])) (append-nil (reg_name r))
      (Lexes-reg r [] [] h tt Lexes-end)

Lexes-reg_comma :
    (r : ℕ) (rest : List ℕ) (ts : List Token)
    → r < 16
    → Lexes rest ts
    → Lexes (reg_comma r rest) (reg r ∷ comma ∷ ts)
unfolding reg_comma
Lexes-reg_comma r rest ts h more =
    Lexes-reg r (b',' ∷ rest) (comma ∷ ts) h (inl refl)
      (Lexes-token (b',' ∷ rest) rest comma ts (comma_token rest) more)

Lexes-unsigned :
    (n : ℕ) (rest : List ℕ) (ts : List Token)
    → n < 10 ^ 5
    → Stops rest
    → Lexes rest ts
    → Lexes (print_unsigned n rest) (int (pos n) ∷ ts)
Lexes-unsigned n rest ts h s more =
    Lexes-token (print_unsigned n rest) rest (int (pos n)) ts (unsigned_token n rest h s) more

Lexes-signed :
    (v : ℕ) (rest : List ℕ) (ts : List Token)
    → v < 2 ^ 16
    → Stops rest
    → Lexes rest ts
    → Lexes (print_signed (signed16 v) rest) (signed_tokens (signed16 v) ts)
unfolding print_signed
Lexes-signed v rest ts h s more =
    if_intro (λ (z : ℤ). Lexes (print_signed z rest) (signed_tokens z ts)) (ltb v (2 ^ 15))
      (λ e. Lexes-unsigned v rest ts (omega arith) s more)
      (λ e.
        Lexes-token (print_signed (negsuc (2 ^ 16 - v - 1)) rest)
          (print_unsigned (2 ^ 16 - v - 1 + 1) rest) minus (int (pos (2 ^ 16 - v - 1 + 1)) ∷ ts)
          (minus_token (print_unsigned (2 ^ 16 - v - 1 + 1) rest))
          (Lexes-unsigned (2 ^ 16 - v - 1 + 1) rest ts (omega arith) s more))

Lexes-hex4 : (n : ℕ) → n < 2 ^ 16 → Lexes (hex 4 n []) (int (pos n) ∷ [])
Lexes-hex4 n h =
    Lexes-token (hex 4 n []) [] (int (pos n)) [] (hex_token 3 n [] (omega arith) (omega arith) tt)
      Lexes-end

Lexes-hex8 : (n : ℕ) → n < 2 ^ 32 → Lexes (hex 8 n []) (int (pos n) ∷ [])
Lexes-hex8 n h =
    Lexes-token (hex 8 n []) [] (int (pos n)) [] (hex_token 7 n [] (omega arith) (omega arith) tt)
      Lexes-end

rbracket_end : Lexes (b']' ∷ []) (rbracket ∷ [])
rbracket_end = Lexes-token (b']' ∷ []) [] rbracket [] (rbracket_token []) Lexes-end

-- A register in a bracket, and a sum.
Lexes-bracket :
    (r : ℕ) (rest : List ℕ) (ts : List Token)
    → r < 16
    → Lexes rest ts
    → Lexes (b'[' ∷ (reg_name r ++ b'+' ∷ rest)) (lbracket ∷ reg r ∷ plus ∷ ts)
Lexes-bracket r rest ts h more =
    Lexes-token (b'[' ∷ (reg_name r ++ b'+' ∷ rest)) (reg_name r ++ b'+' ∷ rest) lbracket
      (reg r ∷ plus ∷ ts) (lbracket_token (reg_name r ++ b'+' ∷ rest))
      (Lexes-reg r (b'+' ∷ rest) (plus ∷ ts) h (inr (inr refl))
        (Lexes-token (b'+' ∷ rest) rest plus ts (plus_token rest) more))

word-Starts : (w rest : List ℕ) → is_word w ≡ true → Starts (w ++ rest)
unfolding is_alnum
word-Starts [] rest h = absurd (cc)
word-Starts (c ∷ w) rest h = ground arith

reg_name-Starts : (r : ℕ) (rest : List ℕ) → r < 16 → Starts (reg_name r ++ rest)
reg_name-Starts r rest h = word-Starts (reg_name r) rest (reg_name-Register r h).0

pub print_operands-Starts :
    (s : Shape) (addr instr : ℕ) (d : Fields)
    → is_regular s ≡ true
    → Fits d
    → Starts (print_operands s addr instr d)
unfolding print_operands reg_comma
print_operands-Starts regs3 addr instr d e f = reg_name-Starts d.rd _ f.rd
print_operands-Starts regs2 addr instr d e f = reg_name-Starts d.rd _ f.rd
print_operands-Starts regs_cmp addr instr d e f = reg_name-Starts d.rs1 _ f.rs1
print_operands-Starts shift5 addr instr d e f = reg_name-Starts d.rd _ f.rd
print_operands-Starts mem addr instr d e f = reg_name-Starts d.rd _ f.rd
print_operands-Starts idx addr instr d e f = reg_name-Starts d.rd _ f.rd
print_operands-Starts cond_target addr instr d e f = absurd (cc)
print_operands-Starts rd_target addr instr d e f = reg_name-Starts d.rd _ f.rd
print_operands-Starts rd_hex addr instr d e f = reg_name-Starts d.rd _ f.rd
print_operands-Starts no_operands addr instr d e f = tt
print_operands-Starts signed_imm addr instr d e f = reg_name-Starts d.rd _ f.rd
print_operands-Starts unsigned_imm addr instr d e f = reg_name-Starts d.rd _ f.rd
print_operands-Starts shift_imm addr instr d e f = reg_name-Starts d.rd _ f.rd
print_operands-Starts cmp_imm addr instr d e f = reg_name-Starts d.rs1 _ f.rs1
print_operands-Starts unknown addr instr d e f = absurd (cc)

add32-lt : (a b : ℕ) → add32 a b < 2 ^ 32
add32-lt a b = omega arith

low5-lt : (a : ℕ) → bit_and a 0x1f < 32
low5-lt a = omega (arith, bit_and_mask 5 a)

-- The operands behind a mnemonic.
pub Lexes-operands :
    (s : Shape) (addr instr : ℕ) (d : Fields)
    → is_regular s ≡ true
    → Fits d
    → Lexes (print_operands s addr instr d) (operands s addr d)
unfolding print_operands
Lexes-operands regs3 addr instr d e f =
    Lexes-reg_comma d.rd _ _ f.rd (Lexes-reg_comma d.rs1 _ _ f.rs1 (Lexes-last d.rs2 f.rs2))
Lexes-operands regs2 addr instr d e f = Lexes-reg_comma d.rd _ _ f.rd (Lexes-last d.rs1 f.rs1)
Lexes-operands regs_cmp addr instr d e f = Lexes-reg_comma d.rs1 _ _ f.rs1 (Lexes-last d.rs2 f.rs2)
Lexes-operands shift5 addr instr d e f = Lexes-reg_comma d.rd _ _ f.rd (
    Lexes-reg_comma d.rs1 _ _ f.rs1
      (Lexes-unsigned d.shift [] [] (omega (arith, f.shift)) tt Lexes-end))
Lexes-operands mem addr instr d e f = Lexes-reg_comma d.rd _ _ f.rd (
    Lexes-bracket d.rs1 _ _ f.rs1
      (Lexes-signed d.imm16 (b']' ∷ []) (rbracket ∷ []) f.imm16 (inr (inl refl)) rbracket_end))
Lexes-operands idx addr instr d e f = Lexes-reg_comma d.rd _ _ f.rd (
    Lexes-bracket d.rs1 _ _ f.rs1
      (Lexes-reg d.rs2 (b']' ∷ []) (rbracket ∷ []) f.rs2 (inr (inl refl)) rbracket_end))
Lexes-operands cond_target addr instr d e f = absurd (cc)
Lexes-operands rd_target addr instr d e f =
    Lexes-reg_comma d.rd _ _ f.rd (Lexes-hex8 (add32 addr d.soff) (add32-lt addr d.soff))
Lexes-operands rd_hex addr instr d e f = Lexes-reg_comma d.rd _ _ f.rd (Lexes-hex4 d.imm16 f.imm16)
Lexes-operands no_operands addr instr d e f = Lexes-end
Lexes-operands signed_imm addr instr d e f =
    Lexes-reg_comma d.rd _ _ f.rd
      (Lexes-reg_comma d.rs1 _ _ f.rs1 (Lexes-signed d.imm16 [] [] f.imm16 tt Lexes-end))
Lexes-operands unsigned_imm addr instr d e f =
    Lexes-reg_comma d.rd _ _ f.rd (Lexes-reg_comma d.rs1 _ _ f.rs1 (Lexes-hex4 d.imm16 f.imm16))
Lexes-operands shift_imm addr instr d e f = Lexes-reg_comma d.rd _ _ f.rd (
    Lexes-reg_comma d.rs1 _ _ f.rs1
      (Lexes-unsigned (bit_and d.imm16 0x1f) [] [] (omega (arith, low5-lt d.imm16)) tt Lexes-end))
Lexes-operands cmp_imm addr instr d e f =
    Lexes-reg_comma d.rs1 _ _ f.rs1 (Lexes-signed d.imm16 [] [] f.imm16 tt Lexes-end)
Lexes-operands unknown addr instr d e f = absurd (cc)

-- The branches, whose names are operands of the format.
pub Lexes-target :
    (addr soff : ℕ) → Lexes (hex 8 (add32 addr soff) []) (int (pos (add32 addr soff)) ∷ [])
Lexes-target addr soff = Lexes-hex8 (add32 addr soff) (add32-lt addr soff)
