-- ===== src/Assembler/Listing/Words.antt =====
-- Printed words: the fields that the assembler puts together again.
use cputwo.Base.{
  ℕ, ◌+◌, ◌-◌, ◌/◌, ◌%◌, ◌^◌, ◌<◌, ◌≤◌, ◌≡◌, ◌⊎◌, refl, ◌∙◌, subst, true, List, [], ◌∷◌, ltb, leb,
  if_intro, add32, ◌<<<◌, ◌>>>◌, arith,
}
use cputwo.Base.Bits.{bit_and_mask}
use cputwo.Base.Int.{ℤ, pos, negsuc, ◌-ℤ◌, low_bits}
use cputwo.Assembler.Token.{Token, int, rbracket}
use cputwo.Assembler.Parse.{ok}
use cputwo.Assembler.State.{Asm, Symbol}
use cputwo.Assembler.Expr.{
  second, is_second, fits64, checked, operand, first_operand, eval_tail, eval_expr,
}
use cputwo.Assembler.Operands.{register, expression}
use cputwo.Assembler.Encode.{
  word, enc_r, enc_i, enc_j, in_range, check_range, one_word, encode_relative,
}
use cputwo.Assembler.Encode.Fields.{
  enc_j_sum, enc_i_sum, enc_r_sum, decode_op, decode_rd, decode_rs1, decode_rs2, decode_imm16,
  decode_soff,
}
use cputwo.Assembler.Encode.Immediate.{register_lem}
use cputwo.Assembler.Encode.Target.{distance_fits}
use cputwo.Linker.Reloc.Jump.{sext20_lem}
use cputwo.Emulator.Decode.{sext20, decode}
use cputwo.Emulator.Disasm.{
  reg_name, Shape, regs3, regs2, regs_cmp, shift5, mem, idx, cond_target, rd_target, rd_hex,
  no_operands, signed_imm, unsigned_imm, shift_imm, cmp_imm, unknown, signed16,
}
use cputwo.Assembler.Listing.Word.{reg_name-Register}
use cputwo.Assembler.Listing.Tokens.{reg, signed_tokens, decode-Fits}

-- A target that is an offset away, with no carry out of the 32 bits.
abbrev pub Near : ℕ → ℕ → Type 0
Near addr soff =
    (addr + soff < 2 ^ 32) × (soff < 2 ^ 19) ⊎ (2 ^ 32 ≤ addr + soff) × (2 ^ 32 - 2 ^ 19 ≤ soff)

-- A word whose unused bits are zero, and whose operands the assembler takes.
abbrev pub Canonical : Shape → ℕ → ℕ → Type 0
Canonical regs3 addr w = w % 2 ^ 12 ≡ 0
Canonical regs2 addr w = w % 2 ^ 16 ≡ 0
Canonical regs_cmp addr w = ((decode w).rd ≡ 0) × (w % 2 ^ 12 ≡ 0)
Canonical shift5 addr w = (w % 2 ^ 7 ≡ 0) × ((decode w).rs2 ≡ 0)
Canonical mem addr w = Unit {0}
Canonical idx addr w = w % 2 ^ 12 ≡ 0
Canonical cond_target addr w = ((decode w).rd < 11) × Near addr (decode w).soff
Canonical rd_target addr w = Near addr (decode w).soff
Canonical rd_hex addr w = (decode w).rs1 ≡ 0
Canonical no_operands addr w = w % 2 ^ 24 ≡ 0
Canonical signed_imm addr w = Unit {0}
Canonical unsigned_imm addr w = Unit {0}
Canonical shift_imm addr w = (decode w).imm16 < 32
Canonical cmp_imm addr w = ((decode w).rd ≡ 0) × ((decode w).imm16 < 2 ^ 15)
Canonical unknown addr w = ◌≡◌ {A = ℕ} 0 1

pub register-reg : (r : ℕ) (ts : List Token) → r < 16 → register (reg r ∷ ts) ≡ ok (r, ts)
register-reg r ts h = register_lem (reg_name r) r ts (reg_name-Register r h).2

-- Numbers.
pub low_bits-signed16 : (v : ℕ) → v < 2 ^ 16 → low_bits 16 (signed16 v) ≡ v
low_bits-signed16 v h =
    if_intro (λ (z : ℤ). low_bits 16 z ≡ v) (ltb v (2 ^ 15)) (λ e. omega arith) (λ e. ground arith)

pub in_range-signed16 : (v : ℕ) → v < 2 ^ 16 → in_range 32768 32767 (signed16 v) ≡ true
unfolding in_range
in_range-signed16 v h =
    if_intro (λ (z : ℤ). in_range 32768 32767 z ≡ true) (ltb v (2 ^ 15)) (λ e. ground arith)
      (λ e. ground arith)

negated : (n : ℕ) → n < 2 ^ 16 → checked (pos 0 -ℤ pos (n + 1)) ≡ ok (negsuc n)
unfolding checked fits64
negated n h = ground arith

pub signed_end :
    (syms : List Symbol) (v : ℕ)
    → v < 2 ^ 16
    → eval_expr second syms (signed_tokens (signed16 v) []) ≡ ok (signed16 v, [])
unfolding eval_expr eval_tail first_operand operand
signed_end syms v h =
    if_intro (λ (z : ℤ). eval_expr second syms (signed_tokens z []) ≡ ok (z, [])) (ltb v (2 ^ 15))
      (λ e. refl) (λ e. rw (negated (2 ^ 16 - v - 1) (omega arith)) refl)

pub signed_bracket :
    (syms : List Symbol) (v : ℕ)
    → v < 2 ^ 16
    → eval_expr second syms (signed_tokens (signed16 v) (rbracket ∷ []))
      ≡ ok (signed16 v, rbracket ∷ [])
unfolding eval_expr eval_tail first_operand operand
signed_bracket syms v h =
    if_intro
      (λ (z : ℤ). eval_expr second syms (signed_tokens z (rbracket ∷ [])) ≡ ok (z, rbracket ∷ []))
      (ltb v (2 ^ 15)) (λ e. refl) (λ e. rw (negated (2 ^ 16 - v - 1) (omega arith)) refl)

decode_shift : (w : ℕ) → (decode w).shift ≡ w / 2 ^ 7 % 2 ^ 5
unfolding decode
decode_shift w = bit_and_mask 5 (w >>> 7)

module _ (w : ℕ) (h : w < 2 ^ 32) where
  pub word_r : w % 2 ^ 12 ≡ 0 → enc_r (decode w).op (decode w).rd (decode w).rs1 (decode w).rs2 ≡ w
  word_r low =
      let f = decode-Fits w in
      enc_r_sum (decode w).op (decode w).rd (decode w).rs1 (decode w).rs2 f.rd f.rs1 f.rs2
      ∙ omega (arith, decode_op w, decode_rd w, decode_rs1 w, decode_rs2 w)

  pub word_r2 : w % 2 ^ 16 ≡ 0 → enc_r (decode w).op (decode w).rd (decode w).rs1 0 ≡ w
  word_r2 low =
      let f = decode-Fits w in
      enc_r_sum (decode w).op (decode w).rd (decode w).rs1 0 f.rd f.rs1 (omega arith)
      ∙ omega (arith, decode_op w, decode_rd w, decode_rs1 w)

  pub word_cmp :
      (decode w).rd ≡ 0 → w % 2 ^ 12 ≡ 0 → enc_r (decode w).op 0 (decode w).rs1 (decode w).rs2 ≡ w
  word_cmp no_rd low =
      let f = decode-Fits w in
      enc_r_sum (decode w).op 0 (decode w).rs1 (decode w).rs2 (omega arith) f.rs1 f.rs2
      ∙ omega (arith, decode_op w, decode_rd w, decode_rs1 w, decode_rs2 w)

  pub word_cmpi : (decode w).rd ≡ 0 → enc_i (decode w).op 0 (decode w).rs1 (decode w).imm16 ≡ w
  word_cmpi no_rd =
      let f = decode-Fits w in
      enc_i_sum (decode w).op 0 (decode w).rs1 (decode w).imm16 (omega arith) f.rs1 f.imm16
      ∙ omega (arith, decode_op w, decode_rd w, decode_rs1 w, decode_imm16 w)

  pub word_shift :
      w % 2 ^ 7 ≡ 0
      → (decode w).rs2 ≡ 0
      → enc_i (decode w).op (decode w).rd (decode w).rs1 ((decode w).shift <<< 7) ≡ w
  word_shift low no_rs2 =
      let f = decode-Fits w in
      enc_i_sum (decode w).op (decode w).rd (decode w).rs1 ((decode w).shift <<< 7) f.rd f.rs1
        (omega (arith, f.shift))
      ∙ omega (arith, decode_op w, decode_rd w, decode_rs1 w, decode_rs2 w, decode_shift w)

  pub word_movi : (decode w).rs1 ≡ 0 → enc_j (decode w).op (decode w).rd (decode w).imm16 ≡ w
  word_movi no_rs1 =
      let f = decode-Fits w in
      enc_j_sum (decode w).op (decode w).rd (decode w).imm16 f.rd (omega (arith, f.imm16))
      ∙ omega (arith, decode_op w, decode_rd w, decode_rs1 w, decode_imm16 w)

  pub word_none : w % 2 ^ 24 ≡ 0 → (decode w).op <<< 24 ≡ w
  word_none low = omega (arith, decode_op w)

  pub word_i : enc_i (decode w).op (decode w).rd (decode w).rs1 (decode w).imm16 ≡ w
  word_i =
      let f = decode-Fits w in
      enc_i_sum (decode w).op (decode w).rd (decode w).rs1 (decode w).imm16 f.rd f.rs1 f.imm16
      ∙ omega (arith, decode_op w, decode_rd w, decode_rs1 w, decode_imm16 w)

  pub word_j : enc_j (decode w).op (decode w).rd (w % 2 ^ 20) ≡ w
  word_j =
      let f = decode-Fits w in
      enc_j_sum (decode w).op (decode w).rd (w % 2 ^ 20) f.rd (omega arith)
      ∙ omega (arith, decode_op w, decode_rd w)

pub in_bounds : (high n : ℕ) → n ≤ high → leb n high ≡ true
in_bounds high n h = ground arith

pub low_small : (k n : ℕ) → n < 2 ^ k → n % 2 ^ k ≡ n
low_small k n h = grind arith

-- A target and its distance.
Near-range :
    (addr x : ℕ)
    → addr < 2 ^ 32
    → x < 2 ^ 20
    → Near addr (sext20 x)
    → (in_range 524288 524287 (pos (add32 addr (sext20 x)) -ℤ pos addr) ≡ true)
      × (low_bits 20 (pos (add32 addr (sext20 x)) -ℤ pos addr) ≡ x)
unfolding in_range
Near-range addr x ha hx near = (ground (arith, sext20_lem x hx), ground (arith, sext20_lem x hx))

pub relative_lem :
    (st : Asm) (w : ℕ)
    → w < 2 ^ 32
    → st.org_addr < 2 ^ 32
    → Near st.org_addr (decode w).soff
    → encode_relative st second
        (decode w).op
        (decode w).rd
        (int (pos (add32 st.org_addr (decode w).soff)) ∷ [])
      ≡ ok (word w ∷ [], [])
unfolding encode_relative expression eval_expr eval_tail first_operand operand checked check_range
    one_word is_second
relative_lem st w h ha near =
    let e = decode_soff w in
    let (near', low) =
      Near-range st.org_addr (w % 2 ^ 20) ha (omega arith) (subst (Near st.org_addr) e near) in
    rw
      (
        e,
        distance_fits (add32 st.org_addr (sext20 (w % 2 ^ 20))) st.org_addr (omega arith) ha,
        near',
        low,
        word_j w h,
      )
      refl
