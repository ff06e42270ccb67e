-- ===== src/Assembler/Listing/RoundTrip.antt =====
-- From a word to its text, and back through the second pass of the assembler.
use mathlib.Core.List.{append_assoc}
use cputwo.Base.{
  ℕ, zero, suc, ◌+◌, ◌-◌, ◌^◌, ◌<◌, ◌≡◌, ◌⊎◌, inl, inr, refl, ap, sym, ◌∙◌, subst, false, some,
  List, [], ◌∷◌, ◌++◌, ltb, if_intro, length, add32, get_or, lt→ltb, arith,
}
use cputwo.Base.Int.{ℤ}
use cputwo.Base.Text.{is_alnum, is_digit}
use cputwo.Assembler.Token.{Token, ident, rbracket}
use cputwo.Assembler.Lexer.{tokenize_line}
use cputwo.Assembler.Parse.{ok}
use cputwo.Assembler.State.{Asm, emit_word}
use cputwo.Assembler.Expr.{second}
use cputwo.Assembler.Opcodes.{OpcodeEntry, find_opcode}
use cputwo.Assembler.Encode.{word, encode}
use cputwo.Assembler.Directive.{
  emit_items, finish_instruction, assemble_instruction, skip_labels, assemble_statement,
  assemble_line,
}
use cputwo.Assembler.Passes.{report, pass2_line}
use cputwo.Emulator.Decode.{Fields, decode}
use cputwo.Emulator.Disasm.{
  hex, Shape, regs3, regs2, regs_cmp, shift5, mem, idx, cond_target, rd_target, rd_hex, no_operands,
  signed_imm, unsigned_imm, shift_imm, cmp_imm, unknown, signed16, row_of, cond_names,
  print_operands, disasm,
}
use cputwo.Assembler.Listing.Lex.{Lexes, Lexes-token}
use cputwo.Assembler.Listing.Rows.{
  spaces, name_of, gap_of, Listed, row_of-Listed, cond_names-Branch, Starts, mnemonic_token,
}
use cputwo.Assembler.Listing.Tokens.{
  signed_tokens, operands, decode-Fits, print_operands-Starts, Lexes-operands, Lexes-target,
}
use cputwo.Assembler.Listing.Words.{Canonical}
use cputwo.Assembler.Listing.Operands.{encodes_branch, encode_listing}

-- A line's tokens fit.
signed_count : (v : ℕ) (ts : List Token) → length (signed_tokens (signed16 v) ts) < length ts + 3
signed_count v ts =
    if_intro (λ (z : ℤ). length (signed_tokens z ts) < length ts + 3) (ltb v (2 ^ 15))
      (λ e. omega arith) (λ e. omega arith)

operand_count : (s : Shape) (addr : ℕ) (d : Fields) → length (operands s addr d) < 10
operand_count regs3 addr d = omega arith
operand_count regs2 addr d = omega arith
operand_count regs_cmp addr d = omega arith
operand_count shift5 addr d = omega arith
operand_count mem addr d = omega (arith, signed_count d.imm16 (rbracket ∷ []))
operand_count idx addr d = omega arith
operand_count cond_target addr d = omega arith
operand_count rd_target addr d = omega arith
operand_count rd_hex addr d = omega arith
operand_count no_operands addr d = omega arith
operand_count signed_imm addr d = omega (arith, signed_count d.imm16 [])
operand_count unsigned_imm addr d = omega arith
operand_count shift_imm addr d = omega arith
operand_count cmp_imm addr d = omega (arith, signed_count d.imm16 [])
operand_count unknown addr d = omega arith

instruction_lem :
    (name : List ℕ) (ts : List Token) (e : OpcodeEntry) (st : Asm) (w : ℕ)
    → find_opcode name ≡ some e
    → encode st second e e.fmt ts ≡ ok (word w ∷ [], [])
    → assemble_instruction second name ts st ≡ emit_word w st
unfolding assemble_instruction finish_instruction emit_items
instruction_lem name ts e st w found encoded = rw (assemble_instruction, found, encoded) refl

-- A line of one instruction.
line_lem :
    (line name : List ℕ) (ts : List Token) (e : OpcodeEntry) (st : Asm) (w : ℕ)
    → Lexes line (ident name ∷ ts)
    → length ts < 10
    → find_opcode name ≡ some e
    → encode st second e e.fmt ts ≡ ok (word w ∷ [], [])
    → pass2_line (tokenize_line line) st ≡ emit_word w st
unfolding tokenize_line pass2_line report assemble_line skip_labels assemble_statement
line_lem line name ts e st w lexes short found encoded =
    ap (λ r. pass2_line r st) (lexes 64 (omega arith))
    ∙ instruction_lem name ts e st w found encoded

-- The text of a row.
Listed-Lexes :
    (addr w : ℕ)
    → Listed (decode w).op
    → Lexes
        (disasm addr w)
        (ident (name_of (decode w).op) ∷ operands (row_of (decode w).op).shape addr (decode w))
unfolding disasm print_operands
Listed-Lexes addr w (found, regular, jump, text, is_word, fits, gap) =
    let d = decode w in
    let s = (row_of d.op).shape in
    let more = print_operands s addr w d in
    subst (λ (cs : List ℕ). Lexes cs (ident (name_of d.op) ∷ operands s addr d))
      (sym (
        ap (λ (t : List ℕ). t ++ more) text
        ∙ append_assoc (name_of d.op) (spaces (gap_of d.op)) more))
      (Lexes-token (name_of d.op ++ (spaces (gap_of d.op) ++ more)) more (ident (name_of d.op))
        (operands s addr d)
        (mnemonic_token (name_of d.op) (gap_of d.op) more is_word fits
          (print_operands-Starts s addr w d regular (decode-Fits w)) (gap_or_end gap))
        (Lexes-operands s addr w d regular (decode-Fits w)))
  where
    gap_or_end :
        (0 < gap_of (decode w).op) ⊎ ((row_of (decode w).op).shape ≡ no_operands)
        → (0 < gap_of (decode w).op)
          ⊎ (print_operands (row_of (decode w).op).shape addr w (decode w) ≡ [])
    gap_or_end (inl k) = inl k
    gap_or_end (inr e) = inr (ap (λ (s : Shape). print_operands s addr w (decode w)) e)

spaces_more : (k : ℕ) (cs : List ℕ) → spaces k ++ b' ' ∷ cs ≡ spaces (suc k) ++ cs
spaces_more zero cs = refl
spaces_more (suc k) cs = ap (◌∷◌ b' ') (spaces_more k cs)

hex-Starts : (n : ℕ) → Starts (hex 8 n [])
unfolding hex is_alnum is_digit
hex-Starts n = refl

-- The text of a branch.
Branch-Lexes :
    (addr w : ℕ)
    → (decode w).op ≡ 0x0d
    → (decode w).rd < 11
    → Lexes
        (disasm addr w)
        (ident (get_or cond_names (decode w).rd []) ∷ operands cond_target addr (decode w))
unfolding disasm row_of print_operands
Branch-Lexes addr w code low =
    let d = decode w in
    let name = get_or cond_names d.rd [] in
    let target = hex 8 (add32 addr d.soff) [] in
    let (found, padded, is_word, fits) = cond_names-Branch d.rd low in
    let k = 4 - length name in
    rw (code, lt→ltb d.rd 11 low, padded)
      (subst (λ (cs : List ℕ). Lexes cs (ident name ∷ operands cond_target addr d))
        (sym (
          append_assoc name (spaces k) (b' ' ∷ target)
          ∙ ap (λ cs. name ++ cs) (spaces_more k target)))
        (Lexes-token (name ++ (spaces (suc k) ++ target)) target (ident name)
          (operands cond_target addr d)
          (mnemonic_token name (suc k) target is_word fits (hex-Starts (add32 addr d.soff))
            (inl (omega arith)))
          (Lexes-target addr d.soff)))

-- In the second pass of a run that makes no object file, the text that the disassembler prints for a
-- word at the address of the line has the effect of emitting that word. The word's opcode is below
-- 0x3f and the bits that its format does not use are zero; a branch has one of the eleven conditions;
-- the target of a branch or a jump is reached with no carry out of the 32 bits of the address; the
-- shift of LSLI, LSRI and ASRI is below 32, and the immediate of CMPI below 2^15.
pub pass2_line-disasm :
    (st : Asm) (w : ℕ)
    → st.object_mode ≡ false
    → st.org_addr < 2 ^ 32
    → w < 2 ^ 32
    → (decode w).op < 0x3f
    → Canonical (row_of (decode w).op).shape st.org_addr w
    → pass2_line (tokenize_line (disasm st.org_addr w)) st ≡ emit_word w st
unfolding row_of
pass2_line-disasm st w flat ha h known canonical = elim (row_of-Listed (decode w).op known) [
  | inl code ↦
      let c = subst (λ op. Canonical (row_of op).shape st.org_addr w) code canonical in
      line_lem (disasm st.org_addr w) _ (operands cond_target st.org_addr (decode w)) _ st w
        (Branch-Lexes st.org_addr w code c.0) (operand_count cond_target st.org_addr (decode w))
        (cond_names-Branch (decode w).rd c.0).0 (encodes_branch _ st w h flat ha code c.1)
  | inr listed ↦
      line_lem (disasm st.org_addr w) _
        (operands (row_of (decode w).op).shape st.org_addr (decode w)) _ st w
        (Listed-Lexes st.org_addr w listed)
        (operand_count (row_of (decode w).op).shape st.org_addr (decode w)) listed.0
        (encode_listing (row_of (decode w).op).shape _ st w h flat ha listed.1 listed.2 canonical)
]
