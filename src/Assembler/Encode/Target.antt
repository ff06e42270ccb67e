-- ===== src/Assembler/Encode/Target.antt =====
-- CALL and MOVI32: from the operand to what the emulator does with the words.
use cputwo.Base.{
  ℕ, ◌/◌, ◌%◌, ◌^◌, ◌<◌, ◌≡◌, refl, ap, ◌∙◌, true, false, some, List, [], ◌∷◌, add32, sub32,
  update_self, update_ne, arith,
}
use cputwo.Base.Int.{low_bits-lt, ℤ, pos, negsuc, ◌-ℤ◌, low_bits, shift_ℤ}
use cputwo.Assembler.Token.{Token, ident, comma}
use cputwo.Assembler.Parse.{ok}
use cputwo.Assembler.State.{Asm}
use cputwo.Assembler.Expr.{second, is_second, fits64, checked, eval_expr}
use cputwo.Assembler.Opcodes.{OpcodeEntry, fmt_call, fmt_movi32}
use cputwo.Assembler.Operands.{parse_register, peek_sym_ref, expect_comma, expression}
use cputwo.Assembler.Encode.{
  word, reloc, enc_j, in_range, check_range, one_word, two_words, encode_relative, encode_target,
  encode_halves, encode_movi32, encode,
}
use cputwo.Assembler.Encode.Fields.{enc_j_sum, decode-enc_j}
use cputwo.Assembler.Encode.Immediate.{parse_register-le, register_lem}
use cputwo.Emulator.Decode.{decode, opcode_of, jmp, movi, movhi}
use cputwo.Emulator.Machine.{Machine, Host, set_reg, with_cpu}
use cputwo.Emulator.Run.{execute, execute_cpu}
use cputwo.Linker.Reloc.{reloc_jump20, patch, out_of_range}
use cputwo.Linker.Reloc.Jump.{reaches, execute-patch_jump}
use cputwo.Linker.Reloc.Load.{join_halves}

-- The distance of two words is an `int64_t`, and its range is the linker's.
pub distance_fits : (s site : ℕ) → s < 2 ^ 32 → site < 2 ^ 32 → fits64 (pos s -ℤ pos site) ≡ true
unfolding fits64
distance_fits s site hs hp = ground arith

distance_near :
    (s site : ℕ) → out_of_range s site ≡ false → in_range 524288 524287 (pos s -ℤ pos site) ≡ true
unfolding out_of_range in_range
distance_near s site near = ground arith

distance_low :
    (s site : ℕ)
    → s < 2 ^ 32
    → site < 2 ^ 32
    → out_of_range s site ≡ false
    → low_bits 20 (pos s -ℤ pos site) ≡ sub32 s site % 2 ^ 20
unfolding out_of_range
distance_low s site hs hp near = ground arith

jmp_code : opcode_of 0x0e ≡ jmp
unfolding opcode_of
jmp_code = refl

-- In the second pass of a run that makes no object file, CALL with an operand whose value `s` is an
-- address in reach of the instruction gives one word, and the emulator, when it runs that word at the
-- instruction's address, goes to `s` with the program counter that it had in `lr`.
pub execute-encode_call :
    (st : Asm) (e : OpcodeEntry) (ts rest : List Token) (s : ℕ) (h : Host) (m : Machine)
    → st.object_mode ≡ false
    → eval_expr second st.symtab ts ≡ ok (pos s, rest)
    → s < 2 ^ 32
    → st.org_addr < 2 ^ 32
    → out_of_range s st.org_addr ≡ false
    → (w : ℕ) × (encode st second e fmt_call ts ≡ ok (word w ∷ [], rest))
      × (opcode_of (decode w).op ≡ jmp)
      × ((execute h jmp (decode w) st.org_addr m).cpu.r 15 ≡ s)
      × ((execute h jmp (decode w) st.org_addr m).cpu.r 14 ≡ m.cpu.r 15)
unfolding encode encode_target encode_relative expression checked check_range one_word is_second
    execute execute_cpu set_reg with_cpu
execute-encode_call st e ts rest s h m flat value hs hp near =
    let low = low_bits 20 (pos s -ℤ pos st.org_addr) in
    let same = distance_low s st.org_addr hs hp near in
    let d = decode-enc_j 0x0e 14 (omega arith) (omega arith) low (omega (arith, same)) in
    (
      enc_j 0x0e 14 low,
      rw (flat, value, distance_fits s st.org_addr hs hp, distance_near s st.org_addr near) refl,
      ap opcode_of d.op ∙ jmp_code,
      update_self _ 15 _
          ∙ ap (add32 st.org_addr) d.soff
          ∙ reaches s st.org_addr low hs hp near same,
      update_ne _ 15 14 _ (omega arith) ∙ rw d.rd (update_self m.cpu.r 14 (m.cpu.r 15)),
    )

-- The two halves of a value are those of its 32-bit pattern.
low_half : (v : ℤ) → low_bits 16 v ≡ low_bits 32 v % 2 ^ 16
low_half (pos n) = omega arith
low_half (negsuc n) = omega arith

high_half : (v : ℤ) → low_bits 16 (shift_ℤ v 16) ≡ low_bits 32 v / 2 ^ 16 % 2 ^ 16
high_half (pos n) = omega arith
high_half (negsuc n) = omega arith

codes : (opcode_of 0x0f ≡ movi) × (opcode_of 0x13 ≡ movhi)
unfolding opcode_of
codes = (refl, refl)

-- In the second pass of a run that makes no object file, MOVI32 of a register and an operand gives
-- two words, and the emulator, when it runs the first as MOVI and then the second as MOVHI, has the
-- 32-bit pattern of the operand's value in that register.
pub execute-encode_movi32 :
    (st : Asm) (e : OpcodeEntry) (a : List ℕ) (rd : ℕ) (ts rest : List Token) (v : ℤ) (h : Host)
    (m : Machine) (pc pc2 : ℕ)
    → st.object_mode ≡ false
    → parse_register a ≡ some rd
    → eval_expr second st.symtab ts ≡ ok (v, rest)
    → (w w2 : ℕ) × (encode st second e fmt_movi32 (ident a ∷ comma ∷ ts)
        ≡ ok (word w ∷ word w2 ∷ [], rest))
      × (opcode_of (decode w).op ≡ movi)
      × (opcode_of (decode w2).op ≡ movhi)
      × ((execute h movhi (decode w2) pc2 (execute h movi (decode w) pc m)).cpu.r rd
          ≡ low_bits 32 v)
unfolding encode encode_movi32 encode_halves expect_comma expression two_words is_second execute
    execute_cpu set_reg with_cpu
execute-encode_movi32 st e a rd ts rest v h m pc pc2 flat named value =
    let fits = parse_register-le a rd named in
    let d =
      decode-enc_j 0x0f rd (omega arith) fits (low_bits 16 v)
        (omega (arith, low_bits-lt 16 v (omega arith))) in
    let d2 =
      decode-enc_j 0x13 rd (omega arith) fits (low_bits 16 (shift_ℤ v 16))
        (omega (arith, low_bits-lt 16 (shift_ℤ v 16) (omega arith))) in
    (
      enc_j 0x0f rd (low_bits 16 v),
      enc_j 0x13 rd (low_bits 16 (shift_ℤ v 16)),
      rw (register_lem a rd _ named, flat, value) refl,
      ap opcode_of d.op ∙ codes.0,
      ap opcode_of d2.op ∙ codes.1,
      rw
          (
            d2.rd,
            d.rd,
            low_imm d.imm16,
            high_imm d2.imm16,
            update_self _ rd _,
            update_self m.cpu.r rd _,
          )
          (join_halves (low_bits 32 v) (low_bits-lt 32 v (omega arith))),
    )
  where
    low_imm : {x : ℕ} → x ≡ low_bits 16 v % 2 ^ 16 → x ≡ low_bits 32 v % 2 ^ 16
    low_imm h = omega (arith, low_half v)

    high_imm :
        {x : ℕ} → x ≡ low_bits 16 (shift_ℤ v 16) % 2 ^ 16 → x ≡ low_bits 32 v / 2 ^ 16 % 2 ^ 16
    high_imm h = omega (arith, high_half v)

-- In the second pass of a run that makes an object file, CALL with an external symbol gives a
-- relocation of the kind JUMP20 for that symbol and one word. When the linker patches that word for
-- an address `s` in reach of the site where it stands, it succeeds, and the emulator, when it runs
-- the patched word at the site, goes to `s` with the program counter that it had in `lr`.
pub execute-patch-encode_call :
    (st : Asm) (e : OpcodeEntry) (ts : List Token) (i addend s site : ℕ) (h : Host) (m : Machine)
    → st.object_mode ≡ true
    → peek_sym_ref st.symtab ts ≡ some (i, true, addend)
    → s < 2 ^ 32
    → site < 2 ^ 32
    → out_of_range s site ≡ false
    → (w w' : ℕ) × (encode st second e fmt_call ts
        ≡ ok (reloc reloc_jump20 i addend ∷ word w ∷ [], ts))
      × (patch reloc_jump20 w s site ≡ some w')
      × (opcode_of (decode w').op ≡ jmp)
      × ((execute h jmp (decode w') site m).cpu.r 15 ≡ s)
      × ((execute h jmp (decode w') site m).cpu.r 14 ≡ m.cpu.r 15)
unfolding encode encode_target is_second execute execute_cpu set_reg with_cpu
execute-patch-encode_call st e ts i addend s site h m object ref hs hp near =
    let w = enc_j 0x0e 14 0 in
    let d = decode-enc_j 0x0e 14 (omega arith) (omega arith) 0 (omega arith) in
    let (w', patched, same_op, same_rd, arrives) =
      execute-patch_jump h m w s site call_word_lem hs hp near in
    (
      w,
      w',
      rw (object, ref) refl,
      patched,
      same_op ∙ ap opcode_of d.op ∙ jmp_code,
      arrives,
      update_ne _ 15 14 _ (omega arith) ∙ rw (same_rd, d.rd) (update_self m.cpu.r 14 (m.cpu.r 15)),
    )
  where
    call_word_lem : enc_j 0x0e 14 0 < 2 ^ 32
    call_word_lem = omega (arith, enc_j_sum 0x0e 14 0 (omega arith) (omega arith))
