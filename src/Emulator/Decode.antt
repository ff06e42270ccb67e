-- ===== src/Emulator/Decode.antt =====
-- The fields of an instruction word, and its opcode.
use cputwo.Base.{
  ℕ, ◌+◌, ◌-◌, ◌^◌, List, [], ◌∷◌, ltb, if◌then◌else◌, bit_and, bit_or, ◌>>>◌, test, get_or,
}

-- The cases of the `switch` in `cpu_run`, by the mnemonics of the disassembler (MOD and MODU are
-- `rem` and `remu`); `illegal` is its `default`.
pub data Opcode : Type 0 where
  add sub and or xor not lsl lsr asr mul div lw sw branch jmp movi : Opcode
  syscall sysret halt movhi addi subi andi ori xori lsli lsri asri lh lhu lb lbu : Opcode
  sh sb mulh mulhu divu rem remu mov cmp cmpi callr addc subc lslr lsrr asrr : Opcode
  lwx lbx lbux swx sbx lhx lhux shx lui rolr rorr roli rori cas sfence kret : Opcode
  illegal : Opcode

abbrev opcodes : List Opcode
opcodes =
    add ∷ sub ∷ and ∷ or ∷ xor ∷ not ∷ lsl ∷ lsr ∷ asr ∷ mul ∷ div ∷ lw ∷ sw ∷ branch ∷ jmp ∷ movi
    ∷ syscall ∷ sysret ∷ halt ∷ movhi ∷ addi ∷ subi ∷ andi ∷ ori ∷ xori ∷ lsli ∷ lsri ∷ asri ∷ lh
    ∷ lhu ∷ lb ∷ lbu ∷ sh ∷ sb ∷ mulh ∷ mulhu ∷ divu ∷ rem ∷ remu ∷ mov ∷ cmp ∷ cmpi ∷ callr ∷ addc
    ∷ subc ∷ lslr ∷ lsrr ∷ asrr ∷ lwx ∷ lbx ∷ lbux ∷ swx ∷ sbx ∷ lhx ∷ lhux ∷ shx ∷ lui ∷ rolr
    ∷ rorr ∷ roli ∷ rori ∷ cas ∷ sfence ∷ kret ∷ []

-- Opcodes 0x00 to 0x3f have a case each.
unfoldable pub opcode_of : ℕ → Opcode
opcode_of op = get_or opcodes op illegal

pub record Fields : Type 0 where
  pub op : ℕ
  pub rd : ℕ
  pub rs1 : ℕ
  pub rs2 : ℕ
  pub shift : ℕ
  pub imm16 : ℕ
  pub simm : ℕ
  pub soff : ℕ

-- `(uint32_t)(int32_t)(int16_t)x` and `(uint32_t)(int32_t)(int8_t)x`: the sign is extended.
unfoldable pub sext16 : ℕ → ℕ
sext16 x = if ltb x (2 ^ 15) then x else x + (2 ^ 32 - 2 ^ 16)

unfoldable pub sext8 : ℕ → ℕ
sext8 x = if ltb x (2 ^ 7) then x else x + (2 ^ 32 - 2 ^ 8)

-- The pattern of the signed 20-bit offset.
unfoldable pub sext20 : ℕ → ℕ
sext20 x = if test x 0x80000 then bit_or x 0xfff00000 else x

unfoldable pub decode : ℕ → Fields
decode instr = record {
  op = bit_and (instr >>> 24) 0xff;
  rd = bit_and (instr >>> 20) 0x0f;
  rs1 = bit_and (instr >>> 16) 0x0f;
  rs2 = bit_and (instr >>> 12) 0x0f;
  shift = bit_and (instr >>> 7) 0x1f;
  imm16 = bit_and instr 0xffff;
  simm = sext16 (bit_and instr 0xffff);
  soff = sext20 (bit_and instr 0xfffff);
}
