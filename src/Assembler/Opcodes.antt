-- ===== src/Assembler/Opcodes.antt =====
-- `opcode_table`, `find_opcode` and `instr_size`.
use cputwo.Base.{ℕ, Option, none, some, List, [], ◌∷◌, if◌then◌else◌}
use cputwo.Base.Text.{bytes_of, same_nocase}

-- `InstrFmt`
pub data InstrFmt : Type 0 where
  fmt_r3 fmt_r2 fmt_rshift fmt_i_signed fmt_i_unsigned fmt_i_shift fmt_mem fmt_branch : InstrFmt
  fmt_jump fmt_movi fmt_movhi fmt_none fmt_movi32 fmt_cmp fmt_cmpi fmt_ret fmt_br : InstrFmt
  fmt_call fmt_push fmt_pop fmt_mem_idx : InstrFmt

-- `OpcodeEntry`. `cond` is read of branches only.
pub record OpcodeEntry : Type 0 where
  pub mnemonic : List ℕ
  pub opcode : ℕ
  pub fmt : InstrFmt
  pub cond : ℕ

-- A row that is no branch, and a branch.
abbrev op : List ℕ → ℕ → InstrFmt → OpcodeEntry
op mnemonic opcode fmt = record { mnemonic = mnemonic; opcode = opcode; fmt = fmt; cond = 0 }

abbrev branch : List ℕ → ℕ → OpcodeEntry
branch mnemonic cond = record { mnemonic = mnemonic; opcode = 0x0d; fmt = fmt_branch; cond = cond }

abbrev pub opcode_table : List OpcodeEntry
opcode_table =
    op (bytes_of "ADD") 0x00 fmt_r3
    ∷ op (bytes_of "SUB") 0x01 fmt_r3
    ∷ op (bytes_of "AND") 0x02 fmt_r3
    ∷ op (bytes_of "OR") 0x03 fmt_r3
    ∷ op (bytes_of "XOR") 0x04 fmt_r3
    ∷ op (bytes_of "NOT") 0x05 fmt_r2
    ∷ op (bytes_of "LSL") 0x06 fmt_rshift
    ∷ op (bytes_of "LSR") 0x07 fmt_rshift
    ∷ op (bytes_of "ASR") 0x08 fmt_rshift
    ∷ op (bytes_of "MUL") 0x09 fmt_r3
    ∷ op (bytes_of "DIV") 0x0a fmt_r3
    ∷ op (bytes_of "LW") 0x0b fmt_mem
    ∷ op (bytes_of "SW") 0x0c fmt_mem
    ∷ branch (bytes_of "BEQ") 0
    ∷ branch (bytes_of "BNE") 1
    ∷ branch (bytes_of "BLT") 2
    ∷ branch (bytes_of "BGE") 3
    ∷ branch (bytes_of "BLTU") 4
    ∷ branch (bytes_of "BGEU") 5
    ∷ branch (bytes_of "BA") 6
    ∷ branch (bytes_of "BGT") 7
    ∷ branch (bytes_of "BLE") 8
    ∷ branch (bytes_of "BGTU") 9
    ∷ branch (bytes_of "BLEU") 10
    ∷ op (bytes_of "JMP") 0x0e fmt_jump
    ∷ op (bytes_of "MOVI") 0x0f fmt_movi
    ∷ op (bytes_of "SYSCALL") 0x10 fmt_none
    ∷ op (bytes_of "SYSRET") 0x11 fmt_none
    ∷ op (bytes_of "HALT") 0x12 fmt_none
    ∷ op (bytes_of "MOVHI") 0x13 fmt_movhi
    ∷ op (bytes_of "ADDI") 0x14 fmt_i_signed
    ∷ op (bytes_of "SUBI") 0x15 fmt_i_signed
    ∷ op (bytes_of "ANDI") 0x16 fmt_i_unsigned
    ∷ op (bytes_of "ORI") 0x17 fmt_i_unsigned
    ∷ op (bytes_of "XORI") 0x18 fmt_i_unsigned
    ∷ op (bytes_of "LSLI") 0x19 fmt_i_shift
    ∷ op (bytes_of "LSRI") 0x1a fmt_i_shift
    ∷ op (bytes_of "ASRI") 0x1b fmt_i_shift
    ∷ op (bytes_of "LH") 0x1c fmt_mem
    ∷ op (bytes_of "LHU") 0x1d fmt_mem
    ∷ op (bytes_of "LB") 0x1e fmt_mem
    ∷ op (bytes_of "LBU") 0x1f fmt_mem
    ∷ op (bytes_of "SH") 0x20 fmt_mem
    ∷ op (bytes_of "SB") 0x21 fmt_mem
    ∷ op (bytes_of "MULH") 0x22 fmt_r3
    ∷ op (bytes_of "MULHU") 0x23 fmt_r3
    ∷ op (bytes_of "DIVU") 0x24 fmt_r3
    ∷ op (bytes_of "MOD") 0x25 fmt_r3
    ∷ op (bytes_of "MODU") 0x26 fmt_r3
    ∷ op (bytes_of "MOV") 0x27 fmt_r2
    ∷ op (bytes_of "CMP") 0x28 fmt_cmp
    ∷ op (bytes_of "CMPI") 0x29 fmt_cmpi
    ∷ op (bytes_of "CALLR") 0x2a fmt_r2
    ∷ op (bytes_of "ADDC") 0x2b fmt_r3
    ∷ op (bytes_of "SUBC") 0x2c fmt_r3
    ∷ op (bytes_of "LSLR") 0x2d fmt_r3
    ∷ op (bytes_of "LSRR") 0x2e fmt_r3
    ∷ op (bytes_of "ASRR") 0x2f fmt_r3
    ∷ op (bytes_of "LWX") 0x30 fmt_mem_idx
    ∷ op (bytes_of "LBX") 0x31 fmt_mem_idx
    ∷ op (bytes_of "LBUX") 0x32 fmt_mem_idx
    ∷ op (bytes_of "SWX") 0x33 fmt_mem_idx
    ∷ op (bytes_of "SBX") 0x34 fmt_mem_idx
    ∷ op (bytes_of "LHX") 0x35 fmt_mem_idx
    ∷ op (bytes_of "LHUX") 0x36 fmt_mem_idx
    ∷ op (bytes_of "SHX") 0x37 fmt_mem_idx
    ∷ op (bytes_of "LUI") 0x38 fmt_movi
    ∷ op (bytes_of "ROLR") 0x39 fmt_r3
    ∷ op (bytes_of "RORR") 0x3a fmt_r3
    ∷ op (bytes_of "ROLI") 0x3b fmt_rshift
    ∷ op (bytes_of "RORI") 0x3c fmt_rshift
    ∷ op (bytes_of "CAS") 0x3d fmt_r3
    ∷ op (bytes_of "SFENCE") 0x3e fmt_none
    ∷ op (bytes_of "RET") 0x27 fmt_ret
    ∷ op (bytes_of "BR") 0x27 fmt_br
    ∷ op (bytes_of "CALL") 0x0e fmt_call
    ∷ op (bytes_of "NOP") 0x0f fmt_none
    ∷ op (bytes_of "PUSH") 0x00 fmt_push
    ∷ op (bytes_of "POP") 0x00 fmt_pop
    ∷ op (bytes_of "MOVI32") 0x00 fmt_movi32
    ∷ []

-- The first row with this name.
unfoldable pub find_row : List OpcodeEntry → List ℕ → Option OpcodeEntry
find_row [] mnem = none
find_row (e ∷ rows) mnem = if same_nocase e.mnemonic mnem then some e else find_row rows mnem

unfoldable pub find_opcode : List ℕ → Option OpcodeEntry
find_opcode mnem = find_row opcode_table mnem

unfoldable pub instr_size : List ℕ → ℕ
instr_size mnem =
    if same_nocase mnem (bytes_of "movi32")
    then 8
    else if same_nocase mnem (bytes_of "push")
    then 8
    else if same_nocase mnem (bytes_of "pop")
    then 8
    else 4
