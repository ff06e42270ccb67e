-- ===== src/Emulator/Disasm.antt =====
-- `disasm`, and what it uses of `snprintf`, without the size of the buffer.
use cputwo.Base.{
  ℕ, zero, suc, ◌+◌, ◌-◌, ◌/◌, ◌%◌, ◌^◌, List, [], ◌∷◌, ◌++◌, ltb, if◌then◌else◌, bit_and, add32,
  get_or,
}
use cputwo.Base.Int.{ℤ, pos, negsuc}
use cputwo.Base.Text.{bytes_of}
use cputwo.Emulator.Decode.{Fields, decode}

-- `%0kX`, for a number below 16^k.
unfoldable pub hex_digit : ℕ → ℕ
hex_digit d = if ltb d 10 then b'0' + d else b'A' + (d - 10)

unfoldable pub hex_onto : ℕ → ℕ → List ℕ → List ℕ
hex_onto zero n out = out
hex_onto (suc k) n out = hex_onto k (n / 16) (hex_digit (n % 16) ∷ out)

-- `0x%04X` and `0x%08X`.
unfoldable pub hex : ℕ → ℕ → List ℕ → List ℕ
hex k n out = b'0' ∷ b'x' ∷ hex_onto k n out

-- The decimal digits of a number below 10^(k+1), with no zero in front.
unfoldable pub decimal_onto : ℕ → ℕ → List ℕ → List ℕ
decimal_onto zero n out = (b'0' + n % 10) ∷ out
decimal_onto (suc k) n out =
    let more = decimal_onto k (n / 10) ((b'0' + n % 10) ∷ out) in
    if ltb n 10 then (b'0' + n % 10) ∷ out else more

-- `%u` and `%d` of a number of 16 bits.
unfoldable pub print_unsigned : ℕ → List ℕ → List ℕ
print_unsigned n out = decimal_onto 4 n out

unfoldable pub print_signed : ℤ → List ℕ → List ℕ
print_signed (pos n) out = print_unsigned n out
print_signed (negsuc n) out = b'-' ∷ print_unsigned (n + 1) out

-- `%-4s`
unfoldable pub pad_to : ℕ → List ℕ → List ℕ
pad_to zero s = s
pad_to (suc k) [] = b' ' ∷ pad_to k []
pad_to (suc k) (c ∷ s) = c ∷ pad_to k s

abbrev pub cond_names : List (List ℕ)
cond_names =
    bytes_of "BEQ"
    ∷ bytes_of "BNE"
    ∷ bytes_of "BLT"
    ∷ bytes_of "BGE"
    ∷ bytes_of "BLTU"
    ∷ bytes_of "BGEU"
    ∷ bytes_of "BA"
    ∷ bytes_of "BGT"
    ∷ bytes_of "BLE"
    ∷ bytes_of "BGTU"
    ∷ bytes_of "BLEU"
    ∷ []

abbrev pub names : List (List ℕ)
names =
    bytes_of "r0"
    ∷ bytes_of "r1"
    ∷ bytes_of "r2"
    ∷ bytes_of "r3"
    ∷ bytes_of "r4"
    ∷ bytes_of "r5"
    ∷ bytes_of "r6"
    ∷ bytes_of "r7"
    ∷ bytes_of "r8"
    ∷ bytes_of "r9"
    ∷ bytes_of "r10"
    ∷ bytes_of "r11"
    ∷ bytes_of "r12"
    ∷ bytes_of "sp"
    ∷ bytes_of "lr"
    ∷ bytes_of "pc"
    ∷ []

unfoldable pub reg_name : ℕ → List ℕ
reg_name r = get_or names (bit_and r 15) []

-- The operands in the format string of a case.
pub data Shape : Type 0 where
  regs3 regs2 regs_cmp shift5 mem idx cond_target rd_target rd_hex no_operands : Shape
  signed_imm unsigned_imm shift_imm cmp_imm unknown : Shape

-- The beginning of a case's format string, and its operands.
pub record Row : Type 0 where
  pub text : List ℕ
  pub shape : Shape

abbrev row : List ℕ → Shape → Row
row text shape = record { text = text; shape = shape }

-- The cases 0x00 to 0x3f.
abbrev pub rows : List Row
rows =
    row (bytes_of "ADD  ") regs3
    ∷ row (bytes_of "SUB  ") regs3
    ∷ row (bytes_of "AND  ") regs3
    ∷ row (bytes_of "OR   ") regs3
    ∷ row (bytes_of "XOR  ") regs3
    ∷ row (bytes_of "NOT  ") regs2
    ∷ row (bytes_of "LSL  ") shift5
    ∷ row (bytes_of "LSR  ") shift5
    ∷ row (bytes_of "ASR  ") shift5
    ∷ row (bytes_of "MUL  ") regs3
    ∷ row (bytes_of "DIV  ") regs3
    ∷ row (bytes_of "LW   ") mem
    ∷ row (bytes_of "SW   ") mem
    ∷ row [] cond_target
    ∷ row (bytes_of "JMP  ") rd_target
    ∷ row (bytes_of "MOVI ") rd_hex
    ∷ row (bytes_of "SYSCALL") no_operands
    ∷ row (bytes_of "SYSRET") no_operands
    ∷ row (bytes_of "HALT") no_operands
    ∷ row (bytes_of "MOVHI ") rd_hex
    ∷ row (bytes_of "ADDI ") signed_imm
    ∷ row (bytes_of "SUBI ") signed_imm
    ∷ row (bytes_of "ANDI ") unsigned_imm
    ∷ row (bytes_of "ORI  ") unsigned_imm
    ∷ row (bytes_of "XORI ") unsigned_imm
    ∷ row (bytes_of "LSLI ") shift_imm
    ∷ row (bytes_of "LSRI ") shift_imm
    ∷ row (bytes_of "ASRI ") shift_imm
    ∷ row (bytes_of "LH   ") mem
    ∷ row (bytes_of "LHU  ") mem
    ∷ row (bytes_of "LB   ") mem
    ∷ row (bytes_of "LBU  ") mem
    ∷ row (bytes_of "SH   ") mem
    ∷ row (bytes_of "SB   ") mem
    ∷ row (bytes_of "MULH ") regs3
    ∷ row (bytes_of "MULHU ") regs3
    ∷ row (bytes_of "DIVU ") regs3
    ∷ row (bytes_of "MOD  ") regs3
    ∷ row (bytes_of "MODU ") regs3
    ∷ row (bytes_of "MOV  ") regs2
    ∷ row (bytes_of "CMP  ") regs_cmp
    ∷ row (bytes_of "CMPI ") cmp_imm
    ∷ row (bytes_of "CALLR ") regs2
    ∷ row (bytes_of "ADDC ") regs3
    ∷ row (bytes_of "SUBC ") regs3
    ∷ row (bytes_of "LSLR ") regs3
    ∷ row (bytes_of "LSRR ") regs3
    ∷ row (bytes_of "ASRR ") regs3
    ∷ row (bytes_of "LWX  ") idx
    ∷ row (bytes_of "LBX  ") idx
    ∷ row (bytes_of "LBUX ") idx
    ∷ row (bytes_of "SWX  ") idx
    ∷ row (bytes_of "SBX  ") idx
    ∷ row (bytes_of "LHX  ") idx
    ∷ row (bytes_of "LHUX ") idx
    ∷ row (bytes_of "SHX  ") idx
    ∷ row (bytes_of "LUI  ") rd_hex
    ∷ row (bytes_of "ROLR ") regs3
    ∷ row (bytes_of "RORR ") regs3
    ∷ row (bytes_of "ROLI ") shift5
    ∷ row (bytes_of "RORI ") shift5
    ∷ row (bytes_of "CAS  ") regs3
    ∷ row (bytes_of "SFENCE") no_operands
    ∷ row (bytes_of "KRET") no_operands
    ∷ []

abbrev pub default_row : Row
default_row = row (bytes_of "???") unknown

unfoldable pub row_of : ℕ → Row
row_of op = get_or rows op default_row

-- A register, and a comma behind it.
unfoldable pub reg_comma : ℕ → List ℕ → List ℕ
reg_comma r out = reg_name r ++ b',' ∷ out

-- `(int16_t)imm16`
abbrev pub signed16 : ℕ → ℤ
signed16 w = if ltb w (2 ^ 15) then pos w else negsuc (2 ^ 16 - w - 1)

unfoldable pub print_operands : Shape → ℕ → ℕ → Fields → List ℕ
print_operands regs3 addr instr d = reg_comma d.rd (reg_comma d.rs1 (reg_name d.rs2))
print_operands regs2 addr instr d = reg_comma d.rd (reg_name d.rs1)
print_operands regs_cmp addr instr d = reg_comma d.rs1 (reg_name d.rs2)
print_operands shift5 addr instr d = reg_comma d.rd (reg_comma d.rs1 (print_unsigned d.shift []))
print_operands mem addr instr d =
    reg_comma d.rd (b'[' ∷ (reg_name d.rs1 ++ b'+' ∷ print_signed (signed16 d.imm16) (b']' ∷ [])))
print_operands idx addr instr d =
    reg_comma d.rd (b'[' ∷ (reg_name d.rs1 ++ b'+' ∷ (reg_name d.rs2 ++ b']' ∷ [])))
print_operands cond_target addr instr d =
    if ltb d.rd 11
    then pad_to 4 (get_or cond_names d.rd []) ++ b' ' ∷ hex 8 (add32 addr d.soff) []
    else bytes_of "B??  (illegal cond " ++ print_unsigned d.rd (b')' ∷ [])
print_operands rd_target addr instr d = reg_comma d.rd (hex 8 (add32 addr d.soff) [])
print_operands rd_hex addr instr d = reg_comma d.rd (hex 4 d.imm16 [])
print_operands no_operands addr instr d = []
print_operands signed_imm addr instr d =
    reg_comma d.rd (reg_comma d.rs1 (print_signed (signed16 d.imm16) []))
print_operands unsigned_imm addr instr d = reg_comma d.rd (reg_comma d.rs1 (hex 4 d.imm16 []))
print_operands shift_imm addr instr d =
    reg_comma d.rd (reg_comma d.rs1 (print_unsigned (bit_and d.imm16 0x1f) []))
print_operands cmp_imm addr instr d = reg_comma d.rs1 (print_signed (signed16 d.imm16) [])
print_operands unknown addr instr d = bytes_of " (" ++ hex 8 instr (b')' ∷ [])

unfoldable pub disasm : ℕ → ℕ → List ℕ
disasm addr instr =
    let d = decode instr in (row_of d.op).text ++ print_operands (row_of d.op).shape addr instr d
