-- ===== src/Assembler/Listing/Tests.antt =====
-- Printed words, and the round trip at some of them.
use cputwo.Base.{◌<◌, ◌≡◌, inr, refl, false, arith}
use cputwo.Base.Text.{bytes_of}
use cputwo.Assembler.Lexer.{tokenize_line}
use cputwo.Assembler.State.{Asm, emit_word}
use cputwo.Assembler.Passes.{pass2_line, reset}
use cputwo.Emulator.Decode.{decode, sext16, sext20}
use cputwo.Emulator.Disasm.{
  hex_digit, hex_onto, hex, decimal_onto, print_unsigned, print_signed, pad_to, reg_name, row_of,
  reg_comma, print_operands, disasm,
}
use cputwo.Assembler.Listing.Words.{Canonical}
use cputwo.Assembler.Listing.RoundTrip.{pass2_line-disasm}

backwards : disasm 0x100 0x0d9ffffc ≡ bytes_of "BGTU 0x000000FC"
unfolding disasm decode sext16 sext20 row_of print_operands pad_to hex hex_onto hex_digit
backwards = refl

below_stack : disasm 0 0x0b3dfffc ≡ bytes_of "LW   r3,[sp+-4]"
unfolding disasm decode sext16 sext20 row_of print_operands reg_comma reg_name print_signed
    print_unsigned decimal_onto
below_stack = refl

unknown_code : disasm 0 0xdeadbeef ≡ bytes_of "??? (0xDEADBEEF)"
unfolding disasm decode sext16 sext20 row_of print_operands hex hex_onto hex_digit
unknown_code = refl

abbrev at_256 : Asm
at_256 = record (reset false) { org_addr = 0x100 }

backwards-Canonical : Canonical (row_of (decode 0x0d9ffffc).op).shape 0x100 0x0d9ffffc
unfolding decode sext16 sext20 row_of
backwards-Canonical = (omega arith, inr (omega arith, omega arith))

backwards_known : (decode 0x0d9ffffc).op < 0x3f
unfolding decode
backwards_known = omega arith

pass2_line-disasm_example :
    pass2_line (tokenize_line (disasm 0x100 0x0d9ffffc)) at_256 ≡ emit_word 0x0d9ffffc at_256
pass2_line-disasm_example =
    pass2_line-disasm at_256 0x0d9ffffc refl (omega arith) (omega arith) backwards_known
      backwards-Canonical
