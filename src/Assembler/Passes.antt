-- ===== src/Assembler/Passes.antt =====
-- The two passes over the lines, and `assemble_string` behind the split into lines.
use cputwo.Base.{
  ℕ, ◌+◌, Bool, true, false, not, ◌&&◌, none, some, List, [], ◌∷◌, ◌==◌, if◌then◌else◌, u32, length,
}
use cputwo.Base.Int.{ℤ, low_bits}
use cputwo.Base.Text.{c_string}
use cputwo.Assembler.Token.{Token, ident, int, string, comma, colon, dot_ident}
use cputwo.Assembler.Lexer.{Ending, fine, complained, outside, tokenize_line}
use cputwo.Assembler.Parse.{Parse}
use cputwo.Assembler.State.{Asm, asm_error, go_wrong, find_symbol, with_symbol, advance}
use cputwo.Assembler.Expr.{first, second, eval_expr}
use cputwo.Assembler.Opcodes.{instr_size}
use cputwo.Assembler.Directive.{
  Dir, dir_org, dir_extern, dir_section, dir_global, dir_word, dir_byte, dir_space, dir_ascii,
  dir_asciiz, dir_align, dir_equ, directive, aligned, with_value, skip_labels, assemble_line,
}

-- What the tokenizer has reported.
unfoldable pub report : Ending → Asm → Asm
report fine st = st
report complained st = asm_error st
report outside st = go_wrong st

-- A label at the current address.
unfoldable pub define_label : List ℕ → Asm → Asm
define_label name st = elim (find_symbol st.symtab name) [
  | some s ↦ if s.defined then asm_error st else place
  | none ↦ place
]
  where
    place : Asm
    place =
        with_symbol (λ s. record s { addr = st.org_addr; defined = true; is_label = true }) name st

unfoldable pub define_labels : List Token → Asm → Asm
define_labels (colon name ∷ ts) st = define_labels ts (define_label name st)
define_labels ts st = st

-- The bytes of a data directive; `int` and back to `uint32_t` are the low 32 digits.
unfoldable pub data_size : Dir → List Token → ℕ
data_size dir_word ts = 4
data_size dir_byte ts = 1
data_size dir_space (int v ∷ ts) = low_bits 32 v
data_size dir_ascii (string s ∷ ts) = u32 (length (c_string s))
data_size dir_asciiz (string s ∷ ts) = u32 (length (c_string s) + 1)
data_size dir ts = 0

-- `directive_size`: it skips one label.
unfoldable pub sized : List Token → ℕ
sized (dot_ident dir ∷ ts) = data_size (directive dir) ts
sized ts = 0

unfoldable pub directive_size : List Token → ℕ
directive_size (colon name ∷ ts) = sized ts
directive_size ts = sized ts

-- The first `.org` of an object file sets the base of the section.
unfoldable pub pass1_org : ℕ → Asm → Asm
pass1_org new_addr st =
    if st.object_mode && st.section_base == 0 && not (new_addr == 0)
    then record st { section_base = new_addr; section_vma_hint = new_addr; org_addr = new_addr }
    else record st { org_addr = new_addr }

-- `.equ` sets the symbol also after an error, to 0.
unfoldable pub pass1_equ : List ℕ → Parse (ℤ × List Token) → Asm → Asm
pass1_equ name value st =
    with_value value st
      (λ v st'. with_symbol (λ s. record s { addr = low_bits 32 v; defined = true }) name st')

-- Other directives tokenize the line again, and report its error again.
unfoldable pub pass1_directive : Dir → List Token → List Token × Ending → Asm → Asm
pass1_directive dir_org (int v ∷ ts) line st = pass1_org (low_bits 32 v) st
pass1_directive dir_org ts line st = st
pass1_directive dir_extern (ident name ∷ ts) line st =
    with_symbol (λ s. record s { is_extern = true; defined = false }) name st
pass1_directive dir_extern ts line st = st
pass1_directive dir_section ts line st = st
pass1_directive dir_global (ident name ∷ ts) line st =
    with_symbol (λ s. record s { is_global = true }) name st
pass1_directive dir_global ts line st = st
pass1_directive dir_align (int v ∷ ts) line st = record st {
  org_addr = aligned (low_bits 32 v) st.org_addr;
}
pass1_directive dir_align ts line st = st
pass1_directive dir_equ (ident name ∷ comma ∷ ts) line st =
    pass1_equ name (eval_expr first st.symtab ts) st
pass1_directive dir_equ ts line st = st
pass1_directive dir ts (toks, ending) st = advance (directive_size toks) (report ending st)

unfoldable pub pass1_statement : List Token → List Token × Ending → Asm → Asm
pass1_statement (dot_ident dir ∷ ts) line st = pass1_directive (directive dir) ts line st
pass1_statement (ident mnem ∷ ts) line st = advance (instr_size mnem) st
pass1_statement ts line st = st

-- A line of each pass, from its tokens.
unfoldable pub pass1_line : List Token × Ending → Asm → Asm
pass1_line (toks, ending) st =
    pass1_statement (skip_labels toks) (toks, ending) (define_labels toks (report ending st))

unfoldable pub pass2_line : List Token × Ending → Asm → Asm
pass2_line (toks, ending) st = assemble_line second toks (report ending st)

unfoldable pub pass1_lines : List (List ℕ) → Asm → Asm
pass1_lines [] st = st
pass1_lines (line ∷ lines) st = pass1_lines lines (pass1_line (tokenize_line line) st)

unfoldable pub pass2_lines : List (List ℕ) → Asm → Asm
pass2_lines [] st = st
pass2_lines (line ∷ lines) st = pass2_lines lines (pass2_line (tokenize_line line) st)

unfoldable pub pass1 : List (List ℕ) → Asm → Asm
pass1 lines st = pass1_lines lines (record st { org_addr = 0 })

unfoldable pub pass2 : List (List ℕ) → Asm → Asm
pass2 lines st = pass2_lines lines (record st { org_addr = 0; write_pos = 0; max_write_pos = 0 })

-- The state that `assemble_string` starts from.
abbrev pub reset : Bool → Asm
reset object_mode = record {
  symtab = [];
  outbuf = λ i. 0;
  org_addr = 0;
  write_pos = 0;
  max_write_pos = 0;
  object_mode = object_mode;
  section_base = 0;
  section_vma_hint = 0;
  reloc_tab = [];
  error_count = 0;
  went_wrong = false;
}

unfoldable pub assemble : Bool → List (List ℕ) → Asm
assemble object_mode lines = pass2 lines (pass1 lines (reset object_mode))
