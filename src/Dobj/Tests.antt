-- ===== src/Dobj/Tests.antt =====
-- The theorems on object files at a small program.
use cputwo.Base.{
  ℕ, ◌≡◌, refl, ap, ◌∙◌, true, false, Option, none, some, List, [], ◌∷◌, if◌then◌else◌, arith,
}
use cputwo.Base.Text.{
  bytes_of, same_name, same_nocase, to_upper, take, is_alpha, is_alnum, is_digit,
}
use cputwo.Assembler.Lexer.{
  skip_ws, scan_word, name_token, token_at, next_token, tokenize, tokenize_line,
}
use cputwo.Assembler.State.{advance, emit_byte, emit_word, put_byte}
use cputwo.Assembler.Opcodes.{find_row, find_opcode, instr_size}
use cputwo.Assembler.Encode.{one_word, encode}
use cputwo.Assembler.Directive.{
  emit_items, fmt_size, finish_instruction, assemble_instruction, skip_labels, assemble_statement,
  assemble_line,
}
use cputwo.Assembler.Passes.{
  assemble, pass1, pass2, pass1_lines, pass2_lines, pass1_line, pass2_line, report, define_labels,
  pass1_statement,
}
use cputwo.Assembler.Lines.{skip_blanks, line_len, include_at, include_name, assemble_string}
use cputwo.Assembler.Lines.Split.{join_lines, AllPlain, assemble_string-join_lines}
use cputwo.Assembler.Main.{before_slash, include_dir, object_file, main}
use cputwo.Assembler.Dobj.{write_dobj}
use cputwo.Linker.Load.{loaded, load_dobj}
use cputwo.Dobj.RoundTrip.{object_image}
use cputwo.Dobj.Kept.Program.{load_dobj-assemble}
use cputwo.Dobj.Kept.Main.{load_dobj-main}

-- A call of an external symbol, behind an address and a global label.
abbrev program : List (List ℕ)
program =
    bytes_of ".org 0x100"
    ∷ bytes_of ".extern puts"
    ∷ bytes_of ".global main"
    ∷ bytes_of "main: call puts"
    ∷ bytes_of "tab: .word main + 4"
    ∷ []

load_dobj-assemble_example :
    load_dobj 0 (write_dobj (assemble true program)) ≡ loaded (object_image (assemble true program))
load_dobj-assemble_example = load_dobj-assemble 0 program (omega arith)

-- A file with two instructions, in a folder.
abbrev source : List (List ℕ)
source = bytes_of "SYSCALL" ∷ bytes_of "HALT" ∷ []

abbrev infile : List ℕ
infile = bytes_of "os/a.s"

abbrev files : List ℕ → Option (List ℕ)
files path = if same_name path infile then some (join_lines source) else none

folder : include_dir infile ≡ bytes_of "os"
unfolding include_dir before_slash
folder = refl

file_found : files infile ≡ some (join_lines source)
unfolding same_name
file_found = refl

no_includes : (include_name (bytes_of "SYSCALL") ≡ none) × (include_name (bytes_of "HALT") ≡ none)
unfolding include_name include_at skip_blanks line_len
no_includes = (refl, refl)

source-AllPlain : AllPlain source
source-AllPlain = (
  (
    (
      refl,
      refl,
      (refl, refl, (refl, refl, (refl, refl, (refl, refl, (refl, refl, (refl, refl, tt)))))),
    ),
    no_includes.0,
    omega arith,
  ),
  (((refl, refl, (refl, refl, (refl, refl, (refl, refl, tt)))), no_includes.1, omega arith), tt),
)

assembled :
    assemble_string true files (include_dir infile) 1 infile (join_lines source)
    ≡ assemble true source
assembled =
    assemble_string-join_lines true files (include_dir infile) 0 infile source source-AllPlain
      (omega arith)

no_error : ((assemble true source).error_count ≡ 0) × ((assemble true source).went_wrong ≡ false)
unfolding skip_ws scan_word name_token token_at next_token tokenize tokenize_line take is_alpha
    is_alnum is_digit same_nocase to_upper advance find_row find_opcode instr_size one_word encode
    emit_items fmt_size finish_instruction assemble_instruction skip_labels assemble_statement
    assemble_line assemble pass1 pass2 pass1_lines pass2_lines pass1_line pass2_line report
    define_labels pass1_statement emit_word emit_byte put_byte
no_error = (refl, refl)

load_dobj-main_example :
    (file : List ℕ) × (main files 1 (bytes_of "-c" ∷ infile ∷ bytes_of "a.o" ∷ [])
      ≡ object_file (bytes_of "a.o") file)
    × (load_dobj 0 file
        ≡ loaded (
            object_image
              (assemble_string true files (include_dir infile) 1 infile (join_lines source))))
load_dobj-main_example =
    load_dobj-main files 1 0 infile (bytes_of "a.o") (join_lines source) [] file_found
      (ap (λ st. st.error_count) assembled ∙ no_error.0)
      (ap (λ st. st.went_wrong) assembled ∙ no_error.1) (omega arith)
