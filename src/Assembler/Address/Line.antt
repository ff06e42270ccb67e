-- ===== src/Assembler/Address/Line.antt =====
-- A line in the two passes.
use cputwo.Base.{
  ℕ, ◌+◌, ◌^◌, ◌<◌, ◌≡◌, ◌&&◌, not, Option, none, some, List, [], ◌∷◌, ◌++◌, ◌==◌, if◌then◌else◌,
  if_intro, add32, u32, length, refl, sym, arith, ◌∙◌,
}
use cputwo.Base.Bytes.{length-append}
use cputwo.Base.Int.{low_bits-lt, ℤ, low_bits}
use cputwo.Base.Text.{c_string}
use cputwo.Assembler.Token.{Token, ident, int, string, comma, colon, dot_ident}
use cputwo.Assembler.Lexer.{Ending, fine, complained, outside}
use cputwo.Assembler.Parse.{Parse, ok, bad, undefined}
use cputwo.Assembler.State.{Asm, Symbol, asm_error, go_wrong, advance, find_symbol}
use cputwo.Assembler.Expr.{first, second, eval_expr}
use cputwo.Assembler.Directive.{
  Dir, dir_org, dir_extern, dir_section, dir_global, dir_word, dir_byte, dir_space, dir_ascii,
  dir_asciiz, dir_align, dir_equ, directive, with_value, process_space, emit_or_advance,
  run_directive, process_directive, skip_labels, assemble_statement, assemble_line,
}
use cputwo.Assembler.Passes.{
  report, define_label, define_labels, data_size, sized, directive_size, pass1_org, pass1_equ,
  pass1_directive, pass1_statement, pass1_line, pass2_line,
}
use cputwo.Assembler.Address.Arrives.{
  Arrives, Arrives-trans, Arrives-at, Arrives-refl, asm_error-Arrives, go_wrong-Arrives,
}
use cputwo.Assembler.Address.Emit.{
  SameOrg, emit_bytes-Arrives, emit_zeros-Arrives, with_symbol-Arrives, with_symbol-SameOrg,
}
use cputwo.Assembler.Address.Statement.{
  assemble_instruction-Arrives, process_word-Arrives, process_byte-Arrives, process_align-Arrives,
  process_org-Arrives, set_value-Arrives,
}

-- What pass 1 changes without moving.
report-SameOrg : (ending : Ending) (st : Asm) → SameOrg st (report ending st)
unfolding report asm_error go_wrong
report-SameOrg fine st = refl
report-SameOrg complained st = refl
report-SameOrg outside st = refl

report-Arrives : (ending : Ending) (st : Asm) → Arrives st.org_addr st (report ending st)
unfolding report
report-Arrives fine st = Arrives-refl st
report-Arrives complained st = asm_error-Arrives _ st
report-Arrives outside st = go_wrong-Arrives _ st

define_label-SameOrg : (name : List ℕ) (st : Asm) → SameOrg st (define_label name st)
unfolding define_label asm_error
define_label-SameOrg name st =
    by_symbol (find_symbol st.symtab name) _ (with_symbol-SameOrg _ name st)
  where
    by_symbol :
        (found : Option Symbol) (place : Asm)
        → SameOrg st place
        → SameOrg st
            (elim found [ some s ↦ if s.defined then asm_error st else place | none ↦ place ])
    by_symbol (some s) place same = if_intro (SameOrg st) s.defined (λ e. refl) (λ e. same)
    by_symbol none place same = same

define_labels-SameOrg : (ts : List Token) (st : Asm) → SameOrg st (define_labels ts st)
unfolding define_labels
define_labels-SameOrg (colon name ∷ ts) st =
    define_labels-SameOrg ts (define_label name st) ∙ define_label-SameOrg name st
define_labels-SameOrg ts st = refl

pass1_equ-SameOrg :
    (name : List ℕ) (r : Parse (ℤ × List Token)) (st : Asm) → SameOrg st (pass1_equ name r st)
unfolding pass1_equ with_value asm_error go_wrong
pass1_equ-SameOrg name (ok (v, rest)) st = with_symbol-SameOrg _ name st
pass1_equ-SameOrg name bad st = with_symbol-SameOrg _ name (asm_error st)
pass1_equ-SameOrg name undefined st = refl

pass1_org-at : (new_addr : ℕ) (st : Asm) → (pass1_org new_addr st).org_addr ≡ new_addr
unfolding pass1_org
pass1_org-at new_addr st =
    if_intro (λ (s : Asm). s.org_addr ≡ new_addr)
      (st.object_mode && st.section_base == 0 && not (new_addr == 0)) (λ e. refl) (λ e. refl)

-- A data directive: pass 1 advances by the size, after the tokenizer's report.
sized-at :
    (n : ℕ) (toks : List Token) (ending : Ending) (st1 st2 : Asm)
    → st1.org_addr ≡ st2.org_addr
    → directive_size toks ≡ n
    → add32 st2.org_addr n ≡ (advance (directive_size toks) (report ending st1)).org_addr
unfolding advance
sized-at n toks ending st1 st2 same size = rw (size, report-SameOrg ending st1, same) refl

-- A directive whose size is what pass 1 takes it to be.
directive-Arrives :
    (d : Dir) (ts toks : List Token) (ending : Ending) (st1 st2 : Asm)
    → st1.org_addr ≡ st2.org_addr
    → st2.org_addr < 2 ^ 32
    → directive_size toks ≡ data_size d ts
    → Arrives (pass1_directive d ts (toks, ending) st1).org_addr st2 (run_directive second d ts st2)
unfolding pass1_directive run_directive data_size process_space emit_or_advance
directive-Arrives dir_org (int v ∷ ts) toks ending st1 st2 same h size =
    Arrives-at (sym (pass1_org-at (low_bits 32 v) st1))
      (process_org-Arrives (low_bits 32 v) st2 h (low_bits-lt 32 v (omega arith)))
directive-Arrives dir_extern (ident name ∷ ts) toks ending st1 st2 same h size =
    Arrives-at (sym (with_symbol-SameOrg _ name st1 ∙ same)) (Arrives-refl st2)
directive-Arrives dir_extern ts toks ending st1 st2 same h size =
    Arrives-at (sym same) (Arrives-refl st2)
directive-Arrives dir_section ts toks ending st1 st2 same h size =
    Arrives-at (sym same) (Arrives-refl st2)
directive-Arrives dir_global (ident name ∷ ts) toks ending st1 st2 same h size =
    Arrives-at (sym (with_symbol-SameOrg _ name st1 ∙ same)) (with_symbol-Arrives _ name st2)
directive-Arrives dir_global ts toks ending st1 st2 same h size =
    Arrives-at (sym same) (Arrives-refl st2)
directive-Arrives dir_word ts toks ending st1 st2 same h size =
    Arrives-at (sized-at 4 toks ending st1 st2 same size) (process_word-Arrives ts st2)
directive-Arrives dir_byte ts toks ending st1 st2 same h size =
    Arrives-at (sized-at 1 toks ending st1 st2 same size) (process_byte-Arrives ts st2)
directive-Arrives dir_space (int v ∷ ts) toks ending st1 st2 same h size =
    Arrives-at (sized-at (low_bits 32 v) toks ending st1 st2 same size)
      (emit_zeros-Arrives (low_bits 32 v) st2 h)
directive-Arrives dir_ascii (string s ∷ ts) toks ending st1 st2 same h size =
    Arrives-at ((omega arith) ∙ sized-at (u32 (length (c_string s))) toks ending st1 st2 same size)
      (emit_bytes-Arrives (c_string s) st2 h)
directive-Arrives dir_asciiz (string s ∷ ts) toks ending st1 st2 same h size =
    Arrives-at
      ((omega (arith, length-append (c_string s) (0 ∷ [])))
        ∙ sized-at (u32 (length (c_string s) + 1)) toks ending st1 st2 same size)
      (emit_bytes-Arrives (c_string s ++ 0 ∷ []) st2 h)
directive-Arrives dir_align (int v ∷ ts) toks ending st1 st2 same h size =
    rw same (process_align-Arrives (low_bits 32 v) st2 h)
directive-Arrives dir_equ (ident name ∷ comma ∷ ts) toks ending st1 st2 same h size =
    Arrives-at (sym (pass1_equ-SameOrg name (eval_expr first st1.symtab ts) st1 ∙ same))
      (set_value-Arrives name (eval_expr second st2.symtab ts) st2)
directive-Arrives d ts toks ending st1 st2 same h size = asm_error-Arrives _ st2

-- No line has two labels before something else: `directive_size` skips one.
abbrev pub OneLabel : List Token → Type 0
OneLabel (colon a ∷ colon b ∷ ts) = ⊥
OneLabel ts = Unit {0}

directive_size-skip_labels :
    (toks : List Token) → OneLabel toks → directive_size toks ≡ sized (skip_labels toks)
unfolding directive_size skip_labels
directive_size-skip_labels [] one = refl
directive_size-skip_labels (colon a ∷ []) one = refl
directive_size-skip_labels (colon a ∷ colon b ∷ ts) one = absurd one
directive_size-skip_labels (colon a ∷ t ∷ ts) one = refl
directive_size-skip_labels (t ∷ ts) one = refl

statement-Arrives :
    (s toks : List Token) (ending : Ending) (st1 st2 : Asm)
    → st1.org_addr ≡ st2.org_addr
    → st2.org_addr < 2 ^ 32
    → directive_size toks ≡ sized s
    → Arrives (pass1_statement s (toks, ending) st1).org_addr st2 (assemble_statement second s st2)
unfolding pass1_statement assemble_statement process_directive sized advance
statement-Arrives [] toks ending st1 st2 same h size = Arrives-at (sym same) (Arrives-refl st2)
statement-Arrives (dot_ident dir ∷ ts) toks ending st1 st2 same h size =
    directive-Arrives (directive dir) ts toks ending st1 st2 same h size
statement-Arrives (ident mnem ∷ ts) toks ending st1 st2 same h size =
    rw same (assemble_instruction-Arrives mnem ts st2 h)
statement-Arrives ts toks ending st1 st2 same h size = asm_error-Arrives _ st2

-- Both passes at a line that they reach at the same address.
pub line-Arrives :
    (toks : List Token) (ending : Ending) (st1 st2 : Asm)
    → OneLabel toks
    → st1.org_addr ≡ st2.org_addr
    → st2.org_addr < 2 ^ 32
    → Arrives (pass1_line (toks, ending) st1).org_addr st2 (pass2_line (toks, ending) st2)
unfolding pass1_line pass2_line assemble_line
line-Arrives toks ending st1 st2 one same h =
    let p = report-Arrives ending st2 in
    let same1 = define_labels-SameOrg toks (report ending st1) ∙ report-SameOrg ending st1 ∙ same in
    Arrives-trans p (
      statement-Arrives (skip_labels toks) toks ending (define_labels toks (report ending st1))
        (report ending st2) (same1 ∙ sym (report-SameOrg ending st2)) (p.in_word h)
        (directive_size-skip_labels toks one))
