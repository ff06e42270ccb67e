-- ===== src/Dobj/Kept/Program.antt =====
-- The lines of both passes, and a whole run.
use cputwo.Base.{
  false, ℕ, ◌^◌, ◌<◌, ◌≡◌, refl, Bool, true, not, ◌&&◌, Option, some, none, List, [], ◌∷◌, ◌==◌,
  if◌then◌else◌, if_intro, arith,
}
use cputwo.Base.Int.{low_bits-lt, ℤ, low_bits}
use cputwo.Assembler.Token.{Token, ident, int, comma, colon, dot_ident}
use cputwo.Assembler.Parse.{Parse, ok, bad, undefined}
use cputwo.Assembler.State.{Asm, Symbol, asm_error, find_symbol}
use cputwo.Assembler.Expr.{first, eval_expr}
use cputwo.Assembler.Opcodes.{instr_size}
use cputwo.Assembler.Lexer.{Ending, fine, complained, outside, tokenize_line, max_toks}
use cputwo.Assembler.Directive.{
  Dir, dir_org, dir_extern, dir_section, dir_global, dir_align, dir_equ, directive, with_value,
  skip_labels, assemble_line,
}
use cputwo.Assembler.Passes.{
  report, define_label, define_labels, directive_size, pass1_org, pass1_equ, pass1_directive,
  pass1_statement, pass1_line, pass2_line, pass1_lines, pass2_lines, pass1, pass2, reset, assemble,
}
use cputwo.Assembler.Dobj.{write_dobj}
use cputwo.Linker.Load.{loaded, load_dobj, max_objs}
use cputwo.Dobj.Fields.{NoZero}
use cputwo.Dobj.Section.{Fits}
use cputwo.Dobj.RoundTrip.{object_image, load_dobj-write_dobj}
use cputwo.Dobj.Kept.State.{with_symbol-Fits, asm_error-Fits, go_wrong-Fits, advance-Fits}
use cputwo.Dobj.Kept.Tokens.{AllNamed, tokenize-AllNamed}
use cputwo.Dobj.Kept.Statement.{assemble_statement-Fits}

report-Fits : (ending : Ending) (st : Asm) → Fits st → Fits (report ending st)
unfolding report
report-Fits fine st fits = fits
report-Fits complained st fits = asm_error-Fits st fits
report-Fits outside st fits = go_wrong-Fits st fits

define_label-Fits : (name : List ℕ) (st : Asm) → NoZero name → Fits st → Fits (define_label name st)
unfolding define_label
define_label-Fits name st named fits =
    by_symbol (find_symbol st.symtab name) _ (with_symbol-Fits _ name st (λ s. refl) named fits)
  where
    by_symbol :
        (found : Option Symbol) (place : Asm)
        → Fits place
        → Fits (elim found [ some s ↦ if s.defined then asm_error st else place | none ↦ place ])
    by_symbol (some s) place p = if_intro Fits s.defined (λ e. asm_error-Fits st fits) (λ e. p)
    by_symbol none place p = p

define_labels-Fits :
    (ts : List Token) (st : Asm) → AllNamed ts → Fits st → Fits (define_labels ts st)
unfolding define_labels
define_labels-Fits (colon name ∷ ts) st named fits =
    define_labels-Fits ts (define_label name st) named.1 (define_label-Fits name st named.0 fits)
define_labels-Fits ts st named fits = fits

pass1_org-Fits :
    (new_addr : ℕ) (st : Asm) → new_addr < 2 ^ 32 → Fits st → Fits (pass1_org new_addr st)
unfolding pass1_org
pass1_org-Fits new_addr st h fits =
    if_intro Fits (st.object_mode && st.section_base == 0 && not (new_addr == 0))
      (λ e. record {
        names = fits.names;
        relocs = fits.relocs;
        sym_count = fits.sym_count;
        reloc_count = fits.reloc_count;
        in_buffer = fits.in_buffer;
        hint_fits = h;
      })
      (λ e. fits)

pass1_equ-Fits :
    (name : List ℕ) (r : Parse (ℤ × List Token)) (st : Asm)
    → NoZero name
    → Fits st
    → Fits (pass1_equ name r st)
unfolding pass1_equ with_value
pass1_equ-Fits name (ok (v, rest)) st named fits = with_symbol-Fits _ name st (λ s. refl) named fits
pass1_equ-Fits name bad st named fits =
    with_symbol-Fits _ name (asm_error st) (λ s. refl) named (asm_error-Fits st fits)
pass1_equ-Fits name undefined st named fits = go_wrong-Fits st fits

pass1_directive-Fits :
    (d : Dir) (ts toks : List Token) (ending : Ending) (st : Asm)
    → AllNamed ts
    → Fits st
    → Fits (pass1_directive d ts (toks, ending) st)
unfolding pass1_directive
pass1_directive-Fits dir_org (int v ∷ ts) toks ending st named fits =
    pass1_org-Fits (low_bits 32 v) st (low_bits-lt 32 v (omega arith)) fits
pass1_directive-Fits dir_org ts toks ending st named fits = fits
pass1_directive-Fits dir_extern (ident name ∷ ts) toks ending st named fits =
    with_symbol-Fits _ name st (λ s. refl) named.0 fits
pass1_directive-Fits dir_extern ts toks ending st named fits = fits
pass1_directive-Fits dir_section ts toks ending st named fits = fits
pass1_directive-Fits dir_global (ident name ∷ ts) toks ending st named fits =
    with_symbol-Fits _ name st (λ s. refl) named.0 fits
pass1_directive-Fits dir_global ts toks ending st named fits = fits
pass1_directive-Fits dir_align (int v ∷ ts) toks ending st named fits = fits
pass1_directive-Fits dir_align ts toks ending st named fits = fits
pass1_directive-Fits dir_equ (ident name ∷ comma ∷ ts) toks ending st named fits =
    pass1_equ-Fits name (eval_expr first st.symtab ts) st named.0 fits
pass1_directive-Fits dir_equ ts toks ending st named fits = fits
pass1_directive-Fits d ts toks ending st named fits =
    advance-Fits (directive_size toks) (report ending st) (report-Fits ending st fits)

pass1_statement-Fits :
    (ts toks : List Token) (ending : Ending) (st : Asm)
    → AllNamed ts
    → Fits st
    → Fits (pass1_statement ts (toks, ending) st)
unfolding pass1_statement
pass1_statement-Fits [] toks ending st named fits = fits
pass1_statement-Fits (dot_ident dir ∷ ts) toks ending st named fits =
    pass1_directive-Fits (directive dir) ts toks ending st named.1 fits
pass1_statement-Fits (ident mnem ∷ ts) toks ending st named fits =
    advance-Fits (instr_size mnem) st fits
pass1_statement-Fits (t ∷ ts) toks ending st named fits = fits

skip_labels-AllNamed : (ts : List Token) → AllNamed ts → AllNamed (skip_labels ts)
unfolding skip_labels
skip_labels-AllNamed (colon name ∷ ts) named = skip_labels-AllNamed ts named.1
skip_labels-AllNamed ts named = named

line_named : (line : List ℕ) → AllNamed (tokenize_line line).0
unfolding tokenize_line
line_named line = tokenize-AllNamed max_toks line

pass1_lines-Fits : (lines : List (List ℕ)) (st : Asm) → Fits st → Fits (pass1_lines lines st)
unfolding pass1_lines pass1_line
pass1_lines-Fits [] st fits = fits
pass1_lines-Fits (line ∷ lines) st fits =
    let (toks, ending) = tokenize_line line in
    let named = line_named line in
    pass1_lines-Fits lines _ (
      pass1_statement-Fits (skip_labels toks) toks ending (define_labels toks (report ending st))
        (skip_labels-AllNamed toks named)
        (define_labels-Fits toks (report ending st) named (report-Fits ending st fits)))

pass2_lines-Fits : (lines : List (List ℕ)) (st : Asm) → Fits st → Fits (pass2_lines lines st)
unfolding pass2_lines pass2_line assemble_line
pass2_lines-Fits [] st fits = fits
pass2_lines-Fits (line ∷ lines) st fits =
    let (toks, ending) = tokenize_line line in
    pass2_lines-Fits lines _ (
      assemble_statement-Fits (skip_labels toks) (report ending st)
        (skip_labels-AllNamed toks (line_named line)) (report-Fits ending st fits))

pub passes-Fits : (lines : List (List ℕ)) (st : Asm) → Fits st → Fits (pass2 lines (pass1 lines st))
unfolding pass1 pass2
passes-Fits lines st fits =
    let q =
      pass1_lines-Fits lines (record st { org_addr = 0 })
        (record {
          names = fits.names;
          relocs = fits.relocs;
          sym_count = fits.sym_count;
          reloc_count = fits.reloc_count;
          in_buffer = fits.in_buffer;
          hint_fits = fits.hint_fits;
        }) in
    pass2_lines-Fits lines _ (record {
      names = q.names;
      relocs = q.relocs;
      sym_count = q.sym_count;
      reloc_count = q.reloc_count;
      in_buffer = omega arith;
      hint_fits = q.hint_fits;
    })

pub reset-Fits :
    (object_mode : Bool) (errors : ℕ) (wrong : Bool)
    → Fits (record (reset object_mode) { error_count = errors; went_wrong = wrong })
reset-Fits object_mode errors wrong = record {
  names = tt;
  relocs = tt;
  sym_count = omega arith;
  reloc_count = omega arith;
  in_buffer = omega arith;
  hint_fits = omega arith;
}

pub assemble-Fits : (object_mode : Bool) (lines : List (List ℕ)) → Fits (assemble object_mode lines)
unfolding assemble
assemble-Fits object_mode lines =
    passes-Fits lines (reset object_mode) (reset-Fits object_mode 0 false)

-- Whatever the lines of the source, the linker, as long as it has room for an object, loads from the
-- object file that is written for them the section with its bytes, the symbols (names cut to 27
-- bytes) and the relocations that the assembler holds.
pub load_dobj-assemble :
    (obj_count : ℕ) (lines : List (List ℕ))
    → obj_count < max_objs
    → load_dobj obj_count (write_dobj (assemble true lines))
      ≡ loaded (object_image (assemble true lines))
load_dobj-assemble obj_count lines room =
    load_dobj-write_dobj obj_count (assemble true lines) room (assemble-Fits true lines)
