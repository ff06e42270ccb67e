-- ===== src/Assembler/Address/Program.antt =====
-- A whole source text in the two passes.
use cputwo.Base.{
  ℕ, ◌^◌, ◌<◌, ◌≡◌, Bool, true, false, List, [], ◌∷◌, ◌++◌, refl, sym, ap, ◌∙◌, arith,
}
use cputwo.Assembler.Lexer.{tokenize_line}
use cputwo.Assembler.State.{Asm}
use cputwo.Assembler.Passes.{
  pass1_line, pass2_line, pass1_lines, pass2_lines, pass1, pass2, reset, assemble,
}
use cputwo.Assembler.Address.Arrives.{
  Clean, Arrives, Later-trans, Clean-parts, Arrives-refl, Arrives-at,
}
use cputwo.Assembler.Address.Line.{OneLabel, line-Arrives}

-- No line of the text has two labels.
abbrev pub AllOneLabel : List (List ℕ) → Type 0
AllOneLabel [] = Unit {0}
AllOneLabel (line ∷ lines) = OneLabel (tokenize_line line).0 × AllOneLabel lines

lines-Arrives :
    (lines : List (List ℕ)) (st1 st2 : Asm)
    → AllOneLabel lines
    → st1.org_addr ≡ st2.org_addr
    → st2.org_addr < 2 ^ 32
    → Arrives (pass1_lines lines st1).org_addr st2 (pass2_lines lines st2)
unfolding pass1_lines pass2_lines
lines-Arrives [] st1 st2 one same h = Arrives-at (sym same) (Arrives-refl st2)
lines-Arrives (line ∷ lines) st1 st2 one same h =
    let (toks, ending) = tokenize_line line in
    let p = line-Arrives toks ending st1 st2 one.0 same h in
    let s1 = pass1_line (toks, ending) st1 in
    let s2 = pass2_line (toks, ending) st2 in
    let q = lines-Arrives lines s2 s2 one.1 refl (p.in_word h) in
    record {
      later = Later-trans p.later q.later;
      org = λ k.
          let parts = Clean-parts p.later q.later k in
          (lines-Arrives lines s1 s2 one.1 (sym (p.org parts.0)) (p.in_word h)).org parts.1;
      pos = λ k e. let parts = Clean-parts p.later q.later k in q.pos parts.1 (p.pos parts.0 e);
      in_word = λ i. q.in_word (p.in_word i);
    }

pass2_lines-append :
    (before after : List (List ℕ)) (st : Asm)
    → pass2_lines (before ++ after) st ≡ pass2_lines after (pass2_lines before st)
unfolding pass2_lines
pass2_lines-append [] after st = refl
pass2_lines-append (line ∷ before) after st =
    pass2_lines-append before after (pass2_line (tokenize_line line) st)

AllOneLabel-parts :
    (before after : List (List ℕ))
    → AllOneLabel (before ++ after)
    → AllOneLabel before × AllOneLabel after
AllOneLabel-parts [] after one = (tt, one)
AllOneLabel-parts (line ∷ before) after one =
    let parts = AllOneLabel-parts before after one.1 in ((one.0, parts.0), parts.1)

-- The state in which the second pass starts, after the first over these lines.
abbrev pub between : Bool → List (List ℕ) → Asm
between object_mode lines = record (pass1 lines (reset object_mode)) {
  org_addr = 0;
  write_pos = 0;
  max_write_pos = 0;
}

-- When a text of which no line has two labels is assembled with no error, and nothing that C leaves
-- undefined has happened, then at each of its lines (behind `before`) the second pass is at the
-- address at which the first pass was there, and writes the next byte at that offset of the output.
pub assemble_addresses :
    (object_mode : Bool) (before after : List (List ℕ))
    → AllOneLabel (before ++ after)
    → (assemble object_mode (before ++ after)).error_count ≡ 0
    → (assemble object_mode (before ++ after)).went_wrong ≡ false
    → let here = pass2_lines before (between object_mode (before ++ after)) in
      let address = (pass1_lines before (reset object_mode)).org_addr in
      (here.org_addr ≡ address) × (here.write_pos ≡ address)
unfolding assemble pass1 pass2
assemble_addresses object_mode before after one no_error fine =
    let parts = AllOneLabel-parts before after one in
    let start = between object_mode (before ++ after) in
    let p = lines-Arrives before (reset object_mode) start parts.0 refl (omega arith) in
    let middle = pass2_lines before start in
    let q = lines-Arrives after middle middle parts.1 refl (p.in_word (omega arith)) in
    let whole = ap (λ (st : Asm). st.error_count) (pass2_lines-append before after start) in
    let wrong = ap (λ (st : Asm). st.went_wrong) (pass2_lines-append before after start) in
    let k : Clean start middle = record {
      errors = let x = p.later.errors in let y = q.later.errors in omega arith;
      wrong = still middle.went_wrong (q.later.wrong) (sym wrong ∙ fine);
    } in
    (p.org k, p.pos k refl ∙ p.org k)
  where
    still : (w : Bool) {w' : Bool} → (w ≡ true → w' ≡ true) → w' ≡ false → w ≡ false
    still true f e = let t = f refl in cc
    still false f e = refl
