-- ===== src/Assembler/Lines/Tests.antt =====
-- Small texts with include files.
use mathlib.Core.Option.{some_inj}
use cputwo.Base.{
  ℕ, ◌≡◌, refl, sym, subst, Bool, true, false, Option, none, some, List, [], ◌∷◌, if◌then◌else◌,
  arith,
}
use cputwo.Base.Text.{bytes_of, same_name, same_nocase, to_upper, take, c_string}
use cputwo.Assembler.Passes.{assemble}
use cputwo.Assembler.Lines.{
  split_lines, skip_blanks, blank_or_quote, up_to_quote, file_name, quoted, include_at, line_len,
  include_name, include_path, add_line, collect_line, collect_rows, collect_lines, no_lines, texts,
  assemble_string,
}
use cputwo.Assembler.Lines.Depth.{Below, Ranked, rows_of, collect_lines-depth}
use cputwo.Assembler.Lines.Split.{
  join_lines, AllPlain, numbered, collect_lines-join_lines, assemble_string-join_lines,
}
use cputwo.Assembler.Lines.Bound.{Fits, collect_lines-Fits, collect_lines_again}

abbrev nop : List ℕ
nop = bytes_of "NOP"

abbrev includes : List ℕ
includes = bytes_of "  .include \"a\""

abbrev a : List ℕ
a = bytes_of "a"

-- One file, of one instruction.
abbrev one_file : List ℕ → Option (List ℕ)
one_file path = if same_name path a then some (join_lines (nop ∷ [])) else none

abbrev own_file : List ℕ → Option (List ℕ)
own_file path = if same_name path a then some (join_lines (includes ∷ [])) else none

included :
    texts (collect_lines one_file [] 2 (join_lines (nop ∷ includes ∷ nop ∷ [])) [] no_lines).lines
    ≡ nop ∷ nop ∷ nop ∷ []
unfolding split_lines skip_blanks blank_or_quote up_to_quote file_name quoted include_at line_len
    include_name include_path add_line collect_line collect_rows collect_lines same_name same_nocase
    to_upper take c_string
included = refl

nop_plain : include_name nop ≡ none
unfolding include_name include_at skip_blanks line_len
nop_plain = refl

names_a : include_name includes ≡ some a
unfolding skip_blanks blank_or_quote up_to_quote file_name quoted include_at line_len include_name
    same_nocase to_upper take
names_a = refl

two_nops : AllPlain (nop ∷ nop ∷ [])
two_nops = (
  ((refl, refl, (refl, refl, (refl, refl, tt))), nop_plain, omega arith),
  (((refl, refl, (refl, refl, (refl, refl, tt))), nop_plain, omega arith), tt),
)

two_collected :
    collect_lines one_file [] 1 (join_lines (nop ∷ nop ∷ [])) a no_lines
    ≡ record no_lines { lines = numbered a 1 (nop ∷ nop ∷ []) }
two_collected = collect_lines-join_lines one_file [] 0 (nop ∷ nop ∷ []) a two_nops (omega arith)

assemble_string-join_lines_example :
    assemble_string false one_file [] 1 a (join_lines (nop ∷ nop ∷ []))
    ≡ assemble false (nop ∷ nop ∷ [])
assemble_string-join_lines_example =
    assemble_string-join_lines false one_file [] 0 a (nop ∷ nop ∷ []) two_nops (omega arith)

no_include : rows_of (join_lines (nop ∷ [])) ≡ nop ∷ []
unfolding split_lines c_string
no_include = refl

one_include : rows_of (join_lines (includes ∷ [])) ≡ includes ∷ []
unfolding split_lines c_string
one_include = refl

one_file-Ranked : Ranked one_file [] (λ path. 0)
one_file-Ranked path src found = by_name (same_name path a) found
  where
    nothing_below : Below one_file [] (λ path. 0) 0 (rows_of (join_lines (nop ∷ [])))
    nothing_below =
        subst (Below one_file [] (λ path. 0) 0) (sym no_include)
          ((λ name file e f. absurd (cc (nop_plain, e))), tt)

    by_name :
        (same : Bool)
        → (if same then some (join_lines (nop ∷ [])) else none) ≡ some src
        → Below one_file [] (λ path. 0) 0 (rows_of src)
    by_name true e =
        subst (λ text. Below one_file [] (λ path. 0) 0 (rows_of text)) (some_inj.0 e) nothing_below
    by_name false e = absurd (cc)

one_include-Below : Below one_file [] (λ path. 0) 1 (rows_of (join_lines (includes ∷ [])))
one_include-Below =
    subst (Below one_file [] (λ path. 0) 1) (sym one_include) ((λ name file e f. omega arith), tt)

collect_lines-depth_example :
    (collect_lines one_file [] 2 (join_lines (includes ∷ [])) a no_lines
      ≡ collect_lines one_file [] 9 (join_lines (includes ∷ [])) a no_lines)
    × ((collect_lines one_file [] 2 (join_lines (includes ∷ [])) a no_lines).too_deep ≡ false)
collect_lines-depth_example =
    collect_lines-depth one_file [] (λ path. 0) 1 2 9 (join_lines (includes ∷ [])) a no_lines
      one_file-Ranked one_include-Below (omega arith) (omega arith)

collect_lines-Fits_example :
    Fits (collect_lines own_file [] 3 (join_lines (includes ∷ [])) a no_lines)
collect_lines-Fits_example =
    collect_lines-Fits own_file [] 3 (join_lines (includes ∷ [])) a no_lines (omega arith, tt)

own_found : own_file (include_path [] a) ≡ some (join_lines (includes ∷ []))
unfolding include_path same_name take
own_found = refl

collect_lines_again_example :
    (collect_lines own_file [] 100 (join_lines (includes ∷ [])) a no_lines).too_deep ≡ true
collect_lines_again_example =
    collect_lines_again own_file [] 100 (join_lines (includes ∷ [])) a includes [] a no_lines
      one_include names_a own_found (omega arith)
