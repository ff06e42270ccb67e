-- ===== src/Assembler/Lines.antt =====
-- `collect_lines`: a source text as lines, with the text of its include files. A file system gives
-- the text of a path; the depth of the calls is bounded by fuel.
pub mod Depth
pub mod Split
pub mod Bound
mod Tests
use cputwo.Base.{
  ℕ, zero, suc, ◌+◌, ◌-◌, Bool, true, false, ◌&&◌, ◌||◌, Option, none, some, List, [], ◌∷◌, ◌++◌,
  ltb, leb, ◌==◌, if◌then◌else◌, length,
}
use cputwo.Base.Bytes.{drop}
use cputwo.Base.Text.{bytes_of, same_nocase, take, c_string}
use cputwo.Assembler.State.{Asm}
use cputwo.Assembler.Passes.{pass1, pass2, reset}

abbrev pub max_lines : ℕ
max_lines = 65536

abbrev pub max_line_len : ℕ
max_line_len = 1024

-- `Line`
pub record Line : Type 0 where
  pub text : List ℕ
  pub lineno : ℕ
  pub filename : List ℕ

-- `lines` up to `line_count`, the errors so far, and whether the calls went deeper than the fuel.
pub record Collected : Type 0 where
  pub lines : List Line
  pub errors : ℕ
  pub too_deep : Bool

-- The text between the newlines; there is no line behind the last newline.
abbrev lengthen : ℕ → List (List ℕ) → List (List ℕ)
lengthen c [] = (c ∷ []) ∷ []
lengthen c (row ∷ rows) = (c ∷ row) ∷ rows

unfoldable pub split_lines : List ℕ → List (List ℕ)
split_lines [] = []
split_lines (c ∷ cs) =
    let rows = split_lines cs in if c == b'\n' then [] ∷ rows else lengthen c rows

-- `while (q < start + len && (*q == ' ' || *q == '\t')) q++;` for `n` bytes up to `start + len`.
unfoldable pub skip_blanks : ℕ → List ℕ → ℕ × List ℕ
skip_blanks zero cs = (zero, cs)
skip_blanks (suc n) [] = (suc n, [])
skip_blanks (suc n) (c ∷ cs) =
    let rest = skip_blanks n cs in if c == b' ' || c == b'\t' then rest else (suc n, c ∷ cs)

unfoldable pub blank_or_quote : List ℕ → Bool
blank_or_quote [] = false
blank_or_quote (c ∷ cs) = c == b' ' || c == b'\t' || c == b'"'

unfoldable pub up_to_quote : List ℕ → List ℕ
up_to_quote [] = []
up_to_quote (c ∷ cs) = let rest = up_to_quote cs in if c == b'"' then [] else c ∷ rest

-- `fnlen > 0 && fnlen < 512`
unfoldable pub file_name : List ℕ → Option (List ℕ)
file_name name = if ltb 0 (length name) && ltb (length name) 512 then some name else none

unfoldable pub quoted : List ℕ → Option (List ℕ)
quoted [] = none
quoted (c ∷ cs) = if c == b'"' then file_name (up_to_quote cs) else none

-- At the first byte that is no blank, with `n` bytes up to `start + len`.
unfoldable pub include_at : ℕ × List ℕ → Option (List ℕ)
include_at (n, q) =
    if leb 8 n && same_nocase (take 8 q) (bytes_of ".include") && blank_or_quote (drop 8 q)
    then quoted (skip_blanks (n - 8) (drop 8 q)).1
    else none

unfoldable pub line_len : List ℕ → ℕ
line_len row = if leb max_line_len (length row) then max_line_len - 1 else length row

-- The name in a line that is an `.include`.
unfoldable pub include_name : List ℕ → Option (List ℕ)
include_name row = include_at (skip_blanks (line_len row) row)

-- `incpath`, of 1024 bytes.
unfoldable pub include_path : List ℕ → List ℕ → List ℕ
include_path [] name = take 1023 name
include_path (c ∷ dir) name = take 1023 (c ∷ (dir ++ b'/' ∷ name))

unfoldable pub add_line : List ℕ → ℕ → List ℕ → Collected → Collected
add_line filename lineno row st = record st {
  lines =
      st.lines
      ++ record { text = take (line_len row) row; lineno = lineno; filename = take 255 filename }
        ∷ [];
}

module _ (read_file : List ℕ → Option (List ℕ)) (dir : List ℕ) where
  -- The body of the loop; `call` is the call for an include file.
  unfoldable pub collect_line :
      (List ℕ → List ℕ → Collected → Collected) → List ℕ → ℕ → List ℕ → Collected → Collected
  collect_line call filename lineno row st = elim (include_name row) [
    | some name ↦ elim (read_file (include_path dir name)) [
      | some src ↦ call src (include_path dir name) st
      | none ↦ record st { errors = st.errors + 1 }
    ]
    | none ↦ add_line filename lineno row st
  ]

  unfoldable pub collect_rows :
      (List ℕ → List ℕ → Collected → Collected) → List ℕ → ℕ → List (List ℕ) → Collected → Collected
  collect_rows call filename lineno [] st = st
  collect_rows call filename lineno (row ∷ rows) st =
      let rest =
        collect_rows call filename (lineno + 1) rows (collect_line call filename lineno row st) in
      if ltb (length st.lines) max_lines then rest else st

  unfoldable pub collect_lines : ℕ → List ℕ → List ℕ → Collected → Collected
  collect_lines zero src filename st = record st { too_deep = true }
  collect_lines (suc depth) src filename st =
      collect_rows (collect_lines depth) filename 1 (split_lines (c_string src)) st

abbrev pub no_lines : Collected
no_lines = record { lines = []; errors = 0; too_deep = false }

abbrev pub texts : List Line → List (List ℕ)
texts [] = []
texts (l ∷ ls) = l.text ∷ texts ls

-- `assemble_string`, for the file of this name. Calls that are too deep for the stack are undefined.
unfoldable pub assemble_string :
    Bool → (List ℕ → Option (List ℕ)) → List ℕ → ℕ → List ℕ → List ℕ → Asm
assemble_string object_mode read_file dir depth filename src =
    let c = collect_lines read_file dir depth src (take 255 filename) no_lines in
    let st = record (reset object_mode) { error_count = c.errors; went_wrong = c.too_deep } in
    pass2 (texts c.lines) (pass1 (texts c.lines) st)
