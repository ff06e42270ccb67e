-- ===== src/Assembler/Lines/Split.antt =====
-- Lines that are no includes, and the bounds of the array of lines.
use mathlib.Core.List.{append-nil, append_assoc}
use cputwo.Base.{
  ℕ, suc, ◌+◌, ◌<◌, ◌≤◌, ◌≡◌, refl, ap, sym, ◌∙◌, Bool, false, Option, none, List, [], ◌∷◌, ◌++◌,
  leb, ◌==◌, length, lt→ltb, arith,
}
use cputwo.Base.Bytes.{length-append}
use cputwo.Base.Text.{take, c_string}
use cputwo.Assembler.State.{Asm}
use cputwo.Assembler.Passes.{pass1, pass2, reset, assemble}
use cputwo.Assembler.Lines.{
  max_lines, max_line_len, Line, Collected, split_lines, line_len, include_name, add_line,
  collect_line, collect_rows, collect_lines, no_lines, texts, assemble_string,
}

-- A newline behind every line.
abbrev pub join_lines : List (List ℕ) → List ℕ
join_lines [] = []
join_lines (row ∷ rows) = row ++ b'\n' ∷ join_lines rows

-- No newline and no terminator.
abbrev Unbroken : List ℕ → Type 0
Unbroken [] = Unit {0}
Unbroken (c ∷ cs) = ((c == b'\n') ≡ false) × ((c == 0) ≡ false) × Unbroken cs

abbrev pub Plain : List ℕ → Type 0
Plain row = Unbroken row × (include_name row ≡ none) × (length row < max_line_len)

abbrev pub AllPlain : List (List ℕ) → Type 0
AllPlain [] = Unit {0}
AllPlain (row ∷ rows) = Plain row × AllPlain rows

abbrev pub numbered : List ℕ → ℕ → List (List ℕ) → List Line
numbered filename n [] = []
numbered filename n (row ∷ rows) =
    record { text = row; lineno = n; filename = take 255 filename } ∷ numbered filename (n + 1) rows

split_line :
    (row rest : List ℕ) → Unbroken row → split_lines (row ++ b'\n' ∷ rest) ≡ row ∷ split_lines rest
unfolding split_lines
split_line [] rest u = refl
split_line (c ∷ row) rest (nl, nul, u) = rw (nl, split_line row rest u) refl

split_lines-join_lines :
    (rows : List (List ℕ)) → AllPlain rows → split_lines (join_lines rows) ≡ rows
unfolding split_lines
split_lines-join_lines [] p = refl
split_lines-join_lines (row ∷ rows) (p, ps) =
    split_line row (join_lines rows) p.0 ∙ ap (λ rs. row ∷ rs) (split_lines-join_lines rows ps)

c_string-line :
    (row rest : List ℕ)
    → Unbroken row
    → c_string rest ≡ rest
    → c_string (row ++ b'\n' ∷ rest) ≡ row ++ b'\n' ∷ rest
unfolding c_string
c_string-line [] rest u e = ap (λ cs. b'\n' ∷ cs) e
c_string-line (c ∷ row) rest (nl, nul, u) e = rw (nul, c_string-line row rest u e) refl

c_string-join_lines :
    (rows : List (List ℕ)) → AllPlain rows → c_string (join_lines rows) ≡ join_lines rows
unfolding c_string
c_string-join_lines [] p = refl
c_string-join_lines (row ∷ rows) (p, ps) =
    c_string-line row (join_lines rows) p.0 (c_string-join_lines rows ps)

take-length : (row : List ℕ) → take (length row) row ≡ row
unfolding take
take-length [] = refl
take-length (c ∷ row) = ap (λ cs. c ∷ cs) (take-length row)

whole_line : (row : List ℕ) → length row < max_line_len → take (line_len row) row ≡ row
unfolding line_len
whole_line row h = rw (short h) (take-length row)
  where
    short : length row < max_line_len → leb max_line_len (length row) ≡ false
    short k = ground arith

module _ (read_file : List ℕ → Option (List ℕ)) (dir : List ℕ) where
  collect_line-Plain :
      (call : List ℕ → List ℕ → Collected → Collected) (filename : List ℕ) (lineno : ℕ)
      (row : List ℕ) (st : Collected)
      → Plain row
      → collect_line read_file dir call filename lineno row st ≡ record st {
        lines =
            st.lines ++ record { text = row; lineno = lineno; filename = take 255 filename } ∷ [];
      }
  unfolding collect_line add_line
  collect_line-Plain call filename lineno row st (u, plain, short) =
      rw (collect_line, plain, whole_line row short) refl

  collect_rows-Plain :
      (call : List ℕ → List ℕ → Collected → Collected) (filename : List ℕ) (lineno : ℕ)
      (rows : List (List ℕ)) (st : Collected)
      → AllPlain rows
      → length st.lines + length rows ≤ max_lines
      → collect_rows read_file dir call filename lineno rows st
        ≡ record st { lines = st.lines ++ numbered filename lineno rows }
  unfolding collect_rows
  collect_rows-Plain call filename lineno [] st p room =
      ap (λ ls. record st { lines = ls }) (sym (append-nil st.lines))
  collect_rows-Plain call filename lineno (row ∷ rows) st (p, ps) room =
      let new : Line = record { text = row; lineno = lineno; filename = take 255 filename } in
      let more : length (st.lines ++ new ∷ []) ≡ length st.lines + 1 =
        length-append {A = Line} st.lines (new ∷ []) in
      rw
        (
          lt→ltb (length st.lines) max_lines (omega arith),
          collect_line-Plain call filename lineno row st p,
        )
        (collect_rows-Plain call filename (lineno + 1) rows
            (record st { lines = st.lines ++ new ∷ [] }) ps (omega arith)
          ∙ ap (λ ls. record st { lines = ls })
              (append_assoc st.lines (new ∷ []) (numbered filename (lineno + 1) rows)))

  -- Lines with no newline, no zero byte and no `.include`, of fewer than 1024 bytes, and at most
  -- 65536 of them: a text that is these lines, each with a newline behind it, is collected as these
  -- lines, numbered from 1, with the first 255 bytes of the name of the file, and with no error.
  pub collect_lines-join_lines :
      (depth : ℕ) (rows : List (List ℕ)) (filename : List ℕ)
      → AllPlain rows
      → length rows ≤ max_lines
      → collect_lines read_file dir (suc depth) (join_lines rows) filename no_lines
        ≡ record no_lines { lines = numbered filename 1 rows }
  unfolding collect_lines
  collect_lines-join_lines depth rows filename p room =
      ap
        (λ rs.
          collect_rows read_file dir (collect_lines read_file dir depth) filename 1 rs no_lines)
        (ap split_lines (c_string-join_lines rows p) ∙ split_lines-join_lines rows p)
      ∙ collect_rows-Plain (collect_lines read_file dir depth) filename 1 rows no_lines p
          (omega arith)

texts-numbered :
    (filename : List ℕ) (n : ℕ) (rows : List (List ℕ)) → texts (numbered filename n rows) ≡ rows
texts-numbered filename n [] = refl
texts-numbered filename n (row ∷ rows) = ap (λ rs. row ∷ rs) (texts-numbered filename (n + 1) rows)

-- Lines with no newline, no zero byte and no `.include`, of fewer than 1024 bytes, and at most 65536
-- of them: `assemble_string` on a text that is these lines, each with a newline behind it, is both
-- passes on these lines.
pub assemble_string-join_lines :
    (object_mode : Bool) (read_file : List ℕ → Option (List ℕ)) (dir : List ℕ) (depth : ℕ)
    (filename : List ℕ) (rows : List (List ℕ))
    → AllPlain rows
    → length rows ≤ max_lines
    → assemble_string object_mode read_file dir (suc depth) filename (join_lines rows)
      ≡ assemble object_mode rows
unfolding assemble_string assemble
assemble_string-join_lines object_mode read_file dir depth filename rows p room =
    let collected = collect_lines-join_lines read_file dir depth rows (take 255 filename) p room in
    let lines = texts-numbered (take 255 filename) 1 rows in
    ap (λ c. from c) collected ∙ ap (λ ls. pass2 ls (pass1 ls (reset object_mode))) lines
  where
    from : Collected → Asm
    from c = pass2 (texts c.lines) (
        pass1 (texts c.lines)
          (record (reset object_mode) { error_count = c.errors; went_wrong = c.too_deep }))
