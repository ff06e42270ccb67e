-- ===== src/Assembler/Lines/Bound.antt =====
-- What `collect_lines` keeps: the bounds of the array of lines, and what it does with a file that
-- includes itself.
use cputwo.Base.{
  ℕ, zero, suc, ◌+◌, ◌<◌, ◌≤◌, ◌≡◌, refl, true, Option, none, some, List, [], ◌∷◌, ◌++◌, ltb,
  if_intro, length, lt→ltb, ltb→lt, arith,
}
use cputwo.Base.Bytes.{length-append}
use cputwo.Base.Text.{take}
use cputwo.Assembler.Lines.{
  max_lines, max_line_len, Line, Collected, line_len, include_name, include_path, add_line,
  collect_line, collect_rows, collect_lines,
}
use cputwo.Assembler.Lines.Depth.{rows_of}

module _ (read_file : List ℕ → Option (List ℕ)) (dir : List ℕ) (P : Collected → Type 0) where
  -- What every change of the state keeps.
  abbrev Kept : Type 0
  Kept =
      ((filename : List ℕ) (lineno : ℕ) (row : List ℕ) (st : Collected)
        → length st.lines < max_lines
        → P st
        → P (add_line filename lineno row st))
      × ((st : Collected) → P st → P (record st { errors = st.errors + 1 }))
      × ((st : Collected) → P st → P (record st { too_deep = true }))

  collect_line-kept :
      (call : List ℕ → List ℕ → Collected → Collected)
      → Kept
      → ((src path : List ℕ) (st : Collected) → P st → P (call src path st))
      → (filename : List ℕ) (lineno : ℕ) (row : List ℕ) (st : Collected)
      → length st.lines < max_lines
      → P st
      → P (collect_line read_file dir call filename lineno row st)
  unfolding collect_line
  collect_line-kept call (add, err, deep) calls filename lineno row st room p =
      by_name (include_name row)
    where
      by_file :
          (path : List ℕ) (file : Option (List ℕ))
          → P (elim file [
            | some src ↦ call src path st
            | none ↦ record st { errors = st.errors + 1 }
          ])
      by_file path (some src) = calls src path st p
      by_file path none = err st p

      by_name :
          (o : Option (List ℕ))
          → P (elim o [
            | some name ↦ elim (read_file (include_path dir name)) [
              | some src ↦ call src (include_path dir name) st
              | none ↦ record st { errors = st.errors + 1 }
            ]
            | none ↦ add_line filename lineno row st
          ])
      by_name (some name) = by_file (include_path dir name) (read_file (include_path dir name))
      by_name none = add filename lineno row st room p

  collect_rows-kept :
      (call : List ℕ → List ℕ → Collected → Collected)
      → Kept
      → ((src path : List ℕ) (st : Collected) → P st → P (call src path st))
      → (filename : List ℕ) (lineno : ℕ) (rows : List (List ℕ)) (st : Collected) → P st
      → P (collect_rows read_file dir call filename lineno rows st)
  unfolding collect_rows
  collect_rows-kept call kept calls filename lineno [] st p = p
  collect_rows-kept call kept calls filename lineno (row ∷ rows) st p =
      if_intro P (ltb (length st.lines) max_lines)
        (λ e.
          collect_rows-kept call kept calls filename (lineno + 1) rows
            (collect_line read_file dir call filename lineno row st)
            (collect_line-kept call kept calls filename lineno row st (ltb→lt _ _ e) p))
        (λ e. p)

  collect_lines-kept :
      Kept
      → (depth : ℕ) (src filename : List ℕ) (st : Collected) → P st
      → P (collect_lines read_file dir depth src filename st)
  unfolding collect_lines
  collect_lines-kept kept zero src filename st p = kept.2 st p
  collect_lines-kept kept (suc depth) src filename st p =
      collect_rows-kept (collect_lines read_file dir depth) kept (collect_lines-kept kept depth)
        filename 1 (rows_of src) st p

-- Lines in the arrays of `Line`, with a terminator.
abbrev pub AllFit : List Line → Type 0
AllFit [] = Unit {0}
AllFit (l ∷ ls) = (length l.text + 1 ≤ max_line_len) × (length l.filename + 1 ≤ 256) × AllFit ls

abbrev pub Fits : Collected → Type 0
Fits st = (length st.lines ≤ max_lines) × AllFit st.lines

AllFit-append : (ls ms : List Line) → AllFit ls → AllFit ms → AllFit (ls ++ ms)
AllFit-append [] ms a b = b
AllFit-append (l ∷ ls) ms (t, f, a) b = (t, f, AllFit-append ls ms a b)

length-take : (n : ℕ) (xs : List ℕ) → length (take n xs) ≤ n
unfolding take
length-take zero xs = omega arith
length-take (suc n) [] = omega arith
length-take (suc n) (x ∷ xs) = omega (arith, length-take n xs)

line_len-lt : (row : List ℕ) → line_len row < max_line_len
unfolding line_len
line_len-lt row = ground arith

add_line-Fits :
    (filename : List ℕ) (lineno : ℕ) (row : List ℕ) (st : Collected)
    → length st.lines < max_lines
    → Fits st
    → Fits (add_line filename lineno row st)
unfolding add_line
add_line-Fits filename lineno row st room (bound, fits) =
    let new : Line = record {
      text = take (line_len row) row;
      lineno = lineno;
      filename = take 255 filename;
    } in
    (
      omega (arith, length-append {A = Line} st.lines (new ∷ [])),
      AllFit-append st.lines (new ∷ []) fits (
        omega (arith, length-take (line_len row) row, line_len-lt row),
        omega (arith, length-take 255 filename),
        tt,
      ),
    )

-- Whatever the source and the include files, the lines stay within their array, and their texts and
-- file names, with a terminator, within theirs.
pub collect_lines-Fits :
    (read_file : List ℕ → Option (List ℕ)) (dir : List ℕ) (depth : ℕ) (src filename : List ℕ)
    (st : Collected)
    → Fits st
    → Fits (collect_lines read_file dir depth src filename st)
collect_lines-Fits read_file dir depth src filename st fits =
    collect_lines-kept read_file dir Fits (add_line-Fits, (λ s p. p), (λ s p. p)) depth src filename
      st fits

-- A file whose first line includes the file itself runs out of any amount of fuel.
pub collect_lines_again :
    (read_file : List ℕ → Option (List ℕ)) (dir : List ℕ) (depth : ℕ) (src name row : List ℕ)
    (rows : List (List ℕ)) (filename : List ℕ) (st : Collected)
    → rows_of src ≡ row ∷ rows
    → include_name row ≡ some name
    → read_file (include_path dir name) ≡ some src
    → length st.lines < max_lines
    → (collect_lines read_file dir depth src filename st).too_deep ≡ true
unfolding collect_lines collect_rows collect_line add_line
collect_lines_again read_file dir zero src name row rows filename st e n f room = refl
collect_lines_again read_file dir (suc depth) src name row rows filename st e n f room =
    rw (e, lt→ltb (length st.lines) max_lines room)
      (collect_rows-kept read_file dir (λ s. s.too_deep ≡ true) (collect_lines read_file dir depth)
        stays (collect_lines-kept read_file dir (λ s. s.too_deep ≡ true) stays depth) filename 2
        rows _
        (rw (collect_line, n, f)
          (collect_lines_again read_file dir depth src name row rows (include_path dir name) st e n
            f room)))
  where
    stays : Kept read_file dir (λ s. s.too_deep ≡ true)
    stays = ((λ filename2 lineno row2 s h p. p), (λ s p. p), (λ s p. refl))
