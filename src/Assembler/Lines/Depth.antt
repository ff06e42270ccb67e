-- ===== src/Assembler/Lines/Depth.antt =====
-- How deep the calls of `collect_lines` go.
use cputwo.Base.{
  ℕ, zero, suc, ◌+◌, ◌<◌, ◌≡◌, refl, ap, ◌∙◌, Option, none, some, List, [], ◌∷◌, ltb, if◌then◌else◌,
  if_intro, length, arith,
}
use cputwo.Base.Text.{c_string}
use cputwo.Assembler.Lines.{
  Collected, split_lines, include_name, include_path, add_line, max_lines, collect_line,
  collect_rows, collect_lines,
}

abbrev pub rows_of : List ℕ → List (List ℕ)
rows_of src = split_lines (c_string src)

module _ (read_file : List ℕ → Option (List ℕ)) (dir : List ℕ) (rank : List ℕ → ℕ) where
  -- The include files of a line rank below a number.
  abbrev pub RowBelow : ℕ → List ℕ → Type 0
  RowBelow n row =
      (name src : List ℕ)
      → include_name row ≡ some name
      → read_file (include_path dir name) ≡ some src
      → rank (include_path dir name) < n

  abbrev pub Below : ℕ → List (List ℕ) → Type 0
  Below n [] = Unit {0}
  Below n (row ∷ rows) = RowBelow n row × Below n rows

  -- A file ranks above the files that it includes.
  abbrev pub Ranked : Type 0
  Ranked = (path src : List ℕ) → read_file path ≡ some src → Below (rank path) (rows_of src)

  abbrev Same : ℕ → ℕ → List ℕ → List ℕ → Type 0
  Same d e src path =
      (st : Collected)
      → (collect_lines read_file dir d src path st ≡ collect_lines read_file dir e src path st)
        × ((collect_lines read_file dir d src path st).too_deep ≡ st.too_deep)

  -- The calls for the include files that rank below `n`.
  abbrev Calls : ℕ → ℕ → ℕ → Type 0
  Calls n d e = (src path : List ℕ) → read_file path ≡ some src → rank path < n → Same d e src path

  -- A change of the state that does not depend on the fuel, and stays within it.
  abbrev Agree : (Collected → Collected) → (Collected → Collected) → Collected → Type 0
  Agree f g st = (f st ≡ g st) × ((f st).too_deep ≡ st.too_deep)

  collect_line-Agree :
      (n d e : ℕ) (filename : List ℕ) (lineno : ℕ) (row : List ℕ) (st : Collected)
      → Calls n d e
      → RowBelow n row
      → Agree
          (collect_line read_file dir (collect_lines read_file dir d) filename lineno row)
          (collect_line read_file dir (collect_lines read_file dir e) filename lineno row)
          st
  unfolding collect_line add_line
  collect_line-Agree n d e filename lineno row st calls below = by_name (include_name row) refl
    where
      by_file :
          (path : List ℕ) (file : Option (List ℕ))
          → read_file path ≡ file
          → ((src : List ℕ) → file ≡ some src → rank path < n)
          → Agree
              (λ (s : Collected). elim file [
                | some src ↦ collect_lines read_file dir d src path s
                | none ↦ record s { errors = s.errors + 1 }
              ])
              (λ (s : Collected). elim file [
                | some src ↦ collect_lines read_file dir e src path s
                | none ↦ record s { errors = s.errors + 1 }
              ])
              st
      by_file path (some src) found low = calls src path found (low src refl) st
      by_file path none found low = (refl, refl)

      by_name :
          (o : Option (List ℕ))
          → include_name row ≡ o
          → Agree
              (λ (s : Collected). elim o [
                | some name ↦ elim (read_file (include_path dir name)) [
                  | some src ↦ collect_lines read_file dir d src (include_path dir name) s
                  | none ↦ record s { errors = s.errors + 1 }
                ]
                | none ↦ add_line filename lineno row s
              ])
              (λ (s : Collected). elim o [
                | some name ↦ elim (read_file (include_path dir name)) [
                  | some src ↦ collect_lines read_file dir e src (include_path dir name) s
                  | none ↦ record s { errors = s.errors + 1 }
                ]
                | none ↦ add_line filename lineno row s
              ])
              st
      by_name (some name) found =
          by_file (include_path dir name) (read_file (include_path dir name)) refl
            (λ src file. below name src found file)
      by_name none found = (refl, refl)

  collect_rows-Agree :
      (n d e : ℕ) (filename : List ℕ) (lineno : ℕ) (rows : List (List ℕ)) (st : Collected)
      → Calls n d e
      → Below n rows
      → Agree
          (collect_rows read_file dir (collect_lines read_file dir d) filename lineno rows)
          (collect_rows read_file dir (collect_lines read_file dir e) filename lineno rows)
          st
  unfolding collect_rows
  collect_rows-Agree n d e filename lineno [] st calls below = (refl, refl)
  collect_rows-Agree n d e filename lineno (row ∷ rows) st calls (here, below) =
      let (same, kept) = collect_line-Agree n d e filename lineno row st calls here in
      let next =
        collect_line read_file dir (collect_lines read_file dir d) filename lineno row st in
      let (same2, kept2) = collect_rows-Agree n d e filename (lineno + 1) rows next calls below in
      (
        ap (λ (s : Collected). if ltb (length st.lines) max_lines then s else st)
            (same2
              ∙ ap
                  (collect_rows read_file dir (collect_lines read_file dir e) filename (lineno + 1)
                    rows)
                  same),
        if_intro (λ (s : Collected). s.too_deep ≡ st.too_deep) (ltb (length st.lines) max_lines)
            (λ h. kept2 ∙ kept) (λ h. refl),
      )

  collect_lines-Agree :
      Ranked
      → (n d e : ℕ) (src filename : List ℕ) (st : Collected) → Below n (rows_of src)
      → n < d
      → n < e
      → (collect_lines read_file dir d src filename st
          ≡ collect_lines read_file dir e src filename st)
        × ((collect_lines read_file dir d src filename st).too_deep ≡ st.too_deep)
  unfolding collect_lines
  collect_lines-Agree ranked n zero e src filename st below h k = absurd (omega arith)
  collect_lines-Agree ranked n (suc d) zero src filename st below h k = absurd (omega arith)
  collect_lines-Agree ranked n (suc d) (suc e) src filename st below h k =
      collect_rows-Agree n d e filename 1 (rows_of src) st
        (λ src2 path found low st2.
          collect_lines-Agree ranked (rank path) d e src2 path st2 (ranked path src2 found)
            (omega arith) (omega arith))
        below

-- When every file ranks above the files that it includes, `collect_lines` of a text whose include
-- files rank below `n` gives the same with any two amounts of fuel above `n`, and does not run out
-- of it.
pub collect_lines-depth :
    (read_file : List ℕ → Option (List ℕ)) (dir : List ℕ) (rank : List ℕ → ℕ) (n d e : ℕ)
    (src filename : List ℕ) (st : Collected)
    → Ranked read_file dir rank
    → Below read_file dir rank n (rows_of src)
    → n < d
    → n < e
    → (collect_lines read_file dir d src filename st
        ≡ collect_lines read_file dir e src filename st)
      × ((collect_lines read_file dir d src filename st).too_deep ≡ st.too_deep)
collect_lines-depth read_file dir rank n d e src filename st ranked below h k =
    collect_lines-Agree read_file dir rank ranked n d e src filename st below h k
