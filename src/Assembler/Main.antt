-- ===== src/Assembler/Main.antt =====
-- `main` of the assembler: its arguments, and what it writes. That the files can be written is
-- assumed.
use cputwo.Base.{
  ℕ, ◌-◌, Bool, true, false, Option, none, some, List, [], ◌∷◌, ltb, ◌==◌, if◌then◌else◌, length,
}
use cputwo.Base.Text.{bytes_of, same_name}
use cputwo.Assembler.State.{max_output, Symbol, Asm}
use cputwo.Assembler.Lines.{assemble_string}
use cputwo.Assembler.Dobj.{slice, write_dobj}

-- How `main` ends: with the message on its usage, without the source, with errors, with an operation
-- that C leaves undefined, or with the path and the bytes of its output, and with the map that goes
-- with a flat image.
pub data Outcome : Type 0 where
  usage : Outcome
  unreadable : Outcome
  failed : ℕ → Outcome
  undefined : Outcome
  object_file : List ℕ → List ℕ → Outcome
  flat_file : List ℕ → List ℕ → Option (List ℕ × List (ℕ × List ℕ)) → Outcome

-- What stands before the last slash.
unfoldable pub before_slash : List ℕ → Option (List ℕ)
before_slash [] = none
before_slash (c ∷ cs) = elim (before_slash cs) [
  | some dir ↦ some (c ∷ dir)
  | none ↦ if c == b'/' then some [] else none
]

-- `g_include_dir`
unfoldable pub include_dir : List ℕ → List ℕ
include_dir infile = elim (before_slash infile) [
  | some dir ↦ if ltb (length dir) (1024 - 1) then dir else []
  | none ↦ []
]

unfoldable pub map_symbols : List Symbol → List (ℕ × List ℕ)
map_symbols [] = []
map_symbols (s ∷ syms) = (s.addr, s.name) ∷ map_symbols syms

-- The `*out_len` bytes of `out`.
unfoldable pub flat_image : Asm → List ℕ
flat_image st =
    slice st.outbuf 0 (if ltb max_output st.max_write_pos then max_output else st.max_write_pos)

unfoldable pub map_file : Asm → List (List ℕ) → Option (List ℕ × List (ℕ × List ℕ))
map_file st [] = none
map_file st (path ∷ rest) = some (path, map_symbols st.symtab)

unfoldable pub write_output : Bool → List ℕ → List (List ℕ) → Asm → Outcome
write_output object_mode outfile rest st =
    if st.went_wrong
    then undefined
    else if ltb 0 st.error_count
    then failed st.error_count
    else if object_mode
    then object_file outfile (write_dobj st)
    else flat_file outfile (flat_image st) (map_file st rest)

module _ (read_file : List ℕ → Option (List ℕ)) (depth : ℕ) where
  -- Behind the option.
  unfoldable pub main_files : Bool → List (List ℕ) → Outcome
  main_files object_mode [] = usage
  main_files object_mode (infile ∷ []) = usage
  main_files object_mode (infile ∷ outfile ∷ rest) = elim (read_file infile) [
    | none ↦ unreadable
    | some src ↦
        write_output object_mode outfile rest
          (assemble_string object_mode read_file (include_dir infile) depth infile src)
  ]

  -- The arguments behind the name of the program.
  unfoldable pub main : List (List ℕ) → Outcome
  main [] = usage
  main (arg ∷ args) =
      if same_name arg (bytes_of "-c") then main_files true args else main_files false (arg ∷ args)
