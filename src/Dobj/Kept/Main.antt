-- ===== src/Dobj/Kept/Main.antt =====
-- From the arguments of the assembler to the objects of the linker.
use cputwo.Base.{ℕ, ◌<◌, ◌≡◌, refl, Bool, true, false, Option, some, List, ◌∷◌}
use cputwo.Base.Text.{bytes_of, same_name, take}
use cputwo.Linker.Load.{max_objs, load_dobj, loaded}
use cputwo.Assembler.Passes.{reset}
use cputwo.Assembler.Lines.{collect_lines, no_lines, texts, assemble_string}
use cputwo.Assembler.Dobj.{write_dobj}
use cputwo.Assembler.Main.{object_file, include_dir, write_output, main_files, main}
use cputwo.Dobj.RoundTrip.{object_image, load_dobj-write_dobj}
use cputwo.Dobj.Section.{Fits}
use cputwo.Dobj.Kept.Program.{passes-Fits, reset-Fits}

assemble_string-Fits :
    (object_mode : Bool) (read_file : List ℕ → Option (List ℕ)) (dir : List ℕ) (depth : ℕ)
    (filename src : List ℕ)
    → Fits (assemble_string object_mode read_file dir depth filename src)
unfolding assemble_string
assemble_string-Fits object_mode read_file dir depth filename src =
    let c = collect_lines read_file dir depth src (take 255 filename) no_lines in
    passes-Fits (texts c.lines)
      (record (reset object_mode) { error_count = c.errors; went_wrong = c.too_deep })
      (reset-Fits object_mode c.errors c.too_deep)

-- When `-c`, a source file and an output file are the first arguments, and the source, with its
-- include files, is assembled with no error and with no operation that C leaves undefined, the assembler writes an
-- object file to the output, and the linker, as long as it has room for an object, loads from it
-- the section with its bytes, the symbols (names cut to 27 bytes) and the relocations that the
-- assembler holds.
pub load_dobj-main :
    (read_file : List ℕ → Option (List ℕ)) (depth obj_count : ℕ) (infile outfile src : List ℕ)
    (rest : List (List ℕ))
    → read_file infile ≡ some src
    → (assemble_string true read_file (include_dir infile) depth infile src).error_count ≡ 0
    → (assemble_string true read_file (include_dir infile) depth infile src).went_wrong ≡ false
    → obj_count < max_objs
    → (file : List ℕ) × (main read_file depth (bytes_of "-c" ∷ infile ∷ outfile ∷ rest)
        ≡ object_file outfile file)
      × (load_dobj obj_count file
          ≡ loaded
              (object_image (assemble_string true read_file (include_dir infile) depth infile src)))
unfolding main main_files write_output same_name
load_dobj-main read_file depth obj_count infile outfile src rest found errors defined room =
    let st = assemble_string true read_file (include_dir infile) depth infile src in
    (
      write_dobj st,
      rw (main_files, found, defined, errors) refl,
      load_dobj-write_dobj obj_count st room
          (assemble_string-Fits true read_file (include_dir infile) depth infile src),
    )
