-- ===== src/Linker/Link.antt =====
-- `resolve_relocs`, `write_map`, and `main` behind its arguments. That the files can be opened is
-- assumed; the inputs are the bytes of the files.
use mathlib.Core.Option.{map}
use cputwo.Base.{
  ℕ, ◌||◌, Option, none, some, List, [], ◌∷◌, ◌++◌, ◌==◌, if◌then◌else◌, add32, length,
}
use cputwo.Base.Text.{entry}
use cputwo.Linker.Object.{LSym, ObjFile}
use cputwo.Linker.Layout.{assign_addresses}
use cputwo.Linker.Symbols.{sec_undef, GlobSym, Building, going, full, outside, build_globals}
use cputwo.Linker.Resolve.{resolve_object}
use cputwo.Linker.Output.{emit_output}
use cputwo.Linker.Load.{Load, loaded, not_a_dobj, too_many_objects, outside_blob, load_dobj}

-- The outer loop: the objects and the errors counted so far; none is an index outside an array of an
-- object, which C leaves undefined.
unfoldable pub resolve_relocs : List GlobSym → List ObjFile → ℕ → Option (List ObjFile × ℕ)
resolve_relocs globs [] errors = some ([], errors)
resolve_relocs globs (obj ∷ objs) errors = elim (resolve_object globs obj obj.rels errors) [
  | none ↦ none
  | some (obj', errors') ↦ elim (resolve_relocs globs objs errors') [
    | none ↦ none
    | some (objs', errors2) ↦ some (obj' ∷ objs', errors2)
  ]
]

-- A line of the map file: an address and a name.
abbrev pub MapLine : Type 0
MapLine = ℕ × List ℕ

unfoldable pub map_globals : List GlobSym → List MapLine
map_globals [] = []
map_globals (g ∷ globs) = (g.abs_addr, g.name) ∷ map_globals globs

-- The local symbols of an object; none is a read of a section that the object does not have.
unfoldable pub map_locals : ObjFile → List LSym → Option (List MapLine)
map_locals obj [] = some []
map_locals obj (sym ∷ syms) =
    let rest = map_locals obj syms in
    if sym.is_global || sym.sec_idx == sec_undef then rest else elim (entry obj.secs sym.sec_idx) [
      | none ↦ none
      | some sec ↦ map (λ (ls : List MapLine). (add32 sec.base sym.value, sym.name) ∷ ls) rest
    ]

unfoldable pub map_objects : List ObjFile → Option (List MapLine)
map_objects [] = some []
map_objects (obj ∷ objs) = elim (map_locals obj obj.syms) [
  | none ↦ none
  | some ls ↦ map (λ (more : List MapLine). ls ++ more) (map_objects objs)
]

unfoldable pub write_map : List GlobSym → List ObjFile → Option (List MapLine)
write_map globs objs = map (λ (ls : List MapLine). map_globals globs ++ ls) (map_objects objs)

-- How `main` ends: with a file that it cannot load, with errors of the link, with an image and its
-- map, or with an operation that C leaves undefined.
pub data Linked : Type 0 where
  not_loaded : Linked
  link_failed : ℕ → Linked
  written : ℕ → (ℕ → ℕ) → List MapLine → Linked
  undefined : Linked

unfoldable pub write_output : List GlobSym → List ObjFile → Linked
write_output globs objs = elim (emit_output objs) [
  | none ↦ undefined
  | some (size, buf) ↦ elim (write_map globs objs) [
    | none ↦ undefined
    | some ls ↦ written size buf ls
  ]
]

-- `if (link_errors) goto done;`
unfoldable pub finish : List GlobSym → Option (List ObjFile × ℕ) → Linked
finish globs none = undefined
finish globs (some (objs, errors)) =
    if errors == 0 then write_output globs objs else link_failed errors

unfoldable pub resolve_all : List ObjFile → Building → Linked
resolve_all objs (going g) =
    if g.link_errors == 0
    then finish g.glob_syms (resolve_relocs g.glob_syms objs g.link_errors)
    else link_failed g.link_errors
resolve_all objs (full g) = link_failed g.link_errors
resolve_all objs outside = undefined

-- The part of `main` behind the loads, with a map file.
unfoldable pub link : ℕ → List ObjFile → Linked
link text_base objs =
    let placed = assign_addresses text_base objs in resolve_all placed (build_globals placed)

-- The loads, behind the objects that are loaded already.
unfoldable pub load_all : ℕ → List ObjFile → List (List ℕ) → Linked
load_all text_base objs [] = link text_base objs
load_all text_base objs (file ∷ files) =
    after (load_dobj (length objs) file) (λ obj. load_all text_base (objs ++ obj ∷ []) files)
  where
    after : Load → (ObjFile → Linked) → Linked
    after (loaded obj) next = next obj
    after not_a_dobj next = not_loaded
    after too_many_objects next = not_loaded
    after outside_blob next = undefined

unfoldable pub link_files : ℕ → List (List ℕ) → Linked
link_files text_base files = load_all text_base [] files
