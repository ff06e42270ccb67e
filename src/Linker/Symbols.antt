-- ===== src/Linker/Symbols.antt =====
-- `find_global`, `build_globals`, and how `resolve_relocs` finds the address of a symbol.
pub mod Bound
pub mod First
pub mod Refines
use cputwo.Base.{
  ◌||◌, length, ℕ, ◌+◌, Bool, true, false, not, ◌&&◌, Option, none, some, List, [], ◌∷◌, ◌++◌, leb,
  ◌==◌, if◌then◌else◌, add32,
}
use cputwo.Base.Text.{same_name, entry, take}
use cputwo.Linker.Object.{LSec, LSym, LRel, ObjFile}
use cputwo.Linker.Reloc.{patch_section}

abbrev pub sec_undef : ℕ
sec_undef = 0xffff

abbrev pub max_glob_syms : ℕ
max_glob_syms = 8192

-- `GlobSym`
pub record GlobSym : Type 0 where
  pub name : List ℕ
  pub abs_addr : ℕ
  pub obj_idx : ℕ

-- `glob_syms` up to `glob_count`, and `link_errors`.
pub record Globals : Type 0 where
  pub glob_syms : List GlobSym
  pub link_errors : ℕ

unfoldable pub find_global : List GlobSym → List ℕ → Option GlobSym
find_global [] name = none
find_global (g ∷ globs) name = if same_name g.name name then some g else find_global globs name

-- Where `build_globals` stands: it goes on, it has returned because the table is full, or it has
-- read a section that the object does not have, which C leaves undefined.
pub data Building : Type 0 where
  going : Globals → Building
  full : Globals → Building
  outside : Building

-- A global symbol with its address: a second one of that name is an error, and so is a full table.
unfoldable pub enter_symbol : ℕ → LSym → ℕ → Globals → Building
enter_symbol oi sym abs_addr g = elim (find_global g.glob_syms sym.name) [
  | some existing ↦ going (record g { link_errors = g.link_errors + 1 })
  | none ↦
      if leb max_glob_syms (length g.glob_syms)
      then full (record g { link_errors = g.link_errors + 1 })
      else going (record g {
        glob_syms =
            g.glob_syms
            ++ record { name = take 27 sym.name; abs_addr = abs_addr; obj_idx = oi } ∷ [];
      })
]

-- The body of the inner loop.
unfoldable pub add_symbol : ℕ → ObjFile → LSym → Globals → Building
add_symbol oi obj sym g =
    if not sym.is_global || sym.sec_idx == sec_undef
    then going g
    else elim (entry obj.secs sym.sec_idx) [
      | some sec ↦ enter_symbol oi sym (add32 sec.base sym.value) g
      | none ↦ outside
    ]

unfoldable pub then_build : Building → (Globals → Building) → Building
then_build (going g) rest = rest g
then_build (full g) rest = full g
then_build outside rest = outside

-- The inner and the outer loop.
unfoldable pub add_symbols : ℕ → ObjFile → List LSym → Globals → Building
add_symbols oi obj [] g = going g
add_symbols oi obj (sym ∷ syms) g =
    then_build (add_symbol oi obj sym g) (λ g'. add_symbols oi obj syms g')

unfoldable pub add_objects : ℕ → List ObjFile → Globals → Building
add_objects oi [] g = going g
add_objects oi (obj ∷ objs) g =
    then_build (add_symbols oi obj obj.syms g) (λ g'. add_objects (oi + 1) objs g')

unfoldable pub build_globals : List ObjFile → Building
build_globals objs = add_objects 0 objs (record { glob_syms = []; link_errors = 0 })

-- The address of a relocation's symbol, before its addend.
pub data Target : Type 0 where
  address : ℕ → Target
  undefined_symbol : Target
  bad_index : Target

unfoldable pub symbol_address : List GlobSym → ObjFile → LSym → Target
symbol_address globs obj sym =
    if sym.sec_idx == sec_undef
    then elim (find_global globs sym.name) [ some g ↦ address g.abs_addr | none ↦ undefined_symbol ]
    else elim (entry obj.secs sym.sec_idx) [
      | some sec ↦ address (add32 sec.base sym.value)
      | none ↦ bad_index
    ]
