-- ===== src/Linker/Resolve.antt =====
-- The loops of `resolve_relocs`.
pub mod Frame
pub mod Sites
use cputwo.Base.{ℕ, ◌+◌, Option, none, some, List, [], ◌∷◌}
use cputwo.Linker.Object.{LSec, LSym, LRel, ObjFile}
use cputwo.Base.Text.{entry}
use cputwo.Linker.Symbols.{GlobSym, address, undefined_symbol, bad_index, symbol_address}
use cputwo.Linker.Reloc.{Patched, patched, patch_error, patch_undefined, patch_section}

-- `objs[oi].secs[i] = sec`, for the patch through `sec->data`.
unfoldable pub replace_section : List LSec → ℕ → LSec → List LSec
replace_section [] i sec = []
replace_section (old ∷ secs) ℕ.zero sec = sec ∷ secs
replace_section (old ∷ secs) (ℕ.suc i) sec = old ∷ replace_section secs i sec

-- One relocation: the patched object, an error of the linker, or what C leaves undefined: an index
-- outside an array of the object, a site behind the section, an overflow of the addend.
pub data Resolution : Type 0 where
  resolved : ObjFile → Resolution
  reloc_error : Resolution
  reloc_undefined : Resolution

-- The patch for a symbol's address.
unfoldable pub patch_object : ObjFile → LRel → LSec → ℕ → Resolution
patch_object obj r sec s = elim (patch_section sec r s) [
  | patched sec' ↦ resolved (record obj { secs = replace_section obj.secs r.sec_idx sec' })
  | patch_error ↦ reloc_error
  | patch_undefined ↦ reloc_undefined
]

unfoldable pub resolve_symbol : List GlobSym → ObjFile → LRel → LSec → LSym → Resolution
resolve_symbol globs obj r sec sym = elim (symbol_address globs obj sym) [
  | address s ↦ patch_object obj r sec s
  | undefined_symbol ↦ reloc_error
  | bad_index ↦ reloc_undefined
]

unfoldable pub resolve_reloc : List GlobSym → ObjFile → LRel → Resolution
resolve_reloc globs obj r = elim (entry obj.secs r.sec_idx) [
  | none ↦ reloc_error
  | some sec ↦ elim (entry obj.syms r.sym_idx) [
    | none ↦ reloc_undefined
    | some sym ↦ resolve_symbol globs obj r sec sym
  ]
]

-- The inner loop: the object and the errors counted so far.
unfoldable pub resolve_object : List GlobSym → ObjFile → List LRel → ℕ → Option (ObjFile × ℕ)
resolve_object globs obj [] errors = some (obj, errors)
resolve_object globs obj (r ∷ rels) errors = elim (resolve_reloc globs obj r) [
  | resolved obj' ↦ resolve_object globs obj' rels errors
  | reloc_error ↦ resolve_object globs obj rels (errors + 1)
  | reloc_undefined ↦ none
]
