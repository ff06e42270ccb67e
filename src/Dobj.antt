-- ===== src/Dobj.antt =====
-- dobj.h: the constants of the object files that the assembler writes and the linker loads. The
-- relocation types and the index of an undefined section stand with the linker.
pub mod Fields
pub mod Records
pub mod Section
pub mod Kept
pub mod RoundTrip
mod Tests
use cputwo.Base.{ℕ, List, ◌∷◌}
use cputwo.Base.Text.{bytes_of}

abbrev pub dobj_magic : List ℕ
dobj_magic = bytes_of "DOBJ"

abbrev pub dobj_version : ℕ
dobj_version = 1

abbrev pub dobj_header_size : ℕ
dobj_header_size = 24

abbrev pub dobj_section_size : ℕ
dobj_section_size = 24

abbrev pub dobj_symbol_size : ℕ
dobj_symbol_size = 36

abbrev pub dobj_reloc_size : ℕ
dobj_reloc_size = 16

abbrev pub dobj_sf_exec : ℕ
dobj_sf_exec = 1

abbrev pub dobj_sf_alloc : ℕ
dobj_sf_alloc = 4
