-- ===== src/Assembler/Dobj.antt =====
-- `write_dobj`: the bytes of the object file. That the file can be opened is assumed.
use cputwo.Base.{
  ℕ, zero, suc, ◌+◌, ◌-◌, ◌*◌, List, [], ◌∷◌, ◌++◌, ltb, if◌then◌else◌, bit_and, bit_or, ◌>>>◌, u8,
  u32, sub32, length,
}
use cputwo.Base.Text.{bytes_of, take}
use cputwo.Base.Bytes.{write_records}
use cputwo.Assembler.State.{Symbol, ObjReloc, Asm}
use cputwo.Dobj.{
  dobj_magic, dobj_version, dobj_header_size, dobj_section_size, dobj_symbol_size, dobj_reloc_size,
  dobj_sf_exec, dobj_sf_alloc,
}
use cputwo.Linker.Symbols.{sec_undef}

unfoldable pub wle32 : ℕ → List ℕ
wle32 v =
    bit_and v 0xff ∷ bit_and (v >>> 8) 0xff ∷ bit_and (v >>> 16) 0xff ∷ bit_and (v >>> 24) 0xff ∷ []

unfoldable pub wle16 : ℕ → List ℕ
wle16 v = bit_and v 0xff ∷ bit_and (v >>> 8) 0xff ∷ []

unfoldable pub fputc : ℕ → List ℕ
fputc b = u8 b ∷ []

-- The array of `n` bytes that `memset` clears and the bytes are then copied into.
unfoldable pub padded : ℕ → List ℕ → List ℕ
padded zero bs = []
padded (suc n) [] = 0 ∷ padded n []
padded (suc n) (b ∷ bs) = b ∷ padded n bs

-- `sec_size`
unfoldable pub section_size : Asm → ℕ
section_size st =
    if ltb st.section_base st.max_write_pos then st.max_write_pos - st.section_base else 0

-- `data_off`
unfoldable pub data_offset : ℕ → ℕ → ℕ
data_offset n_sym n_rel =
    u32 (dobj_header_size + dobj_section_size + n_sym * dobj_symbol_size + n_rel * dobj_reloc_size)

unfoldable pub write_header : Asm → List ℕ
write_header st =
    let n_sym = u32 (length st.symtab) in
    let n_rel = u32 (length st.reloc_tab) in
    dobj_magic
    ++ fputc dobj_version
    ++ fputc 0
    ++ fputc 0
    ++ fputc 0
    ++ wle32 1
    ++ wle32 n_sym
    ++ wle32 n_rel
    ++ wle32 (data_offset n_sym n_rel)

unfoldable pub write_section : Asm → List ℕ
write_section st =
    padded 8 (bytes_of ".text")
    ++ wle32 0
    ++ wle32 (section_size st)
    ++ wle32 st.section_vma_hint
    ++ wle32 (bit_or dobj_sf_exec dobj_sf_alloc)

unfoldable pub write_symbol : ℕ → Symbol → List ℕ
write_symbol base s =
    padded 28 (take 27 s.name)
    ++ wle32 (if s.is_extern then 0 else sub32 s.addr base)
    ++ wle16 (if s.is_extern then sec_undef else 0)
    ++ fputc (if s.is_global then 1 else 0)
    ++ fputc 0

unfoldable pub write_reloc : ObjReloc → List ℕ
write_reloc r =
    wle32 r.offset
    ++ wle32 r.sym_index
    ++ fputc r.kind
    ++ fputc 0
    ++ fputc 0
    ++ fputc 0
    ++ wle32 r.addend

-- `n` bytes from `p + start`.
unfoldable pub slice : (ℕ → ℕ) → ℕ → ℕ → List ℕ
slice p start zero = []
slice p start (suc n) = p start ∷ slice p (start + 1) n

unfoldable pub write_dobj : Asm → List ℕ
write_dobj st =
    write_header st
    ++ write_section st
    ++ write_records (write_symbol st.section_base) st.symtab
    ++ write_records write_reloc st.reloc_tab
    ++ slice st.outbuf st.section_base (section_size st)
