-- ===== src/Dobj/RoundTrip.antt =====
-- `load_dobj` of linker.c on the file that `write_dobj` of assembler.c has written.
use mathlib.Core.List.{map, append_assoc}
use cputwo.Base.{
  ℕ, ◌+◌, ◌*◌, ◌^◌, ◌≤◌, ◌<◌, ◌≡◌, refl, some, List, [], ◌∷◌, ◌++◌, u32, sub32, length, arith,
}
use cputwo.Base.Bytes.{read_on, split_at, drop, length-append, drop-append, write_records}
use cputwo.Base.Text.{same_name}
use cputwo.Assembler.State.{Symbol, Asm, max_syms, max_relocs}
use cputwo.Assembler.Dobj.{
  wle32, fputc, padded, section_size, data_offset, write_header, write_section, write_symbol,
  write_reloc, slice, write_dobj,
}
use cputwo.Dobj.{dobj_magic, dobj_header_size, dobj_section_size, dobj_symbol_size, dobj_reloc_size}
use cputwo.Dobj.Fields.{NoZero, rd32-wle32}
use cputwo.Dobj.Records.{
  read_records-write_records, length-write_records, symbol_image, reloc_image, IsReloc,
  read_reloc-write_reloc, read_symbol-write_symbol, length-write_symbol, length-write_reloc,
}
use cputwo.Dobj.Section.{
  Fits, section_image, header_image, section_size-lt, read_one, not_full, length-slice, section_of,
  fill_section-slice,
}
use cputwo.Linker.Object.{LSec, LRel, LSym, ObjFile}
use cputwo.Linker.Load.{
  read_symbol, read_reloc, fill_section, fill_sections, loaded, load_data, load_object, load_dobj,
  max_objs,
}

-- The object that the linker has for the state of the assembler.
abbrev pub object_image : Asm → ObjFile
object_image st = record {
  secs = section_image st ∷ [];
  syms = map (symbol_image st.section_base) st.symtab;
  rels = map reloc_image st.reloc_tab;
}

-- The tables, in front of the data.
tables : Asm → List ℕ
tables st =
    write_header st
    ++ write_section st
    ++ write_records (write_symbol st.section_base) st.symtab
    ++ write_records write_reloc st.reloc_tab

length-tables :
    (st : Asm)
    → length (tables st)
      ≡ dobj_header_size
        + dobj_section_size
        + length st.symtab * dobj_symbol_size
        + length st.reloc_tab * dobj_reloc_size
unfolding tables write_header write_section wle32 fputc padded
length-tables st = omega (
  arith,
  length-append
      (write_header st
        ++ write_section st
        ++ write_records (write_symbol st.section_base) st.symtab)
      (write_records write_reloc st.reloc_tab),
  length-append (write_header st ++ write_section st)
      (write_records (write_symbol st.section_base) st.symtab),
  length-write_records (write_symbol st.section_base) dobj_symbol_size
      (length-write_symbol st.section_base) st.symtab,
  length-write_records write_reloc dobj_reloc_size length-write_reloc st.reloc_tab,
)

data_bytes : Asm → List ℕ
data_bytes st = slice st.outbuf st.section_base (section_size st)

data_behind : (st : Asm) → drop (length (tables st)) (write_dobj st) ≡ data_bytes st
unfolding write_dobj tables data_bytes
data_behind st = drop-append (tables st) (slice st.outbuf st.section_base (section_size st))

blob_size_lem :
    (st : Asm) → Fits st → sub32 (length (write_dobj st)) (length (tables st)) ≡ section_size st
unfolding write_dobj tables
blob_size_lem st fits = omega (
  arith,
  length-append (tables st) (slice st.outbuf st.section_base (section_size st)),
  length-slice st.outbuf st.section_base (section_size st),
  length-tables st,
  section_size-lt st fits,
  fits.sym_count,
  fits.reloc_count,
)

-- The data part of a file with one section.
one_section :
    (file : List ℕ) (data_off : ℕ) (header sec : LSec) (syms : List LSym) (rels : List LRel)
    → fill_section (drop data_off file) (sub32 (length file) data_off) header ≡ some sec
    → load_data file data_off (header ∷ []) syms rels
      ≡ loaded (record { secs = sec ∷ []; syms = syms; rels = rels })
unfolding load_data fill_sections
one_section file data_off header sec syms rels filled = rw (load_data, fill_sections, filled) refl

load_data_lem :
    (st : Asm) (syms : List LSym) (rels : List LRel)
    → Fits st
    → load_data (write_dobj st) (length (tables st)) (header_image st ∷ []) syms rels
      ≡ loaded (record { secs = section_image st ∷ []; syms = syms; rels = rels })
unfolding data_bytes section_of
load_data_lem st syms rels fits =
    one_section (write_dobj st) (length (tables st)) (header_image st) (section_image st) syms rels
      (rw (data_behind st, blob_size_lem st fits)
        (fill_section-slice st.outbuf st.section_base (section_size st) st.section_vma_hint
          (omega (arith, section_size-lt st fits))))

-- What follows the version.
body : Asm → List ℕ
body st =
    wle32 1
    ++ (wle32 (u32 (length st.symtab))
        ++ (wle32 (u32 (length st.reloc_tab))
            ++ (wle32 (data_offset (u32 (length st.symtab)) (u32 (length st.reloc_tab)))
                ++ (write_section st
                    ++ (write_records (write_symbol st.section_base) st.symtab
                        ++ (write_records write_reloc st.reloc_tab ++ data_bytes st))))))

magic_and_body :
    (st : Asm)
    → write_dobj st ≡ dobj_magic ++ ((fputc 1 ++ fputc 0 ++ fputc 0 ++ fputc 0) ++ body st)
unfolding write_dobj write_header body data_bytes
magic_and_body st = simp append_assoc

split_magic :
    (st : Asm)
    → split_at 4 (write_dobj st)
      ≡ (dobj_magic, (fputc 1 ++ fputc 0 ++ fputc 0 ++ fputc 0) ++ body st)
split_magic st = rw (magic_and_body st) refl

split_version :
    (st : Asm)
    → split_at 4 ((fputc 1 ++ fputc 0 ++ fputc 0 ++ fputc 0) ++ body st)
      ≡ (fputc 1 ++ fputc 0 ++ fputc 0 ++ fputc 0, body st)
unfolding fputc
split_version st = refl

data_offset_lem :
    (st : Asm)
    → Fits st
    → data_offset (u32 (length st.symtab)) (u32 (length st.reloc_tab)) ≡ length (tables st)
unfolding data_offset
data_offset_lem st fits = omega (arith, length-tables st, fits.sym_count, fits.reloc_count)

count_fits : (n limit : ℕ) → n ≤ limit → limit < 2 ^ 32 → u32 n ≡ n
count_fits n limit h k = omega arith

load_object_lem :
    (st : Asm) (file : List ℕ)
    → Fits st
    → load_object file (body st) ≡ (
      load_data file
          (length (tables st))
          (header_image st ∷ [])
          (map (symbol_image st.section_base) st.symtab)
          (map reloc_image st.reloc_tab),
      data_bytes st,
    )
unfolding load_object body
load_object_lem st file fits =
    let after_rels = data_bytes st in
    let after_syms = write_records write_reloc st.reloc_tab ++ after_rels in
    let after_secs = write_records (write_symbol st.section_base) st.symtab ++ after_syms in
    let after_off = write_section st ++ after_secs in
    let after_nrel = wle32 (length (tables st)) ++ after_off in
    let after_nsym = wle32 (length st.reloc_tab) ++ after_nrel in
    let after_nsec = wle32 (length st.symtab) ++ after_nsym in
    rw
      (
        data_offset_lem st fits,
        count_fits (length st.symtab) max_syms fits.sym_count (omega arith),
        count_fits (length st.reloc_tab) max_relocs fits.reloc_count (omega arith),
      )
      (read_on _ _ (rd32-wle32 1 after_nsec (omega arith)) (
        read_on _ _ (rd32-wle32 (length st.symtab) after_nsym (omega (arith, fits.sym_count))) (
          read_on _ _
            (rd32-wle32 (length st.reloc_tab) after_nrel (omega (arith, fits.reloc_count)))
            (read_on _ _
              (rd32-wle32 (length (tables st)) after_off
                (omega (arith, length-tables st, fits.sym_count, fits.reloc_count)))
              (read_on _ _ (read_one st after_secs fits) (
                read_on _ _
                  (read_records-write_records (λ (s : Symbol). NoZero s.name)
                    (write_symbol st.section_base) read_symbol (symbol_image st.section_base)
                    (read_symbol-write_symbol st.section_base) st.symtab after_syms fits.names)
                  (read_on _ _
                    (read_records-write_records IsReloc write_reloc read_reloc reloc_image
                      read_reloc-write_reloc st.reloc_tab after_rels fits.relocs)
                    refl)))))))

-- The object that the linker loads from what the assembler has written.
pub load_dobj-write_dobj :
    (obj_count : ℕ) (st : Asm)
    → obj_count < max_objs
    → Fits st
    → load_dobj obj_count (write_dobj st) ≡ loaded (object_image st)
unfolding load_dobj same_name
load_dobj-write_dobj obj_count st room fits =
    rw
      (
        split_magic st,
        split_version st,
        not_full obj_count room,
        load_object_lem st (write_dobj st) fits,
      )
      (load_data_lem st _ _ fits)
