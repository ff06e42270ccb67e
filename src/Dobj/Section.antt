-- ===== src/Dobj/Section.antt =====
-- The one section of an object file: its header and its bytes, written and read back.
use mathlib.Core.List.{append_assoc}
use cputwo.Base.{
  ℕ, zero, suc, ◌+◌, ◌^◌, ◌≤◌, ◌<◌, ◌≡◌, refl, ap, ◌∙◌, fun_ext, true, false, some, List, [], ◌∷◌,
  ◌++◌, ltb, leb, if◌then◌else◌, add32, length, arith,
}
use cputwo.Base.Bytes.{read_on, read_records}
use cputwo.Base.Text.{bytes_of, entry}
use cputwo.Assembler.State.{Symbol, ObjReloc, Asm, max_syms, max_output, max_relocs}
use cputwo.Assembler.Dobj.{wle32, padded, section_size, write_section, slice}
use cputwo.Dobj.Fields.{NoZero, rd32-wle32, split_at-padded}
use cputwo.Dobj.Records.{AllFit, IsReloc}
use cputwo.Linker.Object.{LSec}
use cputwo.Linker.Load.{read_section, byte_at, fill_section, max_objs}

-- What fits into the file: no table is over its limit, and every field holds its value.
pub record FitsIn (symtab : List Symbol) (reloc_tab : List ObjReloc) (top hint : ℕ) : Type 0 where
  pub names : AllFit (λ (s : Symbol). NoZero s.name) symtab
  pub relocs : AllFit IsReloc reloc_tab
  pub sym_count : length symtab ≤ max_syms
  pub reloc_count : length reloc_tab ≤ max_relocs
  pub in_buffer : top ≤ max_output
  pub hint_fits : hint < 2 ^ 32

abbrev pub Fits : Asm → Type 0
Fits st = FitsIn st.symtab st.reloc_tab st.max_write_pos st.section_vma_hint

-- The section that the linker has for the state of the assembler.
abbrev pub section_image : Asm → LSec
section_image st = record {
  vma_hint = st.section_vma_hint;
  size = section_size st;
  base = 0;
  bytes = λ (i : ℕ). if ltb i (section_size st) then st.outbuf (st.section_base + i) else 0;
}

-- A section before its bytes are there.
abbrev pub header_image : Asm → LSec
header_image st = record (section_image st) { bytes = λ (i : ℕ). 0 }

section_fields :
    (st : Asm) (rest : List ℕ)
    → write_section st ++ rest
      ≡ padded 8 (bytes_of ".text")
        ++ (wle32 0
            ++ (wle32 (section_size st) ++ (wle32 st.section_vma_hint ++ (wle32 5 ++ rest))))
unfolding write_section
section_fields st rest = simp append_assoc

pub section_size-lt : (st : Asm) → Fits st → section_size st ≤ max_output
unfolding section_size
section_size-lt st fits = ground (arith, fits.in_buffer)

read_section-write_section :
    (st : Asm) (rest : List ℕ)
    → Fits st
    → read_section (write_section st ++ rest) ≡ (header_image st, rest)
unfolding read_section
read_section-write_section st rest fits =
    let after_hint = wle32 5 ++ rest in
    let after_size = wle32 st.section_vma_hint ++ after_hint in
    let after_offset = wle32 (section_size st) ++ after_size in
    rw (section_fields st rest) (
      read_on _ _ (split_at-padded 8 (bytes_of ".text") (wle32 0 ++ after_offset)) (
        read_on _ _ (rd32-wle32 0 after_offset (omega arith)) (
          read_on _ _
            (rd32-wle32 (section_size st) after_size (omega (arith, section_size-lt st fits)))
            (read_on _ _ (rd32-wle32 st.section_vma_hint after_hint fits.hint_fits)
              (read_on _ _ (rd32-wle32 5 rest (omega arith)) refl)))))

-- The one section header.
pub read_one :
    (st : Asm) (rest : List ℕ)
    → Fits st
    → read_records read_section 1 (write_section st ++ rest) ≡ (header_image st ∷ [], rest)
unfolding read_records
read_one st rest fits =
    read_on _ _ (read_section-write_section st rest fits) (read_on _ _ refl refl)

pub not_full : (n : ℕ) → n < max_objs → leb max_objs n ≡ false
not_full n h = ground arith

-- The bytes of the section.
byte_at-slice :
    (p : ℕ → ℕ) (start n i : ℕ)
    → byte_at (slice p start n) i ≡ (if ltb i n then p (start + i) else 0)
unfolding byte_at slice entry
byte_at-slice p start zero i = ground arith
byte_at-slice p start (suc n) zero = ground arith
byte_at-slice p start (suc n) (suc i) = byte_at-slice p (start + 1) n i ∙ ground arith

pub length-slice : (p : ℕ → ℕ) (start n : ℕ) → length (slice p start n) ≡ n
unfolding slice
length-slice p start zero = refl
length-slice p start (suc n) = omega (arith, length-slice p (start + 1) n)

unfoldable pub section_of : (ℕ → ℕ) → ℕ → ℕ → LSec
section_of bytes n hint = record { vma_hint = hint; size = n; base = 0; bytes = bytes }

not_over : (n : ℕ) → ltb n n ≡ false
not_over n = ground arith

zero_plus : (n : ℕ) → 0 + n ≡ n
zero_plus n = omega arith

positive : (n : ℕ) → ltb 0 (suc n) ≡ true
positive n = ground arith

no_wrap : (n : ℕ) → n < 2 ^ 32 → add32 0 n ≡ n
no_wrap n h = omega arith

pub fill_section-slice :
    (p : ℕ → ℕ) (start n hint : ℕ)
    → n < 2 ^ 32
    → fill_section (slice p start n) n (section_of (λ (i : ℕ). 0) n hint)
      ≡ some (section_of (λ (i : ℕ). if ltb i n then p (start + i) else 0) n hint)
unfolding fill_section section_of
fill_section-slice p start zero hint h =
    ap (λ (bytes : ℕ → ℕ). some (section_of bytes 0 hint)) (fun_ext (λ (i : ℕ). ground arith))
fill_section-slice p start (suc n) hint h =
    rw (positive n, no_wrap (suc n) h, not_over (suc n), zero_plus (suc n), not_over (suc n))
      (ap (λ (bytes : ℕ → ℕ). some (section_of bytes (suc n) hint))
        (fun_ext (λ (i : ℕ). rw (zero_plus i, byte_at-slice p start (suc n) i) (ground arith))))
