-- ===== src/Dobj/Records.antt =====
-- The records of an object file: what `load_dobj` reads of each that `write_dobj` has written, and
-- of the tables of them.
use mathlib.Core.List.{map, append_assoc}
use cputwo.Base.{
  ℕ, zero, suc, ◌*◌, ◌^◌, ◌<◌, ◌≡◌, refl, Bool, true, false, not, List, [], ◌∷◌, ◌++◌, ◌==◌,
  if◌then◌else◌, sub32, length, arith,
}
use cputwo.Base.Bytes.{Read, read_on, length-append, read_records, write_records}
use cputwo.Base.Text.{take}
use cputwo.Assembler.State.{Symbol, ObjReloc}
use cputwo.Assembler.Dobj.{wle32, wle16, fputc, padded, write_symbol, write_reloc}
use cputwo.Dobj.{dobj_symbol_size, dobj_reloc_size}
use cputwo.Linker.Object.{LRel, LSym}
use cputwo.Linker.Symbols.{sec_undef}
use cputwo.Linker.Load.{read_symbol, read_reloc}
use cputwo.Dobj.Fields.{
  NoZero, read_byte-fputc, rd32-wle32, rd16-wle16, split_at-padded, c_string-padded,
}

module _ {ℓ κ} {A : Type ℓ} (Fits : A → Type κ) where
  -- Every element of a table fits.
  abbrev pub AllFit : List A → Type κ
  AllFit [] = Unit {κ}
  AllFit (a ∷ others) = Fits a × AllFit others

-- A table whose records are read back one by one is read back.
module _ {ℓ κ} {A B : Type ℓ} (Fits : A → Type κ) (write : A → List ℕ) (read : Read B)
    (image : A → B)
    (one : (a : A) (rest : List ℕ) → Fits a → read (write a ++ rest) ≡ (image a, rest)) where
  pub read_records-write_records :
      (table : List A) (rest : List ℕ)
      → AllFit Fits table
      → read_records read (length table) (write_records write table ++ rest)
        ≡ (map image table, rest)
  unfolding read_records write_records
  read_records-write_records [] rest h = refl
  read_records-write_records (a ∷ others) rest (fit, fits) =
      rw (append_assoc (write a) (write_records write others) rest) (
        read_on _ _ (one a (write_records write others ++ rest) fit)
          (read_on _ _ (read_records-write_records others rest fits) refl))

-- The size of a table of records of one size.
pub length-write_records {ℓ} :
    {A : Type ℓ} (write : A → List ℕ) (size : ℕ)
    → ((a : A) → length (write a) ≡ size)
    → (table : List A) → length (write_records write table) ≡ length table * size
unfolding write_records
length-write_records write size one [] = omega arith
length-write_records write size one (a ∷ others) = omega (
  arith,
  length-append (write a) (write_records write others),
  one a,
  length-write_records write size one others,
)

-- The entries of the linker for those of the assembler.
abbrev pub symbol_image : ℕ → Symbol → LSym
symbol_image base s = record {
  name = take 27 s.name;
  value = if s.is_extern then 0 else sub32 s.addr base;
  sec_idx = if s.is_extern then sec_undef else 0;
  is_global = s.is_global;
}

abbrev pub reloc_image : ObjReloc → LRel
reloc_image r = record {
  offset = r.offset;
  sym_idx = r.sym_index;
  kind = r.kind;
  sec_idx = 0;
  addend = r.addend;
}

abbrev pub IsReloc : ObjReloc → Type 0
IsReloc r = (r.offset < 2 ^ 32) × (r.sym_index < 2 ^ 32) × (r.kind < 256) × (r.addend < 2 ^ 32)

reloc_fields :
    (r : ObjReloc) (rest : List ℕ)
    → write_reloc r ++ rest
      ≡ wle32 r.offset
        ++ (wle32 r.sym_index
            ++ (fputc r.kind ++ (fputc 0 ++ (fputc 0 ++ (fputc 0 ++ (wle32 r.addend ++ rest))))))
unfolding write_reloc
reloc_fields r rest = simp append_assoc

pub read_reloc-write_reloc :
    (r : ObjReloc) (rest : List ℕ)
    → IsReloc r
    → read_reloc (write_reloc r ++ rest) ≡ (reloc_image r, rest)
unfolding read_reloc
read_reloc-write_reloc r rest (offset_fits, index_fits, kind_fits, addend_fits) =
    let after_pad = wle32 r.addend ++ rest in
    let after_kind = fputc 0 ++ (fputc 0 ++ (fputc 0 ++ after_pad)) in
    let after_index = fputc r.kind ++ after_kind in
    let after_offset = wle32 r.sym_index ++ after_index in
    rw (reloc_fields r rest) (
      read_on _ _ (rd32-wle32 r.offset after_offset offset_fits) (
        read_on _ _ (rd32-wle32 r.sym_index after_index index_fits) (
          read_on _ _ (read_byte-fputc r.kind after_kind kind_fits) (
            read_on _ _ (read_byte-fputc 0 (fputc 0 ++ (fputc 0 ++ after_pad)) (omega arith)) (
              read_on _ _ (read_byte-fputc 0 (fputc 0 ++ after_pad) (omega arith)) (
                read_on _ _ (read_byte-fputc 0 after_pad (omega arith))
                  (read_on _ _ (rd32-wle32 r.addend rest addend_fits) refl)))))))

flag_lem : (b : Bool) → not ((if b then 1 else 0) == 0) ≡ b
flag_lem true = refl
flag_lem false = refl

symbol_fields :
    (base : ℕ) (s : Symbol) (rest : List ℕ)
    → write_symbol base s ++ rest
      ≡ padded 28 (take 27 s.name)
        ++ (wle32 (if s.is_extern then 0 else sub32 s.addr base)
            ++ (wle16 (if s.is_extern then sec_undef else 0)
                ++ (fputc (if s.is_global then 1 else 0) ++ (fputc 0 ++ rest))))
unfolding write_symbol
symbol_fields base s rest = simp append_assoc

pub read_symbol-write_symbol :
    (base : ℕ) (s : Symbol) (rest : List ℕ)
    → NoZero s.name
    → read_symbol (write_symbol base s ++ rest) ≡ (symbol_image base s, rest)
unfolding read_symbol
read_symbol-write_symbol base s rest named =
    let value = if s.is_extern then 0 else sub32 s.addr base in
    let sec_idx = if s.is_extern then sec_undef else 0 in
    let is_global : ℕ = if s.is_global then 1 else 0 in
    let after_index = fputc is_global ++ (fputc 0 ++ rest) in
    let after_value = wle16 sec_idx ++ after_index in
    rw (symbol_fields base s rest) (
      read_on _ _ (split_at-padded 28 (take 27 s.name) (wle32 value ++ after_value)) (
        read_on _ _ (rd32-wle32 value after_value (ground arith)) (
          read_on _ _ (rd16-wle16 sec_idx after_index (ground arith)) (
            read_on _ _ (read_byte-fputc is_global (fputc 0 ++ rest) (ground arith)) (
              read_on _ _ (read_byte-fputc 0 rest (omega arith)) (
                rw (c_string-padded 28 27 s.name (omega arith) named, flag_lem s.is_global)
                  refl))))))

-- Their sizes.
pub length-padded : (n : ℕ) (bs : List ℕ) → length (padded n bs) ≡ n
unfolding padded
length-padded zero bs = refl
length-padded (suc n) [] = omega (arith, length-padded n [])
length-padded (suc n) (b ∷ bs) = omega (arith, length-padded n bs)

pub length-write_symbol : (base : ℕ) (s : Symbol) → length (write_symbol base s) ≡ dobj_symbol_size
unfolding write_symbol wle32 wle16 fputc
length-write_symbol base s = simp (length-append, length-padded 28 (take 27 s.name))

pub length-write_reloc : (r : ObjReloc) → length (write_reloc r) ≡ dobj_reloc_size
unfolding write_reloc wle32 fputc
length-write_reloc r = refl
