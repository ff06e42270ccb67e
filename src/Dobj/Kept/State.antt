-- ===== src/Dobj/Kept/State.antt =====
-- The functions that change the state alone.
use cputwo.Base.{
  ℕ, zero, suc, ◌+◌, ◌≡◌, refl, true, Option, some, none, List, [], ◌∷◌, ◌++◌, leb, ltb,
  if◌then◌else◌, if_intro, length, u8, u32, sub32, arith,
}
use cputwo.Base.Bytes.{length-append}
use cputwo.Base.Text.{same_name}
use cputwo.Assembler.State.{
  Asm, Symbol, ObjReloc, max_syms, max_relocs, max_output, asm_error, go_wrong, new_symbol,
  find_symbol, change_symbol, with_symbol, emit_reloc, put_byte, advance, emit_byte, emit_word,
  emit_zeros, emit_bytes,
}
use cputwo.Dobj.Fields.{NoZero}
use cputwo.Dobj.Records.{AllFit, IsReloc}
use cputwo.Dobj.Section.{Fits}

abbrev Named : Symbol → Type 0
Named s = NoZero s.name

AllFit-append {ℓ κ} :
    {A : Type ℓ} (P : A → Type κ) (xs ys : List A) → AllFit P xs → AllFit P ys → AllFit P (xs ++ ys)
AllFit-append P [] ys h k = k
AllFit-append P (x ∷ xs) ys (p, ps) k = (p, AllFit-append P xs ys ps k)

-- A change that keeps a symbol's name.
abbrev pub KeepsName : (Symbol → Symbol) → Type 0
KeepsName f = (s : Symbol) → (f s).name ≡ s.name

renamed : (f : Symbol → Symbol) → KeepsName f → (s : Symbol) → Named s → Named (f s)
renamed f keeps s h = rw (keeps s) h

change_symbol-AllFit :
    (f : Symbol → Symbol) (syms : List Symbol) (name : List ℕ)
    → KeepsName f
    → AllFit Named syms
    → AllFit Named (change_symbol f syms name)
unfolding change_symbol
change_symbol-AllFit f [] name keeps h = tt
change_symbol-AllFit f (s ∷ syms) name keeps (p, ps) =
    if_intro (AllFit Named) (same_name s.name name) (λ e. (renamed f keeps s p, ps))
      (λ e. (p, change_symbol-AllFit f syms name keeps ps))

length-change_symbol :
    (f : Symbol → Symbol) (syms : List Symbol) (name : List ℕ)
    → length (change_symbol f syms name) ≡ length syms
unfolding change_symbol
length-change_symbol f [] name = refl
length-change_symbol f (s ∷ syms) name =
    if_intro (λ (xs : List Symbol). length xs ≡ suc (length syms)) (same_name s.name name)
      (λ e. refl) (λ e. omega (arith, length-change_symbol f syms name))

pub with_symbol-Fits :
    (f : Symbol → Symbol) (name : List ℕ) (st : Asm)
    → KeepsName f
    → NoZero name
    → Fits st
    → Fits (with_symbol f name st)
unfolding with_symbol asm_error
with_symbol-Fits f name st keeps named fits = by_name (find_symbol st.symtab name)
  where
    by_name :
        (found : Option Symbol)
        → Fits (elim found [
          | some s ↦ record st { symtab = change_symbol f st.symtab name }
          | none ↦
              if leb max_syms (length st.symtab)
              then record st { error_count = st.error_count + 1 }
              else record st { symtab = st.symtab ++ f (new_symbol name) ∷ [] }
        ])
    by_name (some s) = record {
      names = change_symbol-AllFit f st.symtab name keeps fits.names;
      relocs = fits.relocs;
      reloc_count = fits.reloc_count;
      in_buffer = fits.in_buffer;
      hint_fits = fits.hint_fits;
      sym_count = omega (arith, length-change_symbol f st.symtab name, fits.sym_count);
    }
    by_name none =
        if_intro Fits (leb max_syms (length st.symtab)) (λ e. fits)
          λ e. record {
            relocs = fits.relocs;
            reloc_count = fits.reloc_count;
            in_buffer = fits.in_buffer;
            hint_fits = fits.hint_fits;
            names =
                AllFit-append Named st.symtab (f (new_symbol name) ∷ []) fits.names
                  (renamed f keeps (new_symbol name) named, tt);
            sym_count = ground (arith, length-append st.symtab (f (new_symbol name) ∷ []));
          }

pub asm_error-Fits : (st : Asm) → Fits st → Fits (asm_error st)
unfolding asm_error
asm_error-Fits st fits = fits

pub go_wrong-Fits : (st : Asm) → Fits st → Fits (go_wrong st)
unfolding go_wrong
go_wrong-Fits st fits = fits

pub advance-Fits : (n : ℕ) (st : Asm) → Fits st → Fits (advance n st)
unfolding advance
advance-Fits n st fits = fits

pub emit_reloc-Fits : (kind i addend : ℕ) (st : Asm) → Fits st → Fits (emit_reloc kind i addend st)
unfolding emit_reloc asm_error
emit_reloc-Fits kind i addend st fits =
    let r : ObjReloc = record {
      offset = sub32 st.write_pos st.section_base;
      sym_index = u32 i;
      kind = u8 kind;
      addend = u32 addend;
    } in
    if_intro Fits (leb max_relocs (length st.reloc_tab)) (λ e. fits)
      λ e. record {
        names = fits.names;
        sym_count = fits.sym_count;
        in_buffer = fits.in_buffer;
        hint_fits = fits.hint_fits;
        relocs =
            AllFit-append IsReloc st.reloc_tab (r ∷ []) fits.relocs
              ((omega arith, omega arith, omega arith, omega arith), tt);
        reloc_count = ground (arith, length-append st.reloc_tab (r ∷ []));
      }

put_byte-Fits :
    (b : ℕ) (st : Asm) → ltb st.write_pos max_output ≡ true → Fits st → Fits (put_byte b st)
unfolding put_byte
put_byte-Fits b st room fits = record {
  names = fits.names;
  relocs = fits.relocs;
  sym_count = fits.sym_count;
  reloc_count = fits.reloc_count;
  hint_fits = fits.hint_fits;
  in_buffer = ground (arith, fits.in_buffer);
}

pub emit_byte-Fits : (b : ℕ) (st : Asm) → Fits st → Fits (emit_byte b st)
unfolding emit_byte
emit_byte-Fits b st fits = advance-Fits 1 _ (
    if_intro Fits (ltb st.write_pos max_output) (λ room. put_byte-Fits (u8 b) st room fits)
      (λ no_room. asm_error-Fits st fits))

pub emit_word-Fits : (w : ℕ) (st : Asm) → Fits st → Fits (emit_word w st)
unfolding emit_word
emit_word-Fits w st fits =
    emit_byte-Fits _ _ (emit_byte-Fits _ _ (emit_byte-Fits _ _ (emit_byte-Fits _ st fits)))

pub emit_zeros-Fits : (n : ℕ) (st : Asm) → Fits st → Fits (emit_zeros n st)
unfolding emit_zeros
emit_zeros-Fits zero st fits = fits
emit_zeros-Fits (suc n) st fits = emit_zeros-Fits n (emit_byte 0 st) (emit_byte-Fits 0 st fits)

pub emit_bytes-Fits : (bs : List ℕ) (st : Asm) → Fits st → Fits (emit_bytes bs st)
unfolding emit_bytes
emit_bytes-Fits [] st fits = fits
emit_bytes-Fits (b ∷ bs) st fits = emit_bytes-Fits bs (emit_byte b st) (emit_byte-Fits b st fits)
