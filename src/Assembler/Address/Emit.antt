-- ===== src/Assembler/Address/Emit.antt =====
-- The functions that emit, and those that change the tables.
use cputwo.Base.{
  ℕ, zero, suc, ◌+◌, ◌^◌, ◌<◌, ◌≡◌, Option, none, some, List, [], ◌∷◌, ◌++◌, leb, ltb,
  if◌then◌else◌, if_intro, add32, length, refl, arith, ap, ◌∙◌,
}
use cputwo.Assembler.State.{
  Asm, Symbol, max_syms, max_relocs, max_output, asm_error, new_symbol, find_symbol, change_symbol,
  with_symbol, emit_reloc, put_byte, advance, emit_byte, emit_word, emit_zeros, emit_bytes,
}
use cputwo.Assembler.Address.Arrives.{
  Arrives, Later-trans, Clean-parts, Arrives-trans, Arrives-at, Arrives-refl, asm_error-Arrives,
}

-- A change that keeps the address, the position and the errors.
same-Arrives :
    (st st' : Asm)
    → st'.org_addr ≡ st.org_addr
    → st'.write_pos ≡ st.write_pos
    → st'.error_count ≡ st.error_count
    → st'.went_wrong ≡ st.went_wrong
    → Arrives st.org_addr st st'
same-Arrives st st' o w e g = record {
  later = record { errors = omega arith; wrong = λ h. g ∙ h };
  org = λ k. o;
  pos = λ k h. cc;
  in_word = λ h. ground arith;
}

pub emit_byte-Arrives : (b : ℕ) (st : Asm) → Arrives (add32 st.org_addr 1) st (emit_byte b st)
unfolding emit_byte advance put_byte asm_error
emit_byte-Arrives b st =
    if_intro
      (λ (s : Asm). Arrives (add32 st.org_addr 1) st (record s { org_addr = add32 s.org_addr 1 }))
      (ltb st.write_pos max_output)
      (λ room. record {
        later = record { errors = omega arith; wrong = λ e. e };
        org = λ k. refl;
        pos = λ k e. ground arith;
        in_word = λ h. omega arith;
      })
      (λ no_room. record {
        later = record { errors = omega arith; wrong = λ e. e };
        org = λ k. refl;
        pos = λ k e. absurd (let z = k.errors in omega arith);
        in_word = λ h. omega arith;
      })

-- The address is a 32-bit word after any byte.
pub emit_byte_word : (b : ℕ) (st : Asm) → (emit_byte b st).org_addr < 2 ^ 32
unfolding emit_byte advance
emit_byte_word b st = omega arith

-- Two moves in a row.
pub move :
    (m n : ℕ) {a b c : Asm}
    → Arrives (add32 a.org_addr m) a b
    → Arrives (add32 b.org_addr n) b c
    → Arrives (add32 a.org_addr (m + n)) a c
move m n p q = record {
  later = Later-trans p.later q.later;
  org = λ k.
      let parts = Clean-parts p.later q.later k in
      q.org parts.1 ∙ ap (λ o. add32 o n) (p.org parts.0) ∙ (omega arith);
  pos = λ k e. let parts = Clean-parts p.later q.later k in q.pos parts.1 (p.pos parts.0 e);
  in_word = λ h. q.in_word (p.in_word h);
}

pub emit_word-Arrives : (w : ℕ) (st : Asm) → Arrives (add32 st.org_addr 4) st (emit_word w st)
unfolding emit_word
emit_word-Arrives w st =
    move 1 3 (emit_byte-Arrives _ _)
      (move 1 2 (emit_byte-Arrives _ _) (move 1 1 (emit_byte-Arrives _ _) (emit_byte-Arrives _ _)))

pub emit_bytes-Arrives :
    (bs : List ℕ) (st : Asm)
    → st.org_addr < 2 ^ 32
    → Arrives (add32 st.org_addr (length bs)) st (emit_bytes bs st)
unfolding emit_bytes
emit_bytes-Arrives [] st h = Arrives-at (omega arith) (Arrives-refl st)
emit_bytes-Arrives (b ∷ bs) st h = Arrives-at (omega arith) (
    move 1 (length bs) (emit_byte-Arrives b st)
      (emit_bytes-Arrives bs (emit_byte b st) (emit_byte_word b st)))

pub emit_zeros-Arrives :
    (n : ℕ) (st : Asm) → st.org_addr < 2 ^ 32 → Arrives (add32 st.org_addr n) st (emit_zeros n st)
unfolding emit_zeros
emit_zeros-Arrives zero st h = Arrives-at (omega arith) (Arrives-refl st)
emit_zeros-Arrives (suc n) st h = Arrives-at (omega arith) (
    move 1 n (emit_byte-Arrives 0 st) (emit_zeros-Arrives n (emit_byte 0 st) (emit_byte_word 0 st)))

pub emit_reloc-Arrives :
    (kind i addend : ℕ) (st : Asm) → Arrives st.org_addr st (emit_reloc kind i addend st)
unfolding emit_reloc
emit_reloc-Arrives kind i addend st =
    if_intro (Arrives st.org_addr st) (leb max_relocs (length st.reloc_tab))
      (λ e. asm_error-Arrives st.org_addr st) (λ e. same-Arrives st _ refl refl refl refl)

pub with_symbol-Arrives :
    (f : Symbol → Symbol) (name : List ℕ) (st : Asm)
    → Arrives st.org_addr st (with_symbol f name st)
unfolding with_symbol
with_symbol-Arrives f name st = by_name (find_symbol st.symtab name)
  where
    by_name :
        (found : Option Symbol)
        → Arrives st.org_addr st (elim found [
          | some s ↦ record st { symtab = change_symbol f st.symtab name }
          | none ↦
              if leb max_syms (length st.symtab)
              then asm_error st
              else record st { symtab = st.symtab ++ f (new_symbol name) ∷ [] }
        ])
    by_name (some s) = same-Arrives st _ refl refl refl refl
    by_name none =
        if_intro (Arrives st.org_addr st) (leb max_syms (length st.symtab))
          (λ e. asm_error-Arrives st.org_addr st) (λ e. same-Arrives st _ refl refl refl refl)

-- The address itself, also after an error.
abbrev pub SameOrg : Asm → Asm → Type 0
SameOrg st st' = st'.org_addr ≡ st.org_addr

pub with_symbol-SameOrg :
    (f : Symbol → Symbol) (name : List ℕ) (st : Asm) → SameOrg st (with_symbol f name st)
unfolding with_symbol asm_error
with_symbol-SameOrg f name st = by_name (find_symbol st.symtab name)
  where
    by_name :
        (found : Option Symbol)
        → SameOrg st (elim found [
          | some s ↦ record st { symtab = change_symbol f st.symtab name }
          | none ↦
              if leb max_syms (length st.symtab)
              then asm_error st
              else record st { symtab = st.symtab ++ f (new_symbol name) ∷ [] }
        ])
    by_name (some s) = refl
    by_name none = if_intro (SameOrg st) (leb max_syms (length st.symtab)) (λ e. refl) (λ e. refl)

pub emit_reloc-SameOrg : (kind i addend : ℕ) (st : Asm) → SameOrg st (emit_reloc kind i addend st)
unfolding emit_reloc asm_error
emit_reloc-SameOrg kind i addend st =
    if_intro (SameOrg st) (leb max_relocs (length st.reloc_tab)) (λ e. refl) (λ e. refl)

-- A change of the tables, and then a move.
pub then_move :
    (n : ℕ) {a b c : Asm}
    → SameOrg a b
    → Arrives a.org_addr a b
    → Arrives (add32 b.org_addr n) b c
    → Arrives (add32 a.org_addr n) a c
then_move n same p q = Arrives-trans p (Arrives-at (ap (λ o. add32 o n) same) q)
