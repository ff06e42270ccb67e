-- ===== src/Assembler/Address/Size.antt =====
-- The size of an instruction: what pass 1 takes it to be, and what pass 2 emits for it.
use cputwo.Base.{ℕ, ◌≡◌, true, some, List, [], ◌∷◌, ap, ◌∙◌, refl, arith, Bool-cases, inl, inr}
use cputwo.Base.Text.{bytes_of, to_upper, same_nocase}
use cputwo.Assembler.Opcodes.{OpcodeEntry, opcode_table, find_row, find_opcode, instr_size}
use cputwo.Assembler.Directive.{fmt_size}

-- Names that differ in the case of their letters only.
same_nocase_trans : (a b c : List ℕ) → same_nocase a b ≡ true → same_nocase a c ≡ same_nocase b c
unfolding same_nocase
same_nocase_trans [] [] c e = refl
same_nocase_trans [] (y ∷ b) c e = cc
same_nocase_trans (x ∷ a) [] c e = cc
same_nocase_trans (x ∷ a) (y ∷ b) [] e = refl
same_nocase_trans (x ∷ a) (y ∷ b) (z ∷ c) e =
    let heads : to_upper x ≡ to_upper y = ground arith in
    let tails : same_nocase a b ≡ true = ground arith in
    rw (heads, same_nocase_trans a b c tails) refl

instr_size-same : (a b : List ℕ) → same_nocase a b ≡ true → instr_size b ≡ instr_size a
unfolding instr_size
instr_size-same a b e =
    rw
      (
        same_nocase_trans a b (bytes_of "movi32") e,
        same_nocase_trans a b (bytes_of "push") e,
        same_nocase_trans a b (bytes_of "pop") e,
      )
      refl

-- Every row has the size that its name has.
abbrev AllSized : List OpcodeEntry → Type 0
AllSized [] = Unit {0}
AllSized (e ∷ rows) = (instr_size e.mnemonic ≡ fmt_size e.fmt) × AllSized rows

find_row-size :
    (rows : List OpcodeEntry) (mnem : List ℕ) (e : OpcodeEntry)
    → AllSized rows
    → find_row rows mnem ≡ some e
    → instr_size mnem ≡ fmt_size e.fmt
unfolding find_row
find_row-size [] mnem e all h = cc
find_row-size (row ∷ rows) mnem e all h = elim (Bool-cases (same_nocase row.mnemonic mnem)) [
  | inl found ↦
      instr_size-same row.mnemonic mnem found
      ∙ all.0
      ∙ ap (λ (x : OpcodeEntry). fmt_size x.fmt) {x = row} {y = e} (ground arith)
  | inr other ↦ find_row-size rows mnem e all.1 (ground arith)
]

table-AllSized : AllSized opcode_table
unfolding instr_size same_nocase to_upper fmt_size
table-AllSized = search (refl, tt)

pub instr_size-find_opcode :
    (mnem : List ℕ) (e : OpcodeEntry) → find_opcode mnem ≡ some e → instr_size mnem ≡ fmt_size e.fmt
unfolding find_opcode
instr_size-find_opcode mnem e h = find_row-size opcode_table mnem e table-AllSized h
