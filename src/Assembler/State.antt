-- ===== src/Assembler/State.antt =====
-- The static variables of assembler.c, and the functions that change them alone.
use cputwo.Base.{
  ℕ, zero, suc, ◌+◌, Bool, true, false, Option, none, some, List, [], ◌∷◌, ◌++◌, ltb, leb,
  if◌then◌else◌, bit_and, ◌>>>◌, u8, u32, add32, sub32, update, length,
}
use cputwo.Base.Text.{same_name}

abbrev pub max_syms : ℕ
max_syms = 4096

abbrev pub max_output : ℕ
max_output = 0x800000

abbrev pub max_relocs : ℕ
max_relocs = 65536

-- `Symbol`
pub record Symbol : Type 0 where
  pub name : List ℕ
  pub addr : ℕ
  pub is_global : Bool
  pub defined : Bool
  pub is_extern : Bool
  pub is_label : Bool

-- `ObjReloc`, with the addend as its `uint32_t` pattern.
pub record ObjReloc : Type 0 where
  pub offset : ℕ
  pub sym_index : ℕ
  pub kind : ℕ
  pub addend : ℕ

-- `went_wrong`: the run has done something that C leaves undefined, and the rest of the state means
-- nothing any more.
pub record Asm : Type 0 where
  pub symtab : List Symbol
  pub outbuf : ℕ → ℕ
  pub org_addr : ℕ
  pub write_pos : ℕ
  pub max_write_pos : ℕ
  pub object_mode : Bool
  pub section_base : ℕ
  pub section_vma_hint : ℕ
  pub reloc_tab : List ObjReloc
  pub error_count : ℕ
  pub went_wrong : Bool

-- `asm_error`, without its message.
unfoldable pub asm_error : Asm → Asm
asm_error st = record st { error_count = st.error_count + 1 }

unfoldable pub go_wrong : Asm → Asm
go_wrong st = record st { went_wrong = true }

unfoldable pub find_symbol : List Symbol → List ℕ → Option Symbol
find_symbol [] name = none
find_symbol (s ∷ syms) name = if same_name s.name name then some s else find_symbol syms name

-- `find_sym_index`, counting from `i`.
unfoldable pub find_sym_index : ℕ → List Symbol → List ℕ → Option ℕ
find_sym_index i [] name = none
find_sym_index i (s ∷ syms) name =
    if same_name s.name name then some i else find_sym_index (i + 1) syms name

-- A change through the pointer that `find_symbol` gives.
unfoldable pub change_symbol : (Symbol → Symbol) → List Symbol → List ℕ → List Symbol
change_symbol f [] name = []
change_symbol f (s ∷ syms) name =
    if same_name s.name name then f s ∷ syms else s ∷ change_symbol f syms name

-- The entry that `add_symbol` makes.
abbrev pub new_symbol : List ℕ → Symbol
new_symbol name = record {
  name = name;
  addr = 0;
  is_global = false;
  defined = false;
  is_extern = false;
  is_label = false;
}

-- `s = find_symbol(name); if (!s) s = add_symbol(name); if (s) …`, for a change of the symbol.
unfoldable pub with_symbol : (Symbol → Symbol) → List ℕ → Asm → Asm
with_symbol f name st = elim (find_symbol st.symtab name) [
  | some s ↦ record st { symtab = change_symbol f st.symtab name }
  | none ↦
      if leb max_syms (length st.symtab)
      then asm_error st
      else record st { symtab = st.symtab ++ f (new_symbol name) ∷ [] }
]

-- The parameters are converted to the types of the fields.
unfoldable pub emit_reloc : ℕ → ℕ → ℕ → Asm → Asm
emit_reloc kind sym_idx addend st =
    if leb max_relocs (length st.reloc_tab) then asm_error st else record st {
      reloc_tab =
          st.reloc_tab
          ++ record {
            offset = sub32 st.write_pos st.section_base;
            sym_index = u32 sym_idx;
            kind = u8 kind;
            addend = u32 addend;
          }
            ∷ [];
    }

-- The byte itself, where the buffer has room.
unfoldable pub put_byte : ℕ → Asm → Asm
put_byte b st = record st {
  outbuf = update st.outbuf st.write_pos b;
  write_pos = st.write_pos + 1;
  max_write_pos =
      if ltb st.max_write_pos (st.write_pos + 1) then st.write_pos + 1 else st.max_write_pos;
}

-- `org_addr += n`
unfoldable pub advance : ℕ → Asm → Asm
advance n st = record st { org_addr = add32 st.org_addr n }

unfoldable pub emit_byte : ℕ → Asm → Asm
emit_byte b st =
    advance 1 (if ltb st.write_pos max_output then put_byte (u8 b) st else asm_error st)

unfoldable pub emit_word : ℕ → Asm → Asm
emit_word w st = emit_byte (bit_and (w >>> 24) 0xff) (
    emit_byte (bit_and (w >>> 16) 0xff)
      (emit_byte (bit_and (w >>> 8) 0xff) (emit_byte (bit_and w 0xff) st)))

-- `emit_byte(0)`, `n` times.
unfoldable pub emit_zeros : ℕ → Asm → Asm
emit_zeros zero st = st
emit_zeros (suc n) st = emit_zeros n (emit_byte 0 st)

unfoldable pub emit_bytes : List ℕ → Asm → Asm
emit_bytes [] st = st
emit_bytes (b ∷ bs) st = emit_bytes bs (emit_byte b st)
