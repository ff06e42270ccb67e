-- ===== src/Linker/Object.antt =====
-- The objects that the linker holds in memory, as linker.c declares them.
use cputwo.Base.{ℕ, Bool, List}

-- `LSec`; the name and the flags of a section are read and dropped. `bytes` is `data`, the copy of its bytes.
pub record LSec : Type 0 where
  pub vma_hint : ℕ
  pub size : ℕ
  pub base : ℕ
  pub bytes : ℕ → ℕ

-- `LRel`, with the addend as its `uint32_t` pattern.
pub record LRel : Type 0 where
  pub offset : ℕ
  pub sym_idx : ℕ
  pub kind : ℕ
  pub sec_idx : ℕ
  pub addend : ℕ

-- `LSym`. The name is the C string at `name`.
pub record LSym : Type 0 where
  pub name : List ℕ
  pub value : ℕ
  pub sec_idx : ℕ
  pub is_global : Bool

-- `ObjFile`, without the name of the file.
pub record ObjFile : Type 0 where
  pub secs : List LSec
  pub syms : List LSym
  pub rels : List LRel
