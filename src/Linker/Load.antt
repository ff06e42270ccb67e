-- ===== src/Linker/Load.antt =====
-- `load_dobj`, from the bytes of the file. That the file can be opened and that memory can be
-- allocated is assumed.
use cputwo.Base.{
  ℕ, ◌+◌, ◌-◌, not, ◌&&◌, Option, none, some, List, [], ◌∷◌, ltb, leb, ◌==◌, if◌then◌else◌, bit_or,
  u16, u32, ◌<<<◌, add32, sub32, length,
}
use mathlib.Core.Option.{map}
use cputwo.Base.Bytes.{Read, pure, ◌>>=◌, read_byte, split_at, drop, read_records}
use cputwo.Base.Text.{same_name, c_string, entry}
use cputwo.Dobj.{dobj_magic}
use cputwo.Linker.Object.{LSec, LRel, LSym, ObjFile}

abbrev pub max_objs : ℕ
max_objs = 256

unfoldable pub rd32 : Read ℕ
rd32 = do
  a ← read_byte
  b ← read_byte
  c ← read_byte
  d ← read_byte
  pure (bit_or (bit_or (bit_or a (u32 (b <<< 8))) (u32 (c <<< 16))) (u32 (d <<< 24)))

unfoldable pub rd16 : Read ℕ
rd16 = do a ← read_byte; b ← read_byte; pure (u16 (bit_or a (u32 (b <<< 8))))

-- The header of a section, with its offset in the blob in `base`.
unfoldable pub read_section : Read LSec
read_section = do
  name ← split_at 8
  sec_data_offset ← rd32
  size ← rd32
  vma_hint ← rd32
  flags ← rd32
  pure (record { vma_hint = vma_hint; size = size; base = sec_data_offset; bytes = λ (i : ℕ). 0 })

-- The name is the C string in the 28 bytes of the array; where no zero ends it there, a use of it
-- in C reads on behind the array.
unfoldable pub read_symbol : Read LSym
read_symbol = do
  name ← split_at 28
  value ← rd32
  sec_idx ← rd16
  is_global ← read_byte
  pad ← read_byte
  pure (record {
    name = c_string name;
    value = value;
    sec_idx = sec_idx;
    is_global = not (is_global == 0);
  })

unfoldable pub read_reloc : Read LRel
read_reloc = do
  offset ← rd32
  sym_idx ← rd32
  kind ← read_byte
  sec_idx ← read_byte
  pad0 ← read_byte
  pad1 ← read_byte
  addend ← rd32
  pure (record {
    offset = offset;
    sym_idx = sym_idx;
    kind = kind;
    sec_idx = sec_idx;
    addend = addend;
  })

-- A byte of cleared memory into which bytes of a file were read.
unfoldable pub byte_at : List ℕ → ℕ → ℕ
byte_at file i = elim (entry file i) [ some b ↦ b | none ↦ 0 ]

-- The bytes of a section, copied out of the blob; none is a copy that reads behind the blob, since
-- `off + copy` is cut off at 32 bits.
unfoldable pub fill_section : List ℕ → ℕ → LSec → Option LSec
fill_section blob blob_size sec =
    let off = sec.base in
    let copy = if ltb blob_size (add32 off sec.size) then blob_size - off else sec.size in
    if ltb off blob_size && ltb 0 sec.size
    then if ltb blob_size (off + copy)
      then none
      else some (record sec {
        base = 0;
        bytes = λ (i : ℕ). if ltb i copy then byte_at blob (off + i) else 0;
      })
    else some (record sec { base = 0; bytes = λ (i : ℕ). 0 })

unfoldable pub fill_sections : List ℕ → ℕ → List LSec → Option (List LSec)
fill_sections blob blob_size [] = some []
fill_sections blob blob_size (sec ∷ secs) = elim (fill_section blob blob_size sec) [
  | none ↦ none
  | some sec' ↦ map (λ (secs' : List LSec). sec' ∷ secs') (fill_sections blob blob_size secs)
]

-- What a call gives: an object behind the `obj_count` that are loaded, one of its two errors, or a
-- read outside the blob, which C leaves undefined.
pub data Load : Type 0 where
  loaded : ObjFile → Load
  not_a_dobj : Load
  too_many_objects : Load
  outside_blob : Load

-- The section data of the whole file, for the tables that were read.
unfoldable pub load_data : List ℕ → ℕ → List LSec → List LSym → List LRel → Load
load_data file data_off secs syms rels =
    let blob_size = sub32 (length file) data_off in
    elim (fill_sections (drop data_off file) blob_size secs) [
      | some secs' ↦ loaded (record { secs = secs'; syms = syms; rels = rels })
      | none ↦ outside_blob
    ]

-- The part behind the magic number and the version of the file.
unfoldable pub load_object : List ℕ → Read Load
load_object file = do
  nsec ← rd32
  nsym ← rd32
  nrel ← rd32
  data_off ← rd32
  secs ← read_records read_section nsec
  syms ← read_records read_symbol nsym
  rels ← read_records read_reloc nrel
  pure (load_data file data_off secs syms rels)

unfoldable pub load_dobj : ℕ → List ℕ → Load
load_dobj obj_count file =
    let (magic, f1) = split_at 4 file in
    let (version, f2) = split_at 4 f1 in
    if not (same_name magic dobj_magic)
    then not_a_dobj
    else if leb max_objs obj_count
    then too_many_objects
    else (load_object file f2).0
