-- ===== src/Emulator/Loader.antt =====
-- `load_elf`, and the part of `main` that loads the binary, on the bytes of the file.
pub mod Segments
mod Tests
use cputwo.Base.{
  ℕ, zero, suc, ◌+◌, ◌-◌, ◌*◌, Bool, true, false, not, ◌&&◌, ◌||◌, Option, none, some, List, [],
  ◌∷◌, ltb, leb, ◌==◌, if◌then◌else◌, length, get_or, bit_or, ◌<<<◌, u32, add32, sub32,
}
use cputwo.Emulator.Machine.{mem_size, Memory, Machine, set_reg}
use cputwo.Emulator.Run.{cpu_reset}

-- The byte at an offset of the file.
unfoldable pub file_byte : List ℕ → ℕ → ℕ
file_byte file i = get_or file i 0

unfoldable pub rd_le16 : List ℕ → ℕ → ℕ
rd_le16 file i = bit_or (file_byte file i) (file_byte file (i + 1) <<< 8)

unfoldable pub rd_le32 : List ℕ → ℕ → ℕ
rd_le32 file i =
    bit_or
      (bit_or (bit_or (file_byte file i) (file_byte file (i + 1) <<< 8))
        (file_byte file (i + 2) <<< 16))
      (file_byte file (i + 3) <<< 24)

unfoldable pub e_entry : List ℕ → ℕ
e_entry file = rd_le32 file 24

unfoldable pub e_phoff : List ℕ → ℕ
e_phoff file = rd_le32 file 28

unfoldable pub e_phentsize : List ℕ → ℕ
e_phentsize file = rd_le16 file 42

unfoldable pub e_phnum : List ℕ → ℕ
e_phnum file = rd_le16 file 44

-- The program header `ph`, and whether all of it was read.
pub record Segment : Type 0 where
  pub readable : Bool
  pub p_type : ℕ
  pub p_offset : ℕ
  pub p_vaddr : ℕ
  pub p_filesz : ℕ
  pub p_memsz : ℕ

unfoldable pub segment : List ℕ → ℕ → Segment
segment file i =
    let ph = add32 (e_phoff file) (u32 (i * e_phentsize file)) in
    record {
      readable = leb (ph + 32) (length file);
      p_type = rd_le32 file ph;
      p_offset = rd_le32 file (ph + 4);
      p_vaddr = rd_le32 file (ph + 8);
      p_filesz = rd_le32 file (ph + 16);
      p_memsz = rd_le32 file (ph + 20);
    }

-- `n` bytes at `mem + start`, also behind the array.
unfoldable pub write_range : ℕ → ℕ → (ℕ → ℕ) → Memory → Memory
write_range start n bytes mem a =
    if leb start a && ltb a (start + n) then bytes (a - start) else mem a

unfoldable pub zero_rest : Segment → Memory → Memory
zero_rest s mem =
    if ltb s.p_filesz s.p_memsz
    then write_range (s.p_vaddr + s.p_filesz) (s.p_memsz - s.p_filesz) (λ (i : ℕ). 0) mem
    else mem

-- The body of the loop; none is an error.
unfoldable pub load_segment : List ℕ → Segment → Memory → Option Memory
load_segment file s mem =
    if not s.readable
    then none
    else if not (s.p_type == 1)
    then some mem
    else if ltb mem_size (add32 s.p_vaddr s.p_memsz)
    then none
    else if ltb 0 s.p_filesz && ltb (length file) (s.p_offset + s.p_filesz)
    then none
    else some (
        zero_rest s
          (write_range s.p_vaddr s.p_filesz (λ (i : ℕ). file_byte file (s.p_offset + i)) mem))

-- The loop, for `n` more headers from `i` on.
unfoldable pub load_segments : List ℕ → ℕ → ℕ → Memory → Option Memory
load_segments file zero i mem = some mem
load_segments file (suc n) i mem = elim (load_segment file (segment file i) mem) [
  | none ↦ none
  | some mem' ↦ load_segments file n (i + 1) mem'
]

-- The memory and the entry point.
unfoldable pub load_elf : List ℕ → Memory → Option (Memory × ℕ)
load_elf file mem =
    if ltb (length file) 52
    then none
    else if not (file_byte file 4 == 1)
    then none
    else elim (load_segments file (e_phnum file) 0 mem) [
      | none ↦ none
      | some mem' ↦ some (mem', e_entry file)
    ]

unfoldable pub is_elf : List ℕ → Bool
is_elf file =
    file_byte file 0 == 0x7f
    && file_byte file 1 == b'E'
    && file_byte file 2 == b'L'
    && file_byte file 3 == b'F'

-- A file that is no ELF file, at `load_addr`: `fread` stops at `MEM_SIZE - load_addr`, in 32 bits.
unfoldable pub load_flat : List ℕ → ℕ → Memory → Memory
load_flat file load_addr mem =
    let most = sub32 mem_size load_addr in
    write_range load_addr (if ltb most (length file) then most else length file) (file_byte file)
      mem

-- The machine that `main` starts; none is an exit with status 1. An entry point of 0xffffffff is
-- taken for an error.
unfoldable pub boot : List ℕ → ℕ → Machine → Option Machine
boot file load_addr m =
    let fresh = cpu_reset m in
    if is_elf file
    then elim (load_elf file fresh.mem) [
      | none ↦ none
      | some (mem', entry) ↦
          if entry == 0xffffffff
          then none
          else some (record fresh { mem = mem'; cpu = set_reg fresh.cpu 15 entry })
    ]
    else some (record fresh {
      mem = load_flat file load_addr fresh.mem;
      cpu = set_reg fresh.cpu 15 load_addr;
    })
