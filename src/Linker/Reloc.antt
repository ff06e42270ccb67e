-- ===== src/Linker/Reloc.antt =====
-- The part of `resolve_relocs` that patches one site, for the address `s` of the symbol.
pub mod Jump
pub mod Load
use cputwo.Base.{
  ℕ, Bool, ◌+◌, ◌*◌, ◌||◌, Option, none, some, ltb, ◌==◌, if◌then◌else◌, bit_and, bit_or, ◌<<<◌,
  ◌>>>◌, u32, add32, sub32, update,
}
use cputwo.Base.Int.{sum_overflows}
use cputwo.Linker.Object.{LSec, LRel}

abbrev pub reloc_abs32 : ℕ
reloc_abs32 = 1

abbrev pub reloc_movi32_lo : ℕ
reloc_movi32_lo = 2

abbrev pub reloc_movi32_hi : ℕ
reloc_movi32_hi = 3

abbrev pub reloc_branch20 : ℕ
reloc_branch20 = 4

abbrev pub reloc_jump20 : ℕ
reloc_jump20 = 5

-- `get32` and `put32` at `data + offset`.
unfoldable pub get32 : (ℕ → ℕ) → ℕ → ℕ
get32 p i =
    bit_or (bit_or (bit_or (p i) (u32 (p (i + 1) <<< 8))) (u32 (p (i + 2) <<< 16)))
      (u32 (p (i + 3) <<< 24))

unfoldable pub put32 : (ℕ → ℕ) → ℕ → ℕ → ℕ → ℕ
put32 p i v =
    update
      (update (update (update p i (bit_and v 0xff)) (i + 1) (bit_and (v >>> 8) 0xff)) (i + 2)
        (bit_and (v >>> 16) 0xff))
      (i + 3) (bit_and (v >>> 24) 0xff)

-- `delta < -524288 || delta > 524287` for the `int64_t` difference of two words.
unfoldable pub out_of_range : ℕ → ℕ → Bool
out_of_range s site_addr = ltb (s + 524288) site_addr || ltb (site_addr + 524287) s

-- The word that the `switch` on the type stores, or none for its two errors.
unfoldable pub patch : ℕ → ℕ → ℕ → ℕ → Option ℕ
patch kind instr s site_addr =
    if kind == reloc_abs32
    then some s
    else if kind == reloc_movi32_lo
    then some (bit_or (bit_and instr 0xffff0000) (bit_and s 0xffff))
    else if kind == reloc_movi32_hi
    then some (bit_or (bit_and instr 0xffff0000) (bit_and (s >>> 16) 0xffff))
    else if kind == reloc_branch20 || kind == reloc_jump20
    then if out_of_range s site_addr
      then none
      else some (bit_or (bit_and instr 0xfff00000) (bit_and (sub32 s site_addr) 0xfffff))
    else none

-- The section behind a relocation: patched, an error that the linker reports, or what C leaves
-- undefined.
pub data Patched : Type 0 where
  patched : LSec → Patched
  patch_error : Patched
  patch_undefined : Patched

-- The word at `data + offset`, which has to lie in the section's bytes.
unfoldable pub store_word : LSec → ℕ → ℕ → Patched
store_word sec offset w =
    if ltb sec.size (offset + 4)
    then patch_undefined
    else patched (record sec { bytes = put32 sec.bytes offset w })

-- A relocation at its site in the section. The sum `(int32_t)S + r->addend` may overflow. The bound is tested in 32 bits, so that it lets pass an
-- offset whose sum with 4 wraps to 0 and above.
unfoldable pub patch_section : LSec → LRel → ℕ → Patched
patch_section sec r s =
    let site_addr = add32 sec.base r.offset in
    if sum_overflows s r.addend
    then patch_undefined
    else if ltb sec.size (add32 r.offset 4)
    then patch_error
    else elim (patch r.kind (get32 sec.bytes r.offset) (add32 s r.addend) site_addr) [
      | none ↦ patch_error
      | some w ↦ store_word sec r.offset w
    ]
