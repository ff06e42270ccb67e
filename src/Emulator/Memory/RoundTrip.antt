-- ===== src/Emulator/Memory/RoundTrip.antt =====
-- What is stored is read back, at every width.
use cputwo.Base.{ℕ, ◌+◌, ◌^◌, ◌≤◌, ◌<◌, ◌≡◌, ◌⊎◌, add32, update_self, arith}
use cputwo.Emulator.Machine.{Memory}
use cputwo.Emulator.Memory.{mem_read32, mem_read16, mem_read8, mem_write32, mem_write16, mem_write8}
use cputwo.Emulator.Memory.Words.{
  IsBytes, mem_read32_sum, mem_read16_sum, mem_write32-IsBytes, mem_write16-IsBytes,
  mem_write32_frame, mem_write32_bytes, mem_write16_bytes,
}

add32_small : (addr k : ℕ) → addr + k < 2 ^ 32 → add32 addr k ≡ addr + k
add32_small addr k h = omega arith

module _ (mem : Memory) (addr v : ℕ) (bytes : IsBytes mem) (fits : addr + 3 < 2 ^ 32) where
  read32-write32 : v < 2 ^ 32 → mem_read32 (mem_write32 mem addr v) addr ≡ v
  read32-write32 h =
      rw
        (
          mem_read32_sum _ addr (mem_write32-IsBytes mem addr v bytes),
          add32_small addr 1 (omega arith),
          add32_small addr 2 (omega arith),
          add32_small addr 3 (omega arith),
        )
        (omega (arith, mem_write32_bytes mem addr v fits))

  read16-write16 : v < 2 ^ 16 → mem_read16 (mem_write16 mem addr v) addr ≡ v
  read16-write16 h =
      rw
        (
          mem_read16_sum _ addr (mem_write16-IsBytes mem addr v bytes),
          add32_small addr 1 (omega arith),
        )
        (omega (arith, mem_write16_bytes mem addr v (omega arith)))

-- Over a memory of bytes, away from the end of the address space: a stored word, halfword or byte
-- is read back as it was, and storing a word changes no byte `j` but its own four.
pub mem_read-mem_write :
    (mem : Memory) (addr word half byte j : ℕ)
    → IsBytes mem
    → addr + 3 < 2 ^ 32
    → word < 2 ^ 32
    → half < 2 ^ 16
    → (j < addr) ⊎ (addr + 4 ≤ j)
    → (mem_read32 (mem_write32 mem addr word) addr ≡ word)
      × (mem_read16 (mem_write16 mem addr half) addr ≡ half)
      × (mem_read8 (mem_write8 mem addr byte) addr ≡ byte)
      × (mem_write32 mem addr word j ≡ mem j)
unfolding mem_read8 mem_write8
mem_read-mem_write mem addr word half byte j bytes fits w h out = (
  read32-write32 mem addr word bytes fits w,
  read16-write16 mem addr half bytes fits h,
  update_self mem addr byte,
  mem_write32_frame mem addr word j fits out,
)
