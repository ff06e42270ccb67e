-- ===== src/Emulator/Memory.antt =====
-- `mem_read32` to `mem_write8`: little-endian accesses. The index is a `uint32_t` and wraps.
pub mod Words
pub mod RoundTrip
use cputwo.Base.{ℕ, bit_and, bit_or, ◌<<<◌, ◌>>>◌, add32, update, u16}
use cputwo.Emulator.Machine.{Memory}

unfoldable pub mem_read32 : Memory → ℕ → ℕ
mem_read32 mem addr =
    bit_or (bit_or (bit_or (mem addr) (mem (add32 addr 1) <<< 8)) (mem (add32 addr 2) <<< 16))
      (mem (add32 addr 3) <<< 24)

unfoldable pub mem_read16 : Memory → ℕ → ℕ
mem_read16 mem addr = u16 (bit_or (mem addr) (mem (add32 addr 1) <<< 8))

unfoldable pub mem_read8 : Memory → ℕ → ℕ
mem_read8 mem addr = mem addr

unfoldable pub mem_write32 : Memory → ℕ → ℕ → Memory
mem_write32 mem addr v =
    let m1 = update mem addr (bit_and v 0xff) in
    let m2 = update m1 (add32 addr 1) (bit_and (v >>> 8) 0xff) in
    let m3 = update m2 (add32 addr 2) (bit_and (v >>> 16) 0xff) in
    update m3 (add32 addr 3) (bit_and (v >>> 24) 0xff)

unfoldable pub mem_write16 : Memory → ℕ → ℕ → Memory
mem_write16 mem addr v =
    let m1 = update mem addr (bit_and v 0xff) in update m1 (add32 addr 1) (bit_and (v >>> 8) 0xff)

-- The value is a `uint8_t`.
unfoldable pub mem_write8 : Memory → ℕ → ℕ → Memory
mem_write8 mem addr v = update mem addr v
