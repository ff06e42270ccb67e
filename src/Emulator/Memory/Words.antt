-- ===== src/Emulator/Memory/Words.antt =====
-- The accesses to memory in terms of the bytes: a word is the sum of its digits to the base 256.
use cputwo.Base.{
  ℕ, ◌+◌, ◌*◌, ◌/◌, ◌%◌, ◌^◌, ◌≤◌, ◌<◌, ◌≡◌, ◌≢◌, ◌⊎◌, bit_and, bit_or, ◌<<<◌, ◌>>>◌, add32, update,
  update_ne, update_all, arith,
}
use cputwo.Base.Bits.{bit_and_mask, bit_or_fields_low}
use cputwo.Emulator.Machine.{Memory}
use cputwo.Emulator.Memory.{mem_read32, mem_read16, mem_write32, mem_write16, mem_write8}

abbrev pub IsBytes : Memory → Type 0
IsBytes mem = (i : ℕ) → mem i < 256

-- Four bytes joined by `|` make up a word.
pub join_bytes :
    (a b c d : ℕ)
    → a < 256
    → b < 256
    → c < 256
    → bit_or (bit_or (bit_or a (b <<< 8)) (c <<< 16)) (d <<< 24)
      ≡ a + b * 2 ^ 8 + c * 2 ^ 16 + d * 2 ^ 24
join_bytes a b c d ha hb hc = rw (
  bit_or_fields_low 8 b a ha,
  bit_or_fields_low 16 c (a + b * 2 ^ 8) (omega arith),
  bit_or_fields_low 24 d (a + b * 2 ^ 8 + c * 2 ^ 16) (omega arith),
)

pub mem_read32_sum :
    (mem : Memory) (addr : ℕ)
    → IsBytes mem
    → mem_read32 mem addr
      ≡ mem addr
        + mem (add32 addr 1) * 2 ^ 8
        + mem (add32 addr 2) * 2 ^ 16
        + mem (add32 addr 3) * 2 ^ 24
unfolding mem_read32
mem_read32_sum mem addr h =
    join_bytes (mem addr) (mem (add32 addr 1)) (mem (add32 addr 2)) (mem (add32 addr 3)) (h _) (h _)
      (h _)

pub mem_read32-lt : (mem : Memory) (addr : ℕ) → IsBytes mem → mem_read32 mem addr < 2 ^ 32
mem_read32-lt mem addr h =
    omega (
      arith,
      mem_read32_sum mem addr h,
      h addr,
      h (add32 addr 1),
      h (add32 addr 2),
      h (add32 addr 3),
    )

pub mem_read16_sum :
    (mem : Memory) (addr : ℕ)
    → IsBytes mem
    → mem_read16 mem addr ≡ mem addr + mem (add32 addr 1) * 2 ^ 8
unfolding mem_read16
mem_read16_sum mem addr h =
    omega
      (arith, bit_or_fields_low 8 (mem (add32 addr 1)) (mem addr) (h _), h addr, h (add32 addr 1))

-- Byte `k` of a word, as the stores write it.
pub byte : ℕ → ℕ → ℕ
byte v k = v / 2 ^ k % 256

mask_byte : (v : ℕ) → bit_and v 0xff ≡ v % 256
mask_byte v = bit_and_mask 8 v

pub mem_write32-IsBytes :
    (mem : Memory) (addr v : ℕ) → IsBytes mem → IsBytes (mem_write32 mem addr v)
unfolding mem_write32
mem_write32-IsBytes mem addr v h =
    put (put (put (put h addr v) _ (v >>> 8)) _ (v >>> 16)) _ (v >>> 24)
  where
    put : {m : Memory} → IsBytes m → (i x : ℕ) → IsBytes (update m i (bit_and x 0xff))
    put {m} old i x = update_all (λ (b : ℕ). b < 256) m i _ (omega (arith, mask_byte x)) old

pub mem_write16-IsBytes :
    (mem : Memory) (addr v : ℕ) → IsBytes mem → IsBytes (mem_write16 mem addr v)
unfolding mem_write16
mem_write16-IsBytes mem addr v h = put (put h addr v) _ (v >>> 8)
  where
    put : {m : Memory} → IsBytes m → (i x : ℕ) → IsBytes (update m i (bit_and x 0xff))
    put {m} old i x = update_all (λ (b : ℕ). b < 256) m i _ (omega (arith, mask_byte x)) old

pub mem_write8-IsBytes :
    (mem : Memory) (addr v : ℕ) → v < 256 → IsBytes mem → IsBytes (mem_write8 mem addr v)
unfolding mem_write8
mem_write8-IsBytes mem addr v lt h = update_all (λ (b : ℕ). b < 256) mem addr v lt h

-- A store changes only the bytes that it names.
pub mem_write32_frame :
    (mem : Memory) (addr v j : ℕ)
    → addr + 3 < 2 ^ 32
    → (j < addr) ⊎ (addr + 4 ≤ j)
    → mem_write32 mem addr v j ≡ mem j
unfolding mem_write32 update
mem_write32_frame mem addr v j fits out = ground arith

pub mem_write16_frame :
    (mem : Memory) (addr v j : ℕ)
    → addr + 1 < 2 ^ 32
    → (j < addr) ⊎ (addr + 2 ≤ j)
    → mem_write16 mem addr v j ≡ mem j
unfolding mem_write16 update
mem_write16_frame mem addr v j fits out = ground arith

pub mem_write8_frame : (mem : Memory) (addr v j : ℕ) → addr ≢ j → mem_write8 mem addr v j ≡ mem j
unfolding mem_write8
mem_write8_frame mem addr v j ne = update_ne mem addr j v ne

-- The four bytes of a stored word, lowest first.
pub mem_write32_bytes :
    (mem : Memory) (addr v : ℕ)
    → addr + 3 < 2 ^ 32
    → let mem' = mem_write32 mem addr v in
      (mem' addr ≡ v % 256)
      × (mem' (addr + 1) ≡ v / 2 ^ 8 % 256)
      × (mem' (addr + 2) ≡ v / 2 ^ 16 % 256)
      × (mem' (addr + 3) ≡ v / 2 ^ 24 % 256)
unfolding mem_write32 update
mem_write32_bytes mem addr v fits =
    ground (arith, mask_byte v, mask_byte (v >>> 8), mask_byte (v >>> 16), mask_byte (v >>> 24))

pub mem_write16_bytes :
    (mem : Memory) (addr v : ℕ)
    → addr + 1 < 2 ^ 32
    → let mem' = mem_write16 mem addr v in
      (mem' addr ≡ v % 256) × (mem' (addr + 1) ≡ v / 2 ^ 8 % 256)
unfolding mem_write16 update
mem_write16_bytes mem addr v fits = ground (arith, mask_byte v, mask_byte (v >>> 8))
