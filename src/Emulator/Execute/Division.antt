-- ===== src/Emulator/Execute/Division.antt =====
-- The instructions DIV and MOD as `cpu_run` carries them out.
use cputwo.Base.{
  ℕ, ◌+◌, ◌^◌, ◌<◌, ◌≡◌, ◌≢◌, Bool-cases, inl, inr, false, ◌==◌, refl, update_self, update_ne,
  arith,
}
use cputwo.Base.Int.{ℤ, signed32, ◌+ℤ◌, ◌*ℤ◌, pos_part, neg_part}
use cputwo.Emulator.Machine.{Machine, Host, set_reg, set_flags, with_cpu}
use cputwo.Emulator.Flags.{update_flags_nz}
use cputwo.Emulator.Decode.{Fields, opcode_of}
use cputwo.Emulator.Alu.{div_signed, rem_signed, div_undefined, mul_result}
use cputwo.Emulator.Alu.Divide.{div_signed-rem_signed}
use cputwo.Emulator.Execute.{exec_div_signed}
use cputwo.Emulator.Run.{execute_cpu, execute_memory, execute}

-- No overflow: the dividend is the least word only with another divisor than -1.
defined : (a b : ℕ) → (a ≡ 0x80000000 → b ≢ 0xffffffff) → div_undefined a b ≡ false
unfolding div_undefined
defined a b h = elim (Bool-cases (a == 0x80000000)) [
  | inl e ↦ elim (Bool-cases (b == 0xffffffff)) [
    | inl e' ↦ absurd (h (ground arith) (ground arith))
    | inr n ↦ ground arith
  ]
  | inr n ↦ ground arith
]

quotient_stored :
    (quotient : ℕ → ℕ → ℕ) (m : Machine) (rd a b : ℕ)
    → b ≢ 0
    → div_undefined a b ≡ false
    → exec_div_signed quotient m rd a b ≡ with_cpu m (mul_result m.cpu rd (quotient a b))
unfolding exec_div_signed
quotient_stored quotient m rd a b nz def =
    let other : (b == 0) ≡ false = ground arith in rw (other, def) refl

module _ (h : Host) (m : Machine) (d : Fields) (pc : ℕ) where
  div_stored :
      m.cpu.r d.rs2 ≢ 0
      → div_undefined (m.cpu.r d.rs1) (m.cpu.r d.rs2) ≡ false
      → execute h (opcode_of 0x0a) d pc m
        ≡ with_cpu m (mul_result m.cpu d.rd (div_signed (m.cpu.r d.rs1) (m.cpu.r d.rs2)))
  unfolding execute execute_cpu execute_memory opcode_of
  div_stored = quotient_stored div_signed m d.rd (m.cpu.r d.rs1) (m.cpu.r d.rs2)

  rem_stored :
      m.cpu.r d.rs2 ≢ 0
      → div_undefined (m.cpu.r d.rs1) (m.cpu.r d.rs2) ≡ false
      → execute h (opcode_of 0x25) d pc m
        ≡ with_cpu m (mul_result m.cpu d.rd (rem_signed (m.cpu.r d.rs1) (m.cpu.r d.rs2)))
  unfolding execute execute_cpu execute_memory opcode_of
  rem_stored = quotient_stored rem_signed m d.rd (m.cpu.r d.rs1) (m.cpu.r d.rs2)

stored_in : (m : Machine) (rd v : ℕ) → (with_cpu m (mul_result m.cpu rd v)).cpu.r rd ≡ v
unfolding with_cpu mul_result set_reg update_flags_nz set_flags
stored_in m rd v = update_self m.cpu.r rd v

others_kept :
    (m : Machine) (rd v j : ℕ) → rd ≢ j → (with_cpu m (mul_result m.cpu rd v)).cpu.r j ≡ m.cpu.r j
unfolding with_cpu mul_result set_reg update_flags_nz set_flags
others_kept m rd v j = update_ne m.cpu.r rd j v

memory_kept : (m : Machine) (rd v : ℕ) → (with_cpu m (mul_result m.cpu rd v)).mem ≡ m.mem
unfolding with_cpu
memory_kept m rd v = refl

-- What the integer quotient and remainder have to be: they give back the dividend, and the remainder
-- is smaller than the divisor and not of the other sign than the dividend.
abbrev pub Quotient : ℤ → ℤ → ℤ → ℤ → Type 0
Quotient a b q r =
    (q *ℤ b +ℤ r ≡ a)
    × (pos_part r + neg_part r < pos_part b + neg_part b)
    × (neg_part a ≡ 0 → neg_part r ≡ 0)
    × (0 < neg_part a → pos_part r ≡ 0)

divided :
    (a b : ℕ)
    → a < 2 ^ 32
    → b < 2 ^ 32
    → b ≢ 0
    → div_undefined a b ≡ false
    → Quotient (signed32 a) (signed32 b) (signed32 (div_signed a b)) (signed32 (rem_signed a b))
divided a b ha hb nz def =
    let (sum, small, same) = div_signed-rem_signed a b ha hb nz def in
    (sum, ground arith, λ e. ground arith, λ e. ground arith)

-- For registers of 32 bits, a divisor register that is not zero, and but for the least word by -1:
-- the destination registers of the instructions DIV and MOD on the same operands hold, as signed
-- words, the quotient and the remainder that round to zero. They add up to the dividend, the
-- remainder is smaller than the divisor in absolute value and does not have the other sign than
-- the dividend. Both instructions leave the other registers and the memory alone.
pub execute_division :
    (h : Host) (m : Machine) (d : Fields) (pc : ℕ)
    → m.cpu.r d.rs1 < 2 ^ 32
    → m.cpu.r d.rs2 < 2 ^ 32
    → m.cpu.r d.rs2 ≢ 0
    → (m.cpu.r d.rs1 ≡ 0x80000000 → m.cpu.r d.rs2 ≢ 0xffffffff)
    → let m1 = execute h (opcode_of 0x0a) d pc m in
      let m2 = execute h (opcode_of 0x25) d pc m in
      Quotient
        (signed32 (m.cpu.r d.rs1))
        (signed32 (m.cpu.r d.rs2))
        (signed32 (m1.cpu.r d.rd))
        (signed32 (m2.cpu.r d.rd))
      × ((j : ℕ) → d.rd ≢ j → (m1.cpu.r j ≡ m.cpu.r j) × (m2.cpu.r j ≡ m.cpu.r j))
      × (m1.mem ≡ m.mem)
      × (m2.mem ≡ m.mem)
execute_division h m d pc ha hb nz over =
    let a = m.cpu.r d.rs1 in
    let b = m.cpu.r d.rs2 in
    let def = defined a b over in
    rw (div_stored h m d pc nz def, rem_stored h m d pc nz def)
      (
        rw (stored_in m d.rd (div_signed a b), stored_in m d.rd (rem_signed a b))
            (divided a b ha hb nz def),
        λ j other. (
          others_kept m d.rd (div_signed a b) j other,
          others_kept m d.rd (rem_signed a b) j other,
        ),
        memory_kept m d.rd (div_signed a b),
        memory_kept m d.rd (rem_signed a b),
      )
