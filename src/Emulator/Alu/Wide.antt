-- ===== src/Emulator/Alu/Wide.antt =====
-- Carries and overflow: one word, and two words added or subtracted in a row.
use cputwo.Base.{
  ℕ, ◌+◌, ◌-◌, ◌*◌, ◌%◌, ◌^◌, ◌<◌, ◌≡◌, ◌≢◌, ◌↔◌, false, bit, ltb, test, add32, sub32, u32,
  update_self, update_ne, sym, arith,
}
use cputwo.Base.Int.{signed32, ◌+ℤ◌}
use cputwo.Emulator.Machine.{Cpu, set_reg, set_flags}
use cputwo.Emulator.Flags.{
  flag_c, flag_v, add_overflow, sub_overflow, update_flags_add, update_flags_sub,
}
use cputwo.Emulator.Flags.Word.{test-nzcv}
use cputwo.Emulator.Alu.{exec_add, exec_sub, exec_addc, exec_subc}
use cputwo.Emulator.Alu.Compare.{sign_bit_xor}

-- The carry that an addition or a subtraction leaves, and the register that it writes.
test-exec_add :
    (c : Cpu) (rd a b : ℕ) → test (exec_add c rd a b).flags flag_c ≡ ltb 0xffffffff (a + b)
unfolding exec_add update_flags_add set_reg set_flags
test-exec_add c rd a b =
    (test-nzcv c.flags (add32 a b) (ltb 0xffffffff (a + b)) (add_overflow a b (add32 a b))).2

test-exec_sub : (c : Cpu) (rd a b : ℕ) → test (exec_sub c rd a b).flags flag_c ≡ ltb a b
unfolding exec_sub update_flags_sub set_reg set_flags
test-exec_sub c rd a b = (test-nzcv c.flags (sub32 a b) (ltb a b) (sub_overflow a b (sub32 a b))).2

v-exec_add :
    (c : Cpu) (rd a b : ℕ) → test (exec_add c rd a b).flags flag_v ≡ add_overflow a b (add32 a b)
unfolding exec_add update_flags_add set_reg set_flags
v-exec_add c rd a b =
    (test-nzcv c.flags (add32 a b) (ltb 0xffffffff (a + b)) (add_overflow a b (add32 a b))).3

v-exec_sub :
    (c : Cpu) (rd a b : ℕ) → test (exec_sub c rd a b).flags flag_v ≡ sub_overflow a b (sub32 a b)
unfolding exec_sub update_flags_sub set_reg set_flags
v-exec_sub c rd a b = (test-nzcv c.flags (sub32 a b) (ltb a b) (sub_overflow a b (sub32 a b))).3

reg-exec_add : (c : Cpu) (rd a b : ℕ) → (exec_add c rd a b).r rd ≡ add32 a b
unfolding exec_add update_flags_add set_reg set_flags
reg-exec_add c rd a b = update_self c.r rd (add32 a b)

reg-exec_sub : (c : Cpu) (rd a b : ℕ) → (exec_sub c rd a b).r rd ≡ sub32 a b
unfolding exec_sub update_flags_sub set_reg set_flags
reg-exec_sub c rd a b = update_self c.r rd (sub32 a b)

-- ADDC and SUBC: the register, the other registers, the carry.
addc_parts :
    (c : Cpu) (rd j a b : ℕ)
    → j ≢ rd
    → let c' = exec_addc c rd a b in
      let sum = a + b + bit (test c.flags flag_c) in
      (c'.r rd ≡ u32 sum) × (c'.r j ≡ c.r j) × (test c'.flags flag_c ≡ ltb 0xffffffff sum)
unfolding exec_addc set_reg set_flags
addc_parts c rd j a b ne =
    let sum = a + b + bit (test c.flags flag_c) in
    (
      update_self c.r rd (u32 sum),
      update_ne c.r rd j (u32 sum) (λ e. ne (sym e)),
      (test-nzcv c.flags (u32 sum) (ltb 0xffffffff sum) (add_overflow a b (u32 sum))).2,
    )

subc_parts :
    (c : Cpu) (rd j a b : ℕ)
    → j ≢ rd
    → let c' = exec_subc c rd a b in
      let bin = bit (test c.flags flag_c) in
      (c'.r rd ≡ sub32 (sub32 a b) bin)
      × (c'.r j ≡ c.r j)
      × (test c'.flags flag_c ≡ ltb a (b + bin))
unfolding exec_subc set_reg set_flags
subc_parts c rd j a b ne =
    let bin = bit (test c.flags flag_c) in
    let r = sub32 (sub32 a b) bin in
    (
      update_self c.r rd r,
      update_ne c.r rd j r (λ e. ne (sym e)),
      (test-nzcv c.flags r (ltb a (b + bin)) (sub_overflow a b r)).2,
    )

-- ADD on the low words and then ADDC on the high words, into two different registers, leave the
-- 64-bit sum modulo 2 ^ 64 in them and its carry in the flag C.
pub exec_addc-exec_add :
    (c : Cpu) (lo hi a0 a1 b0 b1 : ℕ)
    → lo ≢ hi
    → a0 < 2 ^ 32
    → b0 < 2 ^ 32
    → let c' = exec_addc (exec_add c lo a0 b0) hi a1 b1 in
      let sum = (a0 + a1 * 2 ^ 32) + (b0 + b1 * 2 ^ 32) in
      (c'.r lo + c'.r hi * 2 ^ 32 ≡ sum % 2 ^ 64)
      × (test c'.flags flag_c ≡ ltb 0xffffffffffffffff sum)
exec_addc-exec_add c lo hi a0 a1 b0 b1 ne h k =
    let low = exec_add c lo a0 b0 in
    let parts = addc_parts low hi lo a1 b1 ne in
    (
      rw (parts.0, parts.1, reg-exec_add c lo a0 b0, test-exec_add c lo a0 b0) (ground arith),
      rw (parts.2, test-exec_add c lo a0 b0) (ground arith),
    )

-- SUB on the low words and then SUBC on the high words, into two different registers, leave the
-- 64-bit difference modulo 2 ^ 64 in them and its borrow in the flag C.
pub exec_subc-exec_sub :
    (c : Cpu) (lo hi a0 a1 b0 b1 : ℕ)
    → lo ≢ hi
    → a0 < 2 ^ 32
    → b0 < 2 ^ 32
    → a1 < 2 ^ 32
    → b1 < 2 ^ 32
    → let c' = exec_subc (exec_sub c lo a0 b0) hi a1 b1 in
      let a = a0 + a1 * 2 ^ 32 in
      let b = b0 + b1 * 2 ^ 32 in
      (c'.r lo + c'.r hi * 2 ^ 32 ≡ (a + 2 ^ 64 - b) % 2 ^ 64) × (test c'.flags flag_c ≡ ltb a b)
exec_subc-exec_sub c lo hi a0 a1 b0 b1 ne h0 k0 h1 k1 =
    let low = exec_sub c lo a0 b0 in
    let parts = subc_parts low hi lo a1 b1 ne in
    (
      rw (parts.0, parts.1, reg-exec_sub c lo a0 b0, test-exec_sub c lo a0 b0) (ground arith),
      rw (parts.2, test-exec_sub c lo a0 b0) (ground arith),
    )

overflow_add :
    (a b : ℕ)
    → a < 2 ^ 32
    → b < 2 ^ 32
    → (add_overflow a b (add32 a b) ≡ false) ↔ (signed32 (add32 a b) ≡ signed32 a +ℤ signed32 b)
unfolding add_overflow ◌+ℤ◌
overflow_add a b ha hb =
    rw (sign_bit_xor a b ha hb, sign_bit_xor (add32 a b) a (omega arith) ha) (ground arith)

overflow_sub :
    (a b : ℕ)
    → a < 2 ^ 32
    → b < 2 ^ 32
    → (sub_overflow a b (sub32 a b) ≡ false) ↔ (signed32 (sub32 a b) +ℤ signed32 b ≡ signed32 a)
unfolding sub_overflow ◌+ℤ◌
overflow_sub a b ha hb =
    rw (sign_bit_xor a b ha hb, sign_bit_xor (sub32 a b) a (omega arith) ha) (ground arith)

-- The flag V of ADD and of SUB is clear exactly when the result, read as a signed word, is the
-- true signed sum or difference of the operands.
pub overflow_flag_iff :
    (c : Cpu) (rd a b : ℕ)
    → a < 2 ^ 32
    → b < 2 ^ 32
    → let s = exec_add c rd a b in
      let d = exec_sub c rd a b in
      ((test s.flags flag_v ≡ false) ↔ (signed32 (s.r rd) ≡ signed32 a +ℤ signed32 b))
      × ((test d.flags flag_v ≡ false) ↔ (signed32 (d.r rd) +ℤ signed32 b ≡ signed32 a))
overflow_flag_iff c rd a b ha hb = (
  rw (reg-exec_add c rd a b, v-exec_add c rd a b) (overflow_add a b ha hb),
  rw (reg-exec_sub c rd a b, v-exec_sub c rd a b) (overflow_sub a b ha hb),
)
