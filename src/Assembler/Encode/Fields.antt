-- ===== src/Assembler/Encode/Fields.antt =====
-- The fields of the words that the assembler puts together, as the emulator takes them apart.
use cputwo.Base.{ℕ, ◌+◌, ◌*◌, ◌/◌, ◌%◌, ◌^◌, ◌<◌, ◌≡◌, refl, ap, ◌∙◌, bit_or, ◌<<<◌, ◌>>>◌, arith}
use cputwo.Base.Bits.{bit_and_mask, bit_or_fields}
use cputwo.Assembler.Encode.{enc_r, enc_i, enc_j}
use cputwo.Emulator.Decode.{decode, sext16, sext20}

-- A field below the lowest digit of what is there.
field_below : (k q r : ℕ) {a : ℕ} → a ≡ q * 2 ^ k → r < 2 ^ k → bit_or a r ≡ a + r
field_below k q r e h = rw e (bit_or_fields k q r h)

pub enc_j_sum :
    (opcode rd low : ℕ)
    → rd < 16
    → low < 2 ^ 20
    → enc_j opcode rd low ≡ opcode * 2 ^ 24 + rd * 2 ^ 20 + low
unfolding enc_j
enc_j_sum opcode rd low hd hl =
    rw (field_below 24 opcode (rd <<< 20) refl (omega arith))
      (field_below 20 (opcode * 16 + rd) low (omega arith) hl)

pub enc_i_sum :
    (opcode rd rs1 imm : ℕ)
    → rd < 16
    → rs1 < 16
    → imm < 2 ^ 16
    → enc_i opcode rd rs1 imm ≡ opcode * 2 ^ 24 + rd * 2 ^ 20 + rs1 * 2 ^ 16 + imm
unfolding enc_i
enc_i_sum opcode rd rs1 imm hd h1 hi =
    let joined : opcode <<< 24 + rd <<< 20 ≡ (opcode * 16 + rd) * 2 ^ 20 = omega arith in
    rw
      (
        field_below 24 opcode (rd <<< 20) refl (omega arith),
        field_below 20 (opcode * 16 + rd) (rs1 <<< 16) joined (omega arith),
      )
      (field_below 16 (opcode * 256 + rd * 16 + rs1) imm (omega arith) hi)

pub enc_r_sum :
    (opcode rd rs1 rs2 : ℕ)
    → rd < 16
    → rs1 < 16
    → rs2 < 16
    → enc_r opcode rd rs1 rs2 ≡ opcode * 2 ^ 24 + rd * 2 ^ 20 + rs1 * 2 ^ 16 + rs2 * 2 ^ 12
unfolding enc_r enc_i
enc_r_sum opcode rd rs1 rs2 hd h1 h2 = enc_i_sum opcode rd rs1 (rs2 <<< 12) hd h1 (omega arith)

-- The fields that every format shares.
pub decode_op : (w : ℕ) → (decode w).op ≡ w / 2 ^ 24 % 2 ^ 8
unfolding decode
decode_op w = bit_and_mask 8 (w >>> 24)

pub decode_rd : (w : ℕ) → (decode w).rd ≡ w / 2 ^ 20 % 2 ^ 4
unfolding decode
decode_rd w = bit_and_mask 4 (w >>> 20)

pub decode_rs1 : (w : ℕ) → (decode w).rs1 ≡ w / 2 ^ 16 % 2 ^ 4
unfolding decode
decode_rs1 w = bit_and_mask 4 (w >>> 16)

pub decode_rs2 : (w : ℕ) → (decode w).rs2 ≡ w / 2 ^ 12 % 2 ^ 4
unfolding decode
decode_rs2 w = bit_and_mask 4 (w >>> 12)

pub decode_imm16 : (w : ℕ) → (decode w).imm16 ≡ w % 2 ^ 16
unfolding decode
decode_imm16 w = bit_and_mask 16 w

pub decode_simm : (w : ℕ) → (decode w).simm ≡ sext16 (w % 2 ^ 16)
unfolding decode
decode_simm w = ap sext16 (bit_and_mask 16 w)

pub decode_soff : (w : ℕ) → (decode w).soff ≡ sext20 (w % 2 ^ 20)
unfolding decode
decode_soff w = ap sext20 (bit_and_mask 20 w)

pub record DecodedR (w opcode d s1 s2 : ℕ) : Type 0 where
  pub op : (decode w).op ≡ opcode
  pub rd : (decode w).rd ≡ d
  pub rs1 : (decode w).rs1 ≡ s1
  pub rs2 : (decode w).rs2 ≡ s2

pub record DecodedI (w opcode d s1 imm : ℕ) : Type 0 where
  pub op : (decode w).op ≡ opcode
  pub rd : (decode w).rd ≡ d
  pub rs1 : (decode w).rs1 ≡ s1
  pub imm16 : (decode w).imm16 ≡ imm
  pub simm : (decode w).simm ≡ sext16 imm

pub record DecodedJ (w opcode d low : ℕ) : Type 0 where
  pub op : (decode w).op ≡ opcode
  pub rd : (decode w).rd ≡ d
  pub imm16 : (decode w).imm16 ≡ low % 2 ^ 16
  pub soff : (decode w).soff ≡ sext20 low

module _ (opcode rd : ℕ) (ho : opcode < 256) (hd : rd < 16) where
  pub decode-enc_j : (low : ℕ) → low < 2 ^ 20 → DecodedJ (enc_j opcode rd low) opcode rd low
  decode-enc_j low hl =
      let w = enc_j opcode rd low in
      let sum = enc_j_sum opcode rd low hd hl in
      record {
        op = omega (arith, sum, decode_op w);
        rd = omega (arith, sum, decode_rd w);
        imm16 = omega (arith, sum, decode_imm16 w);
        soff = decode_soff w ∙ ap sext20 (omega (arith, sum));
      }

  pub decode-enc_i :
      (rs1 imm : ℕ) → rs1 < 16 → imm < 2 ^ 16 → DecodedI (enc_i opcode rd rs1 imm) opcode rd rs1 imm
  decode-enc_i rs1 imm h1 hi =
      let w = enc_i opcode rd rs1 imm in
      let sum = enc_i_sum opcode rd rs1 imm hd h1 hi in
      record {
        op = omega (arith, sum, decode_op w);
        rd = omega (arith, sum, decode_rd w);
        rs1 = omega (arith, sum, decode_rs1 w);
        imm16 = omega (arith, sum, decode_imm16 w);
        simm = decode_simm w ∙ ap sext16 (omega (arith, sum));
      }

  pub decode-enc_r :
      (rs1 rs2 : ℕ) → rs1 < 16 → rs2 < 16 → DecodedR (enc_r opcode rd rs1 rs2) opcode rd rs1 rs2
  decode-enc_r rs1 rs2 h1 h2 =
      let w = enc_r opcode rd rs1 rs2 in
      let sum = enc_r_sum opcode rd rs1 rs2 hd h1 h2 in
      record {
        op = omega (arith, sum, decode_op w);
        rd = omega (arith, sum, decode_rd w);
        rs1 = omega (arith, sum, decode_rs1 w);
        rs2 = omega (arith, sum, decode_rs2 w);
      }
