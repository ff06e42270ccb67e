-- ===== src/Dobj/Fields.antt =====
-- The numbers and the names of an object file, as one program writes and the other reads them.
use cputwo.Base.{
  ℕ, zero, suc, ◌+◌, ◌*◌, ◌/◌, ◌%◌, ◌^◌, ◌<◌, ◌≡◌, refl, ap, ◌∙◌, false, List, [], ◌∷◌, ◌++◌, ◌==◌,
  bit_and, bit_or, ◌<<<◌, ◌>>>◌, u32, arith,
}
use cputwo.Base.Bits.{bit_and_mask, bit_or_fields_low}
use cputwo.Base.Bytes.{◌>>=◌, read_byte, split_at}
use cputwo.Base.Text.{c_string, take}
use cputwo.Assembler.Dobj.{wle32, wle16, fputc, padded}
use cputwo.Emulator.Memory.Words.{join_bytes}
use cputwo.Linker.Load.{rd32, rd16}

-- Numbers.
byte_of : (v k : ℕ) → bit_and (v >>> k) 0xff ≡ v / 2 ^ k % 256
byte_of v k = bit_and_mask 8 (v >>> k)

u32_fits : (v : ℕ) → v < 2 ^ 32 → u32 v ≡ v
u32_fits v h = omega arith

-- Four bytes joined in 32 bits.
join_words :
    (a b c d : ℕ)
    → a < 256
    → b < 256
    → c < 256
    → d < 256
    → bit_or (bit_or (bit_or a (u32 (b <<< 8))) (u32 (c <<< 16))) (u32 (d <<< 24))
      ≡ a + b * 2 ^ 8 + c * 2 ^ 16 + d * 2 ^ 24
join_words a b c d ha hb hc hd =
    rw
      (
        u32_fits (b <<< 8) (omega arith),
        u32_fits (c <<< 16) (omega arith),
        u32_fits (d <<< 24) (omega arith),
      )
      (join_bytes a b c d ha hb hc)

pub rd32-wle32 : (v : ℕ) (rest : List ℕ) → v < 2 ^ 32 → rd32 (wle32 v ++ rest) ≡ (v, rest)
unfolding rd32 wle32 ◌>>=◌
rd32-wle32 v rest h =
    ap (λ (w : ℕ). (w, rest))
      (rw (bit_and_mask 8 v, byte_of v 8, byte_of v 16, byte_of v 24)
        (join_words (v % 256) (v / 2 ^ 8 % 256) (v / 2 ^ 16 % 256) (v / 2 ^ 24 % 256) (omega arith)
            (omega arith) (omega arith) (omega arith)
          ∙ omega arith))

join_half : (a b : ℕ) → a < 256 → b < 256 → bit_or a (u32 (b <<< 8)) ≡ a + b * 2 ^ 8
join_half a b ha hb = rw (u32_fits (b <<< 8) (omega arith)) (bit_or_fields_low 8 b a ha)

pub rd16-wle16 : (v : ℕ) (rest : List ℕ) → v < 2 ^ 16 → rd16 (wle16 v ++ rest) ≡ (v, rest)
unfolding rd16 wle16 ◌>>=◌
rd16-wle16 v rest h =
    ap (λ (w : ℕ). (w, rest))
      (rw (bit_and_mask 8 v, byte_of v 8)
        (omega (arith, join_half (v % 256) (v / 2 ^ 8 % 256) (omega arith) (omega arith))))

pub read_byte-fputc : (b : ℕ) (rest : List ℕ) → b < 256 → read_byte (fputc b ++ rest) ≡ (b, rest)
unfolding fputc
read_byte-fputc b rest h = ap (λ (w : ℕ). (w, rest)) (omega arith)

-- Names.
abbrev pub NoZero : List ℕ → Type 0
NoZero [] = Unit {0}
NoZero (c ∷ cs) = (0 < c) × NoZero cs

pub split_at-padded :
    (n : ℕ) (name rest : List ℕ) → split_at n (padded n name ++ rest) ≡ (padded n name, rest)
unfolding padded
split_at-padded zero name rest = refl
split_at-padded (suc n) [] rest =
    ap (λ (p : List ℕ × List ℕ). (0 ∷ p.0, p.1)) (split_at-padded n [] rest)
split_at-padded (suc n) (b ∷ bs) rest =
    ap (λ (p : List ℕ × List ℕ). (b ∷ p.0, p.1)) (split_at-padded n bs rest)

zero_test : (b : ℕ) → 0 < b → (b == 0) ≡ false
zero_test b h = ground arith

pub c_string-padded :
    (n k : ℕ) (name : List ℕ)
    → k < n
    → NoZero name
    → c_string (padded n (take k name)) ≡ take k name
unfolding padded c_string take
c_string-padded zero k name lt h = absurd (omega arith)
c_string-padded (suc n) zero name lt h = refl
c_string-padded (suc n) (suc k) [] lt h = refl
c_string-padded (suc n) (suc k) (b ∷ bs) lt (pos, rest) =
    rw (zero_test b pos) (ap (λ (cs : List ℕ). b ∷ cs) (c_string-padded n k bs (omega arith) rest))
