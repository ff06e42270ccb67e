-- ===== src/Base/Bytes.antt =====
-- Little-endian numbers and records in a file of bytes. A read at the end of the file gives what
-- `fgetc` gives there, -1, as a byte.
use Prim.Native.Nat.{ℕ, zero, suc, ◌+◌}
use mathlib.Core.Path.{◌≡◌, refl, ap}
use mathlib.Core.List.{List, [], ◌∷◌, ◌++◌}
use native.Mathlib.Omega.{arith}
use cputwo.Base.Tests.{length}

abbrev pub read_byte : List ℕ → ℕ × List ℕ
read_byte [] = (255, [])
read_byte (b ∷ file) = (b, file)

module _ {ℓ} {A : Type ℓ} where
  -- The first `n` elements, and what follows them.
  abbrev pub split_at : ℕ → List A → List A × List A
  split_at zero xs = ([], xs)
  split_at (suc n) [] = ([], [])
  split_at (suc n) (x ∷ xs) = let (front, back) = split_at n xs in (x ∷ front, back)

  abbrev pub drop : ℕ → List A → List A
  drop zero xs = xs
  drop (suc n) [] = []
  drop (suc n) (x ∷ xs) = drop n xs

  pub length-append : (xs ys : List A) → length (xs ++ ys) ≡ length xs + length ys
  length-append [] ys = omega arith
  length-append (x ∷ xs) ys = omega (arith, length-append xs ys)

  pub drop-append : (xs ys : List A) → drop (length xs) (xs ++ ys) ≡ ys
  drop-append [] ys = refl
  drop-append (x ∷ xs) ys = drop-append xs ys

  pub split_at-append : (xs ys : List A) → split_at (length xs) (xs ++ ys) ≡ (xs, ys)
  split_at-append [] ys = refl
  split_at-append (x ∷ xs) ys = ap (λ (p : List A × List A). (x ∷ p.0, p.1)) (split_at-append xs ys)

-- Reading a file from the front.
abbrev pub Read {ℓ} : Type ℓ → Type ℓ
Read A = List ℕ → A × List ℕ

abbrev pub pure {ℓ} : {A : Type ℓ} → A → Read A
pure a file = (a, file)

infixl 5 ◌>>=◌
unfoldable pub ◌>>=◌ {ℓ κ} : {A : Type ℓ} {B : Type κ} → Read A → (A → Read B) → Read B
(read >>= f) file = let (a, rest) = read file in f a rest

-- The next part of the file is read back.
module _ {ℓ κ} {A : Type ℓ} {B : Type κ} (read : Read A) (f : A → Read B) where
  pub read_on :
      {a : A} {file rest : List ℕ} {result : B × List ℕ}
      → read file ≡ (a, rest)
      → f a rest ≡ result
      → (read >>= f) file ≡ result
  unfolding ◌>>=◌
  read_on back after = rw back after

-- `n` records in a row, and one after the other of a list.
module _ {ℓ} {A : Type ℓ} where
  unfoldable pub read_records : Read A → ℕ → Read (List A)
  read_records read zero = pure []
  read_records read (suc n) = do a ← read; others ← read_records read n; pure (a ∷ others)

  unfoldable pub write_records : (A → List ℕ) → List A → List ℕ
  write_records write [] = []
  write_records write (a ∷ others) = write a ++ write_records write others
