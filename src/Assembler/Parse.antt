-- ===== src/Assembler/Parse.antt =====
-- Results of the parsing functions of assembler.c, which return 0 after one call of `asm_error`.

-- A value, an error that has been reported, or an operation that C leaves undefined.
pub data Parse {ℓ} (A : Type ℓ) : Type ℓ where
  ok : A → Parse A
  bad : Parse A
  undefined : Parse A

infixl 5 ◌>>=◌ ◌>>◌
abbrev pub ◌>>=◌ {ℓ κ} : {A : Type ℓ} {B : Type κ} → Parse A → (A → Parse B) → Parse B
ok a >>= f = f a
bad >>= f = bad
undefined >>= f = undefined

abbrev pub ◌>>◌ {ℓ} : {B : Type ℓ} → Parse (Unit {0}) → Parse B → Parse B
m >> k = m >>= λ u. k
