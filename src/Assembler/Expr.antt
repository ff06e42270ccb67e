-- ===== src/Assembler/Expr.antt =====
-- `eval_expr`. An expression is a list of tokens, and what is left of it is returned with the value;
-- `int64_t` arithmetic that overflows is undefined.
use cputwo.Base.{ℕ, ◌^◌, Bool, true, false, none, some, List, [], ◌∷◌, ltb, if◌then◌else◌}
use cputwo.Base.Int.{ℤ, pos, negsuc, ◌+ℤ◌, ◌-ℤ◌, shift_ℤ}
use cputwo.Assembler.Token.{Token, ident, int, plus, minus, rshift, colon}
use cputwo.Assembler.Parse.{Parse, ok, bad, undefined, ◌>>=◌}
use cputwo.Assembler.State.{Symbol, find_symbol}

-- The argument `pass`.
pub data Pass : Type 0 where
  first second : Pass

unfoldable pub is_second : Pass → Bool
is_second first = false
is_second second = true

-- An `int64_t` result that fits.
unfoldable pub fits64 : ℤ → Bool
fits64 (pos n) = ltb n (2 ^ 63)
fits64 (negsuc n) = ltb n (2 ^ 63)

unfoldable pub checked : ℤ → Parse ℤ
checked v = if fits64 v then ok v else undefined

-- `val >>= rhs`, undefined for a count outside 0 to 63.
unfoldable pub shift_checked : ℤ → ℤ → Parse ℤ
shift_checked v (pos k) = if ltb k 64 then ok (shift_ℤ v k) else undefined
shift_checked v (negsuc k) = undefined

-- A symbol's address: 0 in the first pass as long as there is none, an error in the second.
unfoldable pub symbol_value : Pass → List Symbol → List ℕ → Parse ℤ
symbol_value pass syms name = elim (find_symbol syms name) [
  | some s ↦ ok (pos s.addr)
  | none ↦ if is_second pass then bad else ok (pos 0)
]

unfoldable pub operand : Pass → List Symbol → Token → Parse ℤ
operand pass syms (int v) = ok v
operand pass syms (ident name) = symbol_value pass syms name
operand pass syms t = bad

-- The first operand may be a name with a colon.
unfoldable pub first_operand : Pass → List Symbol → Token → Parse ℤ
first_operand pass syms (colon name) = symbol_value pass syms name
first_operand pass syms t = operand pass syms t

-- The loop over operators and their operands.
unfoldable pub eval_tail : Pass → List Symbol → ℤ → List Token → Parse (ℤ × List Token)
eval_tail pass syms v (plus ∷ t ∷ rest) = do
  rhs ← operand pass syms t
  v' ← checked (v +ℤ rhs)
  eval_tail pass syms v' rest
eval_tail pass syms v (minus ∷ t ∷ rest) = do
  rhs ← operand pass syms t
  v' ← checked (v -ℤ rhs)
  eval_tail pass syms v' rest
eval_tail pass syms v (rshift ∷ t ∷ rest) = do
  rhs ← operand pass syms t
  v' ← shift_checked v rhs
  eval_tail pass syms v' rest
eval_tail pass syms v (plus ∷ []) = bad
eval_tail pass syms v (minus ∷ []) = bad
eval_tail pass syms v (rshift ∷ []) = bad
eval_tail pass syms v rest = ok (v, rest)

unfoldable pub eval_expr : Pass → List Symbol → List Token → Parse (ℤ × List Token)
eval_expr pass syms [] = bad
eval_expr pass syms (minus ∷ []) = bad
eval_expr pass syms (minus ∷ t ∷ rest) = do
  v ← first_operand pass syms t
  v' ← checked (pos 0 -ℤ v)
  eval_tail pass syms v' rest
eval_expr pass syms (t ∷ rest) = do v ← first_operand pass syms t; eval_tail pass syms v rest
