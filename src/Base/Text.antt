-- ===== src/Base/Text.antt =====
-- What the programs use of <string.h>, <ctype.h> and <stdlib.h>, on C strings as lists of bytes
-- with no zero among them.
use Prim.Native.Char.{code}
use Prim.Native.Nat.{ℕ, zero, suc, ◌+◌, ◌-◌, ◌*◌}
use Prim.Native.String.{String}
use mathlib.Core.Bool.{Bool, true, false, ◌&&◌, ◌||◌}
use mathlib.Core.List.{List, [], ◌∷◌}
use mathlib.Core.Option.{Option, none, some}
use cputwo.Base.Tests.{ltb, leb, ◌==◌, if◌then◌else◌}

-- The bytes of a literal.
abbrev pub bytes_of : String → List ℕ
bytes_of String.[] = []
bytes_of (String.◌∷◌ c s) = code c ∷ bytes_of s

-- `strcmp(a, b) == 0`
unfoldable pub same_name : List ℕ → List ℕ → Bool
same_name [] [] = true
same_name [] (y ∷ b) = false
same_name (x ∷ a) [] = false
same_name (x ∷ a) (y ∷ b) = x == y && same_name a b

-- `toupper`, and `strcasecmp(a, b) == 0`.
unfoldable pub to_upper : ℕ → ℕ
to_upper c = if leb b'a' c && leb c b'z' then c - 32 else c

unfoldable pub same_nocase : List ℕ → List ℕ → Bool
same_nocase [] [] = true
same_nocase [] (y ∷ b) = false
same_nocase (x ∷ a) [] = false
same_nocase (x ∷ a) (y ∷ b) = to_upper x == to_upper y && same_nocase a b

unfoldable pub is_digit : ℕ → Bool
is_digit c = leb b'0' c && leb c b'9'

unfoldable pub is_alpha : ℕ → Bool
is_alpha c = (leb b'a' c && leb c b'z') || (leb b'A' c && leb c b'Z')

unfoldable pub is_alnum : ℕ → Bool
is_alnum c = is_digit c || is_alpha c

-- The value of a digit in bases up to 16, and 16 for any other byte.
unfoldable pub digit_value : ℕ → ℕ
digit_value c =
    if is_digit c
    then c - b'0'
    else if leb b'a' c && leb c b'f'
    then c - b'a' + 10
    else if leb b'A' c && leb c b'F'
    then c - b'A' + 10
    else 16

-- The number that the digits at the front give, after `acc`, and what follows them.
unfoldable pub read_digits : ℕ → ℕ → List ℕ → ℕ × List ℕ
read_digits base acc [] = (acc, [])
read_digits base acc (c ∷ cs) =
    let more = read_digits base (acc * base + digit_value c) cs in
    if ltb (digit_value c) base then more else (acc, c ∷ cs)

-- An element of an array by its index.
unfoldable pub entry {ℓ} : {A : Type ℓ} → List A → ℕ → Option A
entry [] i = none
entry (x ∷ xs) zero = some x
entry (x ∷ xs) (suc i) = entry xs i

-- The first `n` elements.
unfoldable pub take {ℓ} : {A : Type ℓ} → ℕ → List A → List A
take zero xs = []
take (suc n) [] = []
take (suc n) (x ∷ xs) = x ∷ take n xs

-- The bytes of a string up to its first zero, as `strlen` counts them.
unfoldable pub c_string : List ℕ → List ℕ
c_string [] = []
c_string (c ∷ cs) = if c == 0 then [] else c ∷ c_string cs
