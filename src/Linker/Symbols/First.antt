-- ===== src/Linker/Symbols/First.antt =====
-- The table of global symbols as a map from names to addresses.
use cputwo.Base.{
  ℕ, ◌+◌, ◌≤◌, ◌≡◌, refl, ap, sym, ◌∙◌, Bool, true, false, not, ◌&&◌, Option, none, some, List, [],
  ◌∷◌, ◌++◌, ◌==◌, if◌then◌else◌, length, add32, arith,
}
use cputwo.Base.Bytes.{length-append}
use cputwo.Linker.Object.{LSec, LSym, ObjFile}
use cputwo.Base.Text.{same_name, entry}
use cputwo.Linker.Symbols.{sec_undef, GlobSym, Globals, find_global}

-- A definition of a global symbol: its name and its address.
abbrev pub Definition : Type 0
Definition = List ℕ × ℕ

abbrev pub is_definition : LSym → Bool
is_definition sym = sym.is_global && not (sym.sec_idx == sec_undef)

abbrev pub base_of : Option LSec → ℕ
base_of (some sec) = sec.base
base_of none = 0

-- What a symbol of an object defines.
abbrev pub definition_of : ObjFile → LSym → List Definition
definition_of obj sym =
    if is_definition sym
    then (sym.name, add32 (base_of (entry obj.secs sym.sec_idx)) sym.value) ∷ []
    else []

abbrev pub definitions_of : ObjFile → List LSym → List Definition
definitions_of obj [] = []
definitions_of obj (sym ∷ syms) = definition_of obj sym ++ definitions_of obj syms

-- The definitions of all objects, in the order of the objects and of their symbols.
abbrev pub definitions : List ObjFile → List Definition
definitions [] = []
definitions (obj ∷ objs) = definitions_of obj obj.syms ++ definitions objs

abbrev or_else {ℓ} : {A : Type ℓ} → Option A → Option A → Option A
or_else (some a) b = some a
or_else none b = b

-- The address of the first definition of a name.
abbrev pub first_definition : List Definition → List ℕ → Option ℕ
first_definition [] name = none
first_definition ((n, addr) ∷ ds) name =
    let rest = first_definition ds name in if same_name n name then some addr else rest

abbrev pub is_none {ℓ} : {A : Type ℓ} → Option A → Bool
is_none none = true
is_none (some a) = false

-- No two definitions have one name.
abbrev pub distinct : List Definition → Bool
distinct [] = true
distinct ((n, addr) ∷ ds) = is_none (first_definition ds n) && distinct ds

abbrev pub addr_of : Option GlobSym → Option ℕ
addr_of (some g) = some g.abs_addr
addr_of none = none

-- The table holds the first definition of every name, and an error is counted exactly when two
-- definitions have one name.
pub record Refines (ds : List Definition) (g : Globals) : Type 0 where
  pub lookup : (name : List ℕ) → addr_of (find_global g.glob_syms name) ≡ first_definition ds name
  pub errors : (g.link_errors == 0) ≡ distinct ds
  pub room : length g.glob_syms ≤ length ds

same_name_eq : (a b : List ℕ) → same_name a b ≡ true → a ≡ b
unfolding same_name
same_name_eq [] [] h = refl
same_name_eq [] (y ∷ b) h = absurd (cc)
same_name_eq (x ∷ a) [] h = absurd (cc)
same_name_eq (x ∷ a) (y ∷ b) h = ground (arith, same_name_eq a b)

same_name_refl : (a : List ℕ) → same_name a a ≡ true
unfolding same_name
same_name_refl [] = refl
same_name_refl (x ∷ a) = ground (arith, same_name_refl a)

first_definition-append :
    (ds es : List Definition) (name : List ℕ)
    → first_definition (ds ++ es) name
      ≡ or_else (first_definition ds name) (first_definition es name)
first_definition-append [] es name = refl
first_definition-append ((n, addr) ∷ ds) es name =
    ground (arith, first_definition-append ds es name)

find_global-append :
    (gs : List GlobSym) (new : GlobSym) (name : List ℕ)
    → find_global (gs ++ new ∷ []) name
      ≡ or_else (find_global gs name) (if same_name new.name name then some new else none)
unfolding find_global
find_global-append [] new name = refl
find_global-append (g ∷ gs) new name = ground (arith, find_global-append gs new name)

same_name_sym : (a b : List ℕ) → same_name a b ≡ same_name b a
unfolding same_name
same_name_sym [] [] = refl
same_name_sym [] (y ∷ b) = refl
same_name_sym (x ∷ a) [] = refl
same_name_sym (x ∷ a) (y ∷ b) = ground (arith, same_name_sym a b)

or_else-none {ℓ} : {A : Type ℓ} (a : Option A) → or_else a none ≡ a
or_else-none (some a) = refl
or_else-none none = refl

distinct-append :
    (ds : List Definition) (n : List ℕ) (addr : ℕ)
    → distinct (ds ++ (n, addr) ∷ []) ≡ (distinct ds && is_none (first_definition ds n))
distinct-append [] n addr = refl
distinct-append ((m, a) ∷ ds) n addr = ground (
  arith,
  distinct-append ds n addr,
  first_definition-append ds ((n, addr) ∷ []) m,
  same_name_sym m n,
)

-- A second definition of a name.
pub repeated :
    (g : Globals) (ds : List Definition) (n : List ℕ) (addr : ℕ) (existing : GlobSym)
    → Refines ds g
    → find_global g.glob_syms n ≡ some existing
    → Refines (ds ++ (n, addr) ∷ []) (record g { link_errors = g.link_errors + 1 })
repeated g ds n addr existing r found =
    let known : first_definition ds n ≡ some existing.abs_addr =
      sym (r.lookup n) ∙ ap addr_of found in
    record {
      lookup = λ name.
          r.lookup name ∙ sym (first_definition-append ds ((n, addr) ∷ []) name ∙ kept name known);
      errors = ground (arith, distinct-append ds n addr, known);
      room = omega (arith, length-append {A = Definition} ds ((n, addr) ∷ []), r.room);
    }
  where
    kept :
        (name : List ℕ)
        → first_definition ds n ≡ some existing.abs_addr
        → or_else (first_definition ds name) (first_definition ((n, addr) ∷ []) name)
          ≡ first_definition ds name
    kept name known = ground (arith, same_name_eq n name)

-- The first definition of a name.
pub entered :
    (g : Globals) (ds : List Definition) (n : List ℕ) (addr : ℕ) (new : GlobSym)
    → Refines ds g
    → find_global g.glob_syms n ≡ none
    → new.name ≡ n
    → new.abs_addr ≡ addr
    → Refines (ds ++ (n, addr) ∷ []) (record g { glob_syms = g.glob_syms ++ new ∷ [] })
entered g ds n addr new r fresh named at =
    let unknown : first_definition ds n ≡ none = sym (r.lookup n) ∙ ap addr_of fresh in
    record {
      lookup = λ name.
          ap addr_of (find_global-append g.glob_syms new name)
          ∙ joined name (r.lookup name)
          ∙ sym (first_definition-append ds ((n, addr) ∷ []) name);
      errors = r.errors ∙ sym (distinct-append ds n addr ∙ ground (arith, unknown));
      room = omega (
        arith,
        length-append {A = Definition} ds ((n, addr) ∷ []),
        length-append {A = GlobSym} g.glob_syms (new ∷ []),
        r.room,
      );
    }
  where
    joined :
        (name : List ℕ)
        → addr_of (find_global g.glob_syms name) ≡ first_definition ds name
        → addr_of (
            or_else
              (find_global g.glob_syms name)
              (if same_name new.name name then some new else none))
          ≡ or_else (first_definition ds name) (first_definition ((n, addr) ∷ []) name)
    joined name e = ground arith
