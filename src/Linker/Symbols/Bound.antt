-- ===== src/Linker/Symbols/Bound.antt =====
-- The bound of the table of global symbols.
use cputwo.Base.{
  ℕ, ◌+◌, ◌<◌, ◌≤◌, ◌≡◌, not, ◌||◌, Option, none, some, List, [], ◌∷◌, ◌++◌, leb, ◌==◌,
  if◌then◌else◌, if_intro, length, add32, arith,
}
use cputwo.Linker.Object.{LSec, LSym, ObjFile}
use cputwo.Base.Text.{entry, take}
use cputwo.Linker.Symbols.{
  sec_undef, max_glob_syms, GlobSym, Globals, find_global, Building, going, full, outside,
  enter_symbol, add_symbol, then_build, add_symbols, add_objects, build_globals,
}

-- What holds of the table wherever `build_globals` stands.
abbrev pub Bounded : Building → Type 0
Bounded (going g) = length g.glob_syms ≤ max_glob_syms
Bounded (full g) = (length g.glob_syms ≡ max_glob_syms) × (0 < g.link_errors)
Bounded outside = Unit {0}

length-append_one {ℓ} : {A : Type ℓ} (xs : List A) (x : A) → length (xs ++ x ∷ []) ≡ length xs + 1
length-append_one [] x = omega arith
length-append_one (y ∷ xs) x = omega (arith, length-append_one xs x)

enter_symbol-Bounded :
    (oi : ℕ) (sym : LSym) (abs_addr : ℕ) (g : Globals)
    → length g.glob_syms ≤ max_glob_syms
    → Bounded (enter_symbol oi sym abs_addr g)
unfolding enter_symbol
enter_symbol-Bounded oi sym abs_addr g h = by_name (find_global g.glob_syms sym.name)
  where
    new : GlobSym
    new = record { name = take 27 sym.name; abs_addr = abs_addr; obj_idx = oi }

    by_name :
        (found : Option GlobSym)
        → Bounded (elim found [
          | some existing ↦ going (record g { link_errors = g.link_errors + 1 })
          | none ↦
              if leb max_glob_syms (length g.glob_syms)
              then full (record g { link_errors = g.link_errors + 1 })
              else going (record g { glob_syms = g.glob_syms ++ new ∷ [] })
        ])
    by_name (some existing) = h
    by_name none =
        if_intro Bounded (leb max_glob_syms (length g.glob_syms)) (λ e. (ground arith, omega arith))
          (λ e. ground (arith, length-append_one g.glob_syms new))

add_symbol-Bounded :
    (oi : ℕ) (obj : ObjFile) (sym : LSym) (g : Globals)
    → length g.glob_syms ≤ max_glob_syms
    → Bounded (add_symbol oi obj sym g)
unfolding add_symbol
add_symbol-Bounded oi obj sym g h =
    if_intro Bounded (not sym.is_global || sym.sec_idx == sec_undef) (λ e. h)
      (λ e. by_section (entry obj.secs sym.sec_idx))
  where
    by_section :
        (found : Option LSec)
        → Bounded (elim found [
          | some sec ↦ enter_symbol oi sym (add32 sec.base sym.value) g
          | none ↦ outside
        ])
    by_section (some sec) = enter_symbol-Bounded oi sym _ g h
    by_section none = tt

then_build-Bounded :
    (b : Building) (rest : Globals → Building)
    → Bounded b
    → ((g : Globals) → length g.glob_syms ≤ max_glob_syms → Bounded (rest g))
    → Bounded (then_build b rest)
unfolding then_build
then_build-Bounded (going g) rest h k = k g h
then_build-Bounded (full g) rest h k = h
then_build-Bounded outside rest h k = tt

add_symbols-Bounded :
    (oi : ℕ) (obj : ObjFile) (syms : List LSym) (g : Globals)
    → length g.glob_syms ≤ max_glob_syms
    → Bounded (add_symbols oi obj syms g)
unfolding add_symbols
add_symbols-Bounded oi obj [] g h = h
add_symbols-Bounded oi obj (sym ∷ syms) g h =
    then_build-Bounded (add_symbol oi obj sym g) _ (add_symbol-Bounded oi obj sym g h)
      (λ g' h'. add_symbols-Bounded oi obj syms g' h')

add_objects-Bounded :
    (oi : ℕ) (objs : List ObjFile) (g : Globals)
    → length g.glob_syms ≤ max_glob_syms
    → Bounded (add_objects oi objs g)
unfolding add_objects
add_objects-Bounded oi [] g h = h
add_objects-Bounded oi (obj ∷ objs) g h =
    then_build-Bounded (add_symbols oi obj obj.syms g) _ (add_symbols-Bounded oi obj obj.syms g h)
      (λ g' h'. add_objects-Bounded (oi + 1) objs g' h')

-- Whatever the objects, the table of global symbols never holds more entries than the array has,
-- and `build_globals` stops early only with all of them in use and an error counted.
pub build_globals-Bounded : (objs : List ObjFile) → Bounded (build_globals objs)
unfolding build_globals
build_globals-Bounded objs =
    add_objects-Bounded 0 objs (record { glob_syms = []; link_errors = 0 }) (omega arith)
