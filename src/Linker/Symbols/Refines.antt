-- ===== src/Linker/Symbols/Refines.antt =====
-- The loops of `build_globals` as a map from names to addresses.
use cputwo.Base.{
  ℕ, ◌+◌, ◌<◌, ◌≤◌, ◌≡◌, refl, ap, sym, ◌∙◌, subst, Bool, true, false, not, ◌&&◌, ◌||◌, Option,
  none, some, List, [], ◌∷◌, ◌++◌, leb, ◌==◌, if◌then◌else◌, if_intro, length, add32, arith,
}
use mathlib.Core.List.{append-nil, append_assoc}
use cputwo.Base.Bytes.{length-append}
use cputwo.Linker.Object.{LSec, LSym, ObjFile}
use cputwo.Base.Text.{entry, take}
use cputwo.Linker.Symbols.{
  sec_undef, max_glob_syms, GlobSym, Globals, find_global, Building, going, full, outside,
  enter_symbol, add_symbol, then_build, add_symbols, add_objects, build_globals,
}
use cputwo.Linker.Symbols.First.{
  Definition, is_definition, definition_of, definitions_of, definitions, is_none, Refines, repeated,
  entered,
}

-- The symbols that the loops of `build_globals` may meet.
abbrev pub Fits : ObjFile → LSym → Type 0
Fits obj sym =
    (take 27 sym.name ≡ sym.name)
    × ((is_definition sym ≡ true) → is_none (entry obj.secs sym.sec_idx) ≡ false)

abbrev pub Built : List Definition → Building → Type 0
Built ds b = (g : Globals) × (b ≡ going g) × Refines ds g

abbrev AllFit : ObjFile → List LSym → Type 0
AllFit obj [] = Unit {0}
AllFit obj (sym ∷ syms) = Fits obj sym × AllFit obj syms

abbrev pub ObjectsFit : List ObjFile → Type 0
ObjectsFit [] = Unit {0}
ObjectsFit (obj ∷ objs) = AllFit obj obj.syms × ObjectsFit objs

enter_symbol-Built :
    (oi : ℕ) (sym : LSym) (addr : ℕ) (g : Globals) (ds : List Definition)
    → take 27 sym.name ≡ sym.name
    → Refines ds g
    → length ds < max_glob_syms
    → Built (ds ++ (sym.name, addr) ∷ []) (enter_symbol oi sym addr g)
unfolding enter_symbol
enter_symbol-Built oi sym addr g ds fits r room = by_name (find_global g.glob_syms sym.name) refl
  where
    new : GlobSym
    new = record { name = take 27 sym.name; abs_addr = addr; obj_idx = oi }

    by_name :
        (found : Option GlobSym)
        → find_global g.glob_syms sym.name ≡ found
        → Built (ds ++ (sym.name, addr) ∷ []) (elim found [
          | some existing ↦ going (record g { link_errors = g.link_errors + 1 })
          | none ↦
              if leb max_glob_syms (length g.glob_syms)
              then full (record g { link_errors = g.link_errors + 1 })
              else going (record g { glob_syms = g.glob_syms ++ new ∷ [] })
        ])
    by_name (some existing) e = (_, refl, repeated g ds sym.name addr existing r e)
    by_name none e =
        if_intro (Built (ds ++ (sym.name, addr) ∷ [])) (leb max_glob_syms (length g.glob_syms))
          (λ h. absurd (ground (arith, r.room)))
          (λ h. (_, refl, entered g ds sym.name addr new r e fits refl))

passed_over : (a b : Bool) → (not a || b) ≡ true → (a && not b) ≡ false
passed_over a b h = ground arith

taken_up : (a b : Bool) → (not a || b) ≡ false → (a && not b) ≡ true
taken_up a b h = ground arith

none_added : (ds es : List Definition) (g : Globals) → es ≡ [] → Refines ds g → Refines (ds ++ es) g
none_added ds es g e r = subst (λ xs. Refines xs g) (sym (ap (λ xs. ds ++ xs) e ∙ append-nil ds)) r

add_symbol-Built :
    (oi : ℕ) (obj : ObjFile) (sym : LSym) (g : Globals) (ds : List Definition)
    → Fits obj sym
    → Refines ds g
    → length ds + length (definition_of obj sym) ≤ max_glob_syms
    → Built (ds ++ definition_of obj sym) (add_symbol oi obj sym g)
unfolding add_symbol
add_symbol-Built oi obj s g ds (fits, there) r room =
    if_intro (Built (ds ++ definition_of obj s)) (not s.is_global || s.sec_idx == sec_undef)
      (λ e. (
        g,
        refl,
        none_added ds (definition_of obj s) g
            (nothing (passed_over s.is_global (s.sec_idx == sec_undef) e)) r,
      ))
      (λ e.
        by_section (entry obj.secs s.sec_idx) refl
          (taken_up s.is_global (s.sec_idx == sec_undef) e))
  where
    nothing : is_definition s ≡ false → definition_of obj s ≡ []
    nothing e = rw e refl

    by_section :
        (found : Option LSec)
        → entry obj.secs s.sec_idx ≡ found
        → is_definition s ≡ true
        → Built (ds ++ definition_of obj s) (elim found [
          | some sec ↦ enter_symbol oi s (add32 sec.base s.value) g
          | none ↦ outside
        ])
    by_section (some sec) e d =
        let one : definition_of obj s ≡ (s.name, add32 sec.base s.value) ∷ [] = rw (d, e) refl in
        subst (λ es. Built (ds ++ es) (enter_symbol oi s (add32 sec.base s.value) g)) (sym one)
          (enter_symbol-Built oi s (add32 sec.base s.value) g ds fits r
            (omega (arith, room, ap (λ (es : List Definition). length es) one)))
    by_section none e d = absurd (ground (arith, there d, e))

add_symbols-Built :
    (oi : ℕ) (obj : ObjFile) (syms : List LSym) (g : Globals) (ds : List Definition)
    → AllFit obj syms
    → Refines ds g
    → length ds + length (definitions_of obj syms) ≤ max_glob_syms
    → Built (ds ++ definitions_of obj syms) (add_symbols oi obj syms g)
unfolding add_symbols then_build
add_symbols-Built oi obj [] g ds fits r room = (g, refl, none_added ds [] g refl r)
add_symbols-Built oi obj (x ∷ syms) g ds (fit, fits) r room =
    let here = definition_of obj x in
    let more = definitions_of obj syms in
    let all : length (here ++ more) ≡ length here + length more = length-append here more in
    let both : length (ds ++ here) ≡ length ds + length here = length-append ds here in
    let (g', e, r') = add_symbol-Built oi obj x g ds fit r (omega arith) in
    let (g2, e2, r2) = add_symbols-Built oi obj syms g' (ds ++ here) fits r' (omega arith) in
    (g2, rw (then_build, e) e2, subst (λ es. Refines es g2) (append_assoc ds here more) r2)

add_objects-Built :
    (oi : ℕ) (objs : List ObjFile) (g : Globals) (ds : List Definition)
    → ObjectsFit objs
    → Refines ds g
    → length ds + length (definitions objs) ≤ max_glob_syms
    → Built (ds ++ definitions objs) (add_objects oi objs g)
unfolding add_objects then_build
add_objects-Built oi [] g ds fits r room = (g, refl, none_added ds [] g refl r)
add_objects-Built oi (obj ∷ objs) g ds (fit, fits) r room =
    let here = definitions_of obj obj.syms in
    let more = definitions objs in
    let all : length (here ++ more) ≡ length here + length more = length-append here more in
    let both : length (ds ++ here) ≡ length ds + length here = length-append ds here in
    let (g', e, r') = add_symbols-Built oi obj obj.syms g ds fit r (omega arith) in
    let (g2, e2, r2) = add_objects-Built (oi + 1) objs g' (ds ++ here) fits r' (omega arith) in
    (g2, rw (then_build, e) e2, subst (λ es. Refines es g2) (append_assoc ds here more) r2)

-- Where every name has at most 27 bytes, every definition's section is one of its object, and there
-- are at most 8192 definitions, `build_globals` comes to its end, with a table in which every name
-- has the address of its first definition in the order of the objects and of their symbols, and
-- with no error counted exactly when no two definitions have one name.
pub build_globals-Refines :
    (objs : List ObjFile)
    → ObjectsFit objs
    → length (definitions objs) ≤ max_glob_syms
    → (g : Globals) × (build_globals objs ≡ going g) × Refines (definitions objs) g
unfolding build_globals find_global
build_globals-Refines objs fits room =
    add_objects-Built 0 objs (record { glob_syms = []; link_errors = 0 }) [] fits nothing_yet
      (omega arith)
  where
    nothing_yet : Refines [] (record { glob_syms = []; link_errors = 0 })
    nothing_yet = record { lookup = λ name. refl; errors = refl; room = omega arith }
