-- ===== src/Linker/Resolve/Sites.antt =====
-- The word that a relocation leaves at its site.
use cputwo.Base.{
  ℕ, zero, suc, ◌+◌, ◌^◌, ◌≡◌, ◌≤◌, ◌<◌, inl, false, Option, none, some, List, [], ◌∷◌, ◌++◌, ltb,
  add32, refl, ap, ◌∙◌, subst, update, bit_and, ◌>>>◌, arith,
}
use mathlib.Core.Option.{some_inj}
use cputwo.Linker.Object.{LSec, LSym, LRel, ObjFile}
use cputwo.Base.Int.{sum_overflows}
use cputwo.Base.Text.{entry}
use cputwo.Linker.Symbols.{GlobSym, address, symbol_address}
use cputwo.Linker.Reloc.{patched, get32, put32, patch, store_word, patch_section}
use cputwo.Linker.Resolve.{
  replace_section, Resolution, resolved, reloc_error, reloc_undefined, patch_object, resolve_symbol,
  resolve_reloc, resolve_object,
}
use cputwo.Linker.Resolve.Frame.{
  Away, AllAway, SectionKept, EntryKept, Kept, AllDefined, AllDefined-Kept, symbol_address-Kept,
  resolve_object-Ended, SymbolFits, AddressFits, resolve_reloc-ResolvedKept, ResolvedKept,
}

-- The four bytes of a word, the least first.
abbrev pub HoldsWord : (ℕ → ℕ) → ℕ → ℕ → Type 0
HoldsWord p i w =
    (p i ≡ bit_and w 0xff)
    × (p (i + 1) ≡ bit_and (w >>> 8) 0xff)
    × (p (i + 2) ≡ bit_and (w >>> 16) 0xff)
    × (p (i + 3) ≡ bit_and (w >>> 24) 0xff)

put32-HoldsWord : (p : ℕ → ℕ) (i w : ℕ) → HoldsWord (put32 p i w) i w
unfolding put32 update
put32-HoldsWord p i w = (ground arith, ground arith, ground arith, ground arith)

HoldsWord-same :
    (p q : ℕ → ℕ) (i w : ℕ)
    → ((j : ℕ) → i ≤ j → j < i + 4 → q j ≡ p j)
    → HoldsWord p i w
    → HoldsWord q i w
HoldsWord-same p q i w same (a, b, c, d) = (
  same i (omega arith) (omega arith) ∙ a,
  same (i + 1) (omega arith) (omega arith) ∙ b,
  same (i + 2) (omega arith) (omega arith) ∙ c,
  same (i + 3) (omega arith) (omega arith) ∙ d,
)

get32-same :
    (p q : ℕ → ℕ) (i : ℕ) → ((j : ℕ) → i ≤ j → j < i + 4 → q j ≡ p j) → get32 q i ≡ get32 p i
unfolding get32
get32-same p q i same =
    rw
      (
        same i (omega arith) (omega arith),
        same (i + 1) (omega arith) (omega arith),
        same (i + 2) (omega arith) (omega arith),
        same (i + 3) (omega arith) (omega arith),
      )
      refl

-- The section that an entry keeps.
entry-Kept :
    (clear : ℕ → Type 0) (o : Option LSec) (sec : LSec) (o' : Option LSec)
    → o ≡ some sec
    → EntryKept clear o o'
    → (sec' : LSec) × (o' ≡ some sec') × SectionKept clear sec sec'
entry-Kept clear none sec o' e h = absurd (ground arith)
entry-Kept clear (some x) sec none e h = absurd h
entry-Kept clear (some x) sec (some sec') e h =
    (sec', refl, subst (λ (y : LSec). SectionKept clear y sec') (some_inj.0 e) h)

entry-replace_section :
    (secs : List LSec) (k : ℕ) (sec sec' : LSec)
    → entry secs k ≡ some sec
    → entry (replace_section secs k sec') k ≡ some sec'
unfolding entry replace_section
entry-replace_section [] k sec sec' found = absurd (ground arith)
entry-replace_section (old ∷ secs) zero sec sec' found = refl
entry-replace_section (old ∷ secs) (suc k) sec sec' found =
    entry-replace_section secs k sec sec' found

-- A relocation that patches.
module _ (globs : List GlobSym) (obj : ObjFile) (r : LRel) (sec : LSec) (symbol : LSym)
    (s w : ℕ) where
  abbrev patched_object : ObjFile
  patched_object = record obj {
    secs = replace_section obj.secs r.sec_idx (record sec { bytes = put32 sec.bytes r.offset w });
  }

  patch_section_lem :
      r.offset + 4 ≤ sec.size
      → r.offset + 4 < 2 ^ 32
      → sum_overflows s r.addend ≡ false
      → patch r.kind (get32 sec.bytes r.offset) (add32 s r.addend) (add32 sec.base r.offset)
        ≡ some w
      → patch_section sec r s ≡ patched (record sec { bytes = put32 sec.bytes r.offset w })
  unfolding patch_section store_word
  patch_section_lem fits low plain word =
      let outer : ltb sec.size (add32 r.offset 4) ≡ false = ground arith in
      let inner : ltb sec.size (r.offset + 4) ≡ false = ground arith in
      rw (patch_section, plain, outer, word, inner) refl

  resolve_reloc_lem :
      entry obj.secs r.sec_idx ≡ some sec
      → entry obj.syms r.sym_idx ≡ some symbol
      → symbol_address globs obj symbol ≡ address s
      → patch_section sec r s ≡ patched (record sec { bytes = put32 sec.bytes r.offset w })
      → resolve_reloc globs obj r ≡ resolved patched_object
  unfolding resolve_reloc resolve_symbol patch_object
  resolve_reloc_lem section_found symbol_found place patch_made =
      rw
        (
          resolve_reloc, section_found, symbol_found, resolve_symbol, place, patch_object,
          patch_made,
        )
        refl

-- The loop over two lists of relocations.
resolve_object-append :
    (globs : List GlobSym) (obj obj1 : ObjFile) (before rest : List LRel) (errors count : ℕ)
    → resolve_object globs obj before errors ≡ some (obj1, count)
    → resolve_object globs obj (before ++ rest) errors ≡ resolve_object globs obj1 rest count
unfolding resolve_object
resolve_object-append globs obj obj1 [] rest errors count e =
    let p : ◌≡◌ {A = ObjFile × ℕ} (obj, errors) (obj1, count) = some_inj.0 e in
    ap (λ (q : ObjFile × ℕ). resolve_object globs (q.0) rest (q.1)) p
resolve_object-append globs obj obj1 (r ∷ before) rest errors count e =
    by_reloc (resolve_reloc globs obj r)
      (λ obj' errors'. resolve_object-append globs obj' obj1 before rest errors' count) e
  where
    by_reloc :
        (x : Resolution)
        → ((obj' : ObjFile) (errors' : ℕ)
            → resolve_object globs obj' before errors' ≡ some (obj1, count)
            → resolve_object globs obj' (before ++ rest) errors'
              ≡ resolve_object globs obj1 rest count)
        → (elim x as (λ y. Option (ObjFile × ℕ)) [
          | resolved obj' ↦ resolve_object globs obj' before errors
          | reloc_error ↦ resolve_object globs obj before (errors + 1)
          | reloc_undefined ↦ none
        ])
          ≡ some (obj1, count)
        → (elim x as (λ y. Option (ObjFile × ℕ)) [
          | resolved obj' ↦ resolve_object globs obj' (before ++ rest) errors
          | reloc_error ↦ resolve_object globs obj (before ++ rest) (errors + 1)
          | reloc_undefined ↦ none
        ])
          ≡ resolve_object globs obj1 rest count
    by_reloc (resolved obj') later h = later obj' errors h
    by_reloc reloc_error later h = later obj (errors + 1) h
    by_reloc reloc_undefined later h = absurd (ground arith)

AllDefined-append :
    (globs : List GlobSym) (obj : ObjFile) (before rest : List LRel)
    → AllDefined globs obj (before ++ rest)
    → AllDefined globs obj before × AllDefined globs obj rest
AllDefined-append globs obj [] rest h = (tt, h)
AllDefined-append globs obj (r ∷ before) rest (here, h) =
    let (first, second) = AllDefined-append globs obj before rest h in ((here, first), second)

-- The relocation, and those behind it, which do not touch its site.
patched_first :
    (globs : List GlobSym) (obj : ObjFile) (r : LRel) (after : List LRel) (errors : ℕ) (sec : LSec)
    (symbol : LSym) (s w : ℕ)
    → AllDefined globs obj (r ∷ after)
    → ((j : ℕ) → r.offset ≤ j → j < r.offset + 4 → AllAway after r.sec_idx j)
    → entry obj.secs r.sec_idx ≡ some sec
    → resolve_reloc globs obj r ≡ resolved (patched_object globs obj r sec symbol s w)
    → (last : ObjFile) × (count : ℕ) × (sec' : LSec) × (resolve_object globs obj (r ∷ after) errors
        ≡ some (last, count))
      × (entry last.secs r.sec_idx ≡ some sec')
      × HoldsWord sec'.bytes r.offset w
unfolding resolve_object
patched_first globs obj r after errors sec symbol s w (here, later) clear found made =
    let obj2 = patched_object globs obj r sec symbol s w in
    let kept : Kept (Away r) obj obj2 =
      subst (ResolvedKept obj r) made (resolve_reloc-ResolvedKept globs obj r here) in
    let end =
      resolve_object-Ended globs obj2 after errors
        (AllDefined-Kept globs (Away r) kept after later) in
    let sec2 = record sec { bytes = put32 sec.bytes r.offset w } in
    let (sec', at, (base, size, bytes)) =
      entry-Kept (AllAway after r.sec_idx) (entry obj2.secs r.sec_idx) sec2
        (entry (end.last).secs r.sec_idx) (entry-replace_section obj.secs r.sec_idx sec sec2 found)
        (end.kept.sections r.sec_idx) in
    (
      end.last,
      end.count,
      sec',
      rw (resolve_object, made) end.result,
      at,
      HoldsWord-same sec2.bytes sec'.bytes r.offset w
          (λ j low high. bytes j (inl (clear j low high))) (put32-HoldsWord sec.bytes r.offset w),
    )

-- Where every relocation of a list is defined in C (its symbol's index and that symbol's section lie
-- in the object's arrays, the offset and 4 stay below 2^32, the addend does not overflow): a
-- relocation of the list that lies in its section, has a symbol with an address, has a word to store
-- and shares no byte with the relocations before and behind it ends with that word at its site, the
-- least byte first, when `resolve_relocs` is through with the list, and the loop gets through.
pub resolve_object_site :
    (globs : List GlobSym) (obj : ObjFile) (before : List LRel) (r : LRel) (after : List LRel)
    (errors : ℕ) (sec : LSec) (symbol : LSym) (s w : ℕ)
    → AllDefined globs obj (before ++ r ∷ after)
    → ((j : ℕ) → r.offset ≤ j → j < r.offset + 4 → AllAway before r.sec_idx j)
    → ((j : ℕ) → r.offset ≤ j → j < r.offset + 4 → AllAway after r.sec_idx j)
    → entry obj.secs r.sec_idx ≡ some sec
    → entry obj.syms r.sym_idx ≡ some symbol
    → symbol_address globs obj symbol ≡ address s
    → r.offset + 4 ≤ sec.size
    → patch r.kind (get32 sec.bytes r.offset) (add32 s r.addend) (add32 sec.base r.offset) ≡ some w
    → (last : ObjFile) × (count : ℕ) × (sec' : LSec) × (resolve_object globs obj
          (before ++ r ∷ after)
          errors
        ≡ some (last, count))
      × (entry last.secs r.sec_idx ≡ some sec')
      × HoldsWord sec'.bytes r.offset w
resolve_object_site globs obj before r after errors sec symbol s w defined clear1 clear2 found
      symbol_found place fits word =
    let (first, rest) = AllDefined-append globs obj before (r ∷ after) defined in
    let start = resolve_object-Ended globs obj before errors first in
    let obj1 = start.last in
    let (sec1, at, (base, size, bytes)) =
      entry-Kept (AllAway before r.sec_idx) (entry obj.secs r.sec_idx) sec
        (entry obj1.secs r.sec_idx) found (start.kept.sections r.sec_idx) in
    let same =
      get32-same sec.bytes sec1.bytes r.offset (λ j low high. bytes j (inl (clear1 j low high))) in
    let plain =
      subst (AddressFits r.addend) place
        (subst (SymbolFits globs obj r.addend) symbol_found rest.0.1) in
    let made =
      resolve_reloc_lem globs obj1 r sec1 symbol s w at
        (ap (λ syms. entry syms r.sym_idx) start.kept.syms ∙ symbol_found)
        (symbol_address-Kept globs (AllAway before) obj obj1 symbol start.kept ∙ place)
        (patch_section_lem globs obj1 r sec1 symbol s w (omega arith) rest.0.0 plain
          (rw (base, same) word)) in
    let (last, count, sec', result, place1, end) =
      patched_first globs obj1 r after start.count sec1 symbol s w
        (AllDefined-Kept globs (AllAway before) start.kept (r ∷ after) rest) clear2 at made in
    (
      last,
      count,
      sec',
      resolve_object-append globs obj obj1 before (r ∷ after) errors start.count start.result
          ∙ result,
      place1,
      end,
    )
