-- ===== src/Linker/Resolve/Frame.antt =====
-- What the relocations of an object leave alone.
use cputwo.Base.{
  ℕ, zero, suc, ◌+◌, ◌^◌, ◌≡◌, ◌≤◌, ◌<◌, ◌⊎◌, inl, inr, false, Option, none, some, List, [], ◌∷◌,
  length, if_intro, ltb, ◌==◌, if◌then◌else◌, add32, refl, sym, ap, ◌∙◌, subst, update, arith,
}
use mathlib.Core.Option.{some_inj}
use cputwo.Linker.Object.{LSec, LSym, LRel, ObjFile}
use cputwo.Base.Int.{sum_overflows}
use cputwo.Base.Text.{entry}
use cputwo.Linker.Symbols.{
  GlobSym, Target, address, undefined_symbol, bad_index, symbol_address, sec_undef, find_global,
}
use cputwo.Linker.Reloc.{
  Patched, patched, patch_error, patch_undefined, get32, put32, patch, store_word, patch_section,
}
use cputwo.Linker.Resolve.{
  replace_section, Resolution, resolved, reloc_error, reloc_undefined, patch_object, resolve_symbol,
  resolve_reloc, resolve_object,
}

-- Byte `i` of section `k` is no byte of the relocation's site.
abbrev pub Away : LRel → ℕ → ℕ → Type 0
Away r k i = r.sec_idx ≡ k → (i < r.offset) ⊎ (r.offset + 4 ≤ i)

abbrev pub AllAway : List LRel → ℕ → ℕ → Type 0
AllAway [] k i = Unit {0}
AllAway (r ∷ rels) k i = Away r k i × AllAway rels k i

-- A section in its place, with its bytes but for some of its own.
abbrev pub SectionKept : (ℕ → Type 0) → LSec → LSec → Type 0
SectionKept clear sec sec' =
    (sec'.base ≡ sec.base)
    × (sec'.size ≡ sec.size)
    × ((i : ℕ) → clear i ⊎ (sec.size ≤ i) → sec'.bytes i ≡ sec.bytes i)

abbrev pub EntryKept : (ℕ → Type 0) → Option LSec → Option LSec → Type 0
EntryKept clear none none = Unit {0}
EntryKept clear none (some sec') = ⊥
EntryKept clear (some sec) none = ⊥
EntryKept clear (some sec) (some sec') = SectionKept clear sec sec'

pub record Kept (clear : ℕ → ℕ → Type 0) (obj obj' : ObjFile) : Type 0 where
  pub syms : obj'.syms ≡ obj.syms
  pub sections : (k : ℕ) → EntryKept (clear k) (entry obj.secs k) (entry obj'.secs k)

EntryKept-refl : (clear : ℕ → Type 0) (o : Option LSec) → EntryKept clear o o
EntryKept-refl clear none = tt
EntryKept-refl clear (some sec) = (refl, refl, λ i h. refl)

EntryKept-trans :
    (clear1 clear2 : ℕ → Type 0) (o1 o2 o3 : Option LSec)
    → EntryKept clear1 o1 o2
    → EntryKept clear2 o2 o3
    → EntryKept (λ i. clear1 i × clear2 i) o1 o3
EntryKept-trans clear1 clear2 none none none h1 h2 = tt
EntryKept-trans clear1 clear2 none none (some z) h1 h2 = h2
EntryKept-trans clear1 clear2 none (some y) o3 h1 h2 = absurd h1
EntryKept-trans clear1 clear2 (some x) none o3 h1 h2 = absurd h1
EntryKept-trans clear1 clear2 (some x) (some y) none h1 h2 = h2
EntryKept-trans clear1 clear2 (some x) (some y) (some z) (b1, s1, f1) (b2, s2, f2) = (
  b2 ∙ b1,
  s2 ∙ s1,
  λ i h. elim h [
    | inl both ↦ f2 i (inl (both.1)) ∙ f1 i (inl (both.0))
    | inr behind ↦ f2 i (inr (omega (arith, s1, behind))) ∙ f1 i (inr behind)
  ],
)

put32_frame :
    (p : ℕ → ℕ) (offset w i : ℕ) → (i < offset) ⊎ (offset + 4 ≤ i) → put32 p offset w i ≡ p i
unfolding put32 update
put32_frame p offset w i away = ground arith

-- The patch of one section, where C defines it.
abbrev PatchKept : LSec → LRel → Patched → Type 0
PatchKept sec r (patched sec') = SectionKept (λ i. (i < r.offset) ⊎ (r.offset + 4 ≤ i)) sec sec'
PatchKept sec r patch_error = Unit {0}
PatchKept sec r patch_undefined = ⊥

store_word-PatchKept :
    (sec : LSec) (r : LRel) (w : ℕ)
    → r.offset + 4 ≤ sec.size
    → PatchKept sec r (store_word sec r.offset w)
unfolding store_word
store_word-PatchKept sec r w fits =
    let inside : ltb sec.size (r.offset + 4) ≡ false = ground arith in
    subst (PatchKept sec r) (sym (store_word_inside inside)) (
      refl,
      refl,
      λ i h.
          put32_frame sec.bytes r.offset w i
            (elim h [ inl away ↦ away | inr behind ↦ inr (omega arith) ]),
    )
  where
    store_word_inside :
        ltb sec.size (r.offset + 4) ≡ false
        → store_word sec r.offset w ≡ patched (record sec { bytes = put32 sec.bytes r.offset w })
    store_word_inside e = rw e refl

patch_section-PatchKept :
    (sec : LSec) (r : LRel) (s : ℕ)
    → r.offset + 4 < 2 ^ 32
    → sum_overflows s r.addend ≡ false
    → PatchKept sec r (patch_section sec r s)
unfolding patch_section
patch_section-PatchKept sec r s low plain = rw plain (
    if_intro (PatchKept sec r) (ltb sec.size (add32 r.offset 4)) (λ e. tt)
      (λ e.
        by_word
          (patch r.kind (get32 sec.bytes r.offset) (add32 s r.addend) (add32 sec.base r.offset))
          (ground arith)))
  where
    by_word :
        (o : Option ℕ)
        → r.offset + 4 ≤ sec.size
        → PatchKept sec r (elim o [ none ↦ patch_error | some w ↦ store_word sec r.offset w ])
    by_word none fits = tt
    by_word (some w) fits = store_word-PatchKept sec r w fits

-- The patched section back in its place.
replace_section-EntryKept :
    (secs : List LSec) (n k : ℕ) (sec sec' : LSec) (clear : ℕ → ℕ → Type 0)
    → entry secs n ≡ some sec
    → SectionKept (clear n) sec sec'
    → EntryKept (clear k) (entry secs k) (entry (replace_section secs n sec') k)
unfolding entry replace_section
replace_section-EntryKept [] n k sec sec' clear found same = tt
replace_section-EntryKept (old ∷ secs) zero zero sec sec' clear found same =
    subst (λ (x : LSec). SectionKept (clear 0) x sec') (sym (some_inj.0 found)) same
replace_section-EntryKept (old ∷ secs) zero (suc k) sec sec' clear found same =
    EntryKept-refl (clear (suc k)) (entry secs k)
replace_section-EntryKept (old ∷ secs) (suc n) zero sec sec' clear found same =
    (refl, refl, λ i h. refl)
replace_section-EntryKept (old ∷ secs) (suc n) (suc k) sec sec' clear found same =
    replace_section-EntryKept secs n k sec sec' (λ j. clear (suc j)) found same

-- A symbol whose address the object gives, and an addend that does not overflow.
abbrev pub AddressFits : ℕ → Target → Type 0
AddressFits addend (address s) = sum_overflows s addend ≡ false
AddressFits addend undefined_symbol = Unit {0}
AddressFits addend bad_index = ⊥

abbrev pub SymbolFits : List GlobSym → ObjFile → ℕ → Option LSym → Type 0
SymbolFits globs obj addend none = ⊥
SymbolFits globs obj addend (some symbol) = AddressFits addend (symbol_address globs obj symbol)

-- A relocation that C defines: its indexes lie in the arrays, and nothing wraps.
abbrev pub Defined : List GlobSym → ObjFile → LRel → Type 0
Defined globs obj r =
    (r.offset + 4 < 2 ^ 32) × SymbolFits globs obj r.addend (entry obj.syms r.sym_idx)

abbrev pub AllDefined : List GlobSym → ObjFile → List LRel → Type 0
AllDefined globs obj [] = Unit {0}
AllDefined globs obj (r ∷ rels) = Defined globs obj r × AllDefined globs obj rels

pub symbol_address-Kept :
    (globs : List GlobSym) (clear : ℕ → ℕ → Type 0) (obj obj' : ObjFile) (symbol : LSym)
    → Kept clear obj obj'
    → symbol_address globs obj' symbol ≡ symbol_address globs obj symbol
unfolding symbol_address
symbol_address-Kept globs clear obj obj' symbol kept =
    ap
      (λ (t : Target).
        if symbol.sec_idx == sec_undef
        then elim (find_global globs symbol.name) [
          | some g ↦ address g.abs_addr
          | none ↦ undefined_symbol
        ]
        else t)
      (by_entry (entry obj.secs symbol.sec_idx) (entry obj'.secs symbol.sec_idx)
        (kept.sections symbol.sec_idx))
  where
    by_entry :
        (o o' : Option LSec)
        → EntryKept (clear symbol.sec_idx) o o'
        → (elim o' as (λ x. Target) [
          | some sec ↦ address (add32 sec.base symbol.value)
          | none ↦ bad_index
        ])
          ≡ (elim o as (λ x. Target) [
            | some sec ↦ address (add32 sec.base symbol.value)
            | none ↦ bad_index
          ])
    by_entry none none h = refl
    by_entry none (some sec') h = elim h [ ]
    by_entry (some sec) none h = elim h [ ]
    by_entry (some sec) (some sec') h = ap (λ b. address (add32 b symbol.value)) (h.0)

-- One relocation that is defined.
abbrev pub ResolvedKept : ObjFile → LRel → Resolution → Type 0
ResolvedKept obj r (resolved obj') = Kept (Away r) obj obj'
ResolvedKept obj r reloc_error = Unit {0}
ResolvedKept obj r reloc_undefined = ⊥

module _ (globs : List GlobSym) (obj : ObjFile) (r : LRel) where
  patch_object-ResolvedKept :
      (sec : LSec) (s : ℕ)
      → entry obj.secs r.sec_idx ≡ some sec
      → r.offset + 4 < 2 ^ 32
      → sum_overflows s r.addend ≡ false
      → ResolvedKept obj r (patch_object obj r sec s)
  unfolding patch_object
  patch_object-ResolvedKept sec s found low plain =
      by_patch (patch_section sec r s) (patch_section-PatchKept sec r s low plain)
    where
      by_patch :
          (o : Patched)
          → PatchKept sec r o
          → ResolvedKept obj r (elim o [
            | patched sec' ↦
                resolved (record obj { secs = replace_section obj.secs r.sec_idx sec' })
            | patch_error ↦ reloc_error
            | patch_undefined ↦ reloc_undefined
          ])
      by_patch patch_error kept = tt
      by_patch patch_undefined kept = elim kept [ ]
      by_patch (patched sec') (base, size, bytes) = record {
        syms = refl;
        sections = λ k. replace_section-EntryKept obj.secs r.sec_idx k sec sec' (Away r) found (
          base,
          size,
          λ i h. bytes i (elim h [ inl away ↦ inl (away refl) | inr behind ↦ inr behind ]),
        );
      }

  resolve_symbol-ResolvedKept :
      (sec : LSec) (symbol : LSym)
      → entry obj.secs r.sec_idx ≡ some sec
      → r.offset + 4 < 2 ^ 32
      → AddressFits r.addend (symbol_address globs obj symbol)
      → ResolvedKept obj r (resolve_symbol globs obj r sec symbol)
  unfolding resolve_symbol
  resolve_symbol-ResolvedKept sec symbol found low fits =
      by_target (symbol_address globs obj symbol) fits
    where
      by_target :
          (t : Target)
          → AddressFits r.addend t
          → ResolvedKept obj r (elim t [
            | address s ↦ patch_object obj r sec s
            | undefined_symbol ↦ reloc_error
            | bad_index ↦ reloc_undefined
          ])
      by_target (address s) plain = patch_object-ResolvedKept sec s found low plain
      by_target undefined_symbol plain = tt
      by_target bad_index plain = elim plain [ ]

  pub resolve_reloc-ResolvedKept :
      Defined globs obj r → ResolvedKept obj r (resolve_reloc globs obj r)
  unfolding resolve_reloc
  resolve_reloc-ResolvedKept (low, fits) = by_section (entry obj.secs r.sec_idx) refl
    where
      by_symbol :
          (sec : LSec) (o : Option LSym)
          → entry obj.secs r.sec_idx ≡ some sec
          → SymbolFits globs obj r.addend o
          → ResolvedKept obj r (elim o [
            | none ↦ reloc_undefined
            | some symbol ↦ resolve_symbol globs obj r sec symbol
          ])
      by_symbol sec none found fit = elim fit [ ]
      by_symbol sec (some symbol) found fit = resolve_symbol-ResolvedKept sec symbol found low fit

      by_section :
          (o : Option LSec)
          → entry obj.secs r.sec_idx ≡ o
          → ResolvedKept obj r (elim o [
            | none ↦ reloc_error
            | some sec ↦ elim (entry obj.syms r.sym_idx) [
              | none ↦ reloc_undefined
              | some symbol ↦ resolve_symbol globs obj r sec symbol
            ]
          ])
      by_section none found = tt
      by_section (some sec) found = by_symbol sec (entry obj.syms r.sym_idx) found fits

module _ (globs : List GlobSym) (clear : ℕ → ℕ → Type 0) {obj obj' : ObjFile}
    (kept : Kept clear obj obj') where
  SymbolFits-Kept :
      (addend : ℕ) (o : Option LSym)
      → SymbolFits globs obj addend o
      → SymbolFits globs obj' addend o
  SymbolFits-Kept addend none fits = fits
  SymbolFits-Kept addend (some symbol) fits =
      subst (AddressFits addend) (sym (symbol_address-Kept globs clear obj obj' symbol kept)) fits

  pub AllDefined-Kept : (rels : List LRel) → AllDefined globs obj rels → AllDefined globs obj' rels
  AllDefined-Kept [] h = tt
  AllDefined-Kept (r ∷ rels) ((low, fits), h) = (
    (
      low,
      subst (λ (syms : List LSym). SymbolFits globs obj' r.addend (entry syms r.sym_idx))
          (sym kept.syms) (SymbolFits-Kept r.addend (entry obj.syms r.sym_idx) fits),
    ),
    AllDefined-Kept rels h,
  )

Kept-refl : (clear : ℕ → ℕ → Type 0) (obj : ObjFile) → Kept clear obj obj
Kept-refl clear obj = record {
  syms = refl;
  sections = λ k. EntryKept-refl (clear k) (entry obj.secs k);
}

Kept-trans :
    (clear1 clear2 : ℕ → ℕ → Type 0) {obj1 obj2 obj3 : ObjFile}
    → Kept clear1 obj1 obj2
    → Kept clear2 obj2 obj3
    → Kept (λ k i. clear1 k i × clear2 k i) obj1 obj3
Kept-trans clear1 clear2 {obj1} {obj2} {obj3} h1 h2 = record {
  syms = h2.syms ∙ h1.syms;
  sections = λ k.
      EntryKept-trans (clear1 k) (clear2 k) (entry obj1.secs k) (entry obj2.secs k)
        (entry obj3.secs k) (h1.sections k) (h2.sections k);
}

-- Where the loop ends.
pub record Ended (globs : List GlobSym) (obj : ObjFile) (rels : List LRel) (errors : ℕ)
    : Type 0 where
  pub last : ObjFile
  pub count : ℕ
  pub result : resolve_object globs obj rels errors ≡ some (last, count)
  pub kept : Kept (AllAway rels) obj last
  pub counted : (errors ≤ count) × (count ≤ errors + length rels)

-- Where every relocation of an object is defined in C (its symbol's index and that symbol's section
-- lie in the object's arrays, the offset and 4 stay below 2^32, the addend does not overflow), the
-- loop of `resolve_relocs` gets through all of them without undefined behaviour: every section
-- keeps its base address and size, no byte outside the sites of the relocations and none behind the
-- end of a section has changed, the symbols are the same, and at most one error is counted for each
-- relocation.
pub resolve_object-Ended :
    (globs : List GlobSym) (obj : ObjFile) (rels : List LRel) (errors : ℕ)
    → AllDefined globs obj rels
    → Ended globs obj rels errors
unfolding resolve_object
resolve_object-Ended globs obj [] errors h = record {
  last = obj;
  count = errors;
  result = refl;
  kept = Kept-refl (AllAway []) obj;
  counted = (omega arith, omega arith);
}
resolve_object-Ended globs obj (r ∷ rels) errors (here, later) =
    by_reloc (resolve_reloc globs obj r) refl (resolve_reloc-ResolvedKept globs obj r here)
      (λ obj' errors'. resolve_object-Ended globs obj' rels errors')
  where
    by_reloc :
        (x : Resolution)
        → resolve_reloc globs obj r ≡ x
        → ResolvedKept obj r x
        → ((obj' : ObjFile) (errors' : ℕ)
            → AllDefined globs obj' rels
            → Ended globs obj' rels errors')
        → Ended globs obj (r ∷ rels) errors
    by_reloc (resolved obj') e kept rest =
        let next = rest obj' errors (AllDefined-Kept globs (Away r) kept rels later) in
        record {
          last = next.last;
          count = next.count;
          result = rw (resolve_object, e) next.result;
          kept = Kept-trans (Away r) (AllAway rels) kept next.kept;
          counted = (omega (arith, next.counted.0), omega (arith, next.counted.1));
        }
    by_reloc reloc_error e kept rest =
        let next = rest obj (errors + 1) later in
        record {
          last = next.last;
          count = next.count;
          result = rw (resolve_object, e) next.result;
          kept = Kept-trans (Away r) (AllAway rels) (Kept-refl (Away r) obj) next.kept;
          counted = (omega (arith, next.counted.0), omega (arith, next.counted.1));
        }
    by_reloc reloc_undefined e kept rest = elim kept [ ]
