-- ===== src/Linker/Output.antt =====
-- `emit_output`: the image that is written. That the file can be opened is assumed.
use mathlib.Core.Option.{some_inj}
use cputwo.Base.{
  ℕ, zero, suc, ◌+◌, ◌-◌, ◌^◌, ◌<◌, ◌≤◌, ◌≡◌, refl, ap, subst, ◌∙◌, true, false, ◌&&◌, Option, none,
  some, List, [], ◌∷◌, ltb, leb, if◌then◌else◌, add32, arith,
}
use cputwo.Base.Text.{entry}
use cputwo.Linker.Object.{LSec, ObjFile}
use cputwo.Linker.Layout.{all_sections, Chain}

-- `out_size`, from the size so far.
unfoldable pub output_size : ℕ → List LSec → ℕ
output_size size [] = size
output_size size (sec ∷ secs) =
    let end = add32 sec.base sec.size in output_size (if ltb size end then end else size) secs

-- `memcpy(buf + sec->base, sec->data, sec->size)`
unfoldable pub copy_section : (ℕ → ℕ) → LSec → ℕ → ℕ
copy_section buf sec i =
    if leb sec.base i && ltb i (sec.base + sec.size) then sec.bytes (i - sec.base) else buf i

-- The copies into a buffer of `size` bytes; none is a copy behind it, which C leaves undefined.
unfoldable pub copy_sections : ℕ → (ℕ → ℕ) → List LSec → Option (ℕ → ℕ)
copy_sections size buf [] = some buf
copy_sections size buf (sec ∷ secs) =
    let rest = copy_sections size (copy_section buf sec) secs in
    if ltb 0 sec.size && ltb size (sec.base + sec.size) then none else rest

-- The size of the file, and its bytes.
unfoldable pub emit_output : List ObjFile → Option (ℕ × (ℕ → ℕ))
emit_output objs =
    let size = output_size 0 (all_sections objs) in
    elim (copy_sections size (λ (i : ℕ). 0) (all_sections objs)) [
      | some buf ↦ some (size, buf)
      | none ↦ none
    ]

-- Sections that end below 2^32.
abbrev pub AllEnd : List LSec → Type 0
AllEnd [] = Unit {0}
AllEnd (sec ∷ secs) = (sec.base + sec.size < 2 ^ 32) × AllEnd secs

-- Sections that end inside a buffer.
abbrev AllWithin : ℕ → List LSec → Type 0
AllWithin size [] = Unit {0}
AllWithin size (sec ∷ secs) = (sec.base + sec.size ≤ size) × AllWithin size secs

output_size-le : (size : ℕ) (secs : List LSec) → size ≤ output_size size secs
unfolding output_size
output_size-le size [] = omega arith
output_size-le size (sec ∷ secs) =
    let end = add32 sec.base sec.size in
    let bound = output_size-le (if ltb size end then end else size) secs in ground (arith, bound)

output_size-AllWithin :
    (size : ℕ) (secs : List LSec) → AllEnd secs → AllWithin (output_size size secs) secs
unfolding output_size
output_size-AllWithin size [] h = tt
output_size-AllWithin size (sec ∷ secs) (h, hs) =
    let end = add32 sec.base sec.size in
    let next = if ltb size end then end else size in
    let bound = output_size-le next secs in
    (ground (arith, bound), output_size-AllWithin next secs hs)

within-entry :
    (size : ℕ) (secs : List LSec) (k : ℕ) (sec : LSec)
    → AllWithin size secs
    → entry secs k ≡ some sec
    → (i : ℕ) → i < sec.size
    → sec.base + i < size
unfolding entry
within-entry size [] k sec w e i h = cc
within-entry size (s ∷ secs) zero sec (w, ws) e i h =
    subst (λ (x : LSec). i < x.size → x.base + i < size) (some_inj.0 e) (λ h'. omega arith) h
within-entry size (s ∷ secs) (suc k) sec (w, ws) e i h = within-entry size secs k sec ws e i h

-- The buffer after all copies.
image : (ℕ → ℕ) → List LSec → ℕ → ℕ
image buf [] = buf
image buf (sec ∷ secs) = image (copy_section buf sec) secs

copy_sections-image :
    (size : ℕ) (buf : ℕ → ℕ) (secs : List LSec)
    → AllWithin size secs
    → copy_sections size buf secs ≡ some (image buf secs)
unfolding copy_sections image
copy_sections-image size buf [] h = refl
copy_sections-image size buf (sec ∷ secs) (h, hs) =
    rw (inside h) (copy_sections-image size (copy_section buf sec) secs hs)
  where
    inside : sec.base + sec.size ≤ size → (ltb 0 sec.size && ltb size (sec.base + sec.size)) ≡ false
    inside k = ground arith

-- Later sections lie higher.
image-below :
    (buf : ℕ → ℕ) (low i : ℕ) (secs : List LSec)
    → Chain low secs
    → i < low
    → image buf secs i ≡ buf i
unfolding image copy_section
image-below buf low i [] c h = refl
image-below buf low i (sec ∷ secs) (above, aligned, rest) h =
    image-below (copy_section buf sec) (sec.base + sec.size) i secs rest (omega arith)
    ∙ (ground arith)

copied : (buf : ℕ → ℕ) (s : LSec) (i : ℕ) → i < s.size → copy_section buf s (s.base + i) ≡ s.bytes i
unfolding copy_section
copied buf s i h = rw inside (ap s.bytes (omega arith))
  where
    inside : (leb s.base (s.base + i) && ltb (s.base + i) (s.base + s.size)) ≡ true
    inside = ground arith

image-entry :
    (buf : ℕ → ℕ) (low : ℕ) (secs : List LSec) (k i : ℕ) (sec : LSec)
    → Chain low secs
    → entry secs k ≡ some sec
    → i < sec.size
    → image buf secs (sec.base + i) ≡ sec.bytes i
unfolding image copy_section entry
image-entry buf low [] k i sec c e h = cc
image-entry buf low (s ∷ secs) zero i sec (above, aligned, rest) e h =
    subst (λ (x : LSec). i < x.size → image buf (s ∷ secs) (x.base + i) ≡ x.bytes i) (some_inj.0 e)
      (λ h'.
        image-below (copy_section buf s) (s.base + s.size) (s.base + i) secs rest (omega arith)
        ∙ copied buf s i h')
      h
image-entry buf low (s ∷ secs) (suc k) i sec (above, aligned, rest) e h =
    image-entry (copy_section buf s) (s.base + s.size) secs k i sec rest e h

-- When the sections lie in order and apart, as `assign_addresses` places them, and end below 2^32, the
-- image is written, it reaches to the end of every section, and has every byte of every section at
-- the section's address.
pub emit_output-Chain :
    (objs : List ObjFile) (low : ℕ)
    → Chain low (all_sections objs)
    → AllEnd (all_sections objs)
    → (size : ℕ) × (buf : ℕ → ℕ) × (emit_output objs ≡ some (size, buf))
      × ((k i : ℕ) (sec : LSec)
          → entry (all_sections objs) k ≡ some sec
          → i < sec.size
          → (sec.base + i < size) × (buf (sec.base + i) ≡ sec.bytes i))
unfolding emit_output
emit_output-Chain objs low chain ends =
    let secs = all_sections objs in
    let size = output_size 0 secs in
    let buf = image (λ (i : ℕ). 0) secs in
    let within = output_size-AllWithin 0 secs ends in
    (
      size,
      buf,
      rw (emit_output, copy_sections-image size (λ (i : ℕ). 0) secs within) refl,
      λ k i sec e h. (
        within-entry size secs k sec within e i h,
        image-entry (λ (j : ℕ). 0) low secs k i sec chain e h,
      ),
    )
