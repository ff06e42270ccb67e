-- ===== src/Linker/Layout.antt =====
-- `assign_addresses`: the base addresses of the sections.
use cputwo.Base.{
  ◌-◌, ℕ, ◌+◌, ◌*◌, ◌/◌, ◌%◌, ◌^◌, ◌<◌, ◌≤◌, ◌≡◌, List, [], ◌∷◌, ◌++◌, ltb, ◌==◌, if◌then◌else◌,
  bit_and, add32, not32, arith,
}
use cputwo.Base.Bits.{bit_and_mask, bit_and_shift}
use cputwo.Linker.Object.{LSec, ObjFile}

-- `(x + 3u) & ~3u`
unfoldable pub align4 : ℕ → ℕ
align4 x = bit_and (add32 x 3) (not32 3)

-- One section, and the address that follows.
unfoldable pub place_section : ℕ → LSec → LSec
place_section next sec = record sec {
  base = if sec.vma_hint == 0 then align4 next else sec.vma_hint;
}

unfoldable pub next_address : ℕ → LSec → ℕ
next_address next sec =
    let end = add32 sec.base sec.size in if ltb next end then align4 end else next

-- The inner loop.
unfoldable pub assign_sections : ℕ → List LSec → List LSec × ℕ
assign_sections next [] = ([], next)
assign_sections next (sec ∷ secs) =
    let placed = place_section next sec in
    let (rest, last) = assign_sections (next_address next placed) secs in (placed ∷ rest, last)

-- The outer loop.
unfoldable pub assign_addresses : ℕ → List ObjFile → List ObjFile
assign_addresses next [] = []
assign_addresses next (obj ∷ objs) =
    let (secs, last) = assign_sections next obj.secs in
    record obj { secs = secs } ∷ assign_addresses last objs

-- All sections, in the order of the command line.
abbrev pub all_sections : List ObjFile → List LSec
all_sections [] = []
all_sections (obj ∷ objs) = obj.secs ++ all_sections objs

-- Sections with no address of their own.
abbrev pub AllFree : List LSec → Type 0
AllFree [] = Unit {0}
AllFree (sec ∷ secs) = (sec.vma_hint ≡ 0) × AllFree secs

-- Room for the sections with their alignment.
abbrev pub room : List LSec → ℕ
room [] = 0
room (sec ∷ secs) = sec.size + 6 + room secs

-- Each section starts at a multiple of 4, behind the end of the one before.
abbrev pub Chain : ℕ → List LSec → Type 0
Chain low [] = Unit {0}
Chain low (sec ∷ secs) = (low ≤ sec.base) × (sec.base % 4 ≡ 0) × Chain (sec.base + sec.size) secs

align4_lem : (x : ℕ) → x + 3 < 2 ^ 32 → align4 x ≡ (x + 3) / 4 * 4
unfolding align4
align4_lem x h =
    rw (bit_and_shift 2 (add32 x 3) (2 ^ 30 - 1), bit_and_mask 30 (add32 x 3 / 2 ^ 2)) (omega arith)

Chain-weaken : (secs : List LSec) {low low' : ℕ} → low ≤ low' → Chain low' secs → Chain low secs
Chain-weaken [] h c = tt
Chain-weaken (sec ∷ secs) h (above, aligned, rest) = (omega arith, aligned, rest)

-- A section without an address of its own.
module _ (next : ℕ) (sec : LSec) (free : sec.vma_hint ≡ 0)
    (fits : next + sec.size + 6 < 2 ^ 32) where
  place_free : (place_section next sec).base ≡ (next + 3) / 4 * 4
  unfolding place_section
  place_free = rw free (align4_lem next (omega arith))

  next_bounds :
      let placed = place_section next sec in
      (placed.base + placed.size ≤ next_address next placed)
      × (next_address next placed ≤ next + sec.size + 6)
  unfolding next_address place_section
  next_bounds =
      let base = (next + 3) / 4 * 4 in
      rw (free, align4_lem next (omega arith))
        (ground (arith, align4_lem (base + sec.size) (omega arith)))

-- The sections of an object, with what follows them.
assign_sections-Chain :
    (secs : List LSec) (next : ℕ) (rest : List LSec)
    → AllFree secs
    → next + room secs < 2 ^ 32
    → Chain (assign_sections next secs).1 rest
    → Chain next ((assign_sections next secs).0 ++ rest)
unfolding assign_sections
assign_sections-Chain [] next rest free fits c = c
assign_sections-Chain (sec ∷ secs) next rest free fits c =
    let placed = place_section next sec in
    let base = place_free next sec free.0 (omega arith) in
    let bounds = next_bounds next sec free.0 (omega arith) in
    (
      omega arith,
      omega arith,
      Chain-weaken _ bounds.0
          (assign_sections-Chain secs (next_address next placed) rest free.1 (omega arith) c),
    )

-- The address behind the sections.
assign_sections-last :
    (secs : List LSec) (next : ℕ)
    → AllFree secs
    → next + room secs < 2 ^ 32
    → (assign_sections next secs).1 ≤ next + room secs
unfolding assign_sections
assign_sections-last [] next free fits = omega arith
assign_sections-last (sec ∷ secs) next free fits =
    let placed = place_section next sec in
    let bounds = next_bounds next sec free.0 (omega arith) in
    omega (arith, assign_sections-last secs (next_address next placed) free.1 (omega arith))

-- Every section of every object, in the order of the command line.
abbrev pub AllObjectsFree : List ObjFile → Type 0
AllObjectsFree [] = Unit {0}
AllObjectsFree (obj ∷ objs) = AllFree obj.secs × AllObjectsFree objs

abbrev pub total_room : List ObjFile → ℕ
total_room [] = 0
total_room (obj ∷ objs) = room obj.secs + total_room objs

-- When no section asks for an address and they all fit into the address space with at most 6 bytes
-- of alignment each, the sections of all objects lie one behind the other from the base address on,
-- in the order of the command line, each at a multiple of 4 and none over another.
pub assign_addresses-Chain :
    (text_base : ℕ) (objs : List ObjFile)
    → AllObjectsFree objs
    → text_base + total_room objs < 2 ^ 32
    → Chain text_base (all_sections (assign_addresses text_base objs))
unfolding assign_addresses
assign_addresses-Chain text_base [] free fits = tt
assign_addresses-Chain text_base (obj ∷ objs) free fits =
    let last = assign_sections-last obj.secs text_base free.0 (omega arith) in
    assign_sections-Chain obj.secs text_base _ free.0 (omega arith)
      (assign_addresses-Chain (assign_sections text_base obj.secs).1 objs free.1 (omega arith))
