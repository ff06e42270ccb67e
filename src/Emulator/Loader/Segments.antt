-- ===== src/Emulator/Loader/Segments.antt =====
-- What the segments of an ELF file leave in the memory.
use cputwo.Base.{
  ℕ, zero, suc, ◌+◌, ◌-◌, ◌<◌, ◌≤◌, ◌≡◌, ◌⊎◌, inl, inr, refl, ap, sym, ◌∙◌, subst, Bool, true,
  false, not, ◌&&◌, ◌||◌, Option, none, some, List, ltb, leb, ◌==◌, if◌then◌else◌, if_intro, length,
  add32, arith,
}
use cputwo.Emulator.Machine.{mem_size, Memory}
use cputwo.Emulator.Loader.{
  file_byte, e_entry, e_phnum, Segment, segment, write_range, zero_rest, load_segment,
  load_segments, load_elf,
}

-- A segment that is loaded has bytes of the file at its address, and zeros behind them.
abbrev pub covers : Segment → ℕ → Bool
covers s a =
    s.p_type == 1
    && leb s.p_vaddr a
    && ltb a (s.p_vaddr + (if ltb s.p_filesz s.p_memsz then s.p_memsz else s.p_filesz))

abbrev pub segment_byte : List ℕ → Segment → ℕ → ℕ
segment_byte file s a =
    if ltb (a - s.p_vaddr) s.p_filesz then file_byte file (s.p_offset + (a - s.p_vaddr)) else 0

abbrev Loads : List ℕ → Segment → Memory → Option Memory → Type 0
Loads file s mem none = Unit {0}
Loads file s mem (some mem') =
    (a : ℕ) → mem' a ≡ (if covers s a then segment_byte file s a else mem a)

filled :
    (file : List ℕ) (s : Segment) (mem : Memory) (a : ℕ)
    → (s.p_type == 1) ≡ true
    → zero_rest s
        (write_range s.p_vaddr s.p_filesz (λ (i : ℕ). file_byte file (s.p_offset + i)) mem)
        a
      ≡ (if covers s a then segment_byte file s a else mem a)
unfolding zero_rest write_range
filled file s mem a e = ground arith

load_segment-Loads :
    (file : List ℕ) (s : Segment) (mem : Memory) → Loads file s mem (load_segment file s mem)
unfolding load_segment
load_segment-Loads file s mem =
    if_intro (Loads file s mem) (not s.readable) (λ e. tt)
      (λ e.
        if_intro (Loads file s mem) (not (s.p_type == 1)) (λ f a. ground arith)
          (λ f.
            if_intro (Loads file s mem) (ltb mem_size (add32 s.p_vaddr s.p_memsz)) (λ g. tt)
              (λ g.
                if_intro (Loads file s mem)
                  (ltb 0 s.p_filesz && ltb (length file) (s.p_offset + s.p_filesz)) (λ h. tt)
                  (λ h a. filled file s mem a (ground arith)))))

-- No segment from `i` to `n` covers the address.
abbrev pub Uncovered : List ℕ → ℕ → ℕ → ℕ → Type 0
Uncovered file i n a = (j : ℕ) → i ≤ j → j < n → covers (segment file j) a ≡ false

abbrev Result : List ℕ → ℕ → ℕ → Memory → Option Memory → Type 0
Result file i n mem none = Unit {0}
Result file i n mem (some mem') =
    (a : ℕ)
    → (Uncovered file i n a → mem' a ≡ mem a)
      × ((k : ℕ)
          → i ≤ k
          → k < n
          → covers (segment file k) a ≡ true
          → Uncovered file (k + 1) n a
          → mem' a ≡ segment_byte file (segment file k) a)

Result-step :
    (file : List ℕ) (i n : ℕ) (mem mem2 : Memory) (o : Option Memory)
    → i < n
    → Loads file (segment file i) mem (some mem2)
    → Result file (i + 1) n mem2 o
    → Result file i n mem o
Result-step file i n mem mem2 none h first rest = tt
Result-step file i n mem mem2 (some mem') h first rest = λ a. (
  λ clear.
      (rest a).0 (λ j low high. clear j (omega arith) high)
      ∙ first a
      ∙ rw (clear i (omega arith) h) refl,
  λ k low high hit clear. elim (first_or_later k low) [
    | inl e ↦
        let at : covers (segment file i) a ≡ true =
          ap (λ j. covers (segment file j) a) (sym e) ∙ hit in
        (rest a).0 (λ j l u. clear j (omega arith) u)
        ∙ first a
        ∙ rw at (ap (λ j. segment_byte file (segment file j) a) (sym e))
    | inr later ↦ (rest a).1 k later high hit clear
  ],
)
  where
    first_or_later : (k : ℕ) → i ≤ k → (k ≡ i) ⊎ (i + 1 ≤ k)
    first_or_later k low = omega arith

load_segments-Result :
    (file : List ℕ) (left i n : ℕ) (mem : Memory)
    → i + left ≡ n
    → Result file i n mem (load_segments file left i mem)
unfolding load_segments
load_segments-Result file zero i n mem e =
    λ a. ((λ clear. refl), (λ k low high hit clear. absurd (omega arith)))
load_segments-Result file (suc left) i n mem e =
    by_segment (load_segment file (segment file i) mem)
      (load_segment-Loads file (segment file i) mem)
      (λ mem2. load_segments-Result file left (i + 1) n mem2 (omega arith))
  where
    by_segment :
        (o : Option Memory)
        → Loads file (segment file i) mem o
        → ((mem2 : Memory) → Result file (i + 1) n mem2 (load_segments file left (i + 1) mem2))
        → Result file i n mem
            (elim o [ none ↦ none | some mem2 ↦ load_segments file left (i + 1) mem2 ])
    by_segment none first rest = tt
    by_segment (some mem2) first rest =
        Result-step file i n mem mem2 _ (omega arith) first (rest mem2)

-- The tests of a program header.
abbrev pub accepted : List ℕ → Segment → Bool
accepted file s =
    s.readable
    && (not (s.p_type == 1)
        || (not (ltb mem_size (add32 s.p_vaddr s.p_memsz))
            && not (ltb 0 s.p_filesz && ltb (length file) (s.p_offset + s.p_filesz))))

load_segment-accepted :
    (file : List ℕ) (s : Segment) (mem : Memory)
    → accepted file s ≡ true
    → (mem' : Memory) × (load_segment file s mem ≡ some mem')
unfolding load_segment
load_segment-accepted file s mem ok =
    if_intro Succeeds (not s.readable) (λ e. absurd (ground arith))
      (λ e.
        if_intro Succeeds (not (s.p_type == 1)) (λ f. (mem, refl))
          (λ f.
            if_intro Succeeds (ltb mem_size (add32 s.p_vaddr s.p_memsz))
              (λ g. absurd (ground arith))
              (λ g.
                if_intro Succeeds (ltb 0 s.p_filesz && ltb (length file) (s.p_offset + s.p_filesz))
                  (λ h. absurd (ground arith)) (λ h. (_, refl)))))
  where
    Succeeds : Option Memory → Type 0
    Succeeds o = (mem' : Memory) × (o ≡ some mem')

load_segments-accepted :
    (file : List ℕ) (left i n : ℕ) (mem : Memory)
    → i + left ≡ n
    → ((k : ℕ) → k < n → accepted file (segment file k) ≡ true)
    → (mem' : Memory) × (load_segments file left i mem ≡ some mem')
unfolding load_segments
load_segments-accepted file zero i n mem e ok = (mem, refl)
load_segments-accepted file (suc left) i n mem e ok =
    let (mem2, first) = load_segment-accepted file (segment file i) mem (ok i (omega arith)) in
    let (mem', rest) = load_segments-accepted file left (i + 1) n mem2 (omega arith) ok in
    (mem', rw (load_segments, first) rest)

-- When the file has a header of the 32-bit class and every program header passes its tests, the file
-- is loaded and the entry point is that of the header. Every byte that no loaded segment covers is
-- the old one, and a byte that a segment covers and no later one is the byte of the file at the
-- segment's offset, or zero behind the segment's size in the file.
pub load_elf_segments :
    (file : List ℕ) (mem : Memory)
    → 52 ≤ length file
    → file_byte file 4 ≡ 1
    → ((k : ℕ) → k < e_phnum file → accepted file (segment file k) ≡ true)
    → (mem' : Memory) × (load_elf file mem ≡ some (mem', e_entry file))
      × ((a : ℕ) → Uncovered file 0 (e_phnum file) a → mem' a ≡ mem a)
      × ((a k : ℕ)
          → k < e_phnum file
          → covers (segment file k) a ≡ true
          → Uncovered file (k + 1) (e_phnum file) a
          → mem' a ≡ segment_byte file (segment file k) a)
unfolding load_elf
load_elf_segments file mem long class ok =
    let (mem', loaded) =
      load_segments-accepted file (e_phnum file) 0 (e_phnum file) mem (omega arith) ok in
    let result =
      subst (Result file 0 (e_phnum file) mem) loaded
        (load_segments-Result file (e_phnum file) 0 (e_phnum file) mem (omega arith)) in
    (
      mem',
      rw (load_elf, short, class, loaded) refl,
      λ a clear. (result a).0 clear,
      λ a k low hit clear. (result a).1 k (omega arith) low hit clear,
    )
  where
    short : ltb (length file) 52 ≡ false
    short = ground arith
