-- ===== src/Emulator/Loader/Tests.antt =====
-- A small ELF file.
use cputwo.Base.{ℕ, zero, suc, ◌+◌, ◌<◌, ◌≡◌, refl, true, some, List, [], ◌∷◌, ◌++◌, arith}
use cputwo.Emulator.Machine.{Memory}
use cputwo.Emulator.Loader.{
  file_byte, rd_le16, rd_le32, e_entry, e_phoff, e_phentsize, e_phnum, segment, load_elf,
}
use cputwo.Emulator.Loader.Segments.{covers, segment_byte, Uncovered, accepted, load_elf_segments}

abbrev zeros : ℕ → List ℕ
zeros zero = []
zeros (suc n) = 0 ∷ zeros n

abbrev word : ℕ → ℕ → List ℕ
word low high = low ∷ high ∷ 0 ∷ 0 ∷ []

-- Two bytes of the file at 0x100, and two zeros behind them.
abbrev file : List ℕ
file =
    (0x7f ∷ b'E' ∷ b'L' ∷ b'F' ∷ 1 ∷ [])
    ++ zeros 19
    ++ word 0 1
    ++ word 52 0
    ++ zeros 10
    ++ (32 ∷ 0 ∷ 1 ∷ 0 ∷ [])
    ++ zeros 6
    ++ word 1 0
    ++ word 84 0
    ++ word 0 1
    ++ zeros 4
    ++ word 2 0
    ++ word 4 0
    ++ zeros 8
    ++ (0xaa ∷ 0xbb ∷ [])

abbrev sevens : Memory
sevens i = 7

one_header : e_phnum file ≡ 1
unfolding e_phnum rd_le16 file_byte
one_header = refl

of_class : file_byte file 4 ≡ 1
unfolding file_byte
of_class = refl

first_accepted : accepted file (segment file 0) ≡ true
unfolding segment e_phoff e_phentsize rd_le16 rd_le32 file_byte
first_accepted = refl

all_accepted : (k : ℕ) → k < e_phnum file → accepted file (segment file k) ≡ true
all_accepted zero h = first_accepted
all_accepted (suc k) h = absurd (omega (arith, one_header))

load_elf_segments_example :
    (mem' : Memory) × (load_elf file sevens ≡ some (mem', e_entry file))
    × ((a : ℕ) → Uncovered file 0 (e_phnum file) a → mem' a ≡ sevens a)
    × ((a k : ℕ)
        → k < e_phnum file
        → covers (segment file k) a ≡ true
        → Uncovered file (k + 1) (e_phnum file) a
        → mem' a ≡ segment_byte file (segment file k) a)
load_elf_segments_example = load_elf_segments file sevens (omega arith) of_class all_accepted

loaded_byte :
    (segment_byte file (segment file 0) 0x101 ≡ 0xbb)
    × (segment_byte file (segment file 0) 0x102 ≡ 0)
unfolding segment e_phoff e_phentsize rd_le16 rd_le32 file_byte
loaded_byte = (refl, refl)
