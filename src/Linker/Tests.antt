-- ===== src/Linker/Tests.antt =====
-- The theorems on linker.c at concrete sections and words.
use cputwo.Base.{add32, ℕ, ◌+◌, ◌<◌, ◌≤◌, ◌≡◌, true, false, List, [], ◌∷◌, some, refl, arith}
use cputwo.Emulator.Tests.{blank, idle}
use cputwo.Emulator.Decode.{decode, opcode_of, jmp, movi, movhi}
use cputwo.Emulator.Alu.{taken}
use cputwo.Emulator.Execute.{exec_branch}
use cputwo.Emulator.Run.{execute}
use cputwo.Linker.Resolve.{resolve_object}
use cputwo.Linker.Resolve.Frame.{AllDefined, Ended, resolve_object-Ended}
use cputwo.Linker.Resolve.Sites.{HoldsWord, resolve_object_site}
use cputwo.Base.Int.{◌+ℤ◌, sum_overflows}
use cputwo.Linker.Object.{LRel, LSec, ObjFile}
use cputwo.Linker.Layout.{
  Chain, all_sections, align4, place_section, next_address, assign_sections, assign_addresses,
  assign_addresses-Chain,
}
use cputwo.Linker.Output.{AllEnd, emit_output, emit_output-Chain}
use cputwo.Linker.Reloc.{
  get32, reloc_jump20, reloc_branch20, reloc_movi32_lo, reloc_movi32_hi, patch, out_of_range,
}
use cputwo.Linker.Reloc.Jump.{execute-patch_jump, exec_branch-patch_branch}
use cputwo.Base.Text.{same_name, entry, take}
use cputwo.Linker.Symbols.{
  symbol_address, address, find_global, enter_symbol, add_symbol, then_build, add_symbols,
  add_objects, build_globals, going, Globals,
}
use cputwo.Linker.Symbols.First.{Refines, definitions}
use cputwo.Linker.Symbols.Refines.{ObjectsFit, build_globals-Refines}
use cputwo.Linker.Symbols.Bound.{Bounded, build_globals-Bounded}
use cputwo.Linker.Reloc.Load.{execute-patch_movi32}

abbrev of_size : ℕ → LSec
of_size n = record { vma_hint = 0; size = n; base = 0; bytes = λ i. 0 }

abbrev two_objects : List ObjFile
two_objects =
    record { secs = of_size 5 ∷ of_size 0 ∷ []; syms = []; rels = [] }
    ∷ record { secs = of_size 8 ∷ []; syms = []; rels = [] }
    ∷ []

assign_addresses-Chain_example : Chain 0x100 (all_sections (assign_addresses 0x100 two_objects))
assign_addresses-Chain_example =
    assign_addresses-Chain 0x100 two_objects ((refl, (refl, tt)), ((refl, tt), tt)) (omega arith)

near : out_of_range 0x1000 0x2000 ≡ false
unfolding out_of_range
near = refl

-- A call backwards, from 0x2000 to 0x1000.
execute-patch_jump_example :
    (w : ℕ) × (patch reloc_jump20 0x0ee00000 0x1000 0x2000 ≡ some w)
    × (opcode_of (decode w).op ≡ opcode_of (decode 0x0ee00000).op)
    × ((decode w).rd ≡ (decode 0x0ee00000).rd)
    × ((execute idle jmp (decode w) 0x2000 blank).cpu.r 15 ≡ 0x1000)
execute-patch_jump_example =
    execute-patch_jump idle blank 0x0ee00000 0x1000 0x2000 (omega arith) (omega arith) (omega arith)
      near

always_fits : (decode 0x0d600000).rd ≤ 10
unfolding decode
always_fits = omega arith

always : taken blank.cpu.flags (decode 0x0d600000).rd ≡ true
unfolding taken decode
always = refl

-- BA, backwards.
exec_branch-patch_branch_example :
    (w : ℕ) × (patch reloc_branch20 0x0d600000 0x1000 0x2000 ≡ some w)
    × (opcode_of (decode w).op ≡ opcode_of (decode 0x0d600000).op)
    × ((decode w).rd ≡ (decode 0x0d600000).rd)
    × ((exec_branch blank (decode w) 0x2000).cpu.r 15 ≡ 0x1000)
exec_branch-patch_branch_example =
    exec_branch-patch_branch blank 0x0d600000 0x1000 0x2000 (omega arith) (omega arith)
      (omega arith) near always_fits always

same_register : (decode 0x13100000).rd ≡ (decode 0x0f100000).rd
unfolding decode
same_register = refl

-- MOVI r1 and MOVHI r1 for 0x12345678.
execute-patch_movi32_example :
    (w w2 : ℕ) × (patch reloc_movi32_lo 0x0f100000 0x12345678 0 ≡ some w)
    × (patch reloc_movi32_hi 0x13100000 0x12345678 4 ≡ some w2)
    × (opcode_of (decode w).op ≡ opcode_of (decode 0x0f100000).op)
    × (opcode_of (decode w2).op ≡ opcode_of (decode 0x13100000).op)
    × ((execute idle movhi (decode w2) 4 (execute idle movi (decode w) 0 blank)).cpu.r
          (decode 0x0f100000).rd
        ≡ 0x12345678)
execute-patch_movi32_example =
    execute-patch_movi32 idle blank 0x0f100000 0x13100000 0x12345678 0 4 (omega arith) (omega arith)
      (omega arith) same_register

-- Two objects that define one name, and one that names it.
abbrev same_twice : List ObjFile
same_twice =
    record {
      secs = of_size 4 ∷ [];
      syms = record { name = 97 ∷ []; value = 0; sec_idx = 0; is_global = true } ∷ [];
      rels = [];
    }
    ∷ record {
      secs = of_size 4 ∷ [];
      syms =
          record { name = 97 ∷ []; value = 2; sec_idx = 0; is_global = true }
          ∷ record { name = 98 ∷ []; value = 0; sec_idx = 0xffff; is_global = true }
          ∷ [];
      rels = [];
    }
    ∷ []

build_globals-Bounded_example : Bounded (build_globals same_twice)
build_globals-Bounded_example = build_globals-Bounded same_twice

duplicate_counted :
    build_globals same_twice
    ≡ going (record {
      glob_syms = record { name = 97 ∷ []; abs_addr = 0; obj_idx = 0 } ∷ [];
      link_errors = 1;
    })
unfolding same_name find_global entry take enter_symbol add_symbol then_build add_symbols
    add_objects build_globals
duplicate_counted = refl

same_twice_fit : ObjectsFit same_twice
unfolding entry take
same_twice_fit =
    (((refl, (λ h. refl)), tt), (((refl, (λ h. refl)), ((refl, (λ h. absurd (cc))), tt)), tt))

build_globals-Refines_example :
    (g : Globals) × (build_globals same_twice ≡ going g) × Refines (definitions same_twice) g
build_globals-Refines_example = build_globals-Refines same_twice same_twice_fit (omega arith)

-- An object that calls itself: one JUMP20, and one relocation of no section.
abbrev calling : ObjFile
calling = record {
  secs = of_size 8 ∷ [];
  syms = record { name = 97 ∷ []; value = 4; sec_idx = 0; is_global = false } ∷ [];
  rels = [];
}

abbrev calls : List LRel
calls =
    record { offset = 0; sym_idx = 0; kind = 5; sec_idx = 0; addend = 0 }
    ∷ record { offset = 0; sym_idx = 0; kind = 5; sec_idx = 3; addend = 0 }
    ∷ []

calls_defined : AllDefined [] calling calls
unfolding entry symbol_address sum_overflows ◌+ℤ◌
calls_defined = ((omega arith, refl), ((omega arith, refl), tt))

resolve_object-Ended_example : Ended [] calling calls 0
resolve_object-Ended_example = resolve_object-Ended [] calling calls 0 calls_defined

call_word : patch 5 (get32 (of_size 8).bytes 0) (add32 4 0) (add32 (of_size 8).base 0) ≡ some 4
unfolding patch out_of_range get32
call_word = refl

call_place :
    (entry calling.secs 0 ≡ some (of_size 8))
    × (symbol_address [] calling
          (record { name = 97 ∷ []; value = 4; sec_idx = 0; is_global = false })
        ≡ address 4)
unfolding entry symbol_address
call_place = (refl, refl)

resolve_object_site_example :
    (last : ObjFile) × (count : ℕ) × (sec' : LSec) × (resolve_object [] calling calls 0
      ≡ some (last, count))
    × (entry last.secs 0 ≡ some sec')
    × HoldsWord sec'.bytes 0 4
unfolding entry
resolve_object_site_example =
    resolve_object_site [] calling []
      (record { offset = 0; sym_idx = 0; kind = 5; sec_idx = 0; addend = 0 })
      (record { offset = 0; sym_idx = 0; kind = 5; sec_idx = 3; addend = 0 } ∷ []) 0 (of_size 8)
      (record { name = 97 ∷ []; value = 4; sec_idx = 0; is_global = false }) 4 4 calls_defined
      (λ j low high. tt) (λ j low high. ((λ e. absurd (omega (arith, e))), tt)) call_place.0 refl
      call_place.1 (omega arith) call_word

two_objects_end : AllEnd (all_sections (assign_addresses 0x100 two_objects))
unfolding assign_addresses assign_sections place_section next_address align4
two_objects_end = (omega arith, (omega arith, (omega arith, tt)))

emit_output-Chain_example :
    let objs = assign_addresses 0x100 two_objects in
    (size : ℕ) × (buf : ℕ → ℕ) × (emit_output objs ≡ some (size, buf))
    × ((k i : ℕ) (sec : LSec)
        → entry (all_sections objs) k ≡ some sec
        → i < sec.size
        → (sec.base + i < size) × (buf (sec.base + i) ≡ sec.bytes i))
emit_output-Chain_example =
    emit_output-Chain (assign_addresses 0x100 two_objects) 0x100
      (assign_addresses-Chain 0x100 two_objects ((refl, (refl, tt)), ((refl, tt), tt))
        (omega arith))
      two_objects_end
