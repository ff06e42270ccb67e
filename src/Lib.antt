-- ===== src/Lib.antt =====
-- CPUTwo: a 32-bit processor, its emulator, assembler and linker, in C.
--
-- The parts. The assembler (assembler.c) turns a source text into a flat image or an object file
-- (dobj.h), the linker (linker.c) joins object files into an image, and the emulator (emulator.c)
-- runs an image on a processor with an MMU and devices in memory. architecture.md describes the
-- processor.
--
-- The files below Emulator, and the code of emulator.c that they model:
--   * Machine: the constants, `TLBEntry`, `CPU`, and the state of the process as one record
--     (`cpu`, `mem`, `tlb`, `escape_pending`, whether it has ended, the calls it has made), with
--     what the host answers in a round as another (`Host`);
--   * Memory: `mem_read32` to `mem_write8`; Memory/Words and Memory/RoundTrip have their laws;
--   * Exception: `raise_exception`;
--   * Flags: `update_flags_nz`, `clear_cv`, `update_flags_add`, `update_flags_sub`;
--   * Mmu: `mmu_translate`, with the two levels of the walk as `page_walk` and `walk_l2`, and the
--     flushes of the TLB; Mmu/Bits, Mmu/Outcome and Mmu/Again are about its results;
--   * Mmio: `mmio_read` and `mmio_write`, one function per device and direction;
--   * Access: `cpu_read32` to `cpu_write8` and `cpu_fetch`;
--   * Device: `timer_tick`, `interrupt_check`, `read_one`, `uart_poll` and the housekeeping at the
--     end of a round of `cpu_run`; Device/Timer is about many ticks;
--   * Decode: the fields of an instruction word and the opcodes;
--   * Alu: the cases of the `switch` in `cpu_run` on registers and flags, with Alu/Compare,
--     Alu/Wide, Alu/Rotate and Alu/Divide about their arithmetic;
--   * Execute: the other cases; Execute/Resume is about the returns from a handler,
--     Execute/Division about DIV and MOD;
--   * Run: the `switch`, a round of the loop (`cpu_step`), the loop (`cpu_run`), `cpu_reset`;
--   * Loader: `load_elf`, the flat load, and the machine that `main` starts; Loader/Segments is about
--     the memory after `load_elf`;
--   * Disasm: `reg_name` and `disasm`, with the table of its `switch`;
--   * Keeps: the invariant of a run, one module per part of a round, up to a whole round (Keeps/Step)
--     and the loop (Keeps/Run);
--   * Tests: small runs, and the theorems at concrete machines.
-- The files below Linker, and the code of linker.c that they model:
--   * Object: `LSec`, `LSym`, `LRel`, `ObjFile`;
--   * Layout: `assign_addresses`;
--   * Symbols: `find_global`, `build_globals`, and the address of a symbol in `resolve_relocs`; an
--     index outside an object's arrays, which C leaves undefined, has a result of its own;
--     Symbols/Bound is about the size of the table, Symbols/First and Symbols/Refines about the table
--     as a map;
--   * Reloc: `get32`, `put32` and the patch of one site in `resolve_relocs`, with the constants of
--     dobj.h; a store behind the section and an overflow of the addend have a result of their own; Reloc/Jump and Reloc/Load run patched words in the model of the emulator;
--   * Resolve: the relocations of one object in `resolve_relocs`; Resolve/Frame is about what they
--     leave alone, Resolve/Sites about the word at a site;
--   * Load: `load_dobj`, on the bytes of the file;
--   * Output: `emit_output`; a copy behind the buffer has a result of its own;
--   * Link: `resolve_relocs`, `write_map` and `main` behind its arguments;
--   * Tests: the theorems at concrete sections and words.
-- The files below Assembler, and the code of assembler.c that they model:
--   * Token and Lexer: `Token`, `next_token`, `tokenize_line`; the tokens of a line are a list, and
--     a read behind the line has a result of its own;
--   * State: the static variables as one record, `find_symbol`, `emit_reloc`, `emit_byte`; a change
--     of a symbol that is added where it is missing is one function (`with_symbol`);
--   * Parse and Parser: results of the functions that return 0 after an error, and their sequence;
--   * Expr: `eval_expr`; an `int64_t` overflow is a result of its own;
--   * Opcodes: `opcode_table`, `find_opcode`, `instr_size`;
--   * Operands: `parse_register`, `parse_mem_operand`, `peek_sym_ref`;
--   * Encode: the `switch` of `assemble_line` over the formats, as what an instruction emits;
--     Encode/Fields, Encode/Immediate, Encode/Target and Encode/Range are about the words, with the
--     models of the emulator and of the linker;
--   * Directive: `process_directive` and `assemble_line`;
--   * Passes: `pass1`, `pass2`, `directive_size`, and `assemble_string` behind the split into lines;
--   * Lines: `collect_lines` and `assemble_string`; Lines/Depth, Lines/Split and Lines/Bound are about
--     the calls for include files, plain lines, and the arrays;
--   * Main: `main`;
--   * Address: the address of a line in both passes, by statement, line and program;
--   * Dobj: `write_dobj`;
--   * Listing: the text of the disassembler, from its bytes (Lex, Number, Word) and tokens (Rows,
--     Tokens) to the words of the second pass (Words, Registers, Operands, RoundTrip);
--   * Tests: a small program, and the theorems at concrete operands.
-- Dobj has the constants of dobj.h; Dobj/Fields, Dobj/Records, Dobj/Section and Dobj/RoundTrip are
-- about an object file that the assembler writes and the linker loads, and Dobj/Kept about what the
-- assembler holds after any source, function by function, up to `main` in Kept/Main.
-- Base has the bits of the native numbers, 32-bit words (`u32`, `add32`, `sub32`, `not32`) and the
-- integers of two's-complement words.
--
-- How the code is modelled. A `uint32_t` is a natural number, with the wrap-around of every
-- operation written out. The arrays are functions; `mem` from 64 MB on stands for what lies behind
-- the array in the process, so that an access out of bounds is visible in the model. A translation
-- returns an option, none for the page fault that has been raised. The calls of the C library and
-- of the system are the events of `trace`, and their answers are the `Host` of the round. An
-- operation that C leaves undefined on its operands (the overflow of a signed division, or of the
-- signed sum that is the address of a load or a store) ends the process with the event `undefined`. A round is total; `cpu_run` in the model goes for as many
-- rounds as there are answers of the host, and stops where the code stops.
--
-- In the assembler, `went_wrong` is set by an operation that C leaves undefined. Both passes are
-- recursion on the list of lines, and a line has 64 tokens at most, the bound of the code. The file
-- system is a function from paths to texts. `collect_lines` calls itself for an include file; the
-- depth of these calls is bounded by fuel, more than the rank of the source is enough where files
-- include each other in no circle, and a run that is too deep sets `too_deep`.
--
-- Not modelled: the debugger's prompt and dumps, the arguments of the emulator's `main`, and the
-- terminal's raw mode; of the linker the parsing of the arguments, and of the map file the digits;
-- of the assembler the texts of the messages. That files can be written and memory can be
-- allocated is assumed.
pub mod Base
pub mod Emulator
pub mod Dobj
pub mod Linker
pub mod Assembler
