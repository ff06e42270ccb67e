-- ===== src/Emulator/Keeps/Mmio.antt =====
-- The devices keep every width, and a block transfer stays inside the memory unless the end of
-- its buffer wraps.
use cputwo.Base.{
  ℕ, ◌+◌, ◌-◌, ◌^◌, ◌≤◌, ◌<◌, ◌≡◌, ◌≢◌, true, false, not, List, [], ◌∷◌, length, ◌==◌,
  if◌then◌else◌, test, update, update_all, update_ne, if_intro, refl, ◌∙◌, arith,
}
use cputwo.Base.Bits.{bit_or-lt, bit_and_mask}
use cputwo.Emulator.Machine.{
  Cpu, Machine, Memory, Host, Effect, mem_size, uart_base, timer_base, ic_base, blk_base, sv_base,
  with_cpu, emit,
}
use cputwo.Emulator.Memory.Words.{IsBytes}
use cputwo.Emulator.Exception.{raise_exception}
use cputwo.Emulator.Mmio.{
  within, sv_register, uart_read, timer_read, ic_read, blk_read, mmio_read, store_bytes,
  transfer_ok, blk_transfer_read, blk_transfer_write,
}
use cputwo.Emulator.Keeps.Invariant.{
  IsWords, IsCpu, IsValid, IsHost, AllBytes, Keeps, wrapping_buffer,
}
use cputwo.Emulator.Keeps.Trap.{raise_exception-IsCpu}

-- What a read of a device leaves: a word, and a processor that is as wide and has its buffer.
pub record ReadsWord (c : Cpu) (out : ℕ × Cpu) : Type 0 where
  pub value : out.0 < 2 ^ 32
  pub cpu : IsCpu out.1
  pub buffer : out.1.blk_buffer ≡ c.blk_buffer

same_cpu : {c : Cpu} {x : ℕ} → IsCpu c → x < 2 ^ 32 → ReadsWord c (x, c)
same_cpu v h = record { value = h; cpu = v; buffer = refl }

sv_register-lt : {c : Cpu} (off : ℕ) → IsWords c → sv_register c off < 2 ^ 32
unfolding sv_register
sv_register-lt off w = ground arith

uart_read-ReadsWord : {c : Cpu} (off : ℕ) → IsCpu c → ReadsWord c (uart_read c off)
unfolding uart_read
uart_read-ReadsWord {c} off v =
    let w = v.words in
    let status = bit_or-lt 32 1 2 (omega arith) (omega arith) in
    if_intro (ReadsWord c) (off == 0x00)
      (λ e.
        same_cpu v (bit_or-lt 32 1 (if c.uart_rx_ready then 2 else 0) (omega arith) (ground arith)))
      λ e.
        if_intro (ReadsWord c) (off == 0x08)
          (λ e'.
            if_intro (ReadsWord c) c.uart_rx_ready
              (λ r. record {
                value = omega arith;
                cpu = record { regs = v.regs; words = ground arith };
                buffer = refl;
              })
              (λ r. same_cpu v (omega arith)))
          λ e'.
            if_intro (ReadsWord c) (off == 0x0c) (λ e''. same_cpu v w.uart_control)
              (λ e''. same_cpu v (omega arith))

timer_read-lt : {c : Cpu} (off : ℕ) → IsWords c → timer_read c off < 2 ^ 32
unfolding timer_read
timer_read-lt off w = ground arith

ic_read-lt : {c : Cpu} (off : ℕ) → IsWords c → ic_read c off < 2 ^ 32
unfolding ic_read
ic_read-lt off w = ground arith

blk_read-lt : {c : Cpu} (off : ℕ) → IsWords c → blk_read c off < 2 ^ 32
unfolding blk_read
blk_read-lt off w = ground arith

pub mmio_read-ReadsWord :
    (mem : Memory) {c : Cpu} (addr : ℕ) → IsBytes mem → IsCpu c → ReadsWord c (mmio_read mem c addr)
unfolding mmio_read
mmio_read-ReadsWord mem {c} addr h v =
    let w = v.words in
    let P = ReadsWord c in
    if_intro P (within sv_base 0x1d addr)
      (λ e.
        if_intro P (not (test c.status 1)) (λ e'. refused)
          (λ e'. same_cpu v (sv_register-lt (addr - sv_base) w)))
      λ e.
        if_intro P (within uart_base 0x10 addr) (λ a. uart_read-ReadsWord (addr - uart_base) v)
          λ a.
            if_intro P (within timer_base 0x08 addr)
              (λ b. same_cpu v (timer_read-lt (addr - timer_base) w))
              λ b.
                if_intro P (within ic_base 0x0c addr)
                  (λ d. same_cpu v (ic_read-lt (addr - ic_base) w))
                  λ d.
                    if_intro P (within blk_base 0x14 addr)
                      (λ f. same_cpu v (blk_read-lt (addr - blk_base) w))
                      (λ f. same_cpu v (omega arith))
  where
    refused : ReadsWord c (0, raise_exception mem c 0x02)
    refused = record {
      value = omega arith;
      cpu = raise_exception-IsCpu mem 0x02 h (omega arith) v;
      buffer = unfold raise_exception in refl;
    }

-- The bytes that `fread` delivers, and where they go.
store_bytes-IsBytes :
    (mem : Memory) (addr : ℕ) (bs : List ℕ)
    → IsBytes mem
    → AllBytes bs
    → IsBytes (store_bytes mem addr bs)
unfolding store_bytes
store_bytes-IsBytes mem addr [] h a = h
store_bytes-IsBytes mem addr (b ∷ bs) h a =
    store_bytes-IsBytes (update mem addr b) (addr + 1) bs
      (update_all (λ (x : ℕ). x < 256) mem addr b a.0 h) a.1

store_bytes_frame :
    (mem : Memory) (addr : ℕ) (bs : List ℕ) (j : ℕ)
    → addr + length bs ≤ j
    → store_bytes mem addr bs j ≡ mem j
unfolding store_bytes
store_bytes_frame mem addr [] j h = refl
store_bytes_frame mem addr (b ∷ bs) j h =
    store_bytes_frame (update mem addr b) (addr + 1) bs j (omega arith)
    ∙ update_ne mem addr j b (omega arith)

-- An aligned buffer whose end does not wrap lies in the memory if its end does.
transfer_inside :
    (h : Host) (c : Cpu)
    → c.blk_buffer < 2 ^ 32
    → test c.blk_buffer 0x1ff ≡ false
    → c.blk_buffer ≢ wrapping_buffer
    → transfer_ok h c ≡ true
    → c.blk_buffer + 512 ≤ mem_size
unfolding transfer_ok
transfer_inside h c small aligned ok e = ground (arith, bit_and_mask 9 c.blk_buffer)

module _ (h : Host) (answers : IsHost h) {m : Machine} (v : IsValid m) where
  pub status_cpu : {s : ℕ} → s < 2 ^ 32 → IsCpu (record (m.cpu) { blk_status = s })
  status_cpu k = record { regs = v.cpu.regs; words = let w = v.cpu.words in ground arith }

  pub blk_transfer_read-Keeps :
      test m.cpu.blk_buffer 0x1ff ≡ false → Keeps m (blk_transfer_read h m)
  unfolding blk_transfer_read with_cpu emit
  blk_transfer_read-Keeps aligned =
      if_intro (Keeps m) (transfer_ok h m.cpu)
        (λ e. record {
          valid = record {
            cpu = status_cpu (
                if_intro (λ (s : ℕ). s < 2 ^ 32) (length h.fread == 512) (λ t. omega arith)
                  (λ t. omega arith));
            bytes = store_bytes-IsBytes m.mem m.cpu.blk_buffer h.fread v.bytes answers.bytes;
            entries = v.entries;
          };
          outside = λ ok a far.
              let inside = transfer_inside h m.cpu v.cpu.words.blk_buffer aligned ok e in
              let count = answers.count in
              store_bytes_frame m.mem m.cpu.blk_buffer h.fread a (omega arith);
        })
        (λ e. record {
          valid = record { cpu = status_cpu (omega arith); bytes = v.bytes; entries = v.entries };
          outside = λ ok a far. refl;
        })

  pub blk_transfer_write-Keeps : Keeps m (blk_transfer_write h m)
  unfolding blk_transfer_write with_cpu emit
  blk_transfer_write-Keeps =
      if_intro (Keeps m) (transfer_ok h m.cpu)
        (λ e. wrote (
          if_intro (λ (s : ℕ). s < 2 ^ 32) (h.fwrite == 512) (λ t. omega arith) (λ t. omega arith)))
        (λ e. wrote (omega arith))
    where
      wrote :
          {s : ℕ} {t : List Effect}
          → s < 2 ^ 32
          → Keeps m (record m { cpu = record (m.cpu) { blk_status = s }; trace = t })
      wrote k = record {
        valid = record { cpu = status_cpu k; bytes = v.bytes; entries = v.entries };
        outside = λ ok a far. refl;
      }
