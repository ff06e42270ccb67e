-- ===== src/Emulator/Keeps/Run.antt =====
-- The loop of `cpu_run`: where it stops, and what it keeps.
use cputwo.Base.{
  ℕ, zero, suc, ◌≤◌, ◌<◌, ◌≡◌, ◌≢◌, ◌⊎◌, inl, inr, refl, sym, ◌∙◌, subst, Bool, true, false, ◌||◌,
  Bool-cases, List, [], ◌∷◌, length, arith,
}
use cputwo.Base.Text.{take}
use cputwo.Emulator.Machine.{Machine, Host}
use cputwo.Emulator.Run.{cpu_step, cpu_run}
use cputwo.Emulator.Keeps.Invariant.{IsValid, IsHost, SameOutside, wrapping_buffer}
use cputwo.Emulator.Keeps.Step.{cpu_step-IsValid, cpu_step-Keeps}

abbrev pub AllHosts : List Host → Type 0
AllHosts [] = Unit {0}
AllHosts (h ∷ hs) = IsHost h × AllHosts hs

-- One round after another, without a look at the state.
abbrev pub rounds : List Host → Machine → Machine
rounds [] m = m
rounds (h ∷ hs) m = rounds hs (cpu_step h m)

-- How a run ends after `k` of the rounds that the host answers.
pub record Ran (hs : List Host) (m : Machine) (k : ℕ) : Type 0 where
  pub within : k ≤ length hs
  pub result : cpu_run hs m ≡ rounds (take k hs) m
  pub running :
      (j : ℕ)
      → j < k
      → ((rounds (take j hs) m).cpu.halted ≡ false) × ((rounds (take j hs) m).exited ≡ false)
  pub stopped :
      (k ≡ length hs) ⊎ ((cpu_run hs m).cpu.halted ≡ true) ⊎ ((cpu_run hs m).exited ≡ true)
  pub outside : SameOutside m.mem (cpu_run hs m).mem
  pub valid : IsValid (cpu_run hs m)

not_running : (a b : Bool) → (a || b) ≡ true → (a ≡ true) ⊎ (b ≡ true)
not_running a b h = ground arith

still_running : (a b : Bool) → (a || b) ≡ false → (a ≡ false) × (b ≡ false)
still_running a b h = (ground arith, ground arith)

one_more :
    (h : Host) (hs : List Host) (m : Machine) (k : ℕ)
    → IsHost h
    → IsValid m
    → m.cpu.blk_buffer ≢ wrapping_buffer
    → (m.cpu.halted || m.exited) ≡ false
    → Ran hs (cpu_step h m) k
    → Ran (h ∷ hs) m (suc k)
unfolding cpu_run take
one_more h hs m k answers v buffer runs r =
    let e : cpu_run (h ∷ hs) m ≡ cpu_run hs (cpu_step h m) = rw runs refl in
    record {
      within = omega (arith, r.within);
      result = e ∙ r.result;
      running = λ j low. earlier j low (still_running m.cpu.halted m.exited runs) r.running;
      stopped = subst Stops (sym e) (ends r.stopped);
      outside =
          subst (λ (m' : Machine). SameOutside m.mem m'.mem) (sym e)
            (λ a far. r.outside a far ∙ (cpu_step-IsValid h m answers v buffer).1 a far);
      valid = subst IsValid (sym e) r.valid;
    }
  where
    Stops : Machine → Type 0
    Stops m' = (suc k ≡ length (h ∷ hs)) ⊎ (m'.cpu.halted ≡ true) ⊎ (m'.exited ≡ true)

    ends :
        (k ≡ length hs)
          ⊎ ((cpu_run hs (cpu_step h m)).cpu.halted ≡ true)
          ⊎ ((cpu_run hs (cpu_step h m)).exited ≡ true)
        → Stops (cpu_run hs (cpu_step h m))
    ends (inl all) = inl (omega arith)
    ends (inr stop) = inr stop

    earlier :
        (j : ℕ)
        → j < suc k
        → (m.cpu.halted ≡ false) × (m.exited ≡ false)
        → ((i : ℕ)
            → i < k
            → ((rounds (take i hs) (cpu_step h m)).cpu.halted ≡ false)
              × ((rounds (take i hs) (cpu_step h m)).exited ≡ false))
        → ((rounds (take j (h ∷ hs)) m).cpu.halted ≡ false)
          × ((rounds (take j (h ∷ hs)) m).exited ≡ false)
    earlier zero low first rest = first
    earlier (suc j) low first rest = rest j (omega arith)

no_more :
    (h : Host) (hs : List Host) (m : Machine)
    → IsValid m
    → (m.cpu.halted || m.exited) ≡ true
    → Ran (h ∷ hs) m 0
unfolding cpu_run take
no_more h hs m v stop =
    let e : cpu_run (h ∷ hs) m ≡ m = rw stop refl in
    record {
      within = omega arith;
      result = e;
      running = λ j low. absurd (omega arith);
      stopped = inr (
          subst (λ (m' : Machine). (m'.cpu.halted ≡ true) ⊎ (m'.exited ≡ true)) (sym e)
            (not_running m.cpu.halted m.exited stop));
      outside = subst (λ (m' : Machine). SameOutside m.mem m'.mem) (sym e) (λ a far. refl);
      valid = subst IsValid (sym e) v;
    }

-- The run with one answer of the host less.
after_round :
    (h : Host) (hs : List Host) (m : Machine)
    → (m.cpu.halted || m.exited) ≡ false
    → ((j : ℕ) → (cpu_run (take j (h ∷ hs)) m).cpu.blk_buffer ≢ wrapping_buffer)
    → (j : ℕ) → (cpu_run (take j hs) (cpu_step h m)).cpu.blk_buffer ≢ wrapping_buffer
unfolding cpu_run take
after_round h hs m runs buffer j =
    let e : cpu_run (h ∷ take j hs) m ≡ cpu_run (take j hs) (cpu_step h m) = rw runs refl in
    subst (λ (m' : Machine). m'.cpu.blk_buffer ≢ wrapping_buffer) e (buffer (suc j))

-- From any state of the C types' widths and with answers of the host that are bytes (at most 512 of
-- them from a read), if the block device's buffer register holds 0xfffffe00 after no number of
-- rounds: `cpu_run` runs a number of rounds one after another, none of them from a state that is
-- halted or has ended the process, and stops where the machine is halted, the process has ended, or
-- the answers are used up. Every word and byte of the machine is then in its C type, and no byte
-- outside the 64 MB array `mem` has been written.
pub cpu_run-Ran :
    (hs : List Host) (m : Machine)
    → AllHosts hs
    → IsValid m
    → ((j : ℕ) → (cpu_run (take j hs) m).cpu.blk_buffer ≢ wrapping_buffer)
    → (k : ℕ) × Ran hs m k
unfolding cpu_run take
cpu_run-Ran [] m answers v buffer = (
  0,
  record {
    within = omega arith;
    result = refl;
    running = λ j low. absurd (omega arith);
    stopped = inl refl;
    outside = λ a far. refl;
    valid = v;
  },
)
cpu_run-Ran (h ∷ hs) m (here, answers) v buffer = elim (Bool-cases (m.cpu.halted || m.exited)) [
  | inl stop ↦ (0, no_more h hs m v stop)
  | inr runs ↦
      let (k, r) =
        cpu_run-Ran hs (cpu_step h m) answers (cpu_step-Keeps h here v).valid
          (after_round h hs m runs buffer) in
      (suc k, one_more h hs m k here v (buffer 0) runs r)
]
