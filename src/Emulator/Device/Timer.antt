-- ===== src/Emulator/Device/Timer.antt =====
-- The timer over many ticks.
use cputwo.Base.{
  ◌==◌, ◌≤◌, if_intro, ℕ, ◌+◌, ◌-◌, ◌<◌, ◌≡◌, true, if◌then◌else◌, bit_or, test, refl, ap, ◌∙◌,
  arith,
}
use cputwo.Emulator.Machine.{Cpu}
use cputwo.Emulator.Device.{timer_tick}

-- `n` ticks.
abbrev pub ticks : ℕ → Cpu → Cpu
ticks = elim [ ℕ.zero ↦ λ c. c | ℕ.suc (n → rest) ↦ λ c. rest (timer_tick c) ]

-- The timer has `n` ticks to go.
abbrev pub counting : Cpu → ℕ → Cpu
counting c n = record c { timer_count = n }

-- The timer has started its next period, and asked for its interrupt if it may.
abbrev pub expired : Cpu → Cpu
expired c = record c {
  timer_count = c.timer_period;
  ic_pending = if test c.timer_control 2 then bit_or c.ic_pending 1 else c.ic_pending;
}

tick_down :
    (c : Cpu) (k : ℕ)
    → test c.timer_control 1 ≡ true
    → timer_tick (counting c (k + 2)) ≡ counting c (k + 1)
unfolding timer_tick
tick_down c k on = rw on (ground arith)

tick_last : (c : Cpu) → test c.timer_control 1 ≡ true → timer_tick (counting c 1) ≡ expired c
unfolding timer_tick
tick_last c on = rw on (ground arith)

count_down :
    (c : Cpu) (n k : ℕ)
    → test c.timer_control 1 ≡ true
    → ticks n (counting c (k + 1 + n)) ≡ counting c (k + 1)
count_down c n k on = by_length n
  where
    by_length : (n : ℕ) → ticks n (counting c (k + 1 + n)) ≡ counting c (k + 1)
    by_length ℕ.zero = ap (counting c) (omega arith)
    by_length (ℕ.suc n) =
        ap (λ c'. ticks n (timer_tick c'))
          (ap (counting c) {x = k + 1 + ℕ.suc n} {y = (k + n) + 2} (omega arith))
        ∙ ap (ticks n) (tick_down c (k + n) on)
        ∙ ap (λ x. ticks n (counting c x)) (omega arith)
        ∙ by_length n

-- The last tick, taken out.
ticks_last : (n : ℕ) (c : Cpu) → ticks (ℕ.suc n) c ≡ timer_tick (ticks n c)
ticks_last ℕ.zero c = refl
ticks_last (ℕ.suc n) c = ticks_last n (timer_tick c)

-- An enabled timer with `count` ticks to go only counts down for fewer ticks than that; with the
-- last of them it loads its period again and, when its interrupt is enabled, asks for it in the
-- interrupt controller.
pub timer_tick-period :
    (c : Cpu) (n : ℕ)
    → test c.timer_control 1 ≡ true
    → 0 < c.timer_count
    → n ≤ c.timer_count
    → ticks n c ≡ (if n == c.timer_count then expired c else counting c (c.timer_count - n))
timer_tick-period c n on some_left few =
    if_intro (λ (c' : Cpu). ticks n c ≡ c') (n == c.timer_count)
      (λ e.
        ap (λ k. ticks k c) {x = n} {y = ℕ.suc (c.timer_count - 1)} (ground arith)
        ∙ last (c.timer_count - 1) (omega arith))
      (λ e. counts n (ground arith))
  where
    counts : (n : ℕ) → n < c.timer_count → ticks n c ≡ counting c (c.timer_count - n)
    counts n few =
        let k = c.timer_count - n - 1 in
        ap (λ x. ticks n (counting c x)) {x = c.timer_count} {y = k + 1 + n} (omega arith)
        ∙ count_down c n k on
        ∙ ap (counting c) {x = k + 1} (omega arith)

    last : (j : ℕ) → c.timer_count ≡ ℕ.suc j → ticks (ℕ.suc j) c ≡ expired c
    last j e =
        ticks_last j c
        ∙ ap timer_tick (counts j (omega arith))
        ∙ ap (λ x. timer_tick (counting c x)) {x = c.timer_count - j} {y = 1} (omega arith)
        ∙ tick_last c on
