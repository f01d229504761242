-- ===== src/Clock.antt =====
-- kernel/horloge.c: the timer's interrupt and the settings of the interrupt controller.
-- `sprintf` is the parameter `format` of the model: the chars in front of the final zero, for the
-- hours, the minutes and the seconds. What goes to the ports of the timer chip is left out.
use operating_system_concept.Base.{
  ℕ, ◌+◌, ◌-◌, ◌*◌, ◌/◌, ◌%◌, ◌^◌, ◌<◌, ◌≡◌, refl, ◌∙◌, inl, inr, Bool, true, false, List, arith,
  length, ltb, ◌==◌, Bool-cases, if◌then◌else◌,
}
use operating_system_concept.Base.Run.{Run, ok, fault, page_fault, ◌>>=◌, Returns, Returns-at}
use operating_system_concept.Base.Cmd.{Cmd, ◌>>◌}
use operating_system_concept.Kernel.{Kernel}
use operating_system_concept.Paging.Memory.{Ram, store}
use operating_system_concept.Process.Scheduler.{scheduler}
use operating_system_concept.Process.Invariant.{IsValid}
use operating_system_concept.Process.Schedule.{scheduler-Scheduled, IsValid-CanSchedule}
use operating_system_concept.Screen.{Screen, print_top_right}

abbrev pub quartz : ℕ
quartz = 0x1234dd

abbrev pub clockfreq : ℕ
clockfreq = 100

pub record Timer : Type 0 where
  pub time : ℕ
  pub kernel : Kernel
  pub screen : Screen

abbrev pub tick : Kernel → Kernel
tick k = record k { nb_interrupt = (k.nb_interrupt + 1) % 2 ^ 32 }

abbrev pub next_time : ℕ → ℕ → ℕ
next_time n time = if n % clockfreq == 0 then (time + 1) % 2 ^ 32 else time

abbrev pub yield_every_second : Kernel → Run Kernel
yield_every_second k = if k.nb_interrupt % 2 == 0 then scheduler k else ok k

-- The text and its final zero must fit the 9 bytes of the buffer.
unfoldable pub tic_pit : (ℕ → ℕ → ℕ → List ℕ) → Timer → Run Timer
tic_pit format t =
    let k = tick t.kernel in
    let time = next_time k.nb_interrupt t.time in
    let text = format (time / 60 / 60) (time / 60 % 60) (time % 60) in
    if ltb 8 (length text)
    then fault page_fault
    else (yield_every_second k >>= λ k₁.
        ok (record { time = time; kernel = k₁; screen = print_top_right text t.screen }))

-- The segment KERNEL_CS is 0x10, and the two words of a gate do not overlap.
unfoldable pub init_traitant_it : ℕ → ℕ → Cmd Ram (Unit {0})
init_traitant_it num_it traitant = do
  store (0x1000 + num_it * 2 * 4) (0x10 * 2 ^ 16 + traitant % 2 ^ 16)
  store (0x1000 + num_it * 2 * 4 + 4) (traitant - traitant % 2 ^ 16 + 0xee00)

-- The new mask, from the one that the port shows.
unfoldable pub masque_irq : ℕ → Bool → ℕ → ℕ
masque_irq num_irq true val =
    if val / 2 ^ num_irq % 2 == 1 then val else (val + 2 ^ num_irq) % 2 ^ 8
masque_irq num_irq false val = if val / 2 ^ num_irq % 2 == 1 then val - 2 ^ num_irq else val

abbrev pub clock_settings : ℕ × ℕ
clock_settings = (quartz, clockfreq)

tick-IsValid : (k : Kernel) → IsValid k → IsValid (tick k)
tick-IsValid k v = record {
  fits = record {
    distinct = v.fits.distinct;
    sorted = v.fits.sorted;
    bounded = v.fits.bounded;
    slots = v.fits.slots;
  };
  current = v.current;
  idle = v.idle;
}

-- What an interrupt leaves: one more tick, the seconds that go with it, and a valid kernel.
pub record Ticked (n : ℕ) (t : Timer) : Type 0 where
  pub ticks : t.kernel.nb_interrupt ≡ n + 1
  pub seconds : t.time ≡ (n + 1) / clockfreq
  pub valid : IsValid t.kernel

yield-IsValid :
    (k : Kernel)
    → IsValid k
    → Returns (yield_every_second k) (λ k'. IsValid k' × (k'.nb_interrupt ≡ k.nb_interrupt))
yield-IsValid k v = elim (Bool-cases (k.nb_interrupt % 2 == 0)) [
  | inl e ↦
      let (k', run, s) = scheduler-Scheduled k v.current.0 (IsValid-CanSchedule k v) in
      (k', rw e run, (s.valid, s.kept.clock))
  | inr e ↦ (k, rw e refl, (v, refl))
]

pub yield_tick-IsValid :
    (k k' : Kernel) → IsValid k → yield_every_second (tick k) ≡ ok k' → IsValid k'
yield_tick-IsValid k k' v run =
    (Returns-at (yield_every_second (tick k)) _ k' (yield-IsValid (tick k) (tick-IsValid k v))
      run).0

-- Where `sprintf` writes eight chars for numbers below 100, the interrupts of the first 100 hours
-- keep the clock: the seconds are the ticks divided by the frequency, and the kernel is valid.
pub tic_pit-Ticked :
    (format : ℕ → ℕ → ℕ → List ℕ) (n : ℕ) (t : Timer)
    → ((h m s : ℕ) → h < 100 → m < 100 → s < 100 → length (format h m s) ≡ 8)
    → t.kernel.nb_interrupt ≡ n
    → t.time ≡ n / clockfreq
    → IsValid t.kernel
    → n + 1 < 36_000_000
    → Returns (tic_pit format t) (Ticked n)
unfolding tic_pit
tic_pit-Ticked format n t two_digits ticks seconds v early =
    let k = tick t.kernel in
    let time = next_time k.nb_interrupt t.time in
    let counted : k.nb_interrupt ≡ n + 1 = ground (arith, ticks) in
    let timed : time ≡ (n + 1) / clockfreq = ground (arith, ticks, seconds) in
    let eight =
      two_digits (time / 60 / 60) (time / 60 % 60) (time % 60) (omega (arith, timed, early))
        (omega arith) (omega arith) in
    let short : ltb 8 (length (format (time / 60 / 60) (time / 60 % 60) (time % 60))) ≡ false =
      ground (arith, eight) in
    let (k₁, run, (v₁, same)) = yield-IsValid k (tick-IsValid t.kernel v) in
    (
      record {
        time = time;
        kernel = k₁;
        screen = print_top_right (format (time / 60 / 60) (time / 60 % 60) (time % 60)) t.screen;
      },
      rw short (rw run refl),
      record { ticks = same ∙ counted; seconds = timed; valid = v₁ },
    )
