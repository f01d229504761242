-- ===== src/Tests/Consoles.antt =====
-- The console, the timer and the heap at concrete states.
use operating_system_concept.Base.{
  ℕ, ◌+◌, ◌/◌, ◌%◌, ◌≤◌, ◌≡◌, refl, true, false, none, some, List, [], ◌∷◌, ◌++◌, arith,
}
use operating_system_concept.Base.Run.{Returns}
use operating_system_concept.Console.{Terminal, cons_read_resume}
use operating_system_concept.Console.Buffer.{Buffered}
use operating_system_concept.Console.Typing.{type_all, cons_read-typed}
use operating_system_concept.Clock.{Timer, tic_pit, Ticked, tic_pit-Ticked}
use operating_system_concept.Heap.{sbrk, sbrks, Stacked, sbrks-Stacked}
use operating_system_concept.Tests.Schedules.{three, three-IsValid}
use operating_system_concept.Tests.Screens.{last_line}

abbrev at_start : Terminal
at_start = record {
  point_eol = 0;
  fin_de_ligne = false;
  echo = true;
  tampon = λ _. 0;
  printed = [];
}

at_start-Buffered : Buffered at_start []
at_start-Buffered = record { filled = refl; content = λ i. refl; room = omega arith }

cons_read-typed_example :
    Returns (type_all ((108 ∷ 115 ∷ []) ++ (13 ∷ [])) at_start three) (λ (t', _).
      Returns (cons_read_resume 10 t') (λ (ds, t''). (ds ≡ (108 ∷ 115 ∷ [])) × Buffered t'' []))
cons_read-typed_example =
    cons_read-typed 10 (108 ∷ 115 ∷ []) at_start three three-IsValid
      (omega arith, omega arith, omega arith, (omega arith, omega arith, omega arith, tt))
      (omega arith) (omega arith) (omega arith) refl at_start-Buffered

-- Two digits for each number, with colons.
abbrev hh_mm_ss : ℕ → ℕ → ℕ → List ℕ
hh_mm_ss h m s =
    (48 + h / 10)
    ∷ (48 + h % 10)
    ∷ 58
    ∷ (48 + m / 10)
    ∷ (48 + m % 10)
    ∷ 58
    ∷ (48 + s / 10)
    ∷ (48 + s % 10)
    ∷ []

abbrev booted : Timer
booted = record { time = 0; kernel = three; screen = last_line }

tic_pit-Ticked_example : Returns (tic_pit hh_mm_ss booted) (Ticked 0)
tic_pit-Ticked_example =
    tic_pit-Ticked hh_mm_ss 0 booted (λ h m s _ _ _. refl) refl refl three-IsValid (omega arith)

sbrks-Stacked_example :
    Stacked 0x3000 0x2000 (64 ∷ 0x1000 ∷ 32 ∷ []) (some 0x2000 ∷ none ∷ some 0x2040 ∷ []) 0x2060
    × (0x2060 ≤ 0x3000)
unfolding sbrks sbrk
sbrks-Stacked_example =
    sbrks-Stacked 0x3000 (64 ∷ 0x1000 ∷ 32 ∷ []) 0x2000 (omega arith) (omega arith) (omega arith)
