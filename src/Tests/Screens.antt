-- ===== src/Tests/Screens.antt =====
-- The text screen, with the cursor on its last line.
use operating_system_concept.Base.{ℕ, ◌+◌, ◌-◌, ◌≤◌, ◌<◌, ◌≡◌, ◌⊎◌, false, [], ◌∷◌, arith}
use operating_system_concept.Screen.{Screen, ptr_mem, defilement, console_putbytes}
use operating_system_concept.Screen.Scroll.{defilement_rows}
use operating_system_concept.Screen.Bounds.{OnScreen, console_putbytes-OnScreen}

abbrev pub last_line : Screen
last_line = record { ligne = 24; colonne = 79; first_char = false; cursor = 1999; cell = λ i. i }

last_line-OnScreen : OnScreen last_line
last_line-OnScreen = record { line = omega arith; column = omega arith }

defilement_rows_example :
    (24 ≤ last_line.ligne → (defilement last_line).ligne ≡ last_line.ligne - 1)
    × ((i j : ℕ)
        → 24 ≤ last_line.ligne
        → 1 ≤ i
        → i ≤ 24
        → j < 80
        → (defilement last_line).cell (ptr_mem i j) ≡ last_line.cell (ptr_mem (i + 1) j))
    × ((x : ℕ)
        → 24 ≤ last_line.ligne
        → (x < 80) ⊎ (2000 ≤ x)
        → (defilement last_line).cell x ≡ last_line.cell x)
    × (last_line.ligne < 24 → defilement last_line ≡ last_line)
defilement_rows_example = defilement_rows last_line

console_putbytes-OnScreen_example : OnScreen (console_putbytes (65 ∷ 10 ∷ 9 ∷ []) last_line)
console_putbytes-OnScreen_example =
    console_putbytes-OnScreen (65 ∷ 10 ∷ 9 ∷ []) last_line last_line-OnScreen
