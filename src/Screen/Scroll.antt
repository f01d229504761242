-- ===== src/Screen/Scroll.antt =====
-- `defilement` of kernel/ecran.c.
use operating_system_concept.Base.{
  ℕ, zero, suc, ◌+◌, ◌-◌, ◌*◌, ◌≤◌, ◌<◌, ◌≡◌, ◌⊎◌, refl, ◌&&◌, arith, ltb, leb, if◌then◌else◌,
}
use operating_system_concept.Screen.{Screen, ptr_mem, pull_row, pull_rows, defilement}

pull_rows-cell :
    (n i : ℕ) (s : Screen) (x : ℕ)
    → (pull_rows n i s).cell x
      ≡ (if leb (i * 80) x && ltb x ((i + n) * 80) then s.cell (x + 80) else s.cell x)
unfolding pull_rows
pull_rows-cell zero i s x = ground arith
pull_rows-cell (suc n) i s x = ground (
  arith,
  pull_rows-cell n (suc i) (pull_row i s) x,
  pull_rows-cell n (suc i) (pull_row i s) (x + 80),
)

pull_rows-ligne : (n i : ℕ) (s : Screen) → (pull_rows n i s).ligne ≡ s.ligne
unfolding pull_rows
pull_rows-ligne zero i s = refl
pull_rows-ligne (suc n) i s = pull_rows-ligne n (suc i) (pull_row i s)

pull_rows-colonne : (n i : ℕ) (s : Screen) → (pull_rows n i s).colonne ≡ s.colonne
unfolding pull_rows
pull_rows-colonne zero i s = refl
pull_rows-colonne (suc n) i s = pull_rows-colonne n (suc i) (pull_row i s)

pub defilement-place :
    (s : Screen) → s.ligne ≤ 25 → ((defilement s).ligne ≤ 24) × ((defilement s).colonne ≡ s.colonne)
unfolding defilement
defilement-place s h = ground (arith, pull_rows-ligne 24 1 s, pull_rows-colonne 24 1 s)

-- On the last line `defilement` puts row `i + 1` into row `i` for each row from 1 to 24, leaves the
-- first row and all behind row 24 alone, and goes up by one line; on other lines it does nothing.
pub defilement_rows :
    (s : Screen)
    → (24 ≤ s.ligne → (defilement s).ligne ≡ s.ligne - 1)
      × ((i j : ℕ)
          → 24 ≤ s.ligne
          → 1 ≤ i
          → i ≤ 24
          → j < 80
          → (defilement s).cell (ptr_mem i j) ≡ s.cell (ptr_mem (i + 1) j))
      × ((x : ℕ) → 24 ≤ s.ligne → (x < 80) ⊎ (2000 ≤ x) → (defilement s).cell x ≡ s.cell x)
      × (s.ligne < 24 → defilement s ≡ s)
unfolding defilement
defilement_rows s = (
  λ h. ground (arith, pull_rows-ligne 24 1 s),
  λ i j h lo hi c. ground (arith, pull_rows-cell 24 1 s (i * 80 + j)),
  λ x h out. ground (arith, pull_rows-cell 24 1 s x),
  λ h. ground arith,
)
