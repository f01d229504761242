-- ===== src/Screen/Bounds.antt =====
-- The place of the cursor in kernel/ecran.c and kernel/console_putbytes.c.
use operating_system_concept.Base.{
  ℕ, zero, suc, ◌+◌, ◌*◌, ◌≤◌, ◌<◌, ◌≡◌, ◌⊎◌, refl, ◌∙◌, inl, inr, Bool-cases, List, [], ◌∷◌, arith,
  leb,
}
use operating_system_concept.Screen.{
  Screen, clear_column, clear_columns, efface_ecran, defilement, put_char, wrap_line,
  scroll_if_needed, clear_once, traite_car, console_putbytes, ecrit_car, place_curseur,
}
use operating_system_concept.Screen.Scroll.{defilement-place}

-- The next char goes to one of the 25 lines of 80 columns.
pub record OnScreen (s : Screen) : Type 0 where
  pub line : s.ligne ≤ 24
  pub column : s.colonne < 80

-- The two screens write their next char at the same place.
abbrev SamePlace : Screen → Screen → Type 0
SamePlace s t = (t.ligne ≡ s.ligne) × (t.colonne ≡ s.colonne)

clear_column-place : (n i j : ℕ) (s : Screen) → SamePlace s (clear_column n i j s)
unfolding clear_column ecrit_car
clear_column-place zero i j s = (refl, refl)
clear_column-place (suc n) i j s = clear_column-place n i (suc j) (ecrit_car j i 0 15 s)

clear_columns-place : (n i : ℕ) (s : Screen) → SamePlace s (clear_columns n i s)
unfolding clear_columns
clear_columns-place zero i s = (refl, refl)
clear_columns-place (suc n) i s =
    let t = clear_column-place 25 i 0 s in
    let r = clear_columns-place n (suc i) (clear_column 25 i 0 s) in (r.0 ∙ t.0, r.1 ∙ t.1)

efface_ecran-place : (s : Screen) → ((efface_ecran s).ligne ≡ 1) × ((efface_ecran s).colonne ≡ 0)
unfolding efface_ecran
efface_ecran-place s =
    clear_columns-place 80 0 (record (place_curseur 1 0 s) { ligne = 1; colonne = 0 })

clear_once-OnScreen : (s : Screen) → OnScreen s → OnScreen (clear_once s)
clear_once-OnScreen s o = record {
  line = ground (arith, efface_ecran-place s, o.line);
  column = ground (arith, efface_ecran-place s, o.column);
}

-- Behind the `switch` the column may be the one behind the last, or the line one further down.
put_char-place :
    (c : ℕ) (s : Screen)
    → OnScreen s
    → ((put_char c s).ligne ≤ 24) × ((put_char c s).colonne ≤ 80)
      ⊎ ((put_char c s).ligne ≤ 25) × ((put_char c s).colonne ≡ 0)
unfolding put_char ecrit_car
put_char-place c s o = ground (arith, o.line, o.column, efface_ecran-place s)

scroll-OnScreen : (s : Screen) → s.ligne ≤ 25 → s.colonne < 80 → OnScreen (scroll_if_needed s)
scroll-OnScreen s l c = elim (Bool-cases (leb 25 s.ligne)) [
  | inl e ↦ rw e (record {
    line = ground (arith, defilement-place s l);
    column = ground (arith, defilement-place s l);
  })
  | inr e ↦ rw e (record { line = ground arith; column = c })
]

wrap_line-place :
    (s : Screen)
    → (s.ligne ≤ 24) × (s.colonne ≤ 80) ⊎ (s.ligne ≤ 25) × (s.colonne ≡ 0)
    → ((wrap_line s).ligne ≤ 25) × ((wrap_line s).colonne < 80)
wrap_line-place s h = ground arith

-- From a place on the screen, `traite_car` of any char leads to one, and the cursor registers hold
-- that place.
pub traite_car-OnScreen :
    (c : ℕ) (s : Screen)
    → OnScreen s
    → OnScreen (traite_car c s)
      × ((traite_car c s).cursor ≡ (traite_car c s).ligne * 80 + (traite_car c s).colonne)
unfolding traite_car place_curseur
traite_car-OnScreen c s o =
    let u = put_char c (clear_once s) in
    let w = wrap_line-place u (put_char-place c (clear_once s) (clear_once-OnScreen s o)) in
    let t = scroll-OnScreen (wrap_line u) w.0 w.1 in
    let l = t.line in
    let k = t.column in
    (record { line = ground (arith, l); column = ground (arith, k) }, ground (arith, l, k))

-- `console_putbytes` of any text, from a place on the screen, ends at a place on the screen.
pub console_putbytes-OnScreen :
    (cs : List ℕ) (s : Screen) → OnScreen s → OnScreen (console_putbytes cs s)
unfolding console_putbytes
console_putbytes-OnScreen [] s o = o
console_putbytes-OnScreen (c ∷ cs) s o =
    let d = defilement-place s (omega (arith, o.line)) in
    let t : OnScreen (defilement s) = record {
      line = d.0;
      column = ground (arith, d.1, o.column);
    } in
    console_putbytes-OnScreen cs (traite_car c (defilement s))
      (traite_car-OnScreen c (defilement s) t).0
