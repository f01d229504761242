-- ===== src/Screen.antt =====
-- kernel/ecran.c and kernel/console_putbytes.c: the text screen.
-- `cell i` is the 16-bit word at 0xB8000 + 2 * i, and `cursor` what the two cursor registers hold.
-- A char from 128 on is negative in C, and is handled like every char that is not printed.
pub mod Scroll
pub mod Bounds
use operating_system_concept.Base.{
  ℕ, zero, suc, ◌+◌, ◌-◌, ◌*◌, ◌/◌, ◌%◌, ◌^◌, Bool, true, false, ◌&&◌, List, [], ◌∷◌, update, ltb,
  leb, ◌==◌, if◌then◌else◌,
}

pub record Screen : Type 0 where
  pub ligne : ℕ
  pub colonne : ℕ
  pub first_char : Bool
  pub cursor : ℕ
  pub cell : ℕ → ℕ

abbrev pub ptr_mem : ℕ → ℕ → ℕ
ptr_mem lig col = lig * 80 + col

unfoldable pub ecrit_car : ℕ → ℕ → ℕ → ℕ → Screen → Screen
ecrit_car lig col c format s = record s {
  cell = update s.cell (ptr_mem lig col) ((format * 256 + c) % 2 ^ 16);
}

unfoldable pub place_curseur : ℕ → ℕ → Screen → Screen
place_curseur lig col s = record s {
  colonne = col % 2 ^ 16;
  ligne = lig % 2 ^ 16;
  cursor = (col + lig * 80) % 2 ^ 16;
}

-- The inner loop of `efface_ecran`, and the outer one.
unfoldable pub clear_column : ℕ → ℕ → ℕ → Screen → Screen
unfolding ecrit_car
clear_column zero i j s = s
clear_column (suc n) i j s = clear_column n i (suc j) (ecrit_car j i 0 15 s)

unfoldable pub clear_columns : ℕ → ℕ → Screen → Screen
unfolding clear_column
clear_columns zero i s = s
clear_columns (suc n) i s = clear_columns n (suc i) (clear_column 25 i 0 s)

unfoldable pub efface_ecran : Screen → Screen
unfolding clear_columns
efface_ecran s = clear_columns 80 0 (record (place_curseur 1 0 s) { ligne = 1; colonne = 0 })

-- `memmove` of one row of 160 bytes.
unfoldable pub pull_row : ℕ → Screen → Screen
pull_row i s = record s {
  cell =
      λ x. if leb (ptr_mem i 0) x && ltb x (ptr_mem (i + 1) 0) then s.cell (x + 80) else s.cell x;
}

unfoldable pub pull_rows : ℕ → ℕ → Screen → Screen
unfolding pull_row
pull_rows zero i s = s
pull_rows (suc n) i s = pull_rows n (suc i) (pull_row i s)

unfoldable pub defilement : Screen → Screen
defilement s =
    if leb 24 s.ligne then (let t = pull_rows 24 1 s in record t { ligne = t.ligne - 1 }) else s

abbrev pub next_line : Screen → Screen
next_line s = record s { ligne = (s.ligne + 1) % 2 ^ 16; colonne = 0 }

-- The `switch` of `traite_car`.
unfoldable pub put_char : ℕ → Screen → Screen
unfolding ecrit_car
put_char c s =
    if c == 8
    then (if s.colonne == 0 then s else record s { colonne = s.colonne - 1 })
    else if c == 9
    then record s { colonne = (s.colonne / 8 + 1) * 8 % 2 ^ 16 }
    else if c == 10
    then next_line s
    else if c == 12
    then efface_ecran s
    else if c == 13
    then record s { colonne = 0 }
    else if leb 32 c && leb c 126
    then (let t = ecrit_car s.ligne s.colonne c 15 s in
        record t { colonne = (t.colonne + 1) % 2 ^ 16 })
    else s

abbrev pub wrap_line : Screen → Screen
wrap_line s = if leb 80 s.colonne then next_line s else s

abbrev pub scroll_if_needed : Screen → Screen
scroll_if_needed s = if leb 25 s.ligne then defilement s else s

abbrev pub clear_once : Screen → Screen
clear_once s = if s.first_char then record (efface_ecran s) { first_char = false } else s

unfoldable pub traite_car : ℕ → Screen → Screen
unfolding place_curseur
traite_car c s =
    let t = scroll_if_needed (wrap_line (put_char c (clear_once s))) in
    place_curseur t.ligne t.colonne t

unfoldable pub console_putbytes : List ℕ → Screen → Screen
console_putbytes [] s = s
console_putbytes (c ∷ cs) s = console_putbytes cs (traite_car c (defilement s))

-- Every char goes to the first cell of the screen.
unfoldable pub print_top_left : List ℕ → Screen → Screen
print_top_left [] s = s
print_top_left (c ∷ cs) s =
    print_top_left cs (record s { cell = update s.cell (ptr_mem 0 0) (c + 0x0f00) })

unfoldable pub top_right_from : ℕ → List ℕ → Screen → Screen
top_right_from i [] s = s
top_right_from i (c ∷ cs) s =
    top_right_from (suc i) cs (record s { cell = update s.cell (ptr_mem 0 (70 + i)) (c + 0x0f00) })

unfoldable pub print_top_right : List ℕ → Screen → Screen
unfolding top_right_from place_curseur
print_top_right cs s = place_curseur s.ligne s.colonne (top_right_from 0 cs s)
