-- ===== src/Semaphore.antt =====
-- kernel/semaphore.c: `screate` and `scount`, the two functions that are not commented out.
use operating_system_concept.Base.{
  ℕ, zero, suc, Bool, true, false, ◌&&◌, ◌||◌, Option, none, some, update, ltb, if◌then◌else◌,
}
use operating_system_concept.Base.Int.{ℤ, pos, negsuc}
use operating_system_concept.Base.Run.{Run, ok, fault, page_fault, out_of_fuel, ◌>>=◌, deref}

abbrev pub nbsem : ℕ
nbsem = 10

abbrev pub is_some : Option ℤ → Bool
is_some none = false
is_some (some v) = true

abbrev pub is_positive : ℤ → Bool
is_positive (pos n) = ltb 0 n
is_positive (negsuc n) = false

-- The loop reads the table before it compares the index, so it reads behind the end.
unfoldable pub search : ℕ → ℕ → (ℕ → Option ℤ) → Run ℕ
search zero i table = fault out_of_fuel
search (suc fuel) i table =
    let rest = search fuel (suc i) table in
    if ltb i nbsem
    then (if is_some (table i) || ltb i nbsem then rest else ok i)
    else fault page_fault

unfoldable pub screate : ℤ → (ℕ → Option ℤ) → Run (Option ℕ × (ℕ → Option ℤ))
unfolding search
screate count table = search (suc nbsem) 0 table >>= λ i.
    if ltb i nbsem && is_positive count
    then ok (some i, update table i (some count))
    else ok (none, table)

-- `none` is -1. The result is `res || value`, a truth value.
unfoldable pub scount : Option ℤ → Run (Option ℕ)
scount sem = deref sem >>= λ value. ok (if is_positive value then some 1 else none)
