-- ===== src/Process/Listing.antt =====
-- `getStateName` and `print_all_processes` of kernel/process.c: the rows that go to `printf`.
use operating_system_concept.Base.{
  ℕ, zero, suc, ◌+◌, ◌-◌, ◌≡◌, ap, ◌∙◌, inl, inr, Bool, true, false, ◌&&◌, ◌||◌, Option, none, some,
  List, [], ◌∷◌, arith, ltb, leb, ◌==◌, ==_iff, Bool-cases, Option-cases, has,
}
use operating_system_concept.Kernel.{
  Proc, ProcState, active, ready, msg_block, io_block, child_block, asleep, zombie, dead, Kernel,
  nbproc,
}

abbrev pub get_state_name : ProcState → List ℕ
get_state_name active = b'A' ∷ b'C' ∷ b'T' ∷ b'I' ∷ b'V' ∷ b'E' ∷ []
get_state_name ready = b'R' ∷ b'E' ∷ b'A' ∷ b'D' ∷ b'Y' ∷ []
get_state_name msg_block = b'M' ∷ b'S' ∷ b'G' ∷ b'_' ∷ b'B' ∷ b'L' ∷ b'O' ∷ b'C' ∷ b'K' ∷ []
get_state_name io_block = b'I' ∷ b'O' ∷ b'_' ∷ b'B' ∷ b'L' ∷ b'O' ∷ b'C' ∷ b'K' ∷ []
get_state_name child_block =
    b'C' ∷ b'H' ∷ b'I' ∷ b'L' ∷ b'D' ∷ b'_' ∷ b'B' ∷ b'L' ∷ b'O' ∷ b'C' ∷ b'K' ∷ []
get_state_name asleep = b'A' ∷ b'S' ∷ b'L' ∷ b'E' ∷ b'E' ∷ b'P' ∷ []
get_state_name zombie = b'Z' ∷ b'O' ∷ b'M' ∷ b'B' ∷ b'I' ∷ b'E' ∷ []
get_state_name dead = b'D' ∷ b'E' ∷ b'A' ∷ b'D' ∷ []

pub record Row : Type 0 where
  pub pid : ℕ
  pub name : List ℕ
  pub state : List ℕ

abbrev pub row_of : Proc → Row
row_of p = record { pid = p.pid; name = p.name; state = get_state_name p.state }

abbrev pub add_row : Option Proc → List Row → List Row
add_row none rows = rows
add_row (some p) rows = row_of p ∷ rows

-- The loop, for `n` slots from `i` on.
unfoldable pub print_processes_from : ℕ → ℕ → Kernel → List Row
print_processes_from zero i k = []
print_processes_from (suc n) i k = add_row (k.procs i) (print_processes_from n (suc i) k)

unfoldable pub print_all_processes : Kernel → List Row
unfolding print_processes_from
print_all_processes k = print_processes_from (nbproc - 1) 1 k

abbrev pub is_present : Option Proc → Bool
is_present none = false
is_present (some p) = true

abbrev pub pids : List Row → List ℕ
pids [] = []
pids (r ∷ rs) = r.pid ∷ pids rs

listed_from :
    (n i x : ℕ) (k : Kernel)
    → ((j : ℕ) (p : Proc) → k.procs j ≡ some p → p.pid ≡ j)
    → has x (pids (print_processes_from n i k))
      ≡ (leb i x && (ltb x (i + n) && is_present (k.procs x)))
unfolding print_processes_from
listed_from zero i x k own = ground arith
listed_from (suc n) i x k own = elim (Option-cases (k.procs i)) [
  | inl e ↦ rw e (
      listed_from n (suc i) x k own ∙ elim (Bool-cases (x == i)) [
        | inl h ↦
            let same : x ≡ i = (==_iff x i).0 h in
            let absent : is_present (k.procs x) ≡ false = ap is_present (ap k.procs same ∙ e) in
            ground (arith, same, absent)
        | inr h ↦ ground (arith, h)
      ])
  | inr (p, e) ↦
      let number : p.pid ≡ i = own i p e in
      rw e (
        ap (λ b. (x == p.pid) || b) (listed_from n (suc i) x k own) ∙ elim (Bool-cases (x == i)) [
          | inl h ↦
              let same : x ≡ i = (==_iff x i).0 h in
              let present : is_present (k.procs x) ≡ true = ap is_present (ap k.procs same ∙ e) in
              ground (arith, same, number, present)
          | inr h ↦ ground (arith, h, number)
        ])
]

-- In a table where each process knows its index, `print_all_processes` has a row for a number
-- exactly if it is the index of a process other than the idle one.
pub print_all_processes-has :
    (k : Kernel) (x : ℕ)
    → ((j : ℕ) (p : Proc) → k.procs j ≡ some p → p.pid ≡ j)
    → has x (pids (print_all_processes k)) ≡ (leb 1 x && (ltb x nbproc && is_present (k.procs x)))
unfolding print_all_processes
print_all_processes-has k x own = listed_from (nbproc - 1) 1 x k own
