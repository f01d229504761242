-- ===== src/Process/Steady.antt =====
-- Which processes `scheduler` of kernel/process.c leaves as they are.
use operating_system_concept.Base.{
  ℕ, ◌≡◌, refl, ap, ◌∙◌, inl, inr, Bool, true, false, ◌||◌, Option, none, some, arith, ◌==◌, ==_iff,
  Bool-cases, update,
}
use operating_system_concept.Kernel.{Proc, ProcState, set_state, is_active, is_ready, is_asleep}

-- The process is ready, or runs.
abbrev pub goes_on : Option Proc → Bool
goes_on none = false
goes_on (some p) = is_ready p.state || is_active p.state

abbrev pub may_change : Option Proc → Bool
may_change none = false
may_change (some p) = is_ready p.state || is_active p.state || is_asleep p.state

-- Who is ready or runs does so still, and who neither is ready, nor runs, nor sleeps is as before.
pub record Steady (procs procs' : ℕ → Option Proc) : Type 0 where
  pub going : (x : ℕ) → goes_on (procs x) ≡ true → goes_on (procs' x) ≡ true
  pub fixed : (x : ℕ) → may_change (procs x) ≡ false → procs' x ≡ procs x

pub Steady-refl : (procs : ℕ → Option Proc) → Steady procs procs
Steady-refl procs = record { going = λ x h. h; fixed = λ x h. refl }

pub Steady-trans :
    {procs procs' procs'' : ℕ → Option Proc}
    → Steady procs procs'
    → Steady procs' procs''
    → Steady procs procs''
Steady-trans a b = record {
  going = λ x h. b.going x (a.going x h);
  fixed = λ x h. b.fixed x (ap may_change (a.fixed x h) ∙ h) ∙ a.fixed x h;
}

pub Steady-update :
    (procs : ℕ → Option Proc) (i : ℕ) (p : Proc) (s : ProcState)
    → procs i ≡ some p
    → may_change (some p) ≡ true
    → goes_on (some (set_state s p)) ≡ true
    → Steady procs (update procs i (some (set_state s p)))
Steady-update procs i p s here can now = record {
  going = λ x h. elim (Bool-cases (x == i)) [ inl e ↦ rw e now | inr e ↦ rw e h ];
  fixed = λ x h. elim (Bool-cases (x == i)) [
    | inl e ↦ let same = (==_iff x i).0 e in absurd (ground (arith, same, here, can, h))
    | inr e ↦ rw e refl
  ];
}
