-- ===== src/Cpu/Traps.antt =====
-- Each exception reaches its own handler.
use operating_system_concept.Base.{
  ℕ, zero, suc, ◌+◌, ◌-◌, ◌*◌, ◌/◌, ◌%◌, ◌^◌, ◌≤◌, ◌<◌, ◌≡◌, refl, sym, ap, ◌∙◌, inl, inr, false,
  arith, ◌==◌, ==_iff, Bool-cases, update_at, update_elsewhere,
}
use operating_system_concept.Cpu.{
  Cpu, Layout, fill_descriptor, fill_gate, trap_tss_base, tss_size, acc_tss,
}
use operating_system_concept.Cpu.Setup.{
  fill_trap_descriptors, fixed_descriptors, fill_gates, setup_gdt, setup_idt, setup_tss, setup_pic,
  cpu_init, gate_access, trap_task,
}
use operating_system_concept.Cpu.Descriptors.{
  gate_selector, segment_base, gate_selector-fill_gate, fill_descriptor-reads,
}
use operating_system_concept.Debugger.{tss_sel_2_tss}

descriptors-before :
    (n i at k : ℕ) (gdt : ℕ → ℕ)
    → k < i + trap_tss_base / 8
    → fill_trap_descriptors n i at gdt k ≡ gdt k
unfolding fill_trap_descriptors
descriptors-before zero i at k gdt before = refl
descriptors-before (suc n) i at k gdt before =
    descriptors-before n (suc i) at k _ (omega arith)
    ∙ update_elsewhere gdt (i + trap_tss_base / 8)
        (fill_descriptor (at + tss_size * i) (tss_size - 1) acc_tss 0) k (ground arith)

descriptors-at :
    (n i at k : ℕ) (gdt : ℕ → ℕ)
    → i ≤ k
    → k < i + n
    → fill_trap_descriptors n i at gdt (k + trap_tss_base / 8)
      ≡ fill_descriptor (at + tss_size * k) (tss_size - 1) acc_tss 0
unfolding fill_trap_descriptors
descriptors-at zero i at k gdt low high = absurd (omega arith)
descriptors-at (suc n) i at k gdt low high = elim (Bool-cases (k == i)) [
  | inl e ↦
      let same : k ≡ i = (==_iff k i).0 e in
      descriptors-before n (suc i) at (k + trap_tss_base / 8) _ (omega (arith, same))
      ∙ update_at gdt (i + trap_tss_base / 8) _ (k + trap_tss_base / 8) (ground (arith, same))
      ∙ ap (λ k. fill_descriptor (at + tss_size * k) (tss_size - 1) acc_tss 0) (sym same)
  | inr n' ↦ descriptors-at n (suc i) at k _ (ground (arith, n')) (omega arith)
]

-- What the two tables say of an exception.
abbrev Gated : ℕ → Layout → Cpu → Type 0
Gated k l c =
    (c.idt k ≡ fill_gate 0 (trap_tss_base + 8 * k) (gate_access k) 0)
    × ((c.trap_tss k).eip ≡ l.exception_handler_tasks k)

gates-before :
    (n i k : ℕ) (l : Layout) (c : Cpu) → k < i → Gated k l c → Gated k l (fill_gates n i l c)
unfolding fill_gates
gates-before zero i k l c before g = g
gates-before (suc n) i k l c before (gate, task) =
    let other : (k == i) ≡ false = ground arith in
    gates-before n (suc i) k l _ (omega arith) (
      update_elsewhere c.idt i _ k other ∙ gate,
      ap (λ t. t.eip) (update_elsewhere c.trap_tss i _ k other) ∙ task,
    )

gates-at : (n i k : ℕ) (l : Layout) (c : Cpu) → i ≤ k → k < i + n → Gated k l (fill_gates n i l c)
unfolding fill_gates
gates-at zero i k l c low high = absurd (omega arith)
gates-at (suc n) i k l c low high = elim (Bool-cases (k == i)) [
  | inl e ↦
      let same : k ≡ i = (==_iff k i).0 e in
      gates-before n (suc i) k l _ (omega (arith, same)) (
        update_at c.idt i _ k e
            ∙ ap (λ k. fill_gate 0 (trap_tss_base + 8 * k) (gate_access k) 0) (sym same),
        ap (λ t. t.eip) (update_at c.trap_tss i (trap_task l i (c.trap_tss i)) k e)
            ∙ ap (λ k. l.exception_handler_tasks k) (sym same),
      )
  | inr n' ↦ gates-at n (suc i) k l _ (ground (arith, n')) (omega arith)
]

fill_gates-gdt : (n i : ℕ) (l : Layout) (c : Cpu) → (fill_gates n i l c).gdt ≡ c.gdt
unfolding fill_gates
fill_gates-gdt zero i l c = refl
fill_gates-gdt (suc n) i l c = fill_gates-gdt n (suc i) l _

cpu_init-gdt : (l : Layout) (c : Cpu) → (cpu_init l c).gdt ≡ (setup_gdt l c).gdt
unfolding cpu_init setup_idt setup_tss setup_pic
cpu_init-gdt l c = fill_gates-gdt 32 0 l (record (setup_gdt l c) { idt = λ _. 0 })

cpu_init-Gated : (l : Layout) (c : Cpu) (i : ℕ) → i < 32 → Gated i l (cpu_init l c)
unfolding cpu_init setup_idt setup_tss setup_pic
cpu_init-Gated l c i inside =
    gates-at 32 0 i l (record (setup_gdt l c) { idt = λ _. 0 }) (omega arith) (omega arith)

-- The descriptor that a selector of a trap's task means.
setup_gdt-descriptor :
    (l : Layout) (c : Cpu) (i : ℕ)
    → i < 32
    → (setup_gdt l c).gdt ((trap_tss_base + 8 * i) % 2 ^ 16 / 2 ^ 3)
      ≡ fill_descriptor (l.trap_tss_at + tss_size * i) (tss_size - 1) acc_tss 0
unfolding setup_gdt
setup_gdt-descriptor l c i inside =
    let index : (trap_tss_base + 8 * i) % 2 ^ 16 / 2 ^ 3 ≡ i + trap_tss_base / 8 = omega arith in
    ap (λ k. fill_trap_descriptors 32 0 l.trap_tss_at (fixed_descriptors l.tss_at) k) index
    ∙ descriptors-at 32 0 l.trap_tss_at i (fixed_descriptors l.tss_at) (omega arith) (omega arith)

selects_task :
    (gdt : ℕ → ℕ) (sel addr limit access : ℕ)
    → addr < 2 ^ 32
    → limit < 2 ^ 32
    → gdt (sel % 2 ^ 16 / 2 ^ 3) ≡ fill_descriptor addr limit access 0
    → tss_sel_2_tss gdt sel ≡ addr
unfolding tss_sel_2_tss
selects_task gdt sel addr limit access a l e =
    ap segment_base e ∙ (fill_descriptor-reads addr limit access 0 a l (omega arith)).0

-- After `cpu_init`, with the tasks of the handlers below 4 GB: the gate of each of the 32
-- exceptions selects the task of that exception, whose segment `tss_sel_2_tss` finds and whose
-- program counter is at that exception's entry of handlers.S.
pub cpu_init-traps :
    (l : Layout) (c : Cpu) (i : ℕ)
    → l.trap_tss_at + tss_size * 32 ≤ 2 ^ 32
    → i < 32
    → (tss_sel_2_tss (cpu_init l c).gdt (gate_selector ((cpu_init l c).idt i))
        ≡ l.trap_tss_at + tss_size * i)
      × (((cpu_init l c).trap_tss i).eip ≡ l.exception_handler_tasks i)
cpu_init-traps l c i below inside =
    let (gate, task) = cpu_init-Gated l c i inside in
    let selects : gate_selector ((cpu_init l c).idt i) ≡ trap_tss_base + 8 * i =
      ap gate_selector gate
      ∙ gate_selector-fill_gate 0 (trap_tss_base + 8 * i) (gate_access i) 0
      ∙ omega arith in
    (
      ap (tss_sel_2_tss (cpu_init l c).gdt) selects
          ∙ selects_task (cpu_init l c).gdt (trap_tss_base + 8 * i) (l.trap_tss_at + tss_size * i)
              (tss_size - 1) acc_tss (omega arith) (omega arith)
              (ap (λ g. g ((trap_tss_base + 8 * i) % 2 ^ 16 / 2 ^ 3)) (cpu_init-gdt l c)
                ∙ setup_gdt-descriptor l c i inside),
      task,
    )
