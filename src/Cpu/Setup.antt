-- ===== src/Cpu/Setup.antt =====
-- What `cpu_init` of kernel/boot/processor_structs.c loads into the processor.
use operating_system_concept.Base.{
  ℕ, zero, suc, ◌+◌, ◌-◌, ◌*◌, ◌/◌, List, [], ◌∷◌, ◌++◌, update, ◌==◌, if◌then◌else◌,
}
use operating_system_concept.Cpu.{
  sz_32, acc_tss, acc_kernel_code, acc_kernel_data, acc_user_code, acc_user_data, acc_task_gate,
  base_tss, kernel_cs, kernel_ds, user_cs, user_ds, trap_tss_base, handler_entries, fill_descriptor,
  fill_gate, X86Tss, zero_tss, tss_size, Layout, Cpu,
}

-- The loop of `setup_gdt`, over `n` entries from `i` on.
unfoldable pub fill_trap_descriptors : ℕ → ℕ → ℕ → (ℕ → ℕ) → ℕ → ℕ
unfolding fill_descriptor
fill_trap_descriptors zero i trap_tss gdt = gdt
fill_trap_descriptors (suc n) i trap_tss gdt = fill_trap_descriptors n (suc i) trap_tss (
    update gdt (i + trap_tss_base / 8)
      (fill_descriptor (trap_tss + tss_size * i) (tss_size - 1) acc_tss 0))

-- The entries for the kernel, the user and the task.
abbrev pub fixed_descriptors : ℕ → ℕ → ℕ
fixed_descriptors tss_at =
    update
      (update
        (update
          (update (update (λ _. 0) (base_tss / 8) (fill_descriptor tss_at (tss_size - 1) acc_tss 0))
            (kernel_cs / 8) (fill_descriptor 0 0xffff_ffff acc_kernel_code sz_32))
          (kernel_ds / 8) (fill_descriptor 0 0xffff_ffff acc_kernel_data sz_32))
        (user_cs / 8) (fill_descriptor 0 0xffff_ffff acc_user_code sz_32))
      (user_ds / 8) (fill_descriptor 0 0xffff_ffff acc_user_data sz_32)

unfoldable pub setup_gdt : Layout → Cpu → Cpu
unfolding fill_trap_descriptors fill_descriptor
setup_gdt l c = record c {
  gdt = fill_trap_descriptors handler_entries 0 l.trap_tss_at (fixed_descriptors l.tss_at);
  gdtr = record { limit = 8192 * 8 - 1; linear_base = l.gdt_at };
  selectors = record c.selectors {
    sel_cs = kernel_cs;
    sel_ds = kernel_ds;
    sel_es = kernel_ds;
    sel_fs = 0;
    sel_gs = 0;
    sel_ss = kernel_ds;
    sel_ldt = 0;
  };
}

-- The task of a handler; the breakpoint's gate can be used by a user program.
abbrev pub trap_task : Layout → ℕ → X86Tss → X86Tss
trap_task l i old = record old {
  ss0 = kernel_ds;
  esp0 = l.trap_stack + 16384;
  ss = kernel_ds;
  esp = l.trap_stack + 16384;
  io_bit_map_offset = tss_size;
  cs = kernel_cs;
  eip = l.exception_handler_tasks i;
  ds = kernel_ds;
  es = kernel_ds;
  fs = 0;
  gs = 0;
  eflags = 2;
  trace_trap = 0;
  cr3 = l.pgdir;
}

abbrev pub gate_access : ℕ → ℕ
gate_access i = acc_task_gate + (if i == 3 then 0x60 else 0)

-- The loop of `setup_idt`, over `n` entries from `i` on.
unfoldable pub fill_gates : ℕ → ℕ → Layout → Cpu → Cpu
unfolding fill_gate
fill_gates zero i l c = c
fill_gates (suc n) i l c = fill_gates n (suc i) l (record c {
  trap_tss = update c.trap_tss i (trap_task l i (c.trap_tss i));
  idt = update c.idt i (fill_gate 0 (trap_tss_base + 8 * i) (gate_access i) 0);
})

unfoldable pub setup_idt : Layout → Cpu → Cpu
unfolding fill_gates
setup_idt l c = record (fill_gates handler_entries 0 l (record c { idt = λ _. 0 })) {
  idtr = record { limit = 256 * 8 - 1; linear_base = l.idt_at };
}

unfoldable pub setup_tss : Layout → Cpu → Cpu
setup_tss l c = record c {
  tss = record zero_tss {
    ss0 = kernel_ds;
    esp0 = l.first_stack + 16384;
    io_bit_map_offset = tss_size;
    cr3 = l.pgdir;
  };
  selectors = record c.selectors { sel_task = base_tss };
}

-- The writes to the two interrupt controllers, each a value and its port.
abbrev pub pic_writes : List (ℕ × ℕ)
pic_writes =
    (0x11, 0x20)
    ∷ (0x20, 0x21)
    ∷ (0x4, 0x21)
    ∷ (0x1, 0x21)
    ∷ (0x11, 0xa0)
    ∷ (0x28, 0xa1)
    ∷ (0x2, 0xa1)
    ∷ (0x1, 0xa1)
    ∷ (0x20, 0x20)
    ∷ (0x20, 0xa0)
    ∷ (0xff, 0x21)
    ∷ (0xff, 0xa1)
    ∷ []

unfoldable pub setup_pic : Cpu → Cpu
setup_pic c = record c { ports = c.ports ++ pic_writes }

unfoldable pub cpu_init : Layout → Cpu → Cpu
unfolding setup_gdt setup_idt setup_tss setup_pic
cpu_init l c = setup_pic (setup_tss l (setup_idt l (setup_gdt l c)))
