-- ===== src/Tests/Traps.antt =====
-- The processor's tables and the exception handler at concrete states.
use operating_system_concept.Base.{
  update, ℕ, ◌+◌, ◌-◌, ◌*◌, ◌%◌, ◌^◌, ◌≡◌, refl, false, [], ◌∷◌, ◌++◌, arith, ltb, if◌then◌else◌,
}
use operating_system_concept.Cpu.{
  Cpu, Layout, X86Tss, zero_tss, tss_size, fill_descriptor, acc_kernel_code, sz_32,
}
use operating_system_concept.Cpu.Setup.{cpu_init}
use operating_system_concept.Cpu.Descriptors.{
  gate_selector, segment_base, access_byte, last_address, fill_descriptor-reads,
}
use operating_system_concept.Cpu.Traps.{cpu_init-traps}
use operating_system_concept.Debugger.{
  Video, Converse, gdb_cont, at_field, dump_registers, tss_sel_2_tss, returns,
}
use operating_system_concept.Debugger.Handler.{trap_handler, ended}
use operating_system_concept.Debugger.Lookup.{Bytes, Client, gdb_copyin}
use operating_system_concept.Debugger.Copy.{Agrees, read_bytes, gdb_copyin-Agrees}
use operating_system_concept.Debugger.Dump.{read_field, dump_registers-shows}
use operating_system_concept.Debugger.Keys.{
  Same, ScreenBack, trap_handler-ScreenBack, trap_handler-ignores,
}

abbrev layout : Layout
layout = record {
  gdt_at = 0x11_0000;
  idt_at = 0x12_0000;
  tss_at = 0x10_5000;
  trap_tss_at = 0x10_6000;
  trap_stack = 0x10_8000;
  first_stack = 0x10_c000;
  pgdir = 0x10_1000;
  exception_handler_tasks = λ i. 0x10_0100 + 16 * i;
}

abbrev cold : Cpu
cold = record {
  gdt = λ _. 0;
  idt = λ _. 0;
  tss = zero_tss;
  trap_tss = λ _. zero_tss;
  gdtr = record { limit = 0; linear_base = 0 };
  idtr = record { limit = 0; linear_base = 0 };
  selectors = record {
    sel_cs = 0;
    sel_ds = 0;
    sel_es = 0;
    sel_fs = 0;
    sel_gs = 0;
    sel_ss = 0;
    sel_ldt = 0;
    sel_task = 0;
  };
  ports = [];
}

-- The page fault.
cpu_init-traps_example :
    (tss_sel_2_tss (cpu_init layout cold).gdt (gate_selector ((cpu_init layout cold).idt 14))
      ≡ 0x10_6000 + tss_size * 14)
    × (((cpu_init layout cold).trap_tss 14).eip ≡ 0x10_01e0)
cpu_init-traps_example = cpu_init-traps layout cold 14 (omega arith) (omega arith)

fill_descriptor-reads_example :
    (segment_base (fill_descriptor 0 0xffff_ffff acc_kernel_code sz_32) ≡ 0)
    × (access_byte (fill_descriptor 0 0xffff_ffff acc_kernel_code sz_32)
        ≡ acc_kernel_code % 2 ^ 7 + 2 ^ 7)
    × (last_address (fill_descriptor 0 0xffff_ffff acc_kernel_code sz_32) ≡ (
        if ltb 0xf_ffff 0xffff_ffff
        then 0xffff_ffff - 0xffff_ffff % 2 ^ 12 + (2 ^ 12 - 1)
        else 0xffff_ffff))
fill_descriptor-reads_example =
    fill_descriptor-reads 0 0xffff_ffff acc_kernel_code sz_32 (omega arith) (omega arith)
      (omega arith)

-- A task that stopped at 0x1234.
abbrev stopped : X86Tss
stopped = record zero_tss { eip = 0x1234; eax = 0xabcd }

abbrev blank : Video
blank _ = 0x20

abbrev mask : ℕ → ℕ
mask _ = 0x2d

-- A debugger that lets the program go on.
abbrev goes_on : Converse
goes_on signo state = (state, gdb_cont)

dump_registers-shows_example :
    read_field (at_field 15 15 8 0x1234) (dump_registers mask 14 2 0x10_5000 stopped blank)
    ≡ 0x1234 % 16 ^ 8
dump_registers-shows_example =
    dump_registers-shows mask 14 2 0x10_5000 stopped blank 12 (at_field 15 15 8 0x1234) refl

trap_handler-ScreenBack_example : ScreenBack blank (
    trap_handler goes_on mask
      (0x39 ∷ 0x39 ∷ 0xb9 ∷ 0x20 ∷ 0xa0 ∷ [])
      14
      2
      0x10_5000
      false
      stopped
      blank)
trap_handler-ScreenBack_example =
    trap_handler-ScreenBack goes_on mask (0x39 ∷ 0x39 ∷ 0xb9 ∷ 0x20 ∷ 0xa0 ∷ []) 14 2 0x10_5000
      false stopped blank

trap_handler-ignores_example :
    (shown : Video) × (trap_handler goes_on mask
        ((0x1e ∷ 0x9e ∷ []) ++ (0x17 ∷ 0x97 ∷ []))
        14
        2
        0x10_5000
        false
        stopped
        blank
      ≡ ended shown (returns false stopped))
    × Same shown blank
trap_handler-ignores_example =
    trap_handler-ignores goes_on mask (0x1e ∷ 0x9e ∷ []) [] 0x97 14 2 0x10_5000 stopped blank refl
      refl

-- A directory at 0x1000 with a table at 0x2000, which maps the pages at 0x1000 and 0x2000 to the
-- frames at 0x5000 and 0x9000.
abbrev bytes : Bytes
bytes =
    update
      (update (update (update (update (update (λ _. 0) 0x1000 7) 0x1001 0x20) 0x2004 7) 0x2005 0x50)
        0x2008 7)
      0x2009 0x90

abbrev client : Client
client = record { cr0 = 2 ^ 31; cr3 = 0x1000 }

-- Two bytes, at the end of one page and at the start of the next.
gdb_copyin-Agrees_example :
    Agrees (read_bytes client bytes 0x1fff 2) (gdb_copyin 2 client bytes 0x1fff 2)
gdb_copyin-Agrees_example =
    gdb_copyin-Agrees client bytes 2 2 0x1fff (omega arith) (omega arith) (omega arith)
