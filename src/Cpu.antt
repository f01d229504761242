-- ===== src/Cpu.antt =====
-- kernel/boot/processor_structs.c and kernel/segment.h: the descriptors of segments and gates, and
-- the state of the processor that they describe. Addresses that the linker chooses are a record; a table
-- of words of 64 bits is a function from the index; a write to a port is a pair of value and port.
pub mod Setup
pub mod Descriptors
pub mod Traps
use operating_system_concept.Base.{
  ℕ, zero, suc, ◌+◌, ◌-◌, ◌*◌, ◌/◌, ◌%◌, ◌^◌, List, [], ◌∷◌, ◌++◌, update, ltb, ◌==◌, if◌then◌else◌,
}

abbrev pub sz_32 : ℕ
sz_32 = 4

abbrev pub sz_g : ℕ
sz_g = 8

-- `ACC_PL_K | ACC_TSS | ACC_P`, and the rights of the segments of code and data.
abbrev pub acc_tss : ℕ
acc_tss = 0x89

abbrev pub acc_kernel_code : ℕ
acc_kernel_code = 0x1a

abbrev pub acc_kernel_data : ℕ
acc_kernel_data = 0x12

abbrev pub acc_user_code : ℕ
acc_user_code = 0x7a

abbrev pub acc_user_data : ℕ
acc_user_data = 0x72

abbrev pub acc_task_gate : ℕ
acc_task_gate = 5

abbrev pub base_tss : ℕ
base_tss = 0x08

abbrev pub kernel_cs : ℕ
kernel_cs = 0x10

abbrev pub kernel_ds : ℕ
kernel_ds = 0x18

abbrev pub user_cs : ℕ
user_cs = 0x43

abbrev pub user_ds : ℕ
user_ds = 0x4b

abbrev pub trap_tss_base : ℕ
trap_tss_base = 0x50

abbrev pub handler_entries : ℕ
handler_entries = 32

-- `(access | ACC_P) & 0xff`.
abbrev pub or_present : ℕ → ℕ
or_present access = access % 2 ^ 7 + 2 ^ 7

-- `sizebits & 0xf`, with `SZ_G` for a limit in pages of 4 KB.
abbrev pub granularity : ℕ → ℕ → ℕ
granularity limit sizebits = if ltb 0xf_ffff limit then sizebits % sz_g + sz_g else sizebits % 2 ^ 4

abbrev pub scaled : ℕ → ℕ
scaled limit = if ltb 0xf_ffff limit then limit / 2 ^ 12 else limit

-- The parts have no bit in common, so `|` adds them.
unfoldable pub fill_descriptor : ℕ → ℕ → ℕ → ℕ → ℕ
fill_descriptor addr limit access sizebits =
    let base = addr % 2 ^ 32 in
    let low = scaled limit % 2 ^ 16 + base % 2 ^ 16 * 2 ^ 16 in
    let high =
      base / 2 ^ 16 % 2 ^ 8
      + or_present access * 2 ^ 8
      + scaled limit / 2 ^ 16 % 2 ^ 4 * 2 ^ 16
      + granularity limit sizebits * 2 ^ 20
      + base / 2 ^ 24 * 2 ^ 24 in
    high * 2 ^ 32 + low

unfoldable pub fill_gate : ℕ → ℕ → ℕ → ℕ → ℕ
fill_gate offset selector access word_count =
    let low = offset % 2 ^ 16 + selector % 2 ^ 16 * 2 ^ 16 in
    let high = word_count % 2 ^ 4 + or_present access * 2 ^ 8 + offset % 2 ^ 32 / 2 ^ 16 * 2 ^ 16 in
    high * 2 ^ 32 + low

pub record X86Tss : Type 0 where
  pub back_link : ℕ
  pub esp0 : ℕ
  pub ss0 : ℕ
  pub esp1 : ℕ
  pub ss1 : ℕ
  pub esp2 : ℕ
  pub ss2 : ℕ
  pub cr3 : ℕ
  pub eip : ℕ
  pub eflags : ℕ
  pub eax : ℕ
  pub ecx : ℕ
  pub edx : ℕ
  pub ebx : ℕ
  pub esp : ℕ
  pub ebp : ℕ
  pub esi : ℕ
  pub edi : ℕ
  pub es : ℕ
  pub cs : ℕ
  pub ss : ℕ
  pub ds : ℕ
  pub fs : ℕ
  pub gs : ℕ
  pub ldt : ℕ
  pub trace_trap : ℕ
  pub io_bit_map_offset : ℕ

abbrev pub zero_tss : X86Tss
zero_tss = record {
  back_link = 0;
  esp0 = 0;
  ss0 = 0;
  esp1 = 0;
  ss1 = 0;
  esp2 = 0;
  ss2 = 0;
  cr3 = 0;
  eip = 0;
  eflags = 0;
  eax = 0;
  ecx = 0;
  edx = 0;
  ebx = 0;
  esp = 0;
  ebp = 0;
  esi = 0;
  edi = 0;
  es = 0;
  cs = 0;
  ss = 0;
  ds = 0;
  fs = 0;
  gs = 0;
  ldt = 0;
  trace_trap = 0;
  io_bit_map_offset = 0;
}

-- `sizeof(struct x86_tss)`.
abbrev pub tss_size : ℕ
tss_size = 104

-- Where the linker puts the tables and stacks, and the entry of each handler of handlers.S.
pub record Layout : Type 0 where
  pub gdt_at : ℕ
  pub idt_at : ℕ
  pub tss_at : ℕ
  pub trap_tss_at : ℕ
  pub trap_stack : ℕ
  pub first_stack : ℕ
  pub pgdir : ℕ
  pub exception_handler_tasks : ℕ → ℕ

-- `struct pseudo_descriptor`, less its padding.
pub record PseudoDescriptor : Type 0 where
  pub limit : ℕ
  pub linear_base : ℕ

pub record Selectors : Type 0 where
  pub sel_cs : ℕ
  pub sel_ds : ℕ
  pub sel_es : ℕ
  pub sel_fs : ℕ
  pub sel_gs : ℕ
  pub sel_ss : ℕ
  pub sel_ldt : ℕ
  pub sel_task : ℕ

pub record Cpu : Type 0 where
  pub gdt : ℕ → ℕ
  pub idt : ℕ → ℕ
  pub tss : X86Tss
  pub trap_tss : ℕ → X86Tss
  pub gdtr : PseudoDescriptor
  pub idtr : PseudoDescriptor
  pub selectors : Selectors
  pub ports : List (ℕ × ℕ)
