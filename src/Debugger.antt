-- ===== src/Debugger.antt =====
-- kernel/debugger.c: the handler of the processor's exceptions, which shows the registers and can
-- hand over to a remote debugger. The screen is a function from the byte, counted from the first
-- one of the screen, to its value; `text` is kernel/task_dump_screen.txt. The protocol of the
-- remote debugger, kernel/gdb_serial.c, is another system's code and a parameter.
pub mod Handler
pub mod Hex
pub mod Dump
pub mod Keys
pub mod Lookup
pub mod Paged
pub mod Copy
use operating_system_concept.Base.{
  ℕ, zero, suc, ◌+◌, ◌-◌, ◌*◌, ◌/◌, ◌%◌, ◌^◌, Bool, true, false, not, List, [], ◌∷◌, update, ltb,
  ◌==◌, ◌||◌, if◌then◌else◌,
}
use operating_system_concept.Cpu.{X86Tss}

-- SIGILL, SIGTRAP, SIGFPE and SIGSEGV.
abbrev pub signo_of : ℕ → ℕ
signo_of trapno =
    if trapno == 0
      || trapno == 4
      || trapno == 5
      || trapno == 7
      || trapno == 8
      || trapno == 9
      || trapno == 15
    then 8
    else (if trapno == 1 || trapno == 3
        then 5
        else (if trapno == 10 || trapno == 11 || trapno == 12 || trapno == 13 || trapno == 14
            then 11
            else 4))

pub record GdbState : Type 0 where
  pub r_eax : ℕ
  pub r_ecx : ℕ
  pub r_edx : ℕ
  pub r_ebx : ℕ
  pub r_esp : ℕ
  pub r_ebp : ℕ
  pub r_esi : ℕ
  pub r_edi : ℕ
  pub r_eip : ℕ
  pub r_eflags : ℕ
  pub r_cs : ℕ
  pub r_ss : ℕ
  pub r_ds : ℕ
  pub r_es : ℕ
  pub r_fs : ℕ
  pub r_gs : ℕ

unfoldable pub read_registers : X86Tss → GdbState
read_registers t = record {
  r_eax = t.eax;
  r_ecx = t.ecx;
  r_edx = t.edx;
  r_ebx = t.ebx;
  r_esp = t.esp;
  r_ebp = t.ebp;
  r_esi = t.esi;
  r_edi = t.edi;
  r_eip = t.eip;
  r_eflags = t.eflags;
  r_cs = t.cs;
  r_ss = t.ss;
  r_ds = t.ds;
  r_es = t.es;
  r_fs = t.fs;
  r_gs = t.gs;
}

unfoldable pub write_registers : GdbState → X86Tss → X86Tss
write_registers state t = record t {
  eax = state.r_eax;
  ecx = state.r_ecx;
  edx = state.r_edx;
  ebx = state.r_ebx;
  esp = state.r_esp;
  ebp = state.r_ebp;
  esi = state.r_esi;
  edi = state.r_edi;
  eip = state.r_eip;
  eflags = state.r_eflags;
  cs = state.r_cs;
  ss = state.r_ss;
  ds = state.r_ds;
  es = state.r_es;
  fs = state.r_fs;
  gs = state.r_gs;
}

pub data GdbAction : Type 0 where
  gdb_more gdb_cont gdb_detach gdb_kill gdb_run : GdbAction

-- `gdb_serial_converse`, from the signal and the registers.
abbrev pub Converse : Type 0
Converse = ℕ → GdbState → GdbState × GdbAction

-- A handler that returns leaves `do_debug` and the interrupted task; a reboot does not return.
pub data Handled : Type 0 where
  returns : Bool → X86Tss → Handled
  reboots : Handled

abbrev pub after_action : GdbAction → Bool → X86Tss → Handled
after_action gdb_kill do_debug t = reboots
after_action gdb_detach do_debug t = returns false t
after_action gdb_cont do_debug t = returns do_debug t
after_action gdb_run do_debug t = returns do_debug t
after_action gdb_more do_debug t = returns do_debug t

unfoldable pub debugger : Converse → ℕ → Bool → X86Tss → Handled
unfolding read_registers write_registers
debugger converse trapno do_debug t =
    let (state, action) = converse (signo_of trapno) (read_registers t) in
    after_action action do_debug (write_registers state t)

abbrev pub Video : Type 0
Video = ℕ → ℕ

-- `disp`.
abbrev pub disp : ℕ → ℕ
disp d = if ltb d 10 then 48 + d else 65 + (d - 10)

-- The loop of `write_hex`, with `p` behind the digit to write.
unfoldable pub write_digits : ℕ → ℕ → ℕ → Video → Video
write_digits zero p value screen = screen
write_digits (suc length) p value screen =
    write_digits length (p - 2) (value / 16) (update screen (p - 2) (disp (value % 16)))

pub record Field : Type 0 where
  pub line : ℕ
  pub col : ℕ
  pub digits : ℕ
  pub value : ℕ

abbrev pub at_field : ℕ → ℕ → ℕ → ℕ → Field
at_field line col digits value = record { line = line; col = col; digits = digits; value = value }

unfoldable pub write_hex : Field → Video → Video
unfolding write_digits
write_hex f screen =
    write_digits f.digits ((f.line - 1) * 160 + (f.col + f.digits - 1) * 2) f.value screen

unfoldable pub copy_chars : ℕ → ℕ → ℕ → (ℕ → ℕ) → Video → Video
copy_chars zero at k text screen = screen
copy_chars (suc n) at k text screen = copy_chars n (at + 2) (k + 1) text (update screen at (text k))

-- Each line of the text ends with a char that is not shown.
unfoldable pub copy_lines : ℕ → ℕ → ℕ → (ℕ → ℕ) → Video → Video
unfolding copy_chars
copy_lines zero i k text screen = screen
copy_lines (suc n) i k text screen =
    copy_lines n (i + 1) (k + 81) text (copy_chars 80 (i * 160) k text screen)

unfoldable pub set_attributes : ℕ → ℕ → ℕ → Video → Video
set_attributes zero i colour screen = screen
set_attributes (suc n) i colour screen =
    set_attributes n (i + 1) colour (update screen (2 * i + 1) colour)

unfoldable pub write_fields : List Field → Video → Video
unfolding write_hex
write_fields [] screen = screen
write_fields (f ∷ fs) screen = write_fields fs (write_hex f screen)

-- The calls of `write_hex`, in order; `address` is that of the task's segment.
abbrev pub shown_fields : ℕ → ℕ → ℕ → X86Tss → List Field
shown_fields trapno error_code address t =
    at_field 7 21 2 trapno
    ∷ at_field 7 60 8 error_code
    ∷ at_field 9 21 8 address
    ∷ at_field 9 69 4 t.back_link
    ∷ at_field 11 11 8 t.esp
    ∷ at_field 11 32 4 t.ss
    ∷ at_field 11 52 8 t.esp0
    ∷ at_field 11 74 4 t.ss0
    ∷ at_field 13 11 8 t.esp1
    ∷ at_field 13 32 4 t.ss1
    ∷ at_field 13 52 8 t.esp2
    ∷ at_field 13 74 4 t.ss2
    ∷ at_field 15 15 8 t.eip
    ∷ at_field 15 41 4 t.cs
    ∷ at_field 15 66 8 t.eflags
    ∷ at_field 17 10 8 t.eax
    ∷ at_field 17 30 8 t.ebx
    ∷ at_field 17 50 8 t.ecx
    ∷ at_field 17 70 8 t.edx
    ∷ at_field 19 10 8 t.esi
    ∷ at_field 19 30 8 t.edi
    ∷ at_field 19 50 8 t.ebp
    ∷ at_field 19 72 4 t.ldt
    ∷ at_field 21 12 4 t.ds
    ∷ at_field 21 32 4 t.es
    ∷ at_field 21 52 4 t.fs
    ∷ at_field 21 72 4 t.gs
    ∷ at_field 23 30 8 t.cr3
    ∷ at_field 23 70 1 (t.trace_trap % 2)
    ∷ []

unfoldable pub draw_mask : (ℕ → ℕ) → Video → Video
unfolding copy_lines set_attributes
draw_mask text screen =
    set_attributes 78 161 0x34 (set_attributes 2000 0 0x30 (copy_lines 25 0 0 text screen))

unfoldable pub dump_registers : (ℕ → ℕ) → ℕ → ℕ → ℕ → X86Tss → Video → Video
unfolding draw_mask write_fields
dump_registers text trapno error_code address t screen =
    write_fields (shown_fields trapno error_code address t) (draw_mask text screen)

-- The address in the descriptor of a task, of a table of words of 64 bits.
unfoldable pub tss_sel_2_tss : (ℕ → ℕ) → ℕ → ℕ
tss_sel_2_tss gdt sel =
    let entry = gdt (sel % 2 ^ 16 / 2 ^ 3) in
    entry / 2 ^ 16 % 2 ^ 24 + entry / 2 ^ 56 % 2 ^ 8 * 2 ^ 24
