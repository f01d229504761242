-- ===== src/Console/Glue.antt =====
-- kernel/keyboard-glue.c: what the Linux keyboard driver calls, and the entry for a scancode. The
-- driver's own functions are parameters, which change a state `S`. Functions without a body, and
-- the one that sets the leds, are left out.
use operating_system_concept.Base.{
  ℕ, ◌/◌, ◌%◌, Bool, true, false, not, ◌||◌, List, [], ◌∷◌, ◌==◌, if◌then◌else◌,
}
use operating_system_concept.Base.Run.{Run, fault, page_fault}
use operating_system_concept.Kernel.{Kernel}
use operating_system_concept.Console.{Terminal, keyboard_data}

pub record Tty : Type 0 where
  pub stopped : Bool

abbrev pub keyboard_fg_console : ℕ
keyboard_fg_console = 0

abbrev pub keyboard_last_console : ℕ
keyboard_last_console = 0

abbrev pub keyboard_vc_cons_allocated : ℕ → Bool
keyboard_vc_cons_allocated nr = nr == 0

-- `keyboard_data` looks at the first char of the string, which an empty array does not have.
abbrev pub keyboard_send_str : List ℕ → Terminal → Kernel → Run (Terminal × Kernel)
keyboard_send_str [] t k = fault page_fault
keyboard_send_str (c ∷ cs) t k = keyboard_data c t k

-- The int is cut to a char.
abbrev pub keyboard_send_ch : ℕ → Terminal → Kernel → Run (Terminal × Kernel)
keyboard_send_ch ch t k = keyboard_send_str (ch % 256 ∷ 0 ∷ []) t k

abbrev pub keyboard_stop_tty : Tty → Tty
keyboard_stop_tty tty = if tty.stopped then tty else record tty { stopped = true }

abbrev pub keyboard_start_tty : Tty → Tty
keyboard_start_tty tty = if not tty.stopped then tty else record tty { stopped = false }

abbrev pub keyboard_tty_is_stopped : Tty → Bool
keyboard_tty_is_stopped tty = tty.stopped

abbrev pub keyboard_tty_do_repeat_key : Tty → Bool
keyboard_tty_do_repeat_key tty = true

-- `init` and `keyboard_tasklet_enabled`, with the state of the driver.
pub record Driver (S : Type 0) : Type 0 where
  pub init : Bool
  pub tasklet_enabled : Bool
  pub inner : S

module _ {S : Type 0} (keyboard_init : S → S) (keyboard_handle_scancode : ℕ → Bool → S → S)
    (keyboard_tasklet_fn : S → S) where
  abbrev pub keyboard_enable_tasklet : Driver S → Driver S
  keyboard_enable_tasklet d = record d { tasklet_enabled = true }

  -- The driver's function is there.
  abbrev pub keyboard_schedule_tasklet : Driver S → Driver S
  keyboard_schedule_tasklet d =
      if d.tasklet_enabled then record d { inner = keyboard_tasklet_fn d.inner } else d

  abbrev pub first_init : Driver S → Driver S
  first_init d = if d.init then d else record d { init = true; inner = keyboard_init d.inner }

  -- The scancode of a byte; bit 7 says that the key is released.
  unfoldable pub do_scancode : ℕ → Driver S → Driver S
  do_scancode scancode d =
      let d₁ = first_init d in
      if scancode == 0 || scancode == 0xff then d₁ else record d₁ {
        inner =
            keyboard_tasklet_fn
              (keyboard_handle_scancode scancode (scancode / 128 % 2 == 0) d₁.inner);
      }
