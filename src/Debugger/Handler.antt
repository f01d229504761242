-- ===== src/Debugger/Handler.antt =====
-- `trap_handler` of kernel/debugger.c, and its loop over the keys.
use operating_system_concept.Base.{
  ℕ, Bool, true, false, not, List, [], ◌∷◌, ltb, ◌==◌, if◌then◌else◌,
}
use operating_system_concept.Cpu.{X86Tss}
use operating_system_concept.Debugger.{
  Converse, Handled, debugger, Video, dump_registers, returns, reboots,
}

-- `memcpy` between the screen and `video_mem`.
abbrev pub copy_screen : Video → Video → Video
copy_screen from to i = if ltb i 4000 then from i else to i

-- What the handler does with the keys: it reads a scancode for a choice, or reads on until the key
-- of the choice is up.
pub data Choice : Type 0 where
  chooses : Choice
  views resumes connects : Choice

pub data Chosen : Type 0 where
  waiting : Video → Chosen
  restarted : Video → Chosen
  resumed : Video → Chosen
  connected : Video → Chosen

-- The loop of `trap_handler`, over the values that `inb(0x60)` gives. `dump` draws the registers.
unfoldable pub choose : List ℕ → Choice → Bool → (Video → Video) → Video → Video → Chosen
choose [] c d dump saved screen = waiting screen
choose (scancode ∷ keys) chooses d dump saved screen =
    let views_now = choose keys views (not d) dump saved in
    if scancode == 0x39
    then (if d then views_now (copy_screen saved screen) else views_now (dump screen))
    else (if scancode == 1
        then restarted screen
        else (if scancode == 0x17
            then choose keys resumes d dump saved (copy_screen saved screen)
            else (if scancode == 0x20
                then choose keys connects d dump saved (copy_screen saved screen)
                else choose keys chooses d dump saved screen)))
choose (scancode ∷ keys) views d dump saved screen =
    choose keys (if scancode == 0x39 then views else chooses) d dump saved screen
choose (scancode ∷ keys) resumes d dump saved screen =
    if scancode == 0x17 then choose keys resumes d dump saved screen else resumed screen
choose (scancode ∷ keys) connects d dump saved screen =
    if scancode == 0x20 then choose keys connects d dump saved screen else connected screen

-- What a trap leaves: the screen, and how the handler ended, or nothing if it still reads keys.
pub data Trapped : Type 0 where
  reading : Video → Trapped
  ended : Video → Handled → Trapped

abbrev pub after_choice : Converse → ℕ → X86Tss → Chosen → Trapped
after_choice converse trapno t (waiting screen) = reading screen
after_choice converse trapno t (restarted screen) = ended screen reboots
after_choice converse trapno t (resumed screen) = ended screen (returns false t)
after_choice converse trapno t (connected screen) = ended screen (debugger converse trapno true t)

-- The handler, where `dump` draws the registers.
unfoldable pub handle_trap :
    Converse → (Video → Video) → List ℕ → ℕ → Bool → X86Tss → Video → Trapped
unfolding choose debugger
handle_trap converse dump keys trapno do_debug t screen =
    if do_debug
    then ended screen (debugger converse trapno true t)
    else after_choice converse trapno t (choose keys chooses true dump screen (dump screen))

unfoldable pub trap_handler :
    Converse → (ℕ → ℕ) → List ℕ → ℕ → ℕ → ℕ → Bool → X86Tss → Video → Trapped
unfolding handle_trap dump_registers
trap_handler converse text keys trapno error_code address do_debug t screen =
    handle_trap converse (dump_registers text trapno error_code address t) keys trapno do_debug t
      screen
