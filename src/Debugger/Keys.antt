-- ===== src/Debugger/Keys.antt =====
-- The screen behind an exception that the handler returns from.
use operating_system_concept.Base.{
  ℕ, ◌≤◌, ◌≡◌, refl, ap, ◌∙◌, inl, inr, Bool, true, false, not, ◌&&◌, ◌||◌, List, [], ◌∷◌, ◌++◌,
  arith, ltb, ◌==◌, Bool-cases,
}
use operating_system_concept.Cpu.{X86Tss}
use operating_system_concept.Debugger.{
  Video, Converse, Handled, returns, reboots, dump_registers, debugger,
}
use operating_system_concept.Debugger.Handler.{
  Choice, chooses, views, resumes, connects, Chosen, waiting, restarted, resumed, connected, choose,
  copy_screen, Trapped, reading, ended, trap_handler, handle_trap, after_choice,
}
use operating_system_concept.Debugger.Dump.{dump_registers-outside}

abbrev pub Same : Video → Video → Type 0
Same screen saved = (i : ℕ) → screen i ≡ saved i

-- Outside of what `video_mem` keeps.
abbrev pub SameBehind : Video → Video → Type 0
SameBehind screen saved = (i : ℕ) → 4000 ≤ i → screen i ≡ saved i

abbrev pub Restored : Video → Chosen → Type 0
Restored saved (waiting screen) = Unit
Restored saved (restarted screen) = Unit
Restored saved (resumed screen) = Same screen saved
Restored saved (connected screen) = Same screen saved

-- The screen is back as soon as the handler is about to return.
abbrev pub Back : Video → Choice → Video → Type 0
Back saved chooses screen = Unit
Back saved views screen = Unit
Back saved resumes screen = Same screen saved
Back saved connects screen = Same screen saved

module _ (dump : Video → Video) (saved : Video)
    (dumps : (screen : Video) → SameBehind (dump screen) screen) where
  copied : (screen : Video) → SameBehind screen saved → Same (copy_screen saved screen) saved
  copied screen behind i = elim (Bool-cases (ltb i 4000)) [
    | inl e ↦ rw e refl
    | inr n ↦ rw n (behind i (ground (arith, n)))
  ]

  choose-Restored :
      (keys : List ℕ) (c : Choice) (d : Bool) (screen : Video)
      → SameBehind screen saved
      → Back saved c screen
      → Restored saved (choose keys c d dump saved screen)
  unfolding choose
  choose-Restored [] c d screen behind back = tt
  choose-Restored (k ∷ keys) chooses d screen behind back =
      let kept = copied screen behind in
      elim (Bool-cases (k == 0x39)) [
        | inl e ↦ rw e (elim (Bool-cases d) [
          | inl on ↦
              rw on
                (choose-Restored keys views false (copy_screen saved screen) (λ i out. kept i) tt)
          | inr off ↦ rw off (
              choose-Restored keys views true (dump screen)
                (λ i out. dumps screen i out ∙ behind i out) tt)
        ])
        | inr e ↦ elim (Bool-cases (k == 1)) [
          | inl esc ↦ rw (e, esc) tt
          | inr n ↦ elim (Bool-cases (k == 0x17)) [
            | inl i ↦
                rw (e, n, i)
                  (choose-Restored keys resumes d (copy_screen saved screen) (λ i out. kept i) kept)
            | inr n' ↦ elim (Bool-cases (k == 0x20)) [
              | inl c ↦
                  rw (e, n, n', c)
                    (choose-Restored keys connects d (copy_screen saved screen) (λ i out. kept i)
                      kept)
              | inr n'' ↦ rw (e, n, n', n'') (choose-Restored keys chooses d screen behind tt)
            ]
          ]
        ]
      ]
  choose-Restored (k ∷ keys) views d screen behind back = elim (Bool-cases (k == 0x39)) [
    | inl e ↦ rw e (choose-Restored keys views d screen behind tt)
    | inr n ↦ rw n (choose-Restored keys chooses d screen behind tt)
  ]
  choose-Restored (k ∷ keys) resumes d screen behind back = elim (Bool-cases (k == 0x17)) [
    | inl e ↦ rw e (choose-Restored keys resumes d screen behind back)
    | inr n ↦ rw n back
  ]
  choose-Restored (k ∷ keys) connects d screen behind back = elim (Bool-cases (k == 0x20)) [
    | inl e ↦ rw e (choose-Restored keys connects d screen behind back)
    | inr n ↦ rw n back
  ]

abbrev pub ScreenBack : Video → Trapped → Type 0
ScreenBack screen (reading shown) = Unit
ScreenBack screen (ended shown reboots) = Unit
ScreenBack screen (ended shown (returns do_debug t)) = Same shown screen

handled-ScreenBack :
    (screen shown : Video) (h : Handled) → Same shown screen → ScreenBack screen (ended shown h)
handled-ScreenBack screen shown reboots same = tt
handled-ScreenBack screen shown (returns d t) same = same

after_choice-ScreenBack :
    (converse : Converse) (trapno : ℕ) (t : X86Tss) (screen : Video) (chosen : Chosen)
    → Restored screen chosen
    → ScreenBack screen (after_choice converse trapno t chosen)
after_choice-ScreenBack converse trapno t screen (waiting shown) back = tt
after_choice-ScreenBack converse trapno t screen (restarted shown) back = tt
after_choice-ScreenBack converse trapno t screen (resumed shown) back = back
after_choice-ScreenBack converse trapno t screen (connected shown) back =
    handled-ScreenBack screen shown (debugger converse trapno true t) back

handle_trap-ScreenBack :
    (converse : Converse) (dump : Video → Video) (keys : List ℕ) (trapno : ℕ) (do_debug : Bool)
    (t : X86Tss) (screen : Video)
    → ((screen : Video) → SameBehind (dump screen) screen)
    → ScreenBack screen (handle_trap converse dump keys trapno do_debug t screen)
unfolding handle_trap
handle_trap-ScreenBack converse dump keys trapno true t screen dumps =
    handled-ScreenBack screen screen (debugger converse trapno true t) (λ i. refl)
handle_trap-ScreenBack converse dump keys trapno false t screen dumps =
    after_choice-ScreenBack converse trapno t screen
      (choose keys chooses true dump screen (dump screen))
      (choose-Restored dump screen dumps keys chooses true (dump screen) (dumps screen) tt)

-- Whatever keys are pressed, a handler that returns leaves the screen as it was before the trap.
pub trap_handler-ScreenBack :
    (converse : Converse) (text : ℕ → ℕ) (keys : List ℕ) (trapno error_code address : ℕ)
    (do_debug : Bool) (t : X86Tss) (screen : Video)
    → ScreenBack screen
        (trap_handler converse text keys trapno error_code address do_debug t screen)
unfolding trap_handler
trap_handler-ScreenBack converse text keys trapno error_code address do_debug t screen =
    handle_trap-ScreenBack converse (dump_registers text trapno error_code address t) keys trapno
      do_debug t screen (λ s i out. dump_registers-outside text trapno error_code address t s i out)

-- None of the keys is one of the four choices.
abbrev pub idle_keys : List ℕ → Bool
idle_keys [] = true
idle_keys (k ∷ ks) = not (k == 0x39 || (k == 1 || (k == 0x17 || k == 0x20))) && idle_keys ks

choose_idle :
    (keys rest : List ℕ) (d : Bool) (dump : Video → Video) (saved screen : Video)
    → idle_keys keys ≡ true
    → choose (keys ++ rest) chooses d dump saved screen ≡ choose rest chooses d dump saved screen
unfolding choose
choose_idle [] rest d dump saved screen idle = refl
choose_idle (k ∷ ks) rest d dump saved screen idle =
    let n₁ : (k == 0x39) ≡ false = ground (arith, idle) in
    let n₂ : (k == 1) ≡ false = ground (arith, idle) in
    let n₃ : (k == 0x17) ≡ false = ground (arith, idle) in
    let n₄ : (k == 0x20) ≡ false = ground (arith, idle) in
    rw (n₁, n₂, n₃, n₄) (choose_idle ks rest d dump saved screen (ground (arith, idle)))

-- `I`, and then the key's release.
choose_ignored :
    (up : ℕ) (rest : List ℕ) (d : Bool) (dump : Video → Video) (saved screen : Video)
    → (up == 0x17) ≡ false
    → choose (0x17 ∷ up ∷ rest) chooses d dump saved screen ≡ resumed (copy_screen saved screen)
unfolding choose
choose_ignored up rest d dump saved screen released = rw released refl

handle_trap-ignores :
    (converse : Converse) (dump : Video → Video) (keys rest : List ℕ) (up trapno : ℕ) (t : X86Tss)
    (screen : Video)
    → idle_keys keys ≡ true
    → (up == 0x17) ≡ false
    → handle_trap converse dump (keys ++ (0x17 ∷ up ∷ rest)) trapno false t screen
      ≡ ended (copy_screen screen (dump screen)) (returns false t)
unfolding handle_trap
handle_trap-ignores converse dump keys rest up trapno t screen idle released =
    ap (after_choice converse trapno t) (
      choose_idle keys (0x17 ∷ up ∷ rest) true dump screen (dump screen) idle
      ∙ choose_ignored up rest true dump screen (dump screen) released)

-- Keys other than the four choices are passed over; then `I` and its release end the handler, with
-- the interrupted task as it was, no debugger, and the screen as it was before the trap.
pub trap_handler-ignores :
    (converse : Converse) (text : ℕ → ℕ) (keys rest : List ℕ) (up trapno error_code address : ℕ)
    (t : X86Tss) (screen : Video)
    → idle_keys keys ≡ true
    → (up == 0x17) ≡ false
    → (shown : Video) × (trap_handler converse text
          (keys ++ (0x17 ∷ up ∷ rest))
          trapno
          error_code
          address
          false
          t
          screen
        ≡ ended shown (returns false t))
      × Same shown screen
unfolding trap_handler
trap_handler-ignores converse text keys rest up trapno error_code address t screen idle released =
    let dump = dump_registers text trapno error_code address t in
    (
      copy_screen screen (dump screen),
      handle_trap-ignores converse dump keys rest up trapno t screen idle released,
      copied dump screen
          (λ s i out. dump_registers-outside text trapno error_code address t s i out) (dump screen)
          (λ i out. dump_registers-outside text trapno error_code address t screen i out),
    )
