-- ===== src/Tests/Messages.antt =====
-- kernel/msgq.c at a kernel with a message queue of capacity 3.
use operating_system_concept.Base.{
  ℕ, ◌≡◌, refl, ◌==◌, true, false, none, some, List, [], ◌∷◌, arith, length,
}
use operating_system_concept.Base.Int.{ℤ, pos, negsuc}
use operating_system_concept.Base.Run.{fault, page_fault, ◌>>=◌, Returns}
use operating_system_concept.Kernel.{MsgQueue, Kernel}
use operating_system_concept.Process.Invariant.{IsValid}
use operating_system_concept.Msgq.Cells.{fresh_queue, put_queue, valid_fid, pcreate}
use operating_system_concept.Msgq.Send.{preceive}
use operating_system_concept.Msgq.Reset.{pdelete, preset}
use operating_system_concept.Msgq.Wake.{
  Released, put_queue-IsValid, preset-Released, pdelete-Released,
}
use operating_system_concept.Msgq.Order.{
  IsCalm, send_all, receive_all, receive_all-send_all, preceive-after_preset,
}
use operating_system_concept.Msgq.Create.{FirstUnused, pcreate-fresh}
use operating_system_concept.Tests.Schedules.{three, three-IsValid}

abbrev in_use : List ℤ → MsgQueue
in_use ms = record { fid = 4; max_count = 3; count = length ms; preset = false; messages = ms }

abbrev calm : Kernel
calm = put_queue 4 (in_use []) three

abbrev filled : Kernel
filled = put_queue 4 (in_use (pos 7 ∷ negsuc 0 ∷ [])) three

filled-IsValid : IsValid filled
filled-IsValid = put_queue-IsValid 4 (in_use (pos 7 ∷ negsuc 0 ∷ [])) three three-IsValid

calm-IsCalm : IsCalm (pos 4) 4 3 [] calm
unfolding valid_fid
calm-IsCalm = record {
  used = refl;
  alone = λ x h. ground arith;
  holds = record { messages = refl; count = refl; unmarked = refl };
  size = refl;
}

filled-used : valid_fid (pos 4) filled ≡ some 4
unfolding valid_fid
filled-used = refl

receive_all-send_all_example :
    Returns
      (send_all (pos 4) (pos 1 ∷ pos 2 ∷ pos 3 ∷ []) calm >>= receive_all (pos 4) 3)
      (λ (ns, k'). (ns ≡ (pos 1 ∷ pos 2 ∷ pos 3 ∷ [])) × IsCalm (pos 4) 4 3 [] k')
receive_all-send_all_example =
    receive_all-send_all (pos 4) 4 3 (pos 1 ∷ pos 2 ∷ pos 3 ∷ []) calm calm-IsCalm (omega arith)

preset-Released_example : Returns (preset (pos 4) filled) (λ (b, k').
    (b ≡ true)
    × Released 4 (record (filled.msg_queues 4) { messages = []; preset = true }) filled k')
preset-Released_example = preset-Released (pos 4) filled 4 filled-IsValid filled-used

pdelete-Released_example : Returns (pdelete (pos 4) filled) (λ (b, k').
    (b ≡ true)
    × Released 4 (record (filled.msg_queues 4) { messages = []; max_count = 0 }) filled k'
    × (valid_fid (pos 4) k' ≡ none))
pdelete-Released_example = pdelete-Released (pos 4) filled 4 filled-IsValid filled-used

preceive-after_preset_example :
    Returns (preset (pos 4) filled) (λ (_, k'). preceive (pos 4) k' ≡ fault page_fault)
preceive-after_preset_example =
    preceive-after_preset (pos 4) filled 4 filled-IsValid filled-used (omega arith)

pcreate-fresh_example :
    (f : ℕ) × (k' : Kernel) × (pcreate (pos 5) filled ≡ (pos f, k'))
    × FirstUnused filled 0 f
    × (valid_fid (pos f) k' ≡ some f)
    × (k'.msg_queues f ≡ fresh_queue f 5)
    × ((x : ℕ) → (x == f) ≡ false → k'.msg_queues x ≡ filled.msg_queues x)
pcreate-fresh_example = pcreate-fresh 5 7 filled (omega arith) (omega arith) (omega arith) refl
