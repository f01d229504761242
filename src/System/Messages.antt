-- ===== src/System/Messages.antt =====
-- `psend` and `preceive` with all their branches.
use operating_system_concept.Base.{
  ℕ, ◌≡◌, ◌≢◌, refl, ap, ◌∙◌, inl, inr, true, ◌&&◌, Option, none, some, arith, ◌==◌, Bool-cases,
}
use operating_system_concept.Base.Int.{ℤ}
use operating_system_concept.Base.Run.{ok, ends, first_step}
use operating_system_concept.Kernel.{ready, Kernel, get_proc, put_proc, is_msg_block}
use operating_system_concept.Process.Scheduler.{scheduler}
use operating_system_concept.Process.Invariant.{IsValid}
use operating_system_concept.Msgq.Cells.{add_msg, pop_msg, put_queue, valid_fid}
use operating_system_concept.Msgq.Count.{
  occupancy, is_negative, exceeds, blocked_receiver, blocked_sender,
}
use operating_system_concept.Msgq.Send.{
  Outcome, refused, done, received, handed_over, received_over, psend_resume, preceive_resume,
  find_blocked, clear_preset, settle_receiver, settle_sender, hand_to_receiver, psend_valid,
  psend_at, psend, hand_from_sender, take_and_admit, take_message, preceive_valid, preceive_at,
  preceive,
}
use operating_system_concept.Msgq.Wake.{put_queue-IsValid}
use operating_system_concept.System.Alike.{Alike-put, Alike-IsValid, get_proc-inv}
use operating_system_concept.System.Wait.{reschedule-IsValid}
use operating_system_concept.System.Partner.{
  psend_resume-IsValid, preceive_resume-IsValid, awake-IsValid, find_blocked-blocked,
  block_receiver-IsValid, block_sender-IsValid, finish, state_after,
}

settle_receiver-IsValid :
    (i : ℕ) (o : Option (ℤ × Kernel)) (r : Outcome)
    → ((m : ℤ) (k : Kernel) → o ≡ some (m, k) → IsValid k)
    → settle_receiver i o ≡ ok r
    → IsValid (state_after r)
settle_receiver-IsValid i none r v run = absurd (cc)
settle_receiver-IsValid i (some (m, k)) r v run = elim (first_step (scheduler k) _ r run) [
  | ends k' chosen last ↦
      finish (handed_over i m k') r (reschedule-IsValid k k' (v m k refl) chosen) last
]

settle_sender-IsValid :
    (m : ℤ) (i : ℕ) (o : Option Kernel) (r : Outcome)
    → ((k : Kernel) → o ≡ some k → IsValid k)
    → settle_sender m i o ≡ ok r
    → IsValid (state_after r)
settle_sender-IsValid m i none r v run = absurd (cc)
settle_sender-IsValid m i (some k) r v run = elim (first_step (scheduler k) _ r run) [
  | ends k' chosen last ↦
      finish (received_over m i k') r (reschedule-IsValid k k' (v k refl) chosen) last
]

hand_to_receiver-IsValid :
    (fid : ℕ) (m : ℤ) (k : Kernel) (r : Outcome)
    → IsValid k
    → hand_to_receiver fid m k ≡ ok r
    → IsValid (state_after r)
unfolding hand_to_receiver
hand_to_receiver-IsValid fid m k r v run =
    let k₁ = put_queue fid (add_msg (k.msg_queues fid) m) k in
    let v₁ = put_queue-IsValid fid (add_msg (k.msg_queues fid) m) k v in
    elim (first_step (find_blocked (blocked_receiver fid) k₁) _ r run) [
      | ends i found rest ↦ elim (first_step (get_proc i k₁) _ r rest) [
        | ends p got rest₂ ↦
            let here = get_proc-inv k₁ i p got in
            let q = record p { state = ready; rcv_wait_on = none } in
            let k₂ = record (put_proc i q k₁) { tmp_pid = p.pid } in
            let waits : is_msg_block p.state ≡ true =
              ground (arith, here, find_blocked-blocked (blocked_receiver fid) k₁ i found) in
            let v₂ = awake-IsValid i k₁ p q v₁ here waits refl refl refl in
            elim (first_step (preceive_resume fid k₂) _ r rest₂) [
              | ends taken resumed last ↦
                  settle_receiver-IsValid i taken r
                    (λ n k₃ e. preceive_resume-IsValid fid k₂ k₃ n v₂ (resumed ∙ ap ok e)) last
            ]
      ]
    ]

hand_from_sender-IsValid :
    (fid : ℕ) (m : ℤ) (k : Kernel) (r : Outcome)
    → IsValid k
    → hand_from_sender fid m k ≡ ok r
    → IsValid (state_after r)
unfolding hand_from_sender
hand_from_sender-IsValid fid m k r v run =
    elim (first_step (find_blocked (blocked_sender fid) k) _ r run) [
      | ends i found rest ↦ elim (first_step (get_proc i k) _ r rest) [
        | ends p got last ↦
            let here = get_proc-inv k i p got in
            let q = record p { state = ready; send_wait_on = none } in
            let k₁ = record (put_proc i q k) { tmp_pid = p.pid } in
            let waits : is_msg_block p.state ≡ true =
              ground (arith, here, find_blocked-blocked (blocked_sender fid) k i found) in
            let v₁ = awake-IsValid i k p q v here waits refl refl refl in
            settle_sender-IsValid m i (psend_resume fid (k₁.sending i) k₁) r
              (λ k₂ e. psend_resume-IsValid fid (k₁.sending i) k₁ k₂ v₁ e) last
      ]
    ]

psend_valid-IsValid :
    (fid : ℕ) (m : ℤ) (k : Kernel) (r : Outcome)
    → IsValid k
    → k.running ≢ 0
    → psend_valid fid m k ≡ ok r
    → IsValid (state_after r)
unfolding psend_valid
psend_valid-IsValid fid m k r v user run =
    let q = clear_preset (k.msg_queues fid) in
    let k₁ = put_queue fid q k in
    let v₁ = put_queue-IsValid fid q k v in
    elim (Bool-cases (q.count == q.max_count)) [
      | inl e ↦ block_sender-IsValid fid m k₁ r v₁ user (rw e at run)
      | inr n ↦ elim (Bool-cases (q.count == 0 && is_negative (occupancy fid k))) [
        | inl e ↦ hand_to_receiver-IsValid fid m k₁ r v₁ (rw (n, e) at run)
        | inr e ↦
            finish (done (put_queue fid (add_msg q m) k₁)) r
              (put_queue-IsValid fid (add_msg q m) k₁ v₁) (rw (n, e) at run)
      ]
    ]

take_message-IsValid :
    (fid : ℕ) (k : Kernel) (r : Outcome)
    → IsValid k
    → take_message fid k ≡ ok r
    → IsValid (state_after r)
unfolding take_message
take_message-IsValid fid k r v run = elim (first_step (pop_msg (k.msg_queues fid)) _ r run) [
  | ends taken popped last ↦
      finish (received taken.0 (put_queue fid taken.1 k)) r (put_queue-IsValid fid taken.1 k v) last
]

take_and_admit-IsValid :
    (fid : ℕ) (k : Kernel) (r : Outcome)
    → IsValid k
    → take_and_admit fid k ≡ ok r
    → IsValid (state_after r)
unfolding take_and_admit
take_and_admit-IsValid fid k r v run = elim (first_step (get_proc k.running k) _ r run) [
  | ends me got rest ↦
      let q = record me { rcv_wait_on = none } in
      let k₁ = put_proc k.running q k in
      let v₁ =
        Alike-IsValid
          (Alike-put k k.running me q (get_proc-inv k k.running me got)
            (refl, refl, refl, refl, λ e. e, λ e. e))
          v in
      elim (first_step (pop_msg (k.msg_queues fid)) _ r rest) [
        | ends taken popped last ↦
            hand_from_sender-IsValid fid taken.0 (put_queue fid taken.1 k₁) r
              (put_queue-IsValid fid taken.1 k₁ v₁) last
      ]
]

preceive_valid-IsValid :
    (fid : ℕ) (k : Kernel) (r : Outcome)
    → IsValid k
    → k.running ≢ 0
    → preceive_valid fid k ≡ ok r
    → IsValid (state_after r)
unfolding preceive_valid
preceive_valid-IsValid fid k r v user run =
    let q = k.msg_queues fid in
    elim (Bool-cases (q.count == 0)) [
      | inl e ↦ block_receiver-IsValid fid k r v user (rw e at run)
      | inr n ↦ elim (Bool-cases (exceeds (occupancy fid k) q.count && q.count == q.max_count)) [
        | inl e ↦ take_and_admit-IsValid fid k r v (rw (n, e) at run)
        | inr e ↦ take_message-IsValid fid k r v (rw (n, e) at run)
      ]
    ]

psend_at-IsValid :
    (o : Option ℕ) (m : ℤ) (k : Kernel) (r : Outcome)
    → IsValid k
    → k.running ≢ 0
    → psend_at o m k ≡ ok r
    → IsValid (state_after r)
unfolding psend_at
psend_at-IsValid none m k r v user run = finish (refused k) r v run
psend_at-IsValid (some i) m k r v user run = psend_valid-IsValid i m k r v user run

-- `psend`, on every branch that ends well, keeps the invariant.
pub psend-IsValid :
    (fid m : ℤ) (k : Kernel) (r : Outcome)
    → IsValid k
    → k.running ≢ 0
    → psend fid m k ≡ ok r
    → IsValid (state_after r)
unfolding psend
psend-IsValid fid m k r v user run = psend_at-IsValid (valid_fid fid k) m k r v user run

preceive_at-IsValid :
    (o : Option ℕ) (k : Kernel) (r : Outcome)
    → IsValid k
    → k.running ≢ 0
    → preceive_at o k ≡ ok r
    → IsValid (state_after r)
unfolding preceive_at
preceive_at-IsValid none k r v user run = finish (refused k) r v run
preceive_at-IsValid (some i) k r v user run = preceive_valid-IsValid i k r v user run

-- So does `preceive`.
pub preceive-IsValid :
    (fid : ℤ) (k : Kernel) (r : Outcome)
    → IsValid k
    → k.running ≢ 0
    → preceive fid k ≡ ok r
    → IsValid (state_after r)
unfolding preceive
preceive-IsValid fid k r v user run = preceive_at-IsValid (valid_fid fid k) k r v user run
