-- ===== src/System/Partner.antt =====
-- The partner of a message: how it is found and woken, how a process waits for one, and what the call does when it runs again.
use mathlib.Core.Path.{subst}
use mathlib.Core.List.{reverse}
use operating_system_concept.Base.{
  ℕ, ◌+◌, ◌≡◌, ◌≢◌, refl, inl, inr, Bool, true, ◌||◌, Option, none, some, arith, ◌==◌, Bool-cases,
  update,
}
use operating_system_concept.Base.Int.{ℤ}
use operating_system_concept.Base.Run.{ok, ok-injective, ends, first_step}
use operating_system_concept.Kernel.{
  Proc, ready, msg_block, Kernel, get_proc, put_proc, is_msg_block,
}
use operating_system_concept.Process.Scheduler.{scheduler, first_such}
use operating_system_concept.Process.Switch.{first_such-some}
use operating_system_concept.Process.Invariant.{IsValid}
use operating_system_concept.Msgq.Cells.{add_msg, pop_msg}
use operating_system_concept.Msgq.Send.{
  Outcome, refused, done, received, handed_over, received_over, blocked, psend_resume,
  preceive_resume, find_blocked, link_of, block_sender, block_receiver,
}
use operating_system_concept.Msgq.Wake.{put_queue-IsValid}
use operating_system_concept.System.Alike.{Alike-refl, Alike-put, Alike-IsValid, get_proc-inv}
use operating_system_concept.System.Wait.{park-IsValid}

-- The kernel behind a call.
abbrev pub state_after : Outcome → Kernel
state_after (refused k) = k
state_after (done k) = k
state_after (received m k) = k
state_after (handed_over i m k) = k
state_after (received_over m i k) = k
state_after (blocked k) = k

pub finish :
    (o : Outcome) (r : Outcome) → IsValid (state_after o) → ok o ≡ ok r → IsValid (state_after r)
finish o r v e = subst (λ o. IsValid (state_after o)) (ok-injective o r e) v

-- The argument that a waiting sender keeps on its stack, and the partner's number.
sending-IsValid : (f : ℕ → ℤ) (k : Kernel) → IsValid k → IsValid (record k { sending = f })
sending-IsValid f k v =
    Alike-IsValid (record { procs = (Alike-refl k).procs; queue = refl; running = refl }) v

partner-IsValid : (i : ℕ) (k : Kernel) → IsValid k → IsValid (record k { tmp_pid = i })
partner-IsValid i k v =
    Alike-IsValid (record { procs = (Alike-refl k).procs; queue = refl; running = refl }) v

pub block_sender-IsValid :
    (fid : ℕ) (m : ℤ) (k : Kernel) (r : Outcome)
    → IsValid k
    → k.running ≢ 0
    → block_sender fid m k ≡ ok r
    → IsValid (state_after r)
unfolding block_sender
block_sender-IsValid fid m k r v user run = elim (first_step (get_proc k.running k) _ r run) [
  | ends me got rest ↦
      let f = update k.sending k.running m in
      let q = record me { state = msg_block; send_wait_on = some (fid + 1) } in
      elim (first_step (scheduler (put_proc k.running q (record k { sending = f }))) _ r rest) [
        | ends k₂ chosen last ↦
            finish (blocked k₂) r
              (park-IsValid (record k { sending = f }) k₂ me q (sending-IsValid f k v) user
                (get_proc-inv k k.running me got) refl refl refl chosen)
              last
      ]
]

pub block_receiver-IsValid :
    (fid : ℕ) (k : Kernel) (r : Outcome)
    → IsValid k
    → k.running ≢ 0
    → block_receiver fid k ≡ ok r
    → IsValid (state_after r)
unfolding block_receiver
block_receiver-IsValid fid k r v user run = elim (first_step (get_proc k.running k) _ r run) [
  | ends me got rest ↦
      let q = record me { state = msg_block; rcv_wait_on = some (fid + 1) } in
      elim (first_step (scheduler (put_proc k.running q k)) _ r rest) [
        | ends k₂ chosen last ↦
            finish (blocked k₂) r
              (park-IsValid k k₂ me q v user (get_proc-inv k k.running me got) refl refl refl
                chosen)
              last
      ]
]

-- The process that the search finds waits in state MSG_BLOCK.
pub find_blocked-blocked :
    (test : Option Proc → Bool) (k : Kernel) (i : ℕ)
    → find_blocked test k ≡ ok i
    → test (k.procs i) ≡ true
unfolding find_blocked
find_blocked-blocked test k i run =
    found (first_such (λ j. test (k.procs j)) (reverse k.queue)) refl run
  where
    found :
        (o : Option ℕ)
        → first_such (λ j. test (k.procs j)) (reverse k.queue) ≡ o
        → link_of o ≡ ok i
        → test (k.procs i) ≡ true
    found none e run = absurd (cc)
    found (some j) e run =
        subst (λ l. test (k.procs l) ≡ true) (ok-injective j i run)
          (first_such-some (λ j. test (k.procs j)) (reverse k.queue) j e).1

-- The partner becomes ready, and is remembered.
pub awake-IsValid :
    (i : ℕ) (k : Kernel) (p q : Proc)
    → IsValid k
    → k.procs i ≡ some p
    → is_msg_block p.state ≡ true
    → q.pid ≡ p.pid
    → q.priority ≡ p.priority
    → q.state ≡ ready
    → IsValid (record (put_proc i q k) { tmp_pid = p.pid })
awake-IsValid i k p q v here waits pid prio now = partner-IsValid p.pid (put_proc i q k) (
    Alike-IsValid
      (Alike-put k i p q here (
        pid,
        prio,
        ground (arith, waits, now),
        ground (arith, waits, now),
        λ e. now,
        λ e. ground (arith, e, waits),
      ))
      v)

pub preceive_resume-IsValid :
    (fid : ℕ) (k k' : Kernel) (m : ℤ)
    → IsValid k
    → preceive_resume fid k ≡ ok (some (m, k'))
    → IsValid k'
unfolding preceive_resume
preceive_resume-IsValid fid k k' m v run =
    elim (Bool-cases ((k.msg_queues fid).preset || (k.msg_queues fid).max_count == 0)) [
      | inl e ↦ absurd (cc (rw e at run))
      | inr e ↦ elim (first_step (pop_msg (k.msg_queues fid)) _ (some (m, k')) (rw e at run)) [
        | ends r popped last ↦ subst IsValid (cc) (put_queue-IsValid fid r.1 k v)
      ]
    ]

pub psend_resume-IsValid :
    (fid : ℕ) (m : ℤ) (k k' : Kernel) → IsValid k → psend_resume fid m k ≡ some k' → IsValid k'
unfolding psend_resume
psend_resume-IsValid fid m k k' v e =
    let q = k.msg_queues fid in
    elim (Bool-cases (q.preset || (q.max_count == 0 || q.max_count == q.count))) [
      | inl h ↦ absurd (cc (rw h at e))
      | inr h ↦ subst IsValid (cc (rw h at e)) (put_queue-IsValid fid (add_msg q m) k v)
    ]
