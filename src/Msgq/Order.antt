-- ===== src/Msgq/Order.antt =====
-- `psend` and `preceive` of kernel/msgq.c where nobody waits, and behind a `preset`.
use mathlib.Core.Path.{subst}
use mathlib.Core.List.{append_assoc, append-nil}
use operating_system_concept.Base.{
  ℕ, zero, suc, ◌+◌, ◌≤◌, ◌<◌, ◌≡◌, ◌≢◌, refl, sym, ap, ◌∙◌, inl, inr, Bool, true, false, ◌&&◌,
  some, List, [], ◌∷◌, ◌++◌, arith, ltb, ◌==◌, Bool-cases, update_self, has, length,
}
use operating_system_concept.Base.Int.{ℤ, pos, negsuc}
use operating_system_concept.Base.Run.{Run, ok, fault, page_fault, bad_link, ◌>>=◌, Returns}
use operating_system_concept.Kernel.{Proc, MsgQueue, Kernel, get_proc}
use operating_system_concept.Process.Scheduler.{getpid}
use operating_system_concept.Process.Invariant.{IsValid, get_proc-some}
use operating_system_concept.Msgq.Cells.{add_msg, pop_cells, pop_msg, put_queue, valid_fid}
use operating_system_concept.Msgq.Count.{count_if, receives_on, sends_on, occupancy, exceeds}
use operating_system_concept.Msgq.Send.{
  Outcome, done, received, psend_valid, psend_at, psend, preceive_valid, preceive_at, preceive,
}
use operating_system_concept.Msgq.Reset.{preset}
use operating_system_concept.Msgq.Wake.{Quiet, preset-Released}

-- The queue is in use, holds `ms` and counts them.
pub record Holds (k : Kernel) (i : ℕ) (ms : List ℤ) : Type 0 where
  pub messages : (k.msg_queues i).messages ≡ ms
  pub count : (k.msg_queues i).count ≡ length ms
  pub unmarked : (k.msg_queues i).preset ≡ false

-- No process of the queue of processes waits on the message queue.
abbrev pub NoneWaits : Kernel → ℕ → Type 0
NoneWaits k i = (x : ℕ) → has x k.queue ≡ true → Quiet i (k.procs x)

count_if-none :
    (test : ℕ → Bool) (xs : List ℕ)
    → ((x : ℕ) → has x xs ≡ true → test x ≡ false)
    → count_if test xs ≡ 0
unfolding count_if
count_if-none test [] h = refl
count_if-none test (x ∷ xs) h =
    ground (arith, h x, count_if-none test xs (λ y m. h y (ground arith)))

occupancy-none : (i : ℕ) (k : Kernel) → NoneWaits k i → occupancy i k ≡ pos (k.msg_queues i).count
unfolding occupancy
occupancy-none i k w =
    rw
      (
        count_if-none (λ x. sends_on i (k.procs x)) k.queue (λ x h. (w x h).0),
        count_if-none (λ x. receives_on i (k.procs x)) k.queue (λ x h. (w x h).1),
      )
      (ground arith)

length-snoc : (ms : List ℤ) (m : ℤ) → length (ms ++ (m ∷ [])) ≡ length ms + 1
length-snoc [] m = refl
length-snoc (x ∷ ms) m = ground (arith, length-snoc ms m)

-- The queue is ready for a transfer without waiting: it is in use under `fid`, nobody waits on it,
-- and it holds `ms`.
pub record IsCalm (fid : ℤ) (i : ℕ) (capacity : ℕ) (ms : List ℤ) (k : Kernel) : Type 0 where
  pub used : valid_fid fid k ≡ some i
  pub alone : NoneWaits k i
  pub holds : Holds k i ms
  pub size : (k.msg_queues i).max_count ≡ capacity

put_queue-used :
    (fid : ℤ) (i : ℕ) (q : MsgQueue) (k : Kernel)
    → valid_fid fid k ≡ some i
    → q.max_count ≡ (k.msg_queues i).max_count
    → valid_fid fid (put_queue i q k) ≡ some i
unfolding valid_fid
put_queue-used (pos n) i q k e s = ground arith
put_queue-used (negsuc n) i q k e s = absurd (cc)

put_queue-IsCalm :
    (fid : ℤ) (i c : ℕ) (ms ns : List ℤ) (q : MsgQueue) (k : Kernel)
    → IsCalm fid i c ms k
    → q.max_count ≡ c
    → q.messages ≡ ns
    → q.count ≡ length ns
    → q.preset ≡ false
    → IsCalm fid i c ns (put_queue i q k)
put_queue-IsCalm fid i c ms ns q k a size has_ns counts unmarked = record {
  used = put_queue-used fid i q k a.used (size ∙ sym a.size);
  alone = a.alone;
  holds = record {
    messages = ap (λ q. q.messages) (update_self k.msg_queues i q) ∙ has_ns;
    count = ap (λ q. q.count) (update_self k.msg_queues i q) ∙ counts;
    unmarked = ap (λ q. q.preset) (update_self k.msg_queues i q) ∙ unmarked;
  };
  size = ap (λ q. q.max_count) (update_self k.msg_queues i q) ∙ size;
}

-- `psend` of a queue with room, where nobody waits.
psend_valid-room :
    (i : ℕ) (m : ℤ) (k : Kernel)
    → NoneWaits k i
    → (k.msg_queues i).preset ≡ false
    → ((k.msg_queues i).count == (k.msg_queues i).max_count) ≡ false
    → psend_valid i m k
      ≡ ok (done (put_queue i (add_msg (k.msg_queues i) m) (put_queue i (k.msg_queues i) k)))
unfolding psend_valid
psend_valid-room i m k alone unmarked room =
    rw (occupancy-none i k alone) (rw (unmarked, room) (ground arith))

-- A queue with room takes the message at its end.
psend-room :
    (fid m : ℤ) (i c : ℕ) (ms : List ℤ) (k : Kernel)
    → IsCalm fid i c ms k
    → length ms < c
    → (k' : Kernel) × (psend fid m k ≡ ok (done k')) × IsCalm fid i c (ms ++ (m ∷ [])) k'
unfolding psend psend_at add_msg
psend-room fid m i c ms k a room =
    let q = k.msg_queues i in
    let open_end : (q.max_count == q.count) ≡ false = ground (arith, a.size, a.holds.count) in
    let same : IsCalm fid i c ms (put_queue i q k) =
      put_queue-IsCalm fid i c ms ms q k a a.size a.holds.messages a.holds.count a.holds.unmarked in
    (
      put_queue i (add_msg q m) (put_queue i q k),
      rw a.used
          (psend_valid-room i m k a.alone a.holds.unmarked (ground (arith, a.size, a.holds.count))),
      put_queue-IsCalm fid i c ms (ms ++ (m ∷ [])) (add_msg q m) (put_queue i q k) same
          (rw open_end a.size) (rw open_end (ap (λ l. l ++ (m ∷ [])) a.holds.messages))
          (rw open_end (ground (arith, a.holds.count, length-snoc ms m)))
          (rw open_end a.holds.unmarked),
    )

-- `preceive` of a queue where nobody waits.
preceive_valid-head :
    (i : ℕ) (k : Kernel)
    → NoneWaits k i
    → ((k.msg_queues i).count == 0) ≡ false
    → preceive_valid i k
      ≡ (pop_msg (k.msg_queues i) >>= λ (m, q'). ok (received m (put_queue i q' k)))
unfolding preceive_valid
preceive_valid-head i k alone some_there =
    rw (occupancy-none i k alone) (rw some_there (rw (not_above (k.msg_queues i).count) refl))
  where
    not_above : (n : ℕ) → ltb n n ≡ false
    not_above n = ground arith

pop_cells-head :
    (m : ℤ) (ms : List ℤ) (q : MsgQueue)
    → q.count ≡ suc (length ms)
    → pop_cells (m ∷ ms) q ≡ ok (m, record q { messages = ms; count = length ms })
pop_cells-head m [] q e = refl
pop_cells-head m (n ∷ ms) q e = ground (arith, e)

-- The first message of a queue is taken.
preceive-head :
    (fid m : ℤ) (i c : ℕ) (ms : List ℤ) (k : Kernel)
    → IsCalm fid i c (m ∷ ms) k
    → (k' : Kernel) × (preceive fid k ≡ ok (received m k')) × IsCalm fid i c ms k'
unfolding preceive preceive_at pop_msg
preceive-head fid m i c ms k a =
    let q = k.msg_queues i in
    let q' = record q { messages = ms; count = length ms } in
    (
      put_queue i q' k,
      rw a.used (
          preceive_valid-head i k a.alone (ground (arith, a.holds.count))
          ∙ ap (λ l. pop_cells l q >>= λ (m, q'). ok (received m (put_queue i q' k)))
              a.holds.messages
          ∙ rw (pop_cells-head m ms q a.holds.count) refl),
      put_queue-IsCalm fid i c (m ∷ ms) ms q' k a a.size refl refl a.holds.unmarked,
    )

abbrev completed : Outcome → Run Kernel
completed (done k) = ok k
completed _ = fault bad_link

abbrev message_of : Outcome → Run (ℤ × Kernel)
message_of (received m k) = ok (m, k)
message_of _ = fault bad_link

-- One `psend` for each message.
unfoldable pub send_all : ℤ → List ℤ → Kernel → Run Kernel
send_all fid [] k = ok k
send_all fid (m ∷ ms) k = do o ← psend fid m k; k₁ ← completed o; send_all fid ms k₁

-- `n` times `preceive`.
unfoldable pub receive_all : ℤ → ℕ → Kernel → Run (List ℤ × Kernel)
receive_all fid zero k = ok ([], k)
receive_all fid (suc n) k = do
  o ← preceive fid k
  (m, k₁) ← message_of o
  (ms, k₂) ← receive_all fid n k₁
  ok (m ∷ ms, k₂)

send_all-IsCalm :
    (fid : ℤ) (i c : ℕ) (ms ns : List ℤ) (k : Kernel)
    → IsCalm fid i c ms k
    → length ms + length ns ≤ c
    → Returns (send_all fid ns k) (IsCalm fid i c (ms ++ ns))
unfolding send_all
send_all-IsCalm fid i c ms [] k a room = (k, refl, rw (append-nil ms) a)
send_all-IsCalm fid i c ms (n ∷ ns) k a room =
    let (k₁, run, a₁) = psend-room fid n i c ms k a (ground arith) in
    let (k₂, run₂, a₂) =
      send_all-IsCalm fid i c (ms ++ (n ∷ [])) ns k₁ a₁ (ground (arith, length-snoc ms n)) in
    (k₂, rw run run₂, subst (λ l. IsCalm fid i c l k₂) (append_assoc ms (n ∷ []) ns) a₂)

receive_all-IsCalm :
    (fid : ℤ) (i c : ℕ) (ms : List ℤ) (k : Kernel)
    → IsCalm fid i c ms k
    → Returns (receive_all fid (length ms) k) (λ (ns, k'). (ns ≡ ms) × IsCalm fid i c [] k')
unfolding receive_all
receive_all-IsCalm fid i c [] k a = (([], k), refl, (refl, a))
receive_all-IsCalm fid i c (m ∷ ms) k a =
    let (k₁, run, a₁) = preceive-head fid m i c ms k a in
    let ((ns, k₂), run₂, (same, a₂)) = receive_all-IsCalm fid i c ms k₁ a₁ in
    ((m ∷ ns, k₂), rw run (rw run₂ refl), (ap (λ l. m ∷ l) same, a₂))

-- Messages sent to an empty queue that has room for all of them, and on which nobody waits, are
-- received in the same order, and the queue is empty again.
pub receive_all-send_all :
    (fid : ℤ) (i c : ℕ) (ms : List ℤ) (k : Kernel)
    → IsCalm fid i c [] k
    → length ms ≤ c
    → Returns
        (send_all fid ms k >>= receive_all fid (length ms))
        (λ (ns, k'). (ns ≡ ms) × IsCalm fid i c [] k')
receive_all-send_all fid i c ms k a room =
    let (k₁, run, a₁) = send_all-IsCalm fid i c [] ms k a (omega arith) in
    let (r, run₂, p) = receive_all-IsCalm fid i c ms k₁ a₁ in (r, rw run run₂, p)

pop_msg-empty : (q : MsgQueue) → q.messages ≡ [] → pop_msg q ≡ fault page_fault
unfolding pop_msg
pop_msg-empty q e = rw e refl

-- `preceive` of a queue that counts messages and has none.
preceive_valid-empty :
    (i : ℕ) (k : Kernel) (p : Proc)
    → get_proc (getpid k) k ≡ ok p
    → (k.msg_queues i).messages ≡ []
    → ((k.msg_queues i).count == 0) ≡ false
    → preceive_valid i k ≡ fault page_fault
unfolding preceive_valid
preceive_valid-empty i k p here empty counted =
    let popped = pop_msg-empty (k.msg_queues i) empty in
    let size = (k.msg_queues i).count in
    let full = exceeds (occupancy i k) size && size == (k.msg_queues i).max_count in
    rw counted (elim (Bool-cases full) [
      | inl e ↦ rw e (rw here (rw popped refl))
      | inr e ↦ rw e (rw popped refl)
    ])

valid_fid-same :
    (fid : ℤ) (k k' : Kernel) (i : ℕ)
    → valid_fid fid k ≡ some i
    → (k'.msg_queues i).max_count ≡ (k.msg_queues i).max_count
    → valid_fid fid k' ≡ some i
unfolding valid_fid
valid_fid-same (pos n) k k' i e s = ground arith
valid_fid-same (negsuc n) k k' i e s = absurd (cc)

-- `preset` leaves the count. When it was not 0, the next `preceive` of a valid kernel takes the
-- first message of an empty list, and faults.
pub preceive-after_preset :
    (fid : ℤ) (k : Kernel) (i : ℕ)
    → IsValid k
    → valid_fid fid k ≡ some i
    → (k.msg_queues i).count ≢ 0
    → Returns (preset fid k) (λ (_, k'). preceive fid k' ≡ fault page_fault)
unfolding preceive preceive_at
preceive-after_preset fid k i v e some_counted =
    let ((b, k'), run, (_, r)) = preset-Released fid k i v e in
    let (p, here, _) = r.valid.current in
    (
      (b, k'),
      run,
      rw (valid_fid-same fid k k' i e (ap (λ q. q.max_count) r.queue)) (
          preceive_valid-empty i k' p (get_proc-some k' k'.running p r.valid.fits.bounded here)
            (ap (λ q. q.messages) r.queue) (ground (arith, ap (λ q. q.count) r.queue))),
    )
