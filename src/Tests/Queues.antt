-- ===== src/Tests/Queues.antt =====
-- shared/queue.h at a queue of two elements, 2 and 3, behind the head 1.
use operating_system_concept.Base.{ℕ, ◌≡◌, refl, some, [], ◌∷◌, arith, update, remove}
use operating_system_concept.Base.Run.{ok, Returns}
use mathlib.Core.List.{reverse}
use operating_system_concept.Queue.{
  Links, queue_add, queue_del, queue_out, queue_for_each, queue_for_each_prev,
}
use operating_system_concept.Queue.Order.{insert}
use operating_system_concept.Queue.Ring.{IsQueue}
use operating_system_concept.Queue.Add.{queue_add-insert}
use operating_system_concept.Queue.Del.{queue_del-remove, queue_out-last}
use operating_system_concept.Queue.Walk.{for_each-visits}

abbrev two : Links
two = record {
  next = update (update (update (λ _. 0) 1 2) 2 3) 3 1;
  prev = update (update (update (λ _. 0) 1 3) 3 2) 2 1;
}

abbrev priority : ℕ → ℕ
priority = update (update (λ _. 5) 3 9) 4 7

two-IsQueue : IsQueue two 1 (2 ∷ 3 ∷ [])
two-IsQueue = record {
  ring = (refl, refl, (refl, refl, (refl, refl)));
  distinct = (refl, (refl, tt));
  apart = refl;
  not_null = refl;
  head_not_null = omega arith;
}

queue_add-insert_example :
    Returns (queue_add 3 priority 1 4 two) (λ l. IsQueue l 1 (insert priority 4 (2 ∷ 3 ∷ [])))
queue_add-insert_example =
    queue_add-insert two priority 1 4 3 (2 ∷ 3 ∷ []) (omega arith) two-IsQueue refl refl
      (omega arith) refl

inserted : insert priority 4 (2 ∷ 3 ∷ []) ≡ 2 ∷ 4 ∷ 3 ∷ []
unfolding insert
inserted = refl

queue_del-remove_example :
    Returns
      (queue_del 2 two)
      (λ l. IsQueue l 1 (remove 2 (2 ∷ 3 ∷ [])) × (l.next 2 ≡ 0) × (l.prev 2 ≡ 0))
queue_del-remove_example = queue_del-remove two 1 2 (2 ∷ 3 ∷ []) two-IsQueue refl

queue_out-last_example :
    ((queue_out 1 two).0 ≡ some 3) × IsQueue (queue_out 1 two).1 1 (remove 3 (2 ∷ 3 ∷ []))
queue_out-last_example = queue_out-last two 1 2 (3 ∷ []) two-IsQueue

for_each-visits_example :
    (queue_for_each 3 1 two ≡ ok (2 ∷ 3 ∷ []))
    × (queue_for_each_prev 3 1 two ≡ ok (reverse (2 ∷ 3 ∷ [])))
for_each-visits_example = for_each-visits two 3 1 (2 ∷ 3 ∷ []) (omega arith) two-IsQueue
