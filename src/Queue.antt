-- ===== src/Queue.antt =====
-- shared/queue.h: generic queues in priority order, as circular doubly linked lists of the links
-- that the elements hold. An element is named by the address of its link, so `queue_entry` is the
-- identity; `priority` reads the element's priority field. NULL is 0.
pub mod Order
pub mod Ring
pub mod Add
pub mod Del
pub mod Walk
use operating_system_concept.Base.{
  ℕ, zero, suc, Bool, true, false, ◌&&◌, not, Option, none, some, List, [], ◌∷◌, update, ltb, ◌==◌,
  if◌then◌else◌,
}
use operating_system_concept.Base.Run.{Run, ok, fault, out_of_fuel, ◌>>=◌, ◌>>◌, assert}

pub record Links : Type 0 where
  pub next : ℕ → ℕ
  pub prev : ℕ → ℕ

abbrev pub set_next : ℕ → ℕ → Links → Links
set_next p v l = record l { next = update l.next p v }

abbrev pub set_prev : ℕ → ℕ → Links → Links
set_prev p v l = record l { prev = update l.prev p v }

-- `INIT_LIST_HEAD`
unfoldable pub init_list_head : ℕ → Links → Links
init_list_head head l = set_prev head head (set_next head head l)

-- `INIT_LINK`
unfoldable pub init_link : ℕ → Links → Links
init_link e l = set_prev e 0 (set_next e 0 l)

unfoldable pub queue_empty : ℕ → Links → Bool
queue_empty head l = l.next head == head

-- The loop of `queue_add`: the first link behind `cur` that is the head or has no lower priority.
pub place : ℕ → Links → (ℕ → ℕ) → ℕ → ℕ → ℕ → Run ℕ
place zero l priority head p cur = fault out_of_fuel
place (suc fuel) l priority head p cur =
    let c = l.next cur in
    let rest = place fuel l priority head p c in
    if not (c == head) && ltb (priority c) p then rest else ok c

-- The four writes of `queue_add`.
pub link_before : ℕ → ℕ → Links → Links
link_before e cur l =
    let l₁ = set_next e cur l in
    let l₂ = set_prev e (l₁.prev cur) l₁ in
    let l₃ = set_next (l₂.prev cur) e l₂ in set_prev cur e l₃

pub queue_add : ℕ → (ℕ → ℕ) → ℕ → ℕ → Links → Run Links
unfolding place link_before
queue_add fuel priority head e l = do
  assert (l.prev e == 0 && l.next e == 0)
  cur ← place fuel l priority head (priority e) head
  ok (link_before e cur l)

pub unlink : ℕ → Links → Links
unlink e l =
    let l₁ = set_next (l.prev e) (l.next e) l in
    let l₂ = set_prev (l₁.next e) (l₁.prev e) l₁ in set_prev e 0 (set_next e 0 l₂)

pub queue_del : ℕ → Links → Run Links
unfolding unlink
queue_del e l = do assert (not (l.prev e == 0) && not (l.next e == 0)); ok (unlink e l)

pub queue_out : ℕ → Links → Option ℕ × Links
unfolding queue_empty
queue_out head l =
    let last = l.prev head in
    let l₁ = set_prev head (l.prev last) l in
    let l₂ = set_next (l₁.prev head) head l₁ in
    if queue_empty head l then (none, l) else (some last, set_next last 0 (set_prev last 0 l₂))

pub queue_top : ℕ → Links → Option ℕ
unfolding queue_empty
queue_top head l = if queue_empty head l then none else some (l.prev head)

pub queue_bottom : ℕ → Links → Option ℕ
unfolding queue_empty
queue_bottom head l = if queue_empty head l then none else some (l.next head)

-- The elements that a loop visits from `cur` on, where `step` is the link that it follows.
walk : (ℕ → ℕ) → ℕ → ℕ → ℕ → Run (List ℕ)
walk step zero head cur = fault out_of_fuel
walk step (suc fuel) head cur =
    let rest = walk step fuel head (step cur) in
    if cur == head then ok [] else rest >>= λ xs. ok (cur ∷ xs)

-- The visits of `queue_for_each` and of `queue_for_each_prev`.
pub queue_for_each : ℕ → ℕ → Links → Run (List ℕ)
unfolding walk
queue_for_each fuel head l = walk l.next fuel head (l.next head)

pub queue_for_each_prev : ℕ → ℕ → Links → Run (List ℕ)
unfolding walk
queue_for_each_prev fuel head l = walk l.prev fuel head (l.prev head)
