-- ===== src/Heap.antt =====
-- `sbrk` of kernel/mem.c, and of user/lib/sbrk.c, which has the same body. `heap_end` is the end of
-- the heap and `curptr` the break.
use operating_system_concept.Base.{
  ℕ, ◌+◌, ◌-◌, ◌%◌, ◌^◌, ◌≤◌, ◌<◌, ◌≡◌, ◌||◌, Option, none, some, arith, ltb, leb, if◌then◌else◌,
  List, [], ◌∷◌, refl, ◌⊎◌, inl, inr, Bool-cases,
}
use operating_system_concept.Base.Int.{ℤ, pos, negsuc}

-- A difference as a 32-bit word.
abbrev pub word_of : ℤ → ℕ
word_of (pos n) = n % 2 ^ 32
word_of (negsuc n) = (2 ^ 32 - 1 - n % 2 ^ 32) % 2 ^ 32

-- The old break, or `none` for -1, with the break afterwards.
unfoldable pub sbrk : ℕ → ℤ → ℕ → Option ℕ × ℕ
sbrk heap_end diff curptr =
    let c = (curptr + word_of diff) % 2 ^ 32 in
    if ltb c curptr || ltb heap_end c then (none, curptr) else (some curptr, c)

-- Requests one behind the other: the answers, and the last break.
unfoldable pub sbrks : ℕ → List ℕ → ℕ → List (Option ℕ) × ℕ
sbrks heap_end [] curptr = ([], curptr)
sbrks heap_end (n ∷ ns) curptr =
    let (answer, next) = sbrk heap_end (pos n) curptr in
    let (answers, last) = sbrks heap_end ns next in (answer ∷ answers, last)

abbrev pub AllBelow : ℕ → List ℕ → Type 0
AllBelow limit [] = Unit
AllBelow limit (n ∷ ns) = (n < limit) × AllBelow limit ns

-- The answers to requests from the break `low` on: a block starts where the one before it ends and
-- lies in the heap, and a request is refused only where the heap has no room for it. `last` is the
-- end of the last block.
abbrev pub Stacked : ℕ → ℕ → List ℕ → List (Option ℕ) → ℕ → Type 0
Stacked heap_end low [] [] last = low ≡ last
Stacked heap_end low [] (answer ∷ answers) last = ⊥
Stacked heap_end low (n ∷ ns) [] last = ⊥
Stacked heap_end low (n ∷ ns) (none ∷ answers) last =
    (heap_end < low + n) × Stacked heap_end low ns answers last
Stacked heap_end low (n ∷ ns) (some block ∷ answers) last =
    (block ≡ low) × (low + n ≤ heap_end) × Stacked heap_end (low + n) ns answers last

sbrk-cases :
    (heap_end curptr n : ℕ)
    → curptr ≤ heap_end
    → heap_end < 2 ^ 31
    → n < 2 ^ 31
    → ((curptr + n ≤ heap_end) × (sbrk heap_end (pos n) curptr ≡ (some curptr, curptr + n)))
      ⊎ ((heap_end < curptr + n) × (sbrk heap_end (pos n) curptr ≡ (none, curptr)))
unfolding sbrk
sbrk-cases heap_end curptr n inside low small = elim (Bool-cases (leb (curptr + n) heap_end)) [
  | inl e ↦ inl (ground (arith, e), ground (arith, e))
  | inr e ↦ inr (ground (arith, e), ground (arith, e))
]

-- From a break inside of the heap, which ends below 2 ^ 31, any sequence of requests for fewer than
-- 2 ^ 31 bytes each is answered with blocks one behind the other inside of the heap. A request is
-- refused exactly if the heap has no room for it behind the blocks so far, and the last break is
-- inside of the heap.
pub sbrks-Stacked :
    (heap_end : ℕ) (ns : List ℕ) (curptr : ℕ)
    → curptr ≤ heap_end
    → heap_end < 2 ^ 31
    → AllBelow (2 ^ 31) ns
    → Stacked heap_end curptr ns (sbrks heap_end ns curptr).0 (sbrks heap_end ns curptr).1
      × ((sbrks heap_end ns curptr).1 ≤ heap_end)
unfolding sbrks
sbrks-Stacked heap_end [] curptr inside low small = (refl, inside)
sbrks-Stacked heap_end (n ∷ ns) curptr inside low small =
    elim (sbrk-cases heap_end curptr n inside low small.0) [
      | inl (fits, run) ↦
          let (stacked, last) = sbrks-Stacked heap_end ns (curptr + n) fits low small.1 in
          rw run ((refl, fits, stacked), last)
      | inr (full, run) ↦
          let (stacked, last) = sbrks-Stacked heap_end ns curptr inside low small.1 in
          rw run ((full, stacked), last)
    ]
