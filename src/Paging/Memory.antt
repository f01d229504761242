-- ===== src/Paging/Memory.antt =====
-- The memory, the head of the free list, and the accesses to them.
use operating_system_concept.Base.{ℕ, ◌+◌, Bool, ◌&&◌, update, ltb, leb, if◌then◌else◌}
use operating_system_concept.Base.Run.{ok, fault, page_fault}
use operating_system_concept.Base.Cmd.{Cmd}

pub record Ram : Type 0 where
  pub word : ℕ → ℕ
  pub freelist : ℕ

-- The kernel maps all but the first page of the first 256 MB.
abbrev pub mapped : ℕ → Bool
mapped a = leb 4096 a && ltb a 0x1000_0000

unfoldable pub load : ℕ → Cmd Ram ℕ
load a r = if mapped a then ok (r.word a, r) else fault page_fault

unfoldable pub store : ℕ → ℕ → Cmd Ram (Unit {0})
store a v r = if mapped a then ok (tt, record r { word = update r.word a v }) else fault page_fault

abbrev pub in_page : ℕ → ℕ → Bool
in_page b a = leb b a && ltb a (b + 4096)

-- `memset(block, 0, 4096)` on a page.
unfoldable pub zero_page : ℕ → Cmd Ram (Unit {0})
zero_page b r =
    if mapped b
    then ok (tt, record r { word = λ a. if in_page b a then 0 else r.word a })
    else fault page_fault

abbrev pub get_freelist : Cmd Ram ℕ
get_freelist r = ok (r.freelist, r)

abbrev pub set_freelist : ℕ → Cmd Ram (Unit {0})
set_freelist p r = ok (tt, record r { freelist = p })
