-- ===== src/Paging/FreeList.antt =====
-- kernel/freelist.c, against a list of distinct pages.
use operating_system_concept.Base.{
  ℕ, zero, suc, ap, ◌+◌, ◌-◌, ◌*◌, ◌%◌, ◌≤◌, ◌<◌, ◌≡◌, ◌≢◌, refl, if◌then◌else◌, update,
  update_self, true, false, List, [], ◌∷◌, arith, has, Distinct,
}
use operating_system_concept.Base.Run.{ok, Returns}
use operating_system_concept.Paging.{page_alloc, page_free, link_pages, init_page_list}
use operating_system_concept.Paging.Memory.{Ram, load, store, zero_page, in_page}

pub record IsPage (p : ℕ) : Type 0 where
  pub low : 4096 ≤ p
  pub high : p + 4096 ≤ 0x1000_0000
  pub aligned : p % 4096 ≡ 0

-- From `p` the first words of the pages lead through `xs` to NULL.
abbrev pub FreePages : (ℕ → ℕ) → ℕ → List ℕ → Type 0
FreePages word p [] = p ≡ 0
FreePages word p (x ∷ xs) = (p ≡ x) × IsPage x × FreePages word (word x) xs

pub record IsFreeList (r : Ram) (xs : List ℕ) : Type 0 where
  pub chain : FreePages r.word r.freelist xs
  pub distinct : Distinct xs

pub FreePages-frame :
    (w w' : ℕ → ℕ) (p : ℕ) (xs : List ℕ)
    → FreePages w p xs
    → ((x : ℕ) → IsPage x → has x xs ≡ true → w' x ≡ w x)
    → FreePages w' p xs
FreePages-frame w w' p [] f same = f
FreePages-frame w w' p (x ∷ xs) f same =
    let page = f.1 in
    (
      f.0,
      page,
      rw (same x page (ground arith))
          (FreePages-frame w w' (w x) xs f.2 (λ y i m. same y i (ground arith))),
    )

page_apart : (x y : ℕ) → IsPage x → IsPage y → x ≢ y → in_page x y ≡ false
page_apart x y p q n = ground (arith, p, q)

-- The memory behind the allocation of page `x`.
pub record Allocated (r : Ram) (x : ℕ) (xs : List ℕ) (r' : Ram) : Type 0 where
  pub rest : IsFreeList r' xs
  pub cleared : (a : ℕ) → in_page x a ≡ true → r'.word a ≡ 0
  pub same : (a : ℕ) → in_page x a ≡ false → r'.word a ≡ r.word a

-- `page_alloc` of a list that is not empty returns the first page, cleared, takes it from the list,
-- and changes no word outside of it.
pub page_alloc-Allocated :
    (r : Ram) (x : ℕ) (xs : List ℕ)
    → IsFreeList r (x ∷ xs)
    → Returns (page_alloc r) (λ (b, r'). (b ≡ x) × Allocated r x xs r')
unfolding page_alloc load zero_page
page_alloc-Allocated r x xs f =
    let page = f.chain.1 in
    (
      (
        r.freelist,
        record {
          word = λ a. if in_page r.freelist a then 0 else r.word a;
          freelist = r.word r.freelist;
        },
      ),
      ground (arith, page, f.chain.0),
      (
        f.chain.0,
        record {
          rest = record {
            chain =
                FreePages-frame r.word _ (r.word r.freelist) xs (rw f.chain.0 f.chain.2)
                  (λ y p m. ground (arith, page, f.chain.0, f.distinct, p, page_apart x y page p));
            distinct = f.distinct.1;
          };
          cleared = λ a i. ground (arith, f.chain.0);
          same = λ a i. ground (arith, f.chain.0);
        },
      ),
    )

-- Without a free page `page_alloc` returns NULL and changes nothing.
pub page_alloc-none : (r : Ram) → IsFreeList r [] → page_alloc r ≡ ok (0, r)
unfolding page_alloc
page_alloc-none r f = ground (arith, f.chain)

-- `page_free` of a page that is not free puts it in front, and writes only its first word.
pub page_free-cons :
    (r : Ram) (b : ℕ) (xs : List ℕ)
    → IsFreeList r xs
    → IsPage b
    → has b xs ≡ false
    → Returns
        (page_free b r)
        (λ (_, r'). IsFreeList r' (b ∷ xs) × ((a : ℕ) → a ≢ b → r'.word a ≡ r.word a))
unfolding page_free store
page_free-cons r b xs f page fresh = (
  (tt, record { word = update r.word b r.freelist; freelist = b }),
  ground (arith, page),
  (
    record {
      chain = (
        refl,
        page,
        FreePages-frame r.word (update r.word b r.freelist) (update r.word b r.freelist b) xs
            (rw (update_self r.word b r.freelist) f.chain) (λ y p m. ground (arith, fresh)),
      );
      distinct = (fresh, f.distinct);
    },
    λ a n. ground arith,
  ),
)

-- The pages from `start` on.
abbrev pub pages : ℕ → ℕ → List ℕ
pages start zero = []
pages start (suc n) = start ∷ pages (start + 4096) n

link_pages-FreePages :
    (n rounds ptr end : ℕ) (r : Ram)
    → n ≤ rounds
    → 4096 ≤ ptr
    → ptr % 4096 ≡ 0
    → end ≡ ptr + 4096 * suc n
    → end ≤ 0x1000_0000
    → r.word (end - 4096) ≡ 0
    → Returns (link_pages rounds ptr end r) (λ (_, r').
      FreePages r'.word ptr (pages ptr (suc n))
      × ((a : ℕ) → a < ptr → r'.word a ≡ r.word a)
      × (r'.freelist ≡ r.freelist))
unfolding link_pages store
link_pages-FreePages zero zero ptr end r f lo al e hi z =
    ((tt, r), refl, ((refl, omega arith, last_null), λ a h. refl, refl))
  where
    last_null : r.word ptr ≡ 0
    last_null = rw (← z) (ap r.word (omega arith))
link_pages-FreePages zero (suc rounds) ptr end r f lo al e hi z =
    ((tt, r), ground arith, ((refl, omega arith, last_null), λ a h. refl, refl))
  where
    last_null : r.word ptr ≡ 0
    last_null = rw (← z) (ap r.word (omega arith))
link_pages-FreePages (suc n) zero ptr end r f lo al e hi z = absurd (omega arith)
link_pages-FreePages (suc n) (suc rounds) ptr end r f lo al e hi z =
    let r₁ : Ram = record r { word = update r.word ptr (ptr + 4096) } in
    let (s, run, made) =
      link_pages-FreePages n rounds (ptr + 4096) end r₁ (omega arith) (omega arith) (omega arith)
        (omega arith) hi (ground arith) in
    (
      s,
      ground (arith, run),
      ((refl, omega arith, rw (first s.1 made.1) made.0), λ a h. ground (arith, made.1 a), made.2),
    )
  where
    first :
        (r' : Ram)
        → ((a : ℕ) → a < ptr + 4096 → r'.word a ≡ update r.word ptr (ptr + 4096) a)
        → r'.word ptr ≡ ptr + 4096
    first r' same = ground (arith, same ptr)

has-pages : (a start n : ℕ) → a < start → has a (pages start n) ≡ false
has-pages a start zero h = refl
has-pages a start (suc n) h = ground (arith, has-pages a (start + 4096) n)

Distinct-pages : (start n : ℕ) → Distinct (pages start n)
Distinct-pages start zero = tt
Distinct-pages start (suc n) =
    (has-pages start (start + 4096) n (omega arith), Distinct-pages (start + 4096) n)

-- `initPageList` of a range of at least one aligned page, of which the last begins with a zero
-- word, makes the pages of the range the free list; the loop ends within the given rounds.
pub init_page_list-pages :
    (n rounds start end : ℕ) (r : Ram)
    → n ≤ rounds
    → 4096 ≤ start
    → start % 4096 ≡ 0
    → end ≡ start + 4096 * suc n
    → end ≤ 0x1000_0000
    → r.word (end - 4096) ≡ 0
    → Returns (init_page_list rounds start end r) (λ (_, r'). IsFreeList r' (pages start (suc n)))
unfolding init_page_list
init_page_list-pages n rounds start end r f lo al e hi z =
    let (s, run, made) = link_pages-FreePages n rounds start end r f lo al e hi z in
    (
      (tt, record { word = s.1.word; freelist = start }),
      ground (arith, run),
      record { chain = made.0; distinct = Distinct-pages start (suc n) },
    )
