-- ===== src/Hash/Stored.antt =====
-- What `hash_get` gives behind a `hash_set` or a `hash_del`, while the table keeps its size.
use mathlib.Core.Path.{subst}
use operating_system_concept.Base.{
  ℕ, ◌+◌, ◌-◌, ◌%◌, ◌^◌, ◌<◌, ◌≡◌, refl, sym, ap, ◌∙◌, inl, inr, true, false, none, some, arith,
  ◌==◌, Bool-cases, update_self,
}
use operating_system_concept.Base.Run.{ok, ends, first_step, ok-injective as same_result}
use operating_system_concept.Hash.{
  HashMap, sl_deleted, is_sl_empty, is_sl_active, size, matches, probe, hash_lookup, hash_get,
  hash_isset, hash_set, hash_del, vacate,
}
use operating_system_concept.Hash.Probe.{probe-Written}
use operating_system_concept.Hash.Aside.{
  IsCompare, Aside, matches-apart, found_aside, at_found, probe-Aside, probe-active,
}
use operating_system_concept.Hash.Writes.{
  sets, was_found, Put, IsHashed, lookup_ends, hash_update-stays, IsSized, IsRoomy,
}

-- A read where the search ends is known.
get_at :
    (map : HashMap) (key at rounds default_value : ℕ)
    → hash_lookup rounds map key (map.hfunc key) ≡ ok at
    → matches map key (map.hfunc key) (map.table at) ≡ true
    → hash_get rounds (some map) key default_value ≡ ok (map.table at).value
unfolding hash_get
get_at map key at rounds default_value run m =
    let active : is_sl_active (map.table at).mode ≡ true = ground (arith, m) in
    rw run (rw active refl)

-- Another key that is set keeps its value over a change aside of it.
get-Aside :
    (map map' : HashMap) (other at rounds default_value : ℕ)
    → Aside map map' other (map.hfunc other) at
    → map'.hfunc ≡ map.hfunc
    → hash_isset rounds (some map) other ≡ ok true
    → hash_get rounds (some map') other default_value
      ≡ hash_get rounds (some map) other default_value
unfolding hash_isset hash_lookup
get-Aside map map' other at rounds default_value w f set =
    elim (first_step (hash_lookup rounds map other (map.hfunc other)) _ true set) [
      | ends found run last ↦
          let h = map.hfunc other in
          let active : is_sl_active (map.table found).mode ≡ true = same_result _ _ last in
          let m : matches map other h (map.table found) ≡ true =
            probe-active map other h found rounds (h % size map) h none (λ f e. absurd (cc)) active
              run in
          let start : h % size map' ≡ h % size map = ap (λ m. h % (m + 1)) w.mask in
          let again : hash_lookup rounds map' other (map'.hfunc other) ≡ ok found =
            ap (λ g. hash_lookup rounds map' other (g other)) f
            ∙ ap (λ i. probe rounds map' other h i h none) start
            ∙ probe-Aside map map' other h at found w m rounds (h % size map) h none none
                (λ f e. absurd (cc)) run in
          let apart : (found == at) ≡ false = found_aside map map' other h at found w m in
          get_at map' other found rounds default_value again (
            subst (λ g. matches map' other (g other) (map'.table found) ≡ true) (sym f)
              (at_found map map' other h at found w m))
          ∙ ap (λ s. ok s.value) (w.same found apart)
          ∙ sym (get_at map other found rounds default_value run m)
    ]

get-Put :
    (map map' : HashMap) (key value at rounds default_value : ℕ)
    → Put map map' key value (map.hfunc key) at
    → hash_lookup rounds map key (map.hfunc key) ≡ ok at
    → hash_get rounds (some map') key default_value ≡ ok value
unfolding hash_lookup
get-Put map map' key value at rounds default_value p run =
    let h = map.hfunc key in
    let w = p.written in
    let start : h % size map' ≡ h % size map = ap (λ m. h % (m + 1)) w.mask in
    let again : hash_lookup rounds map' key (map'.hfunc key) ≡ ok at =
      ap (λ g. hash_lookup rounds map' key (g key)) p.hfunc
      ∙ ap (λ i. probe rounds map' key h i h none) start
      ∙ probe-Written map map' key h at w rounds (h % size map) h none (λ f e. absurd (cc)) run in
    get_at map' key at rounds default_value again
      (subst (λ g. matches map' key (g key) (map'.table at) ≡ true) (sym p.hfunc) w.here)
    ∙ ap (λ v. ok v) p.holds

apart-Aside :
    (map map' : HashMap) (key other value at : ℕ)
    → IsCompare map.cmp
    → map.cmp key other ≡ false
    → Put map map' key value (map.hfunc key) at
    → matches map other (map.hfunc other) (map.table at) ≡ false
    → Aside map map' other (map.hfunc other) at
apart-Aside map map' key other value at c n p before = record {
  mask = p.written.mask;
  same = p.written.same;
  cmp = p.written.cmp;
  before = before;
  after =
      matches-apart map' key other (map.hfunc key) (map.hfunc other) (map'.table at)
        (subst IsCompare (sym p.written.cmp) c) (ap (λ f. f key other) p.written.cmp ∙ n)
        p.written.here;
  filled = ground (arith, p.written.here);
}

-- The slot at which a search for a key ends has no other key.
ends_apart :
    (map : HashMap) (key other at rounds : ℕ)
    → IsCompare map.cmp
    → map.cmp key other ≡ false
    → hash_lookup rounds map key (map.hfunc key) ≡ ok at
    → matches map other (map.hfunc other) (map.table at) ≡ false
ends_apart map key other at rounds c n run = elim (Bool-cases (is_sl_active (map.table at).mode)) [
  | inl a ↦
      matches-apart map key other (map.hfunc key) (map.hfunc other) (map.table at) c n
        (was_found map key 0 at rounds c run a)
  | inr e ↦ ground (arith, e)
]

-- What a table answers for a key that was set.
abbrev pub KeepsOthers : HashMap → HashMap → ℕ → ℕ → Type 0
KeepsOthers map map' key rounds =
    (other default_value : ℕ)
    → map.cmp key other ≡ false
    → hash_isset rounds (some map) other ≡ ok true
    → hash_get rounds (some map') other default_value
      ≡ hash_get rounds (some map) other default_value

-- `hash_set` ends with success in a table that has an empty slot, few enough used slots to keep its
-- size, a hash below 2 ^ 32, and a comparison that says which keys are the same. It keeps the hash
-- function, the comparison, and that each slot has the hash of its key. Then `hash_get` gives the
-- new value for the key, and for every other key that was set what it gave before.
pub hash_get-hash_set :
    (map : HashMap) (key value rounds : ℕ)
    → IsCompare map.cmp
    → IsRoomy map rounds
    → map.hfunc key < 2 ^ 32
    → IsSized map (map.fill + 1) (map.count + 1)
    → (map' : HashMap) × (hash_set rounds (some map) key value ≡ ok (true, some map'))
      × (IsHashed map → IsHashed map')
      × (map'.hfunc ≡ map.hfunc)
      × (map'.cmp ≡ map.cmp)
      × ((default_value : ℕ) → hash_get rounds (some map') key default_value ≡ ok value)
      × KeepsOthers map map' key rounds
unfolding hash_set hash_lookup
hash_get-hash_set map key value rounds c r word sized =
    let (at, run, inside) = lookup_ends map key rounds r word in
    let ((done, map'), stored, (good, p)) = sets map key value at rounds c run sized in
    let hash = map.hfunc key in
    (
      map',
      rw run (rw (stored, good) refl),
      p.hashed,
      p.hfunc,
      p.written.cmp,
      λ default_value. get-Put map map' key value at rounds default_value p run,
      λ other default_value n set.
          get-Aside map map' other at rounds default_value
            (apart-Aside map map' key other value at c n p
              (ends_apart map key other at rounds c n run))
            p.hfunc set,
    )

-- `hash_del` ends with success in a table that has an empty slot, keeps its size, and has
-- a hash below 2 ^ 32 and a comparison that says which keys are the same. Then `hash_get` gives
-- for every other key that was set what it gave before.
pub hash_get-hash_del :
    (map : HashMap) (key rounds : ℕ)
    → IsCompare map.cmp
    → IsRoomy map rounds
    → map.hfunc key < 2 ^ 32
    → IsSized map map.fill (map.count - 1)
    → (map' : HashMap) × (hash_del rounds (some map) key ≡ ok (true, some map'))
      × KeepsOthers map map' key rounds
unfolding hash_del
hash_get-hash_del map key rounds c r word sized =
    let (at, run, inside) = lookup_ends map key rounds r word in
    elim (Bool-cases (is_sl_active (map.table at).mode)) [
      | inl a ↦ (
        vacate at map,
        rw run (rw a (rw (hash_update-stays rounds (vacate at map) sized) refl)),
        λ other default_value n set.
            get-Aside map (vacate at map) other at rounds default_value
              (vacated other at (ends_apart map key other at rounds c n run)) refl set,
      )
      | inr e ↦ (map, rw run (rw e refl), λ other default_value n set. refl)
    ]
  where
    vacated :
        (other at : ℕ)
        → matches map other (map.hfunc other) (map.table at) ≡ false
        → Aside map (vacate at map) other (map.hfunc other) at
    vacated other at before =
        let here =
          update_self map.table at (record { key = 0; value = 0; hash = 0; mode = sl_deleted }) in
        record {
          mask = refl;
          same = λ i n. rw n refl;
          cmp = refl;
          before = before;
          after = ap (matches (vacate at map) other (map.hfunc other)) here;
          filled = ap (λ s. is_sl_empty s.mode) here;
        }
