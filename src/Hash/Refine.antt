-- ===== src/Hash/Refine.antt =====
-- A hash table of kernel/hash.c and the partial function on keys that it stands for, from
-- `hash_init` on and through every change of its number of slots.
use operating_system_concept.Base.{
  ℕ, ◌≡◌, Bool, true, false, Option, none, some, List, [], ◌∷◌, if◌then◌else◌,
}
use operating_system_concept.Base.Run.{Run, ok, ◌>>=◌}
use operating_system_concept.Hash.{HashMap, hash_set, hash_del, hash_isset, hash_get}
use operating_system_concept.Hash.Answers.{Answers, is_some, or_default}

-- A call that changes the table.
pub data HashOp : Type 0 where
  set_key : ℕ → ℕ → HashOp
  del_key : ℕ → HashOp

abbrev pub run_op : ℕ → HashOp → Option HashMap → Run (Bool × Option HashMap)
run_op rounds (set_key key value) map = hash_set rounds map key value
run_op rounds (del_key key) map = hash_del rounds map key

-- The calls one after the other, up to the first that fails.
unfoldable pub run_ops : ℕ → List HashOp → Option HashMap → Run (Bool × Option HashMap)
run_ops rounds [] map = ok (true, map)
run_ops rounds (op ∷ ops) map = run_op rounds op map >>= λ (done, map').
    if done then run_ops rounds ops map' else ok (false, map')

-- What a call makes of a partial function on keys.
abbrev pub change : (ℕ → ℕ → Bool) → HashOp → (ℕ → Option ℕ) → ℕ → Option ℕ
change cmp (set_key key value) f other = if cmp key other then some value else f other
change cmp (del_key key) f other = if cmp key other then none else f other

unfoldable pub replay : (ℕ → ℕ → Bool) → List HashOp → (ℕ → Option ℕ) → ℕ → Option ℕ
replay cmp [] f = f
replay cmp (op ∷ ops) f = replay cmp ops (change cmp op f)

-- The table reads as the function.
abbrev pub ReadsAs : ℕ → HashMap → (ℕ → Option ℕ) → Type 0
ReadsAs rounds map f =
    (key : ℕ)
    → (hash_isset rounds (some map) key ≡ ok (is_some (f key)))
      × ((default_value : ℕ)
          → hash_get rounds (some map) key default_value ≡ ok (or_default (f key) default_value))
