-- ===== src/Debugger/Copy.antt =====
-- `gdb_copyin` against a translation of each byte for itself.
use mathlib.Core.Path.{subst}
use native.Mathlib.Nat.{mod-eq_of_lt}
use operating_system_concept.Base.{
  ℕ, zero, suc, ◌+◌, ◌-◌, ◌%◌, ◌^◌, ◌≤◌, ◌<◌, ◌≡◌, refl, sym, ap, ◌∙◌, Bool, true, false, Option,
  none, some, List, [], ◌∷◌, ◌++◌, arith, ◌==◌,
}
use operating_system_concept.Base.Run.{Run, ok, ◌>>=◌}
use operating_system_concept.Debugger.Lookup.{
  Bytes, Client, Place, phys_addr_lookup, copied_from, at_most, copy_chunk, gdb_copyin,
}
use operating_system_concept.Debugger.Paged.{translate, IsRun, lookup-IsRun}

abbrev pub prepend : List ℕ → Option (List ℕ) → Option (List ℕ)
prepend xs none = none
prepend xs (some ys) = some (xs ++ ys)

abbrev pub next_byte : Bytes → Option ℕ → Option (List ℕ) → Option (List ℕ)
next_byte mem none rest = none
next_byte mem (some pa) rest = prepend (mem pa ∷ []) rest

-- The bytes from `v` on, each translated for itself.
unfoldable pub read_bytes : Client → Bytes → ℕ → ℕ → Option (List ℕ)
read_bytes c mem v zero = some []
read_bytes c mem v (suc n) = next_byte mem (translate c mem v) (read_bytes c mem (v + 1) n)

-- A copy that fails may have copied some bytes.
abbrev pub Agrees : Option (List ℕ) → Run (Bool × List ℕ) → Type 0
Agrees none run = (bytes : List ℕ) × (run ≡ ok (false, bytes))
Agrees (some bytes) run = run ≡ ok (true, bytes)

prepend-cons :
    (b : ℕ) (xs : List ℕ) (o : Option (List ℕ))
    → prepend (b ∷ []) (prepend xs o) ≡ prepend (b ∷ xs) o
prepend-cons b xs none = refl
prepend-cons b xs (some ys) = refl

prepend-nil : (o : Option (List ℕ)) → prepend [] o ≡ o
prepend-nil none = refl
prepend-nil (some ys) = refl

Agrees-prepend :
    (o : Option (List ℕ)) (run : Run (Bool × List ℕ)) (xs : List ℕ)
    → Agrees o run
    → Agrees (prepend xs o) (run >>= λ (done, bytes). ok (done, xs ++ bytes))
Agrees-prepend none run xs (bytes, e) = (xs ++ bytes, rw e refl)
Agrees-prepend (some ys) run xs e = rw e refl

module _ (c : Client) (mem : Bytes) where
  -- The bytes of one run, and those behind it.
  read_bytes-run :
      (sz m v pa : ℕ)
      → ((i : ℕ) → i < sz → translate c mem (v + i) ≡ some (pa + i))
      → read_bytes c mem v (sz + m) ≡ prepend (copied_from mem pa sz) (read_bytes c mem (v + sz) m)
  unfolding read_bytes copied_from
  read_bytes-run zero m v pa run =
      ap (λ k. read_bytes c mem v k) (omega arith)
      ∙ ap (λ w. read_bytes c mem w m) (omega arith)
      ∙ sym (prepend-nil (read_bytes c mem (v + 0) m))
  read_bytes-run (suc sz) m v pa run =
      let here : translate c mem v ≡ some pa =
        ap (translate c mem) (omega arith) ∙ run 0 (omega arith) ∙ ap some (omega arith) in
      let rest = read_bytes-run sz m (v + 1) (pa + 1) λ i inside.
        ap (translate c mem) (omega arith) ∙ run (suc i) (omega arith) ∙ ap some (omega arith) in
      let size : suc sz + m ≡ suc (sz + m) = omega arith in
      let behind : v + 1 + sz ≡ v + suc sz = omega arith in
      ap (λ k. read_bytes c mem v k) size
      ∙ ap (λ t. next_byte mem t (read_bytes c mem (v + 1) (sz + m))) here
      ∙ ap (prepend (mem pa ∷ [])) rest
      ∙ prepend-cons (mem pa) (copied_from mem (pa + 1) sz) (read_bytes c mem (v + 1 + sz) m)
      ∙ ap (λ w. prepend (mem pa ∷ copied_from mem (pa + 1) sz) (read_bytes c mem w m)) behind

  no_byte : (n v : ℕ) → translate c mem v ≡ none → read_bytes c mem v (suc n) ≡ none
  unfolding read_bytes
  no_byte n v e = ap (λ t. next_byte mem t (read_bytes c mem (v + 1) n)) e

  chunk-Agrees :
      (rounds n v : ℕ) (place : Place)
      → phys_addr_lookup c mem v ≡ place
      → v + suc n ≤ 2 ^ 32
      → IsRun c mem v place
      → ((m w : ℕ)
          → m ≤ n
          → w + m ≤ 2 ^ 32
          → Agrees (read_bytes c mem w m) (gdb_copyin rounds c mem (w % 2 ^ 32) m))
      → Agrees (read_bytes c mem v (suc n)) (
          copy_chunk mem
            (suc n)
            place
            (λ sz. gdb_copyin rounds c mem ((v + sz) % 2 ^ 32) (suc n - sz)))
  unfolding copy_chunk
  chunk-Agrees rounds n v (none, len) e fits run later =
      subst (λ o. Agrees o (ok (false, []))) (sym (no_byte n v (ap (λ p. p.0) e))) ([], refl)
  chunk-Agrees rounds n v (some pa, len) e fits (more, run) later =
      let sz = at_most len (suc n) in
      let present : (len == 0) ≡ false = ground (arith, more) in
      let inside : sz ≤ suc n = ground arith in
      let fits_run : sz ≤ len = ground arith in
      let some_one : 0 < sz = ground (arith, more) in
      let sizes : suc n ≡ sz + (suc n - sz) = omega (arith, inside) in
      let split : read_bytes c mem v (suc n)
          ≡ prepend (copied_from mem pa sz) (read_bytes c mem (v + sz) (suc n - sz)) =
        ap (λ k. read_bytes c mem v k) sizes
        ∙ read_bytes-run sz (suc n - sz) v pa (λ i below. run i (omega (arith, below, fits_run))) in
      let rest =
        later (suc n - sz) (v + sz) (omega (arith, some_one)) (omega (arith, inside, fits)) in
      let whole : Run (Bool × List ℕ) =
        gdb_copyin rounds c mem ((v + sz) % 2 ^ 32) (suc n - sz) >>= λ (done, bytes).
        ok (done, copied_from mem pa sz ++ bytes) in
      rw present (
        subst (λ o. Agrees o whole) (sym split)
          (Agrees-prepend (read_bytes c mem (v + sz) (suc n - sz))
            (gdb_copyin rounds c mem ((v + sz) % 2 ^ 32) (suc n - sz)) (copied_from mem pa sz)
            rest))

  copies :
      (rounds n v : ℕ)
      → n ≤ rounds
      → v + n ≤ 2 ^ 32
      → Agrees (read_bytes c mem v n) (gdb_copyin rounds c mem (v % 2 ^ 32) n)
  unfolding gdb_copyin read_bytes
  copies rounds zero v enough fits = refl
  copies zero (suc n) v enough fits = absurd (omega arith)
  copies (suc rounds) (suc n) v enough fits =
      subst (λ w. Agrees (read_bytes c mem v (suc n)) (gdb_copyin (suc rounds) c mem w (suc n)))
        (sym (mod-eq_of_lt (omega (arith, fits))))
        (chunk-Agrees rounds n v (phys_addr_lookup c mem v) refl fits (lookup-IsRun c mem v)
          (λ m w less fit. copies rounds m w (omega (arith, less, enough)) fit))

-- A copy of `n` bytes from the interrupted program, which ends below 4 GB, in at least `n` rounds:
-- it succeeds exactly if each of the virtual addresses is mapped, by a page of 4 KB or of 4 MB or
-- without paging, and then copies the bytes that lie where each address is translated to for
-- itself, also across pages.
pub gdb_copyin-Agrees :
    (c : Client) (mem : Bytes) (rounds n src : ℕ)
    → n ≤ rounds
    → src < 2 ^ 32
    → src + n ≤ 2 ^ 32
    → Agrees (read_bytes c mem src n) (gdb_copyin rounds c mem src n)
gdb_copyin-Agrees c mem rounds n src enough word fits =
    subst (λ w. Agrees (read_bytes c mem src n) (gdb_copyin rounds c mem w n)) (mod-eq_of_lt word)
      (copies c mem rounds n src enough fits)
