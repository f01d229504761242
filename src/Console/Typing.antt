-- ===== src/Console/Typing.antt =====
-- `keyboard_data` of kernel/cons_fonctions.c, followed by `cons_read`.
use mathlib.Core.Path.{subst}
use mathlib.Core.List.{append_assoc, reverse}
use operating_system_concept.Base.{
  ℕ, zero, suc, ◌+◌, ◌≤◌, ◌<◌, ◌^◌, ◌-◌, ◌≡◌, ◌≢◌, refl, sym, ◌∙◌, inl, inr, Bool, true, false,
  Option, none, some, List, [], ◌∷◌, ◌++◌, arith, length, ltb, ◌==◌, Option-cases, Bool-cases,
  if◌then◌else◌,
}
use operating_system_concept.Base.Run.{Run, ok, ◌>>=◌, Returns}
use operating_system_concept.Kernel.{Kernel, put_proc, set_state, ready}
use operating_system_concept.Process.Invariant.{IsValid, get_proc-some}
use operating_system_concept.Process.Scheduler.{first_such}
use operating_system_concept.Process.Switch.{first_such-some}
use operating_system_concept.Console.{
  Terminal, tampon_size, keyboard_data, key_room, store_char, echo_char, wake_reader, waits_for_key,
  wake_pid, cons_read_resume,
}
use operating_system_concept.Console.Buffer.{char_at, Buffered, IsText, length-snoc, cons_read-line}

char_at-snoc :
    (cs : List ℕ) (c i : ℕ)
    → char_at (cs ++ (c ∷ [])) i ≡ (if i == length cs then c else char_at cs i)
char_at-snoc [] c zero = refl
char_at-snoc [] c (suc i) = ground arith
char_at-snoc (d ∷ cs) c zero = ground arith
char_at-snoc (d ∷ cs) c (suc i) = ground (arith, char_at-snoc cs c i)

store_char-Buffered :
    (t : Terminal) (cs : List ℕ) (c : ℕ)
    → Buffered t cs
    → length cs + 1 < tampon_size
    → Buffered (store_char c t) (cs ++ (c ∷ []))
store_char-Buffered t cs c b h = record {
  filled = ground (arith, b.filled, length-snoc cs c);
  content = λ i. ground (arith, b.filled, b.content i, char_at-snoc cs c i);
  room = ground (arith, length-snoc cs c);
}

echo_char-Buffered :
    (t : Terminal) (cs : List ℕ) (c : ℕ)
    → Buffered t cs
    → Buffered (echo_char c t) cs × ((echo_char c t).fin_de_ligne ≡ t.fin_de_ligne)
echo_char-Buffered t cs c b = (
  record {
    filled = ground (arith, b.filled);
    content = λ i. ground (arith, b.content i);
    room = b.room;
  },
  ground arith,
)

-- The wake-up of the reader does not fault.
wake_pid-Returns :
    (k : Kernel) (o : Option ℕ)
    → IsValid k
    → ((i : ℕ) → o ≡ some i → waits_for_key (k.procs i) ≡ true)
    → (k' : Kernel) × (wake_pid o k ≡ ok k')
wake_pid-Returns k none v w = (k, refl)
wake_pid-Returns k (some i) v w = elim (Option-cases (k.procs i)) [
  | inl e ↦ absurd (ground (arith, e, w i refl))
  | inr (p, e) ↦ (put_proc i (set_state ready p) k, rw (get_proc-some k i p v.fits.bounded e) refl)
]

wake_reader-Returns : (k : Kernel) → IsValid k → (k' : Kernel) × (wake_reader k ≡ ok k')
unfolding wake_reader
wake_reader-Returns k v =
    let test : ℕ → Bool = λ i. waits_for_key (k.procs i) in
    wake_pid-Returns k (first_such test (reverse k.queue)) v
      (λ i e. (first_such-some test (reverse k.queue) i e).1)

-- A key stroke that is no erasing, on a buffer that does not get full.
keyboard_data-Buffered :
    (t : Terminal) (k : Kernel) (cs : List ℕ) (c : ℕ)
    → IsValid k
    → Buffered t cs
    → length cs + 1 < tampon_size
    → c ≢ 127
    → Returns (keyboard_data c t k) (λ (t', k').
      Buffered t' (cs ++ (c ∷ [])) × (t'.fin_de_ligne ≡ t.fin_de_ligne) × (c ≢ 13 → k' ≡ k))
unfolding keyboard_data key_room
keyboard_data-Buffered t k cs c v b h plain =
    let below : ltb tampon_size t.point_eol ≡ false = ground (arith, b.filled, b.room) in
    let not_full : (t.point_eol == tampon_size) ≡ false = ground (arith, b.filled, b.room) in
    let kept : (c == 127) ≡ false = ground arith in
    let t₁ = store_char c t in
    let (b', f) = echo_char-Buffered t₁ (cs ++ (c ∷ [])) c (store_char-Buffered t cs c b h) in
    rw (below, not_full, kept)
      (elim (Bool-cases (c == 13)) [
        | inl e ↦
            let (k', run) = wake_reader-Returns k v in
            ((echo_char c t₁, k'), rw e (rw run refl), (b', f, λ n. absurd (n (ground arith))))
        | inr e ↦ ((echo_char c t₁, k), rw e refl, (b', f, λ n. refl))
      ])

-- One interrupt for each char.
unfoldable pub type_all : List ℕ → Terminal → Kernel → Run (Terminal × Kernel)
type_all [] t k = ok (t, k)
type_all (c ∷ cs) t k = do (t₁, k₁) ← keyboard_data c t k; type_all cs t₁ k₁

type_all-Buffered :
    (t : Terminal) (k : Kernel) (cs ds : List ℕ)
    → IsValid k
    → IsText ds
    → Buffered t cs
    → length cs + length ds + 1 < tampon_size
    → Returns
        (type_all (ds ++ (13 ∷ [])) t k)
        (λ (t', k'). Buffered t' (cs ++ (ds ++ (13 ∷ []))) × (t'.fin_de_ligne ≡ t.fin_de_ligne))
unfolding type_all
type_all-Buffered t k cs [] v x b h =
    let ((t₁, k₁), run, (b₁, f₁, _)) =
      keyboard_data-Buffered t k cs 13 v b (omega arith) (omega arith) in
    ((t₁, k₁), rw run refl, (b₁, f₁))
type_all-Buffered t k cs (d ∷ ds) v x b h =
    let ((t₁, k₁), run, (b₁, f₁, same)) = keyboard_data-Buffered t k cs d v b (omega arith) x.2 in
    let v₁ = subst IsValid (sym (same x.1)) v in
    let ((t₂, k₂), run₂, (b₂, f₂)) =
      type_all-Buffered t₁ k₁ (cs ++ (d ∷ [])) ds v₁ x.3 b₁ (ground (arith, length-snoc cs d)) in
    (
      (t₂, k₂),
      rw run run₂,
      (subst (Buffered t₂) (append_assoc cs (d ∷ []) (ds ++ (13 ∷ []))) b₂, f₂ ∙ f₁),
    )

-- A text of at most 18 chars that is typed at an empty buffer and ended by Enter is what
-- `cons_read` gives to a caller whose array is longer than the text; the buffer is empty again.
pub cons_read-typed :
    (size : ℕ) (cs : List ℕ) (t : Terminal) (k : Kernel)
    → IsValid k
    → IsText cs
    → length cs ≤ 18
    → length cs < size
    → size < 2 ^ 32 - 1
    → t.fin_de_ligne ≡ false
    → Buffered t []
    → Returns
        (type_all (cs ++ (13 ∷ [])) t k)
        (λ (t', _). Returns (cons_read_resume size t') (λ (ds, t''). (ds ≡ cs) × Buffered t'' []))
cons_read-typed size cs t k v x short fits small f b =
    let ((t₁, k₁), run, (b₁, f₁)) = type_all-Buffered t k [] cs v x b (omega arith) in
    ((t₁, k₁), run, cons_read-line size t₁ cs x fits small (f₁ ∙ f) b₁)
