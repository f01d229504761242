-- ===== src/Console/Buffer.antt =====
-- `pop_tampon` and `cons_read` of kernel/cons_fonctions.c, against the text in the buffer.
use operating_system_concept.Base.{
  ℕ, zero, suc, ◌+◌, ◌-◌, ◌%◌, ◌^◌, ◌≤◌, ◌<◌, ◌≡◌, ◌≢◌, refl, ap, ◌∙◌, true, false, ◌&&◌, ◌||◌,
  List, [], ◌∷◌, ◌++◌, arith, update, length, ltb, leb, ◌==◌, if◌then◌else◌,
}
use operating_system_concept.Base.Run.{Returns}
use operating_system_concept.Console.{
  Terminal, tampon_size, shift, pop_tampon, copy_line, cons_read_resume, end_line, mark_full,
}

-- The char at a place of a text, and 0 behind its end.
abbrev pub char_at : List ℕ → ℕ → ℕ
char_at [] i = 0
char_at (c ∷ cs) zero = c
char_at (c ∷ cs) (suc i) = char_at cs i

-- The buffer holds a text, and zeros behind it.
pub record Buffered (t : Terminal) (cs : List ℕ) : Type 0 where
  pub filled : t.point_eol ≡ length cs
  pub content : (i : ℕ) → t.tampon i ≡ char_at cs i
  pub room : length cs < tampon_size

shift_lem :
    (n i : ℕ) (f : ℕ → ℕ) (x : ℕ)
    → shift n i f x ≡ (if leb i x && ltb x (i + n) then f (x + 1) else f x)
unfolding shift
shift_lem zero i f x = ground arith
shift_lem (suc n) i f x = ground (arith, shift_lem n (suc i) (update f i (f (i + 1))) x)

pub char_at-behind : (cs : List ℕ) (i : ℕ) → length cs ≤ i → char_at cs i ≡ 0
char_at-behind [] i h = refl
char_at-behind (c ∷ cs) zero h = absurd (omega arith)
char_at-behind (c ∷ cs) (suc i) h = char_at-behind cs i (omega arith)

-- `pop_tampon` takes the first char of a text.
pop_tampon-Buffered :
    (t : Terminal) (c : ℕ) (cs : List ℕ)
    → Buffered t (c ∷ cs)
    → Returns
        (pop_tampon t)
        (λ (d, t'). (d ≡ c) × Buffered t' cs × (t'.fin_de_ligne ≡ t.fin_de_ligne))
unfolding pop_tampon
pop_tampon-Buffered t c cs b =
    let inside : ltb t.point_eol tampon_size ≡ true = ground (arith, b.filled, b.room) in
    (
      (
        t.tampon 0,
        record t {
          tampon = update (shift t.point_eol 0 t.tampon) t.point_eol 0;
          point_eol = t.point_eol - 1;
        },
      ),
      rw inside refl,
      (
        b.content 0,
        record {
          filled = ground (arith, b.filled);
          content = λ i. popped i;
          room = ground (arith, b.room);
        },
        refl,
      ),
    )
  where
    popped : (i : ℕ) → update (shift t.point_eol 0 t.tampon) t.point_eol 0 i ≡ char_at cs i
    popped i = ground (
      arith,
      shift_lem t.point_eol 0 t.tampon i,
      b.filled,
      b.content i,
      b.content (suc i),
      char_at-behind (c ∷ cs) i,
      char_at-behind cs i,
    )

-- The chars of a line that is typed: no end of line, no erasing and no zero.
abbrev pub IsText : List ℕ → Type 0
IsText [] = Unit
IsText (c ∷ cs) = (c ≢ 0) × (c ≢ 13) × (c ≢ 127) × IsText cs

-- The loop of `cons_read` takes the text in front of the end of the line.
copy_line-text :
    (rounds : ℕ) (t : Terminal) (cs : List ℕ)
    → IsText cs
    → length cs < rounds
    → Buffered t (cs ++ (13 ∷ []))
    → Returns
        (copy_line rounds t)
        (λ (ds, t'). (ds ≡ cs) × Buffered t' (13 ∷ []) × (t'.fin_de_ligne ≡ t.fin_de_ligne))
unfolding copy_line
copy_line-text zero t cs x h b = absurd (omega arith)
copy_line-text (suc rounds) t [] x h b = (([], t), rw (b.content 0) refl, (refl, b, refl))
copy_line-text (suc rounds) t (c ∷ cs) x h b =
    let plain : (c == 13 || c == 0) ≡ false = ground (arith, x) in
    let ((d, t₁), run₁, (got, b₁, f₁)) = pop_tampon-Buffered t c (cs ++ (13 ∷ [])) b in
    let ((ds, t₂), run₂, (rest, b₂, f₂)) = copy_line-text rounds t₁ cs x.3 (omega arith) b₁ in
    (
      (d ∷ ds, t₂),
      rw (b.content 0) (rw plain (rw run₁ (rw run₂ refl))),
      (ap (λ e. e ∷ ds) got ∙ ap (λ l. c ∷ l) rest, b₂, f₂ ∙ f₁),
    )

pub length-snoc : (cs : List ℕ) (c : ℕ) → length (cs ++ (c ∷ [])) ≡ length cs + 1
length-snoc [] c = refl
length-snoc (d ∷ cs) c = ground (arith, length-snoc cs c)

unmarked :
    (size : ℕ) (t : Terminal) (cs : List ℕ)
    → length cs < size
    → size < 2 ^ 32 - 1
    → Buffered t (cs ++ (13 ∷ []))
    → mark_full size t ≡ t
unmarked size t cs h small b = rw apart refl
  where
    apart : ((t.point_eol + (2 ^ 32 - 1)) % 2 ^ 32 == size) ≡ false
    apart = ground (arith, b.filled, length-snoc cs 13)

-- A line that is complete in the buffer and shorter than the array of the caller is read as it is,
-- and leaves the buffer empty.
pub cons_read-line :
    (size : ℕ) (t : Terminal) (cs : List ℕ)
    → IsText cs
    → length cs < size
    → size < 2 ^ 32 - 1
    → t.fin_de_ligne ≡ false
    → Buffered t (cs ++ (13 ∷ []))
    → Returns (cons_read_resume size t) (λ (ds, t'). (ds ≡ cs) × Buffered t' [])
unfolding cons_read_resume end_line
cons_read-line size t cs x h small f b =
    let short = unmarked size t cs h small b in
    let ((ds, t₁), run, (same, b₁, f₁)) = copy_line-text (size + 1) t cs x (omega arith) b in
    let ((d, t₂), run₂, (_, b₂, _)) = pop_tampon-Buffered t₁ 13 [] b₁ in
    ((ds, t₂), rw short (rw run (rw (f₁ ∙ f, b₁.content 0) (rw run₂ refl))), (same, b₂))
