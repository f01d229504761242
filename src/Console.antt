-- ===== src/Console.antt =====
-- kernel/cons_fonctions.c: the keyboard's buffer, its echo, and the calls that read and write.
-- A char is a number below 256; from 128 on it is negative in C. `printed` collects what the echo
-- gives to `printf`. The hardware's ports are left out.
pub mod Buffer
pub mod Typing
pub mod Glue
use mathlib.Core.List.{reverse}
use operating_system_concept.Base.{
  ℕ, zero, suc, ◌+◌, ◌-◌, ◌%◌, ◌^◌, Bool, true, false, not, ◌&&◌, ◌||◌, Option, none, some, List,
  [], ◌∷◌, ◌++◌, update, length, ltb, leb, ◌==◌, if◌then◌else◌,
}
use operating_system_concept.Base.Int.{ℤ, pos, negsuc}
use operating_system_concept.Base.Run.{Run, ok, fault, panic, page_fault, ◌>>=◌}
use operating_system_concept.Kernel.{
  Proc, ProcState, ready, io_block, Kernel, get_proc, put_proc, set_state,
}
use operating_system_concept.Process.Scheduler.{getpid, scheduler, first_such}
use operating_system_concept.Screen.{Screen, console_putbytes}

abbrev pub tampon_size : ℕ
tampon_size = 20

pub record Terminal : Type 0 where
  pub point_eol : ℕ
  pub fin_de_ligne : Bool
  pub echo : Bool
  pub tampon : ℕ → ℕ
  pub printed : List ℕ

abbrev pub is_io_block : ProcState → Bool
is_io_block io_block = true
is_io_block _ = false

abbrev pub waits_for_key : Option Proc → Bool
waits_for_key none = false
waits_for_key (some p) = is_io_block p.state

abbrev pub wake_pid : Option ℕ → Kernel → Run Kernel
wake_pid none k = ok k
wake_pid (some i) k = do p ← get_proc i k; ok (put_proc i (set_state ready p) k)

-- The process of the highest priority that waits for a line becomes ready.
unfoldable pub wake_reader : Kernel → Run Kernel
wake_reader k = wake_pid (first_such (λ i. waits_for_key (k.procs i)) (reverse k.queue)) k

-- The chars that the echo of `car` prints.
unfoldable pub traite_echo : ℕ → List ℕ
traite_echo car =
    if car == 9 || (leb 32 car && leb car 126)
    then car ∷ []
    else if car == 13
    then 10 ∷ []
    else if ltb car 32 || leb 128 car
    then 94 ∷ (64 + car) % 256 ∷ []
    else if car == 127
    then 8 ∷ 32 ∷ 8 ∷ []
    else []

abbrev pub erase : Terminal → Terminal
erase t = record t { point_eol = t.point_eol - 1 }

abbrev pub echo_char : ℕ → Terminal → Terminal
echo_char car t = if t.echo then record t { printed = t.printed ++ traite_echo car } else t

abbrev pub store_char : ℕ → Terminal → Terminal
store_char car t = record t {
  tampon = update t.tampon t.point_eol car;
  point_eol = t.point_eol + 1;
}

-- A full buffer takes no char, and does not echo.
unfoldable pub key_full : ℕ → Terminal → Kernel → Run (Terminal × Kernel)
unfolding wake_reader
key_full car t k =
    if car == 13
    then (wake_reader k >>= λ k₁. ok (t, k₁))
    else if car == 127
    then ok (erase t, k)
    else ok (t, k)

unfoldable pub key_room : ℕ → Terminal → Kernel → Run (Terminal × Kernel)
unfolding wake_reader
key_room car t k =
    if car == 127
    then ok (echo_char car (erase t), k)
    else if car == 13
    then (wake_reader k >>= λ k₁. ok (echo_char car (store_char car t), k₁))
    else ok (echo_char car (store_char car t), k)

-- `keyboard_data` looks at the first char of its text alone.
unfoldable pub keyboard_data : ℕ → Terminal → Kernel → Run (Terminal × Kernel)
unfolding key_full key_room
keyboard_data car t k =
    if ltb tampon_size t.point_eol
    then fault panic
    else if t.point_eol == tampon_size
    then key_full car t k
    else key_room car t k

abbrev pub init_clavier_terminal : Terminal → Terminal
init_clavier_terminal t = record t { point_eol = 0; echo = true; fin_de_ligne = false }

-- The loop of `pop_tampon`.
unfoldable pub shift : ℕ → ℕ → (ℕ → ℕ) → ℕ → ℕ
shift zero i tampon = tampon
shift (suc n) i tampon = shift n (suc i) (update tampon i (tampon (i + 1)))

-- With a full buffer the loop reads, and the write behind it hits, the char behind the array.
unfoldable pub pop_tampon : Terminal → Run (ℕ × Terminal)
unfolding shift
pop_tampon t =
    if ltb t.point_eol tampon_size
    then ok (
      t.tampon 0,
      record t {
        tampon = update (shift t.point_eol 0 t.tampon) t.point_eol 0;
        point_eol = t.point_eol - 1;
      },
    )
    else fault page_fault

-- The loop of `cons_read`, with the chars that it stores.
unfoldable pub copy_line : ℕ → Terminal → Run (List ℕ × Terminal)
copy_line zero t = ok ([], t)
copy_line (suc rounds) t =
    if t.tampon 0 == 13 || t.tampon 0 == 0
    then ok ([], t)
    else do (c, t₁) ← pop_tampon t; (cs, t₂) ← copy_line rounds t₁; ok (c ∷ cs, t₂)

-- The flag that the text fills the array of the caller.
abbrev pub mark_full : ℕ → Terminal → Terminal
mark_full size t =
    if (t.point_eol + (2 ^ 32 - 1)) % 2 ^ 32 == size then record t { fin_de_ligne = true } else t

-- The end of the line is taken away, unless the flag is set.
unfoldable pub end_line : List ℕ → Terminal → Run (List ℕ × Terminal)
end_line cs t =
    if not t.fin_de_ligne && t.tampon 0 == 13
    then (pop_tampon t >>= λ (_, t₁). ok (cs, t₁))
    else ok (cs, t)

-- `cons_read` behind its `scheduler()`. The result is the length of the list.
unfoldable pub cons_read_resume : ℕ → Terminal → Run (List ℕ × Terminal)
unfolding end_line
cons_read_resume size t = do (cs, t₁) ← copy_line (size + 1) (mark_full size t); end_line cs t₁

-- A call of `cons_read` ends with the chars that it stored and its result, or waits for a line.
pub data Reading : Type 0 where
  line : List ℕ → ℕ → Terminal → Reading
  waiting : Terminal → Kernel → Reading

abbrev pub line_of : List ℕ × Terminal → Reading
line_of (cs, t) = line cs (length cs) t

-- There is no line yet: the caller waits for one.
unfoldable pub await_line : Terminal → Kernel → Run Reading
await_line t k = do
  p ← get_proc (getpid k) k
  k₁ ← scheduler (put_proc (getpid k) (set_state io_block p) k)
  ok (waiting t k₁)

unfoldable pub cons_read : ℕ → Terminal → Kernel → Run Reading
unfolding cons_read_resume await_line
cons_read size t k =
    if size == 0
    then ok (line [] 0 t)
    else if t.fin_de_ligne
    then (pop_tampon (record t { fin_de_ligne = false }) >>= λ (_, t₁). ok (line (0 ∷ []) 0 t₁))
    else if t.tampon 0 == 0
    then await_line t k
    else (cons_read_resume size t >>= λ r. ok (line_of r))

unfoldable pub cons_write : List ℕ → Screen → ℕ × Screen
cons_write cs s = (0, console_putbytes cs s)

abbrev pub is_one : ℤ → Bool
is_one (pos n) = n == 1
is_one (negsuc n) = false

-- The int is kept as what `keyboard_data` tests of it, `echo == 1`.
abbrev pub cons_echo : ℤ → Terminal → Terminal
cons_echo on t = record t { echo = is_one on }
