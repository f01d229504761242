-- ===== src/System/Calls.antt =====
-- The calls that keep the active process, and those of the timer and of the keyboard.
use mathlib.Core.Path.{subst}
use mathlib.Core.List.{reverse}
use operating_system_concept.Base.{
  ℕ, ◌≡◌, ◌≢◌, refl, inl, inr, Bool, true, false, Option, none, some, List, arith, ltb, leb, ◌==◌,
  Bool-cases, Option-cases,
}
use operating_system_concept.Base.Int.{ℤ, pos, negsuc}
use operating_system_concept.Base.Run.{
  Run, ok, fault, panic, ok-injective, fault-ne-ok, ◌>>=◌, ends, first_step, Returns-at,
}
use operating_system_concept.Kernel.{
  ready, io_block, Kernel, nbqueue, maxcount, get_proc, put_proc, set_state,
}
use operating_system_concept.Process.Scheduler.{
  scheduler, first_such, living, in_table, valid_prio, chprio, chprio_of,
}
use operating_system_concept.Process.Invariant.{IsValid}
use operating_system_concept.Process.Prio.{chprio-done}
use operating_system_concept.Msgq.Cells.{valid_fid, pcreate, pcreate_at, free_fid, fresh_queue}
use operating_system_concept.Msgq.Reset.{pdelete, preset}
use operating_system_concept.Msgq.Wake.{pdelete-Released, preset-Released, put_queue-IsValid}
use operating_system_concept.Console.{
  Terminal, waiting, line_of, cons_read, await_line, keyboard_data, key_full, key_room, wake_reader,
  wake_pid, waits_for_key, is_io_block, erase, echo_char, store_char, cons_read_resume, pop_tampon,
  tampon_size,
}
use operating_system_concept.Process.Switch.{first_such-some}
use operating_system_concept.System.Alike.{Alike-put, Alike-IsValid, get_proc-inv}
use operating_system_concept.System.Wait.{park-IsValid}

-- A pair that a run ends with, when its kernel is fit.
paired :
    {A : Type 0} (a b : A) (k k' : Kernel)
    → IsValid k
    → ◌≡◌ {A = Run (A × Kernel)} (ok (a, k)) (ok (b, k'))
    → IsValid k'
paired a b k k' v e = subst (λ (_, l). IsValid l) (ok-injective (a, k) (b, k') e) v

pub chprio-IsValid :
    (pid newprio : ℤ) (k k' : Kernel) (old : Option ℕ)
    → IsValid k
    → chprio pid newprio k ≡ ok (old, k')
    → IsValid k'
unfolding chprio chprio_of
chprio-IsValid pid newprio k k' old v run = elim (Option-cases (in_table pid)) [
  | inl e ↦ paired none old k k' v (rw e at run)
  | inr (i, at) ↦ elim (Option-cases (valid_prio newprio)) [
    | inl e ↦ paired none old k k' v (rw (at, e) at run)
    | inr (n, new) ↦ elim (Option-cases (living k i)) [
      | inl e ↦ paired none old k k' v (rw (at, new, e) at run)
      | inr (p, alive) ↦
          (Returns-at (chprio pid newprio k) _ (old, k')
            (chprio-done k pid newprio i n p v at new alive) run).2
    ]
  ]
]

pub pdelete-IsValid :
    (fid : ℤ) (k k' : Kernel) (b : Bool) → IsValid k → pdelete fid k ≡ ok (b, k') → IsValid k'
unfolding pdelete
pdelete-IsValid fid k k' b v run = elim (Option-cases (valid_fid fid k)) [
  | inl e ↦ paired false b k k' v (rw e at run)
  | inr (i, e) ↦ (Returns-at (pdelete fid k) _ (b, k') (pdelete-Released fid k i v e) run).1.valid
]

pub preset-IsValid :
    (fid : ℤ) (k k' : Kernel) (b : Bool) → IsValid k → preset fid k ≡ ok (b, k') → IsValid k'
unfolding preset
preset-IsValid fid k k' b v run = elim (Option-cases (valid_fid fid k)) [
  | inl e ↦ paired false b k k' v (rw e at run)
  | inr (i, e) ↦ (Returns-at (preset fid k) _ (b, k') (preset-Released fid k i v e) run).1.valid
]

pcreate_at-IsValid : (o : Option ℕ) (n : ℕ) (k : Kernel) → IsValid k → IsValid (pcreate_at o n k).1
unfolding pcreate_at
pcreate_at-IsValid none n k v = v
pcreate_at-IsValid (some fid) n k v = put_queue-IsValid fid (fresh_queue fid n) k v

pub pcreate-IsValid : (count : ℤ) (k : Kernel) → IsValid k → IsValid (pcreate count k).1
unfolding pcreate
pcreate-IsValid (negsuc n) k v = v
pcreate-IsValid (pos n) k v = elim (Bool-cases (leb n 0)) [
  | inl e ↦ rw e v
  | inr e ↦ elim (Bool-cases (ltb maxcount n)) [
    | inl h ↦ rw (e, h) v
    | inr h ↦ rw (e, h) (pcreate_at-IsValid (free_fid nbqueue 0 k) n k v)
  ]
]

-- The process that waits for a line becomes ready.
wake_pid-IsValid :
    (i : ℕ) (k k' : Kernel)
    → IsValid k
    → waits_for_key (k.procs i) ≡ true
    → wake_pid (some i) k ≡ ok k'
    → IsValid k'
wake_pid-IsValid i k k' v w run = elim (first_step (get_proc i k) _ k' run) [
  | ends p got rest ↦
      let here = get_proc-inv k i p got in
      let blocked : is_io_block p.state ≡ true = subst (λ o. waits_for_key o ≡ true) here w in
      subst IsValid (ok-injective _ k' rest) (
        Alike-IsValid
          (Alike-put k i p (set_state ready p) here (
            refl,
            refl,
            ground (arith, blocked),
            ground (arith, blocked),
            λ e. refl,
            λ e. ground (arith, e, blocked),
          ))
          v)
]

pub wake_reader-IsValid : (k k' : Kernel) → IsValid k → wake_reader k ≡ ok k' → IsValid k'
unfolding wake_reader
wake_reader-IsValid k k' v run =
    elim (Option-cases (first_such (λ i. waits_for_key (k.procs i)) (reverse k.queue))) [
      | inl e ↦ subst IsValid (ok-injective k k' (rw e at run)) v
      | inr (i, e) ↦
          wake_pid-IsValid i k k' v
            (first_such-some (λ i. waits_for_key (k.procs i)) (reverse k.queue) i e).1 (rw e at run)
    ]

key_full-IsValid :
    (car : ℕ) (t t' : Terminal) (k k' : Kernel)
    → IsValid k
    → key_full car t k ≡ ok (t', k')
    → IsValid k'
unfolding key_full
key_full-IsValid car t t' k k' v run = elim (Bool-cases (car == 13)) [
  | inl e ↦ elim (first_step (wake_reader k) _ (t', k') (rw e at run)) [
    | ends l woken last ↦ paired t t' l k' (wake_reader-IsValid k l v woken) last
  ]
  | inr e ↦ elim (Bool-cases (car == 127)) [
    | inl h ↦ paired (erase t) t' k k' v (rw (e, h) at run)
    | inr h ↦ paired t t' k k' v (rw (e, h) at run)
  ]
]

key_room-IsValid :
    (car : ℕ) (t t' : Terminal) (k k' : Kernel)
    → IsValid k
    → key_room car t k ≡ ok (t', k')
    → IsValid k'
unfolding key_room
key_room-IsValid car t t' k k' v run = elim (Bool-cases (car == 127)) [
  | inl e ↦ paired (echo_char car (erase t)) t' k k' v (rw e at run)
  | inr e ↦ elim (Bool-cases (car == 13)) [
    | inl h ↦ elim (first_step (wake_reader k) _ (t', k') (rw (e, h) at run)) [
      | ends l woken last ↦
          paired (echo_char car (store_char car t)) t' l k' (wake_reader-IsValid k l v woken) last
    ]
    | inr h ↦ paired (echo_char car (store_char car t)) t' k k' v (rw (e, h) at run)
  ]
]

pub keyboard_data-IsValid :
    (car : ℕ) (t t' : Terminal) (k k' : Kernel)
    → IsValid k
    → keyboard_data car t k ≡ ok (t', k')
    → IsValid k'
unfolding keyboard_data
keyboard_data-IsValid car t t' k k' v run = elim (Bool-cases (ltb tampon_size t.point_eol)) [
  | inl e ↦ absurd (fault-ne-ok panic (t', k') (rw e at run))
  | inr e ↦ elim (Bool-cases (t.point_eol == tampon_size)) [
    | inl h ↦ key_full-IsValid car t t' k k' v (rw (e, h) at run)
    | inr h ↦ key_room-IsValid car t t' k k' v (rw (e, h) at run)
  ]
]

-- The reader of a line that is not there yet waits.
await_line-IsValid :
    (t t' : Terminal) (k k' : Kernel)
    → IsValid k
    → k.running ≢ 0
    → await_line t k ≡ ok (waiting t' k')
    → IsValid k'
unfolding await_line
await_line-IsValid t t' k k' v user run = elim (first_step (get_proc k.running k) _ _ run) [
  | ends p got rest ↦
      elim (first_step (scheduler (put_proc k.running (set_state io_block p) k)) _ _ rest) [
        | ends l chosen last ↦ subst IsValid (cc) (
            park-IsValid k l p (set_state io_block p) v user (get_proc-inv k k.running p got) refl
              refl refl chosen)
      ]
]

line-ne-waiting :
    (read : Run (List ℕ × Terminal)) (t : Terminal) (k : Kernel)
    → (read >>= λ r. ok (line_of r)) ≡ ok (waiting t k)
    → ⊥
line-ne-waiting (fault why) t k e = fault-ne-ok why (waiting t k) e
line-ne-waiting (ok r) t k e = cc

pub cons_read-IsValid :
    (size : ℕ) (t t' : Terminal) (k k' : Kernel)
    → IsValid k
    → k.running ≢ 0
    → cons_read size t k ≡ ok (waiting t' k')
    → IsValid k'
unfolding cons_read
cons_read-IsValid size t t' k k' v user run = elim (Bool-cases (size == 0)) [
  | inl e ↦ absurd (cc (rw e at run))
  | inr e ↦ elim (Bool-cases t.fin_de_ligne) [
    | inl h ↦
        elim (first_step (pop_tampon (record t { fin_de_ligne = false })) _ _ (rw (e, h) at run)) [
          | ends r popped last ↦ absurd (cc)
        ]
    | inr h ↦ elim (Bool-cases (t.tampon 0 == 0)) [
      | inl z ↦
          await_line-IsValid (record t { fin_de_ligne = false }) t' k k' v user
            (rw (e, h, z) at run)
      | inr z ↦ absurd (
          line-ne-waiting (cons_read_resume size (record t { fin_de_ligne = false })) t' k'
            (rw (e, h, z) at run))
    ]
  ]
]
