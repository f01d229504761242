-- ===== src/System/Birth.antt =====
-- `start` and `start2`: the new process in the table, in the queue and in its family.
use mathlib.Core.Path.{subst}
use operating_system_concept.Base.{
  ℕ, ◌≡◌, refl, ap, inl, inr, Option, none, some, List, arith, ◌==◌, Bool-cases,
}
use operating_system_concept.Base.Int.{ℤ}
use operating_system_concept.Base.Cmd.{Cmd}
use operating_system_concept.Base.Run.{ok, ok-injective, ends, first_step}
use operating_system_concept.Kernel.{Proc, Kernel, nbproc, put_proc}
use operating_system_concept.Paging.{create_pgdir, libere_pages}
use operating_system_concept.Paging.Memory.{Ram}
use operating_system_concept.Process.Image.{Linked}
use operating_system_concept.Process.Scheduler.{valid_prio}
use operating_system_concept.Process.Start.{
  on_ram, get_new_case, init_link, join_family, admitted_prio, admitted, reclaim, start2_at,
  start2_in, start2, load_app, start_at, start_in, start,
}
use operating_system_concept.Process.Invariant.{IsValid}
use operating_system_concept.System.Alike.{Alike-refl, Alike-IsValid}
use operating_system_concept.System.Newborn.{settle-IsValid, get_new_case-Vacant, Vacant}

-- Commands on the memory leave the processes alone.
module _ (k : Kernel) (v : IsValid k) where
  in_ram-IsValid : (r : Ram) → IsValid (record k { ram = r })
  in_ram-IsValid r =
      Alike-IsValid (record { procs = (Alike-refl k).procs; queue = refl; running = refl }) v

record Moved (i : ℕ) (k k' : Kernel) : Type 0 where
  valid : IsValid k'
  vacant : Vacant k' i

on_ram-Moved :
    {A : Type 0} (m : Cmd Ram A) (i : ℕ) (k k' : Kernel) (a : A)
    → IsValid k
    → Vacant k i
    → on_ram m k ≡ ok (a, k')
    → Moved i k k'
on_ram-Moved m i k k' a v s run = elim (first_step (m k.ram) _ (a, k') run) [
  | ends r got rest ↦
      let same = ap (λ x. x.1) (ok-injective _ (a, k') rest) in
      subst (λ l. Moved i k l) same
        (record {
          valid = in_ram-IsValid k v r.1;
          vacant = record { free = s.free; inside = s.inside };
        })
]

reclaim-Moved :
    (o : Option Proc) (i : ℕ) (k k' : Kernel)
    → IsValid k
    → Vacant k i
    → reclaim o k ≡ ok k'
    → Moved i k k'
unfolding reclaim
reclaim-Moved none i k k' v s run =
    subst (Moved i k) (ok-injective k k' run) (record { valid = v; vacant = s })
reclaim-Moved (some p) i k k' v s run =
    elim (first_step (on_ram (libere_pages p.page_directory) k) _ k' run) [
      | ends r freed rest ↦
          subst (Moved i k) (ok-injective r.1 k' rest)
            (on_ram-Moved (libere_pages p.page_directory) i k r.1 r.0 v s freed)
    ]

start2_at-IsValid :
    (image : Linked) (pt_func ssize prio : ℕ) (name : List ℕ) (arg i : ℕ) (k k' : Kernel)
    → IsValid k
    → Vacant k i
    → start2_at image pt_func ssize prio name arg i k ≡ ok k'
    → IsValid k'
unfolding start2_at
start2_at-IsValid image pt_func ssize prio name arg i k k' v s run =
    elim (first_step (reclaim (k.procs i) k) _ k' run) [
      | ends k₁ freed rest ↦
          let m₁ = reclaim-Moved (k.procs i) i k k₁ v s freed in
          elim (first_step (on_ram (create_pgdir image.pgdir) k₁) _ k' rest) [
            | ends r made rest₂ ↦
                let m₂ =
                  on_ram-Moved (create_pgdir image.pgdir) i k₁ r.1 r.0 m₁.valid m₁.vacant made in
                elim (first_step (init_link i (put_proc i _ r.1)) _ k' rest₂) [
                  | ends k₃ linked rest₃ ↦ elim (first_step (join_family i k₃) _ k' rest₃) [
                    | ends k₄ joined last ↦
                        settle-IsValid r.1 k₃ k₄ k' i prio _ m₂.valid m₂.vacant refl refl linked
                          joined last
                  ]
                ]
          ]
    ]

start_at-IsValid :
    (image : Linked) (name : List ℕ) (ssize prio arg i : ℕ) (k k' : Kernel)
    → IsValid k
    → Vacant k i
    → start_at image name ssize prio arg i k ≡ ok k'
    → IsValid k'
unfolding start_at
start_at-IsValid image name ssize prio arg i k k' v s run =
    elim (first_step (on_ram (load_app image name ssize arg) k) _ k' run) [
      | ends r loaded rest ↦
          let m = on_ram-Moved (load_app image name ssize arg) i k r.1 r.0 v s loaded in
          elim (first_step (init_link i (put_proc i _ r.1)) _ k' rest) [
            | ends k₂ linked rest₂ ↦ elim (first_step (join_family i k₂) _ k' rest₂) [
              | ends k₃ joined last ↦
                  settle-IsValid r.1 k₂ k₃ k' i prio _ m.valid m.vacant refl refl linked joined last
            ]
          ]
    ]

admitted-Vacant :
    (ssize : ℕ) (prio : ℤ) (k : Kernel) (i n : ℕ) → admitted ssize prio k ≡ some (i, n) → Vacant k i
admitted-Vacant ssize prio k i n e = elim (Bool-cases (get_new_case k == nbproc)) [
  | inl h ↦ absurd (cc (rw h at e))
  | inr h ↦
      subst (Vacant k) (slot (get_new_case k) (valid_prio prio) (rw h at e))
        (get_new_case-Vacant k h)
]
  where
    slot : (j : ℕ) (o : Option ℕ) → admitted_prio j ssize o ≡ some (i, n) → j ≡ i
    slot j none e = absurd (cc)
    slot j (some p) e = ground (arith, e)

start2_in-IsValid :
    (o : Option (ℕ × ℕ)) (image : Linked) (pt_func ssize : ℕ) (name : List ℕ) (arg : ℕ)
    (k k' : Kernel) (b : Option ℕ)
    → IsValid k
    → ((i n : ℕ) → o ≡ some (i, n) → Vacant k i)
    → start2_in o image pt_func ssize name arg k ≡ ok (b, k')
    → IsValid k'
unfolding start2_in
start2_in-IsValid none image pt_func ssize name arg k k' b v s run =
    subst IsValid (ap (λ r. r.1) (ok-injective _ (b, k') run)) v
start2_in-IsValid (some (i, n)) image pt_func ssize name arg k k' b v s run =
    elim (first_step (start2_at image pt_func ssize n name arg i k) _ (b, k') run) [
      | ends k₁ started last ↦
          subst IsValid (ap (λ r. r.1) (ok-injective _ (b, k') last))
            (start2_at-IsValid image pt_func ssize n name arg i k k₁ v (s i n refl) started)
    ]

start_in-IsValid :
    (o : Option (ℕ × ℕ)) (image : Linked) (name : List ℕ) (ssize arg : ℕ) (k k' : Kernel)
    (b : Option ℕ)
    → IsValid k
    → ((i n : ℕ) → o ≡ some (i, n) → Vacant k i)
    → start_in o image name ssize arg k ≡ ok (b, k')
    → IsValid k'
unfolding start_in
start_in-IsValid none image name ssize arg k k' b v s run =
    subst IsValid (ap (λ r. r.1) (ok-injective _ (b, k') run)) v
start_in-IsValid (some (i, n)) image name ssize arg k k' b v s run =
    elim (first_step (start_at image name ssize n arg i k) _ (b, k') run) [
      | ends k₁ started last ↦
          subst IsValid (ap (λ r. r.1) (ok-injective _ (b, k') last))
            (start_at-IsValid image name ssize n arg i k k₁ v (s i n refl) started)
    ]

-- `start2`, where it ends well, keeps the invariant.
pub start2-IsValid :
    (image : Linked) (pt_func ssize : ℕ) (prio : ℤ) (name : List ℕ) (arg : ℕ) (k k' : Kernel)
    (b : Option ℕ)
    → IsValid k
    → start2 image pt_func ssize prio name arg k ≡ ok (b, k')
    → IsValid k'
unfolding start2
start2-IsValid image pt_func ssize prio name arg k k' b v run =
    start2_in-IsValid (admitted ssize prio k) image pt_func ssize name arg k k' b v
      (admitted-Vacant ssize prio k) run

-- So does `start`.
pub start-IsValid :
    (image : Linked) (name : List ℕ) (ssize : ℕ) (prio : ℤ) (arg : ℕ) (k k' : Kernel) (b : Option ℕ)
    → IsValid k
    → start image name ssize prio arg k ≡ ok (b, k')
    → IsValid k'
unfolding start
start-IsValid image name ssize prio arg k k' b v run =
    start_in-IsValid (admitted ssize prio k) image name ssize arg k k' b v
      (admitted-Vacant ssize prio k) run
