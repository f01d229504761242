-- ===== src/Debugger/Lookup.antt =====
-- kernel/gdb_serial_support.c: how the remote debugger reaches the memory of the interrupted
-- program, with the processor's paging switched off. The memory is a function from the physical
-- address of a byte to the byte. `rounds` bounds the loops over pages.
use operating_system_concept.Base.{
  ℕ, zero, suc, ◌+◌, ◌-◌, ◌*◌, ◌/◌, ◌%◌, ◌^◌, Bool, true, false, Option, none, some, List, [], ◌∷◌,
  ◌++◌, update, ltb, ◌==◌, if◌then◌else◌,
}
use operating_system_concept.Base.Run.{Run, ok, fault, out_of_fuel, ◌>>=◌}
use operating_system_concept.Debugger.{GdbState}

abbrev pub Bytes : Type 0
Bytes = ℕ → ℕ

-- A word of four bytes, the lowest first.
abbrev pub read_word : Bytes → ℕ → ℕ
read_word mem a = mem a + mem (a + 1) * 2 ^ 8 + mem (a + 2) * 2 ^ 16 + mem (a + 3) * 2 ^ 24

-- `client_cr0` and `client_cr3`.
pub record Client : Type 0 where
  pub cr0 : ℕ
  pub cr3 : ℕ

unfoldable pub copy_client_paging_registers : ℕ → ℕ → Client
copy_client_paging_registers cr0 cr3 = record { cr0 = cr0; cr3 = cr3 }

-- `*paddr` and `*len`; without a mapping `*paddr` is not written.
abbrev pub Place : Type 0
Place = Option ℕ × ℕ

abbrev pub pfn : ℕ → ℕ
pfn entry = entry - entry % 2 ^ 12

abbrev pub is_valid : ℕ → Bool
is_valid entry = entry % 2 == 1

abbrev pub is_superpage : ℕ → Bool
is_superpage pde = pde / 2 ^ 7 % 2 == 1

abbrev pub paging_on : ℕ → Bool
paging_on cr0 = cr0 / 2 ^ 31 % 2 == 1

-- A page of 4 KB, from its entry.
unfoldable pub small_page : ℕ → ℕ → Place
small_page pte vaddr =
    if is_valid pte then (some (pfn pte + vaddr % 2 ^ 12), 2 ^ 12 - vaddr % 2 ^ 12) else (none, 0)

-- A page of 4 MB.
unfoldable pub large_page : ℕ → ℕ → Place
large_page pde vaddr = (some (pde - pde % 2 ^ 22 + vaddr % 2 ^ 22), 2 ^ 22 - vaddr % 2 ^ 22)

unfoldable pub phys_addr_lookup : Client → Bytes → ℕ → Place
unfolding small_page large_page
phys_addr_lookup c mem vaddr =
    let pde = read_word mem (pfn c.cr3 + 4 * (vaddr / 2 ^ 22 % 2 ^ 10)) in
    if paging_on c.cr0
    then (if is_valid pde
        then (if is_superpage pde
            then large_page pde vaddr
            else small_page (read_word mem (pfn pde + 4 * (vaddr / 2 ^ 12 % 2 ^ 10))) vaddr)
        else (none, 0))
    else (some vaddr, 0xffff_ffff)

-- `memcpy` from a physical address, as the list of bytes.
unfoldable pub copied_from : Bytes → ℕ → ℕ → List ℕ
copied_from mem pa zero = []
copied_from mem pa (suc n) = mem pa ∷ copied_from mem (pa + 1) n

-- `memcpy` of `n` bytes to a physical address.
unfoldable pub copied_to : Bytes → ℕ → ℕ → List ℕ → Bytes
copied_to mem pa zero bs = mem
copied_to mem pa (suc n) [] = mem
copied_to mem pa (suc n) (b ∷ bs) = copied_to (update mem pa b) (pa + 1) n bs

unfoldable pub skip : ℕ → List ℕ → List ℕ
skip zero bs = bs
skip (suc n) [] = []
skip (suc n) (b ∷ bs) = skip n bs

abbrev pub at_most : ℕ → ℕ → ℕ
at_most sz size = if ltb size sz then size else sz

-- What is copied from one page, and then the rest.
unfoldable pub copy_chunk : Bytes → ℕ → Place → (ℕ → Run (Bool × List ℕ)) → Run (Bool × List ℕ)
unfolding copied_from
copy_chunk mem size (none, len) rest = ok (false, [])
copy_chunk mem size (some pa, len) rest =
    if len == 0
    then ok (false, [])
    else (rest (at_most len size) >>= λ (done, bytes).
        ok (done, copied_from mem pa (at_most len size) ++ bytes))

-- `true` is 0, and `false` is -1, with the bytes that were copied.
unfoldable pub gdb_copyin : ℕ → Client → Bytes → ℕ → ℕ → Run (Bool × List ℕ)
unfolding phys_addr_lookup copy_chunk
gdb_copyin rounds c mem src zero = ok (true, [])
gdb_copyin zero c mem src (suc n) = fault out_of_fuel
gdb_copyin (suc rounds) c mem src (suc n) =
    copy_chunk mem (suc n) (phys_addr_lookup c mem src)
      (λ sz. gdb_copyin rounds c mem ((src + sz) % 2 ^ 32) (suc n - sz))

unfoldable pub write_chunk :
    Bytes → ℕ → Place → List ℕ → (ℕ → Bytes → List ℕ → Run (Bool × Bytes)) → Run (Bool × Bytes)
unfolding copied_to skip
write_chunk mem size (none, len) bytes rest = ok (false, mem)
write_chunk mem size (some pa, len) bytes rest =
    let sz = at_most len size in
    if len == 0 then ok (false, mem) else rest sz (copied_to mem pa sz bytes) (skip sz bytes)

-- The memory behind the copy; a page may be written whose entry is read later.
unfoldable pub gdb_copyout : ℕ → Client → Bytes → List ℕ → ℕ → ℕ → Run (Bool × Bytes)
unfolding phys_addr_lookup write_chunk
gdb_copyout rounds c mem bytes dest zero = ok (true, mem)
gdb_copyout zero c mem bytes dest (suc n) = fault out_of_fuel
gdb_copyout (suc rounds) c mem bytes dest (suc n) =
    write_chunk mem (suc n) (phys_addr_lookup c mem dest) bytes
      (λ sz mem' bytes'. gdb_copyout rounds c mem' bytes' ((dest + sz) % 2 ^ 32) (suc n - sz))

-- `EFL_TF`.
abbrev pub efl_tf : ℕ
efl_tf = 2 ^ 8

abbrev pub without_tf : ℕ → ℕ
without_tf eflags = eflags - eflags / efl_tf % 2 * efl_tf

unfoldable pub gdb_set_trace_flag : Bool → GdbState → GdbState
gdb_set_trace_flag true state = record state { r_eflags = without_tf state.r_eflags + efl_tf }
gdb_set_trace_flag false state = record state { r_eflags = without_tf state.r_eflags }
