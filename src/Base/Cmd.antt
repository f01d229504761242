-- ===== src/Base/Cmd.antt =====
-- Commands on a state, which may fault.
use operating_system_concept.Base.Run.{Run, ok, fault, Fault}

abbrev pub Cmd : Type 0 → Type 0 → Type 0
Cmd S A = S → Run (A × S)

abbrev pub pure : {S A : Type 0} → A → Cmd S A
pure a s = ok (a, s)

abbrev pub stop : {S A : Type 0} → Fault → Cmd S A
stop e s = fault e

abbrev pub and_then : {S A B : Type 0} → Run (A × S) → (A → Cmd S B) → Run (B × S)
and_then (fault why) next = fault why
and_then (ok (result, s)) next = next result s

infixl 5 ◌>>=◌ ◌>>◌
abbrev pub ◌>>=◌ : {S A B : Type 0} → Cmd S A → (A → Cmd S B) → Cmd S B
◌>>=◌ m k s = and_then (m s) k

abbrev pub ◌>>◌ : {S B : Type 0} → Cmd S (Unit {0}) → Cmd S B → Cmd S B
m >> n = m >>= λ _. n
