-- ===== src/Debugger/Hex.antt =====
-- A number that `write_hex` wrote is read back from the screen.
use native.Mathlib.Nat.{
  div-add-mod, mod-lt, mod-eq_of_lt, mul-add-mod_self_left, one-le-pow, pow-suc, mul_right_comm,
}
use operating_system_concept.Base.{
  ℕ, zero, suc, ◌+◌, ◌-◌, ◌*◌, ◌/◌, ◌%◌, ◌^◌, ◌≤◌, ◌<◌, ◌≡◌, refl, sym, ap, ◌∙◌, Bool, true, ◌||◌,
  arith, ltb, leb, update, update_self, update_elsewhere, if◌then◌else◌,
}
use operating_system_concept.Debugger.{disp, write_digits, Video}

abbrev pub digit_of : ℕ → ℕ
digit_of c = if ltb c 65 then c - 48 else c - 55

-- The number that stands before `p`.
unfoldable pub read_digits : ℕ → ℕ → Video → ℕ
read_digits zero p screen = 0
read_digits (suc n) p screen = read_digits n (p - 2) screen * 16 + digit_of (screen (p - 2))

-- The digits are bytes with other places.
abbrev pub outside : ℕ → ℕ → ℕ → Bool
outside n p i = ltb (i + 2 * n) p || leb p i

pub write_digits-outside :
    (n p v i : ℕ) (screen : Video)
    → 2 * n ≤ p
    → outside n p i ≡ true
    → write_digits n p v screen i ≡ screen i
unfolding write_digits
write_digits-outside zero p v i screen room out = refl
write_digits-outside (suc n) p v i screen room out =
    write_digits-outside n (p - 2) (v / 16) i (update screen (p - 2) (disp (v % 16))) (omega arith)
      (ground (arith, out))
    ∙ update_elsewhere screen (p - 2) (disp (v % 16)) i (ground (arith, out))

-- Two screens that agree on the digits.
pub read_digits-agree :
    (n p : ℕ) (s s' : Video)
    → 2 * n ≤ p
    → ((i : ℕ) → i < p → p ≤ i + 2 * n → s i ≡ s' i)
    → read_digits n p s ≡ read_digits n p s'
unfolding read_digits
read_digits-agree zero p s s' room same = refl
read_digits-agree (suc n) p s s' room same =
    let rest =
      read_digits-agree n (p - 2) s s' (omega arith)
        (λ i below above. same i (omega arith) (omega arith)) in
    let here = same (p - 2) (omega arith) (omega arith) in
    ap (λ r. r * 16 + digit_of (s (p - 2))) rest
    ∙ ap (λ c. read_digits n (p - 2) s' * 16 + digit_of c) here

digit_of-disp : (d : ℕ) → d < 16 → digit_of (disp d) ≡ d
digit_of-disp d h = ground arith

-- The last digits of a number.
sixteenths : (n v : ℕ) → v / 16 % 16 ^ n * 16 + v % 16 ≡ v % 16 ^ suc n
sixteenths n v =
    let low = v / 16 % 16 ^ n * 16 + v % 16 in
    let split : v ≡ 16 ^ suc n * (v / 16 / 16 ^ n) + low =
      let larger : 16 ^ suc n * (v / 16 / 16 ^ n) ≡ 16 ^ n * (v / 16 / 16 ^ n) * 16 =
        ap (λ m. m * (v / 16 / 16 ^ n)) (pow-suc 16 n)
        ∙ mul_right_comm (16 ^ n) 16 (v / 16 / 16 ^ n) in
      omega (arith, larger, div-add-mod (v / 16) (16 ^ n)) in
    let positive = one-le-pow n 16 (omega arith) in
    let small : low < 16 ^ suc n =
      omega (arith, mod-lt (v / 16) {m = 16 ^ n} (omega (arith, positive))) in
    sym (mod-eq_of_lt small)
    ∙ sym (mul-add-mod_self_left (16 ^ suc n) (v / 16 / 16 ^ n) low)
    ∙ ap (λ m. m % 16 ^ suc n) (sym split)

pub read_digits-write_digits :
    (n p v : ℕ) (screen : Video)
    → 2 * n ≤ p
    → read_digits n p (write_digits n p v screen) ≡ v % 16 ^ n
unfolding read_digits write_digits
read_digits-write_digits zero p v screen room = omega arith
read_digits-write_digits (suc n) p v screen room =
    let s = update screen (p - 2) (disp (v % 16)) in
    let rest = read_digits-write_digits n (p - 2) (v / 16) s (omega arith) in
    let last : write_digits n (p - 2) (v / 16) s (p - 2) ≡ disp (v % 16) =
      write_digits-outside n (p - 2) (v / 16) (p - 2) s (omega arith) (ground arith)
      ∙ update_self screen (p - 2) (disp (v % 16)) in
    ap (λ r. r * 16 + digit_of (write_digits n (p - 2) (v / 16) s (p - 2))) rest
    ∙ ap (λ c. v / 16 % 16 ^ n * 16 + digit_of c) last
    ∙ ap (λ d. v / 16 % 16 ^ n * 16 + d) (digit_of-disp (v % 16) (omega arith))
    ∙ sixteenths n v
