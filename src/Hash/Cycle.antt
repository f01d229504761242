-- ===== src/Hash/Cycle.antt =====
-- The steps of `hash_lookup` once `perturb` is 0: from x to 5 x + 1. Modulo a power of two they
-- come to every slot of the table.
use mathlib.Core.Path.{subst}
use native.Mathlib.Nat.{add-mul-mod_self_left}
use operating_system_concept.Base.{
  ℕ, zero, suc, ◌+◌, ◌-◌, ◌*◌, ◌/◌, ◌%◌, ◌^◌, ◌≤◌, ◌<◌, ◌≡◌, refl, sym, ap, ◌∙◌, ◌⊎◌, inl, inr,
  arith,
}

unfoldable pub stride : ℕ → ℕ → ℕ
stride zero x = x
stride (suc k) x = stride k (5 * x + 1)

stride-add : (j k x : ℕ) → stride (j + k) x ≡ stride k (stride j x)
unfolding stride
stride-add zero k x = let same : 0 + k ≡ k = omega arith in ap (λ n. stride n x) same
stride-add (suc j) k x =
    let same : suc j + k ≡ suc (j + k) = omega arith in
    ap (λ n. stride n x) same ∙ stride-add j k (5 * x + 1)

odd_leap :
    (p b h y : ℕ)
    → b ≡ p * (2 * h + 1)
    → (4 * b + 1) * y + b ≡ y + p * (2 * (4 * h * y + h + 2 * y) + 1)
odd_leap p b h y e = omega (arith, e, ap (λ (t : ℕ). t * y) e)

odd_twice :
    (p b h : ℕ) → b ≡ p * (2 * h + 1) → 2 * b * (2 * b + 1) ≡ 2 * p * (2 * (2 * h * b + h + b) + 1)
odd_twice p b h e = omega (arith, ap (λ (t : ℕ). t * (2 * b + 1)) e)

twice : (p : ℕ) → 2 * p ≡ p + p
twice p = omega arith

-- 2 ^ n steps are an affine map.
record Affine (n : ℕ) : Type 0 where
  shift : ℕ
  half : ℕ
  odd : shift ≡ 2 ^ n * (2 * half + 1)
  leaps : (x : ℕ) → stride (2 ^ n) x ≡ (4 * shift + 1) * x + shift

affine : (n : ℕ) → Affine n
unfolding stride
affine zero = record { shift = 1; half = 0; odd = refl; leaps = λ x. omega arith }
affine (suc n) =
    let a = affine n in
    let b = a.shift in
    let double : 2 ^ suc n ≡ 2 * 2 ^ n = omega arith in
    record {
      shift = 2 * b * (2 * b + 1);
      half = 2 * a.half * b + a.half + b;
      odd =
          odd_twice (2 ^ n) b a.half a.odd
          ∙ ap (λ t. t * (2 * (2 * a.half * b + a.half + b) + 1)) (sym double);
      leaps = λ x.
          ap (λ t. stride t x) (double ∙ twice (2 ^ n))
          ∙ stride-add (2 ^ n) (2 ^ n) x
          ∙ a.leaps (stride (2 ^ n) x)
          ∙ ap (λ t. (4 * b + 1) * t + b) (a.leaps x)
          ∙ omega arith;
    }

-- Congruence, without subtraction.
pub record Congruent (m a b : ℕ) : Type 0 where
  pub over : ℕ
  pub under : ℕ
  pub meet : a + m * over ≡ b + m * under

pub Congruent-mod : {m a b : ℕ} → Congruent m a b → a % m ≡ b % m
Congruent-mod {m} {a} {b} c =
    sym (add-mul-mod_self_left a m c.over)
    ∙ ap (λ t. t % m) c.meet
    ∙ add-mul-mod_self_left b m c.under

half_or_odd : (n : ℕ) → ((h : ℕ) × (n ≡ 2 * h)) ⊎ ((h : ℕ) × (n ≡ 2 * h + 1))
half_or_odd zero = inl (0, refl)
half_or_odd (suc n) = elim (half_or_odd n) [
  | inl (h, e) ↦ inr (h, omega (arith, e))
  | inr (h, e) ↦ inl (h + 1, omega (arith, e))
]

-- Congruent modulo m: so modulo 2 m, or half a round apart.
refine :
    (m a b d : ℕ)
    → Congruent m a b
    → Congruent (2 * m) a b ⊎ Congruent (2 * m) (a + m * (2 * d + 1)) b
refine m a b d c = elim (half_or_odd c.over) [
  | inl (p, e) ↦ elim (half_or_odd c.under) [
    | inl (q, f) ↦
        inl (record { over = p; under = q; meet = omega (arith, met, ap scale e, ap scale f) })
    | inr (q, f) ↦
        inr (record {
          over = p;
          under = q + d + 1;
          meet = omega (arith, met, ap scale e, ap scale f);
        })
  ]
  | inr (p, e) ↦ elim (half_or_odd c.under) [
    | inl (q, f) ↦
        inr (record { over = p; under = q + d; meet = omega (arith, met, ap scale e, ap scale f) })
    | inr (q, f) ↦
        inl (record { over = p; under = q; meet = omega (arith, met, ap scale e, ap scale f) })
  ]
]
  where
    met : a + m * c.over ≡ b + m * c.under
    met = c.meet

    scale : ℕ → ℕ
    scale t = m * t

-- The steps from x come to every number modulo 2 ^ n, in fewer than 2 ^ n steps.
pub stride-covers : (n x b : ℕ) → (k : ℕ) × (k < 2 ^ n) × Congruent (2 ^ n) (stride k x) b
unfolding stride
stride-covers zero x b = (0, omega arith, record { over = b; under = x; meet = omega arith })
stride-covers (suc n) x b =
    let (k, below, c) = stride-covers n x b in
    let double : 2 ^ suc n ≡ 2 * 2 ^ n = omega arith in
    let a = affine n in
    let y = stride k x in
    let round : stride (k + 2 ^ n) x ≡ y + 2 ^ n * (2 * (4 * a.half * y + a.half + 2 * y) + 1) =
      stride-add k (2 ^ n) x ∙ a.leaps y ∙ odd_leap (2 ^ n) a.shift a.half y a.odd in
    elim (refine (2 ^ n) y b (4 * a.half * y + a.half + 2 * y) c) [
      | inl near ↦ (k, omega arith, subst (λ m. Congruent m y b) (sym double) near)
      | inr far ↦ (
        k + 2 ^ n,
        omega (arith, below),
        subst (λ m. Congruent m (stride (k + 2 ^ n) x) b) (sym double)
            (subst (λ z. Congruent (2 * 2 ^ n) z b) (sym round) far),
      )
    ]

-- Congruent starts stay congruent.
stride-Congruent : {m : ℕ} (k a b : ℕ) → Congruent m a b → Congruent m (stride k a) (stride k b)
unfolding stride
stride-Congruent zero a b c = c
stride-Congruent {m} (suc k) a b c = stride-Congruent k (5 * a + 1) (5 * b + 1) (record {
  over = 5 * c.over;
  under = 5 * c.under;
  meet = omega (arith, five (a + m * c.over) (b + m * c.under) c.meet);
})
  where
    five : (x y : ℕ) → x ≡ y → 5 * x ≡ 5 * y
    five x y e = omega arith

power_add : (j k : ℕ) → 2 ^ (j + k) ≡ 2 ^ j * 2 ^ k
power_add zero k = let same : zero + k ≡ k = omega arith in ap (λ n. 2 ^ n) same ∙ omega arith
power_add (suc j) k =
    let same : suc j + k ≡ suc (j + k) = omega arith in
    let double : 2 ^ suc j ≡ 2 * 2 ^ j = omega arith in
    let double_sum : 2 ^ suc (j + k) ≡ 2 * 2 ^ (j + k) = omega arith in
    ap (λ n. 2 ^ n) same
    ∙ double_sum
    ∙ omega (arith, power_add j k)
    ∙ ap (λ t. t * 2 ^ k) (sym double)

-- An index of 32 bits, taken modulo the size, may be cut to 32 bits before the steps or not.
pub stride-cut :
    (bits k x : ℕ) → bits ≤ 32 → stride k (x % 2 ^ 32) % 2 ^ bits ≡ stride k x % 2 ^ bits
stride-cut bits k x small =
    let same : bits + (32 - bits) ≡ 32 = omega arith in
    let whole : 2 ^ bits * 2 ^ (32 - bits) ≡ 2 ^ 32 =
      sym (power_add bits (32 - bits)) ∙ ap (λ n. 2 ^ n) same in
    Congruent-mod (
      stride-Congruent k (x % 2 ^ 32) x (record {
        over = 2 ^ (32 - bits) * (x / 2 ^ 32);
        under = 0;
        meet = omega (arith, ap (λ (t : ℕ). t * (x / 2 ^ 32)) whole);
      }))
