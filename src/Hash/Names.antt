-- ===== src/Hash/Names.antt =====
-- The hash tables of kernel/hash.c whose keys are pointers to strings. `names` gives the chars, up
-- to the final zero, of the string at an address. `strcmp` and `strncpy` of shared/string.c, a copy
-- of another system's code, are an interface with what their manual says of them.
use Prim.Native.Nat.{bit_xor}
use operating_system_concept.Base.{
  ℕ, ◌+◌, ◌-◌, ◌*◌, ◌%◌, ◌^◌, ◌≤◌, ◌<◌, ◌≡◌, refl, sym, ap, ◌∙◌, ◌↔◌, Bool, true, false, List, [],
  ◌∷◌, arith, length, ltb, ◌==◌, if◌then◌else◌,
}
use operating_system_concept.Base.Int.{ℤ, pos, negsuc}
use operating_system_concept.Hash.{HashMap, hash_init, initialized}
use operating_system_concept.Hash.Aside.{IsCompare}
use operating_system_concept.Hash.Writes.{IsRoomy, IsSized}
use operating_system_concept.Hash.Sound.{IsHashing}

abbrev pub is_zero : ℤ → Bool
is_zero (pos n) = n == 0
is_zero (negsuc n) = false

pub record StringLib : Type 0 where
  pub strcmp : List ℕ → List ℕ → ℤ
  pub strncpy : List ℕ → ℕ → List ℕ
  pub strcmp-equal : (a b : List ℕ) → (is_zero (strcmp a b) ≡ true) ↔ (a ≡ b)
  pub strncpy-short : (a : List ℕ) (n : ℕ) → length a < n → strncpy a n ≡ a

-- A char is signed: from 128 on it fills the upper bits of the word.
abbrev pub signed_char : ℕ → ℕ
signed_char c = if ltb c 128 then c else c + (2 ^ 32 - 256)

abbrev pub hash_char : ℕ → ℕ → ℕ
hash_char hash c = bit_xor ((hash * 2 ^ 5 + hash) % 2 ^ 32) (signed_char c) % 2 ^ 32

unfoldable pub hash_chars : ℕ → List ℕ → ℕ
hash_chars hash [] = hash
hash_chars hash (c ∷ cs) = hash_chars (hash_char hash c) cs

abbrev pub hash_string_hfunc : List ℕ → ℕ
hash_string_hfunc key = hash_chars 5381 key

abbrev pub hash_string_cmp : StringLib → List ℕ → List ℕ → Bool
hash_string_cmp lib key1 key2 = is_zero (lib.strcmp key1 key2)

-- The functions of a table of strings, where `names` are the strings.
abbrev pub over_names : StringLib → (ℕ → List ℕ) → HashMap → HashMap
over_names lib names map = record map {
  hfunc = λ key. hash_string_hfunc (names key);
  cmp = λ key1 key2. hash_string_cmp lib (names key1) (names key2);
}

unfoldable pub hash_init_string : StringLib → (ℕ → List ℕ) → HashMap → HashMap
unfolding hash_init
hash_init_string lib names map =
    hash_init map (λ key. hash_string_hfunc (names key))
      (λ key1 key2. hash_string_cmp lib (names key1) (names key2))

hash_chars-word : (hash : ℕ) (cs : List ℕ) → hash < 2 ^ 32 → hash_chars hash cs < 2 ^ 32
unfolding hash_chars
hash_chars-word hash [] h = h
hash_chars-word hash (c ∷ cs) h = hash_chars-word (hash_char hash c) cs (omega arith)

-- The hash of a string is a word of 32 bits.
pub hash_string_hfunc-word : (key : List ℕ) → hash_string_hfunc key < 2 ^ 32
hash_string_hfunc-word key = hash_chars-word 5381 key (omega arith)

-- Strings with the same chars are the same key.
pub hash_string_cmp-IsCompare :
    (lib : StringLib) (names : ℕ → List ℕ)
    → IsCompare (λ key1 key2. hash_string_cmp lib (names key1) (names key2))
hash_string_cmp-IsCompare lib names = record {
  reflexive = λ a. (lib.strcmp-equal (names a) (names a)).1 refl;
  euclidean = λ a b c p q. (lib.strcmp-equal (names b) (names c)).1 (
      sym ((lib.strcmp-equal (names a) (names b)).0 p)
      ∙ (lib.strcmp-equal (names a) (names c)).0 q);
}

-- Strings with the same chars have the same hash.
pub hash_string-IsHashing :
    (lib : StringLib) (names : ℕ → List ℕ)
    → IsHashing
        (λ key. hash_string_hfunc (names key))
        (λ key1 key2. hash_string_cmp lib (names key1) (names key2))
hash_string-IsHashing lib names = record {
  compares = hash_string_cmp-IsCompare lib names;
  respects = λ a b e. ap hash_string_hfunc ((lib.strcmp-equal (names a) (names b)).0 e);
  word = λ key. hash_string_hfunc-word (names key);
}

-- A new table of strings has room for a search of 15 probes, and for a key.
pub hash_init_string-IsRoomy :
    (lib : StringLib) (names : ℕ → List ℕ) (map : HashMap) (rounds : ℕ)
    → 15 ≤ rounds
    → IsRoomy (hash_init_string lib names map) rounds × IsSized (hash_init_string lib names map) 1 1
unfolding hash_init_string initialized
hash_init_string-IsRoomy lib names map rounds enough = (
  record {
    bits = 3;
    empty = 0;
    small = omega arith;
    power = refl;
    inside = omega arith;
    unused = refl;
    enough = omega arith;
  },
  (omega arith, λ h. absurd (omega arith), omega arith, omega arith),
)
