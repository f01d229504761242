-- ===== src/Shell/Words.antt =====
-- What the shell makes of a line of which the first word is known.
use operating_system_concept.Base.{
  ℕ, ◌≡◌, refl, ap, ◌∙◌, inl, inr, Bool, true, false, not, ◌&&◌, some, List, [], ◌∷◌, ◌++◌, arith,
  ◌==◌, Bool-cases, if◌then◌else◌, equal,
}
use operating_system_concept.Base.Run.{Run, ok}
use operating_system_concept.Shell.{
  is_blank, ends_word, skip_blanks, match_word, cmp_chaine_shell, Command, print_processes,
  clear_screen, run_tests, run_test7, help, time, leave_shell, nothing, unknown, ps_word,
  clear_word, test_user_word, help_word, echo_word, time_word, sleep_word, exit_word,
  test_user7_word, test_word, command_of,
}

abbrev pub is_word : List ℕ → Bool
is_word [] = true
is_word (c ∷ cs) = not (ends_word c) && is_word cs

abbrev pub are_blanks : List ℕ → Bool
are_blanks [] = true
are_blanks (c ∷ cs) = is_blank c && are_blanks cs

-- A line: blanks, a word, and the char behind it. An empty word ends the string.
pub record IsLine (blanks w : List ℕ) (t : ℕ) : Type 0 where
  pub blank : are_blanks blanks ≡ true
  pub word : is_word w ≡ true
  pub ended : ends_word t ≡ true
  pub no_word : w ≡ [] → t ≡ 0

match_word-equal :
    (key w : List ℕ) (t : ℕ) (rest : List ℕ)
    → is_word key ≡ true
    → is_word w ≡ true
    → ends_word t ≡ true
    → match_word key (w ++ (t ∷ rest)) ≡ ok (equal w key)
unfolding match_word equal
match_word-equal [] [] t rest k w e = ap ok e
match_word-equal [] (x ∷ xs) t rest k w e =
    let inside : ends_word x ≡ false = ground (arith, w) in ap ok inside
match_word-equal (y ∷ ys) [] t rest k w e =
    let other : (y == t) ≡ false = ground (arith, k, e) in rw other refl
match_word-equal (y ∷ ys) (x ∷ xs) t rest k w e = elim (Bool-cases (y == x)) [
  | inl h ↦
      let same : (x == y) ≡ true = ground (arith, h) in
      let keys : is_word ys ≡ true = ground (arith, k) in
      let words : is_word xs ≡ true = ground (arith, w) in
      rw (h, same) (match_word-equal ys xs t rest keys words e)
  | inr n ↦ let other : (x == y) ≡ false = ground (arith, n) in rw (n, other) refl
]

skip_blanks-line :
    (blanks w : List ℕ) (t : ℕ) (rest : List ℕ)
    → IsLine blanks w t
    → skip_blanks (blanks ++ (w ++ (t ∷ rest))) ≡ ok (w ++ (t ∷ rest))
unfolding skip_blanks
skip_blanks-line [] [] t rest l =
    let zero_char : is_blank t ≡ false = ground (arith, l.no_word refl) in rw zero_char refl
skip_blanks-line [] (x ∷ xs) t rest l =
    let inside : is_blank x ≡ false = ground (arith, l.word) in rw inside refl
skip_blanks-line (b ∷ bs) w t rest l =
    let here : is_blank b ≡ true = ground (arith, l.blank) in
    rw here (
      skip_blanks-line bs w t rest (record {
        blank = ground (arith, l.blank);
        word = l.word;
        ended = l.ended;
        no_word = l.no_word;
      }))

-- The shell's comparison of a line with a word says whether the line's first word is that word.
pub cmp_chaine_shell-equal :
    (blanks w : List ℕ) (t : ℕ) (rest key : List ℕ)
    → IsLine blanks w t
    → is_word key ≡ true
    → cmp_chaine_shell (some (blanks ++ (w ++ (t ∷ rest)))) (some key) ≡ ok (equal w key)
unfolding cmp_chaine_shell
cmp_chaine_shell-equal blanks w t rest key l k =
    rw (skip_blanks-line blanks w t rest l) (match_word-equal key w t rest k l.word l.ended)

-- The command with a given name.
abbrev pub command_named : List ℕ → Command
command_named w =
    if equal w ps_word
    then print_processes
    else if equal w clear_word
    then clear_screen
    else if equal w test_user_word
    then run_tests
    else if equal w help_word
    then help
    else if equal w time_word
    then time
    else if equal w exit_word
    then leave_shell
    else if equal w test_user7_word
    then run_test7
    else if equal w []
    then nothing
    else unknown

module _ (blanks w : List ℕ) (t : ℕ) (rest : List ℕ) (l : IsLine blanks w t) where
  test_word-equal :
      (key : List ℕ) (command otherwise : Run Command)
      → is_word key ≡ true
      → test_word (blanks ++ (w ++ (t ∷ rest))) key command otherwise
        ≡ (if equal w key then command else otherwise)
  unfolding test_word
  test_word-equal key command otherwise k = rw (cmp_chaine_shell-equal blanks w t rest key l k) refl

  tested :
      (key : List ℕ) (c d : Command) (otherwise : Run Command)
      → is_word key ≡ true
      → otherwise ≡ ok d
      → test_word (blanks ++ (w ++ (t ∷ rest))) key (ok c) otherwise
        ≡ ok (if equal w key then c else d)
  tested key c d otherwise k e =
      test_word-equal key (ok c) otherwise k
      ∙ elim (Bool-cases (equal w key)) [ inl h ↦ rw h refl | inr h ↦ rw h e ]

  passed :
      (key : List ℕ) (command otherwise : Run Command)
      → is_word key ≡ true
      → equal w key ≡ false
      → test_word (blanks ++ (w ++ (t ∷ rest))) key command otherwise ≡ otherwise
  passed key command otherwise k n = test_word-equal key command otherwise k ∙ rw n refl

  -- A line whose first word is neither `echo` nor `sleep` gives the command with that name.
  pub command_of-named :
      (s : List ℕ)
      → equal w echo_word ≡ false
      → equal w sleep_word ≡ false
      → command_of (blanks ++ (w ++ (t ∷ rest))) s ≡ ok (command_named w)
  unfolding command_of
  command_of-named s not_echo not_sleep = tested ps_word _ _ _ refl (
      tested clear_word _ _ _ refl (
        tested test_user_word _ _ _ refl (
          tested help_word _ _ _ refl (
            passed echo_word _ _ refl not_echo
            ∙ tested time_word _ _ _ refl (
                passed sleep_word _ _ refl not_sleep
                ∙ tested exit_word _ _ _ refl
                    (tested test_user7_word _ _ _ refl (tested [] _ _ _ refl refl)))))))
