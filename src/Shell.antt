-- ===== src/Shell.antt =====
-- user/tests/test_perso/test_shell.c: the shell. A string is the list of the chars from its address
-- up to the end of its array: a read behind that faults. A literal is the list of its chars.
pub mod Words
use operating_system_concept.Base.{
  ℕ, ◌+◌, ◌*◌, ◌%◌, ◌^◌, Bool, true, false, not, ◌&&◌, ◌||◌, Option, none, some, List, [], ◌∷◌,
  ◌==◌, if◌then◌else◌,
}
use operating_system_concept.Base.Run.{Run, ok, fault, page_fault, ◌>>=◌}
use operating_system_concept.Clock.{clockfreq}

abbrev pub is_blank : ℕ → Bool
is_blank c = c == 9 || c == 32

abbrev pub ends_word : ℕ → Bool
ends_word c = is_blank c || c == 0

-- `for (c1 = s1; *c1=='\t' || *c1 == ' '; c1++);`
unfoldable pub skip_blanks : List ℕ → Run (List ℕ)
skip_blanks [] = fault page_fault
skip_blanks (c ∷ cs) = if is_blank c then skip_blanks cs else ok (c ∷ cs)

-- `for (c1 = c1; *c1 != ' ' && *c1 != '\t'; c1++);`: the end of the string does not stop it.
unfoldable pub skip_word : List ℕ → Run (List ℕ)
skip_word [] = fault page_fault
skip_word (c ∷ cs) = if is_blank c then ok (c ∷ cs) else skip_word cs

-- The comparison at `c1`; `true` is the result 0.
unfoldable pub match_word : List ℕ → List ℕ → Run Bool
match_word key [] = fault page_fault
match_word [] (c ∷ cs) = ok (ends_word c)
match_word (k ∷ ks) (c ∷ cs) = if k == c then match_word ks cs else ok false

-- A pointer that is NULL is `none`.
unfoldable pub cmp_chaine_shell : Option (List ℕ) → Option (List ℕ) → Run Bool
unfolding skip_blanks match_word
cmp_chaine_shell none s2 = ok false
cmp_chaine_shell (some s1) none = ok false
cmp_chaine_shell (some s1) (some s2) = skip_blanks s1 >>= λ c1. match_word s2 c1

-- The text behind the first word.
unfoldable pub argument : List ℕ → Run (List ℕ)
unfolding skip_blanks skip_word
argument s = do c1 ← skip_blanks s; c2 ← skip_word c1; skip_blanks c2

unfoldable pub cmp_arg : Option (List ℕ) → Option (List ℕ) → Run Bool
unfolding argument match_word
cmp_arg none s2 = ok false
cmp_arg (some s1) none = ok false
cmp_arg (some s1) (some s2) = argument s1 >>= λ c1. match_word s2 c1

-- `memset(stock, 0, strlen(stock))`.
unfoldable pub clear_text : List ℕ → Run (List ℕ)
clear_text [] = fault page_fault
clear_text (c ∷ cs) = if c == 0 then ok (c ∷ cs) else (clear_text cs >>= λ rest. ok (0 ∷ rest))

-- The last loop of `get_arg`, from the argument to the array.
unfoldable pub copy_word : List ℕ → List ℕ → Run (List ℕ)
copy_word [] stock = fault page_fault
copy_word (c ∷ cs) [] = if ends_word c then ok [] else fault page_fault
copy_word (c ∷ cs) (s ∷ ss) =
    if ends_word c then ok (s ∷ ss) else (copy_word cs ss >>= λ rest. ok (c ∷ rest))

unfoldable pub get_arg : List ℕ → List ℕ → Run (List ℕ)
unfolding argument clear_text copy_word
get_arg commande stock = do empty ← clear_text stock; c1 ← argument commande; copy_word c1 empty

-- What a line makes the shell do.
pub data Command : Type 0 where
  print_processes clear_screen run_tests run_test7 help time leave_shell nothing : Command
  echo : Option Bool → Command
  sleep : List ℕ → Command
  unknown : Command

abbrev pub ps_word : List ℕ
ps_word = b'p' ∷ b's' ∷ []

abbrev pub clear_word : List ℕ
clear_word = b'c' ∷ b'l' ∷ b'e' ∷ b'a' ∷ b'r' ∷ []

abbrev pub test_user_word : List ℕ
test_user_word = b't' ∷ b'e' ∷ b's' ∷ b't' ∷ b'_' ∷ b'u' ∷ b's' ∷ b'e' ∷ b'r' ∷ []

abbrev pub help_word : List ℕ
help_word = b'h' ∷ b'e' ∷ b'l' ∷ b'p' ∷ []

abbrev pub echo_word : List ℕ
echo_word = b'e' ∷ b'c' ∷ b'h' ∷ b'o' ∷ []

abbrev pub time_word : List ℕ
time_word = b't' ∷ b'i' ∷ b'm' ∷ b'e' ∷ []

abbrev pub sleep_word : List ℕ
sleep_word = b's' ∷ b'l' ∷ b'e' ∷ b'e' ∷ b'p' ∷ []

abbrev pub exit_word : List ℕ
exit_word = b'e' ∷ b'x' ∷ b'i' ∷ b't' ∷ []

abbrev pub test_user7_word : List ℕ
test_user7_word = b't' ∷ b'e' ∷ b's' ∷ b't' ∷ b'_' ∷ b'u' ∷ b's' ∷ b'e' ∷ b'r' ∷ b'7' ∷ []

abbrev pub on_word : List ℕ
on_word = b'o' ∷ b'n' ∷ []

abbrev pub off_word : List ℕ
off_word = b'o' ∷ b'f' ∷ b'f' ∷ []

-- Which of the echo's settings the argument names.
unfoldable pub echo_setting : List ℕ → Run (Option Bool)
unfolding cmp_arg
echo_setting string = do
  on ← cmp_arg (some string) (some on_word)
  if on
      then ok (some true)
      else (do off ← cmp_arg (some string) (some off_word); ok (if off then some false else none))

-- One test of the shell's chain: the command if the line starts with the word.
unfoldable pub test_word : List ℕ → List ℕ → Run Command → Run Command → Run Command
unfolding cmp_chaine_shell
test_word string key command otherwise =
    cmp_chaine_shell (some string) (some key) >>= λ same. if same then command else otherwise

-- The chain of tests; `s` is the array of `sleep`, with what it held before.
unfoldable pub command_of : List ℕ → List ℕ → Run Command
unfolding test_word echo_setting get_arg
command_of string s = test_word string ps_word (ok print_processes) (
    test_word string clear_word (ok clear_screen) (
      test_word string test_user_word (ok run_tests) (
        test_word string help_word (ok help) (
          test_word string echo_word (echo_setting string >>= λ set. ok (echo set)) (
            test_word string time_word (ok time) (
              test_word string sleep_word (get_arg string s >>= λ arg. ok (sleep arg)) (
                test_word string exit_word (ok leave_shell) (
                  test_word string test_user7_word (ok run_test7)
                    (test_word string [] (ok nothing) (ok unknown))))))))))

-- The clock at which `sleep` ends; `strtoul` of shared/strtoul.c is a parameter.
unfoldable pub wake_up : (List ℕ → ℕ) → ℕ → List ℕ → ℕ
wake_up strtoul current_clock arg = (current_clock + strtoul arg * clockfreq) % 2 ^ 32
