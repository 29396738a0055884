-- ===== src/Shell/Tests.antt =====
-- Lines of input, and the theorems there.
use ecnu_2020_autumn_linux_l.Base.{ℕ, ◌≡◌, refl, true, none, List, [], ◌∷◌, arith}
use ecnu_2020_autumn_linux_l.Shell.{
  Word, Env, exit, same, count, space, greater, run_line, main_loop, exe_built_in_commands, chdir,
}
use ecnu_2020_autumn_linux_l.Shell.Tokens.{IsToken, join}
use ecnu_2020_autumn_linux_l.Shell.Commands.{IsExternal, run_line_arguments}

abbrev env : Env
env = record { chdir_ok = λ _. true; getcwd = none; fork_ok = true }

abbrev word_ls : Word
word_ls = b'l' ∷ b's' ∷ []

abbrev word_a : Word
word_a = b'a' ∷ []

abbrev ls_a : List ℕ
ls_a = b'l' ∷ b's' ∷ space ∷ b'a' ∷ []

abbrev ls_to_a : List ℕ
ls_to_a = b'l' ∷ b's' ∷ space ∷ greater ∷ space ∷ b'a' ∷ []

-- `cd a`, then `exit`, then a line that is not reached.
session :
    main_loop env
      ((b'c' ∷ b'd' ∷ space ∷ b'a' ∷ []) ∷ (b'e' ∷ b'x' ∷ b'i' ∷ b't' ∷ []) ∷ word_ls ∷ [])
    ≡ chdir word_a ∷ exit 0 ∷ []
unfolding main_loop exe_built_in_commands same
session = refl

word_ls-IsExternal : IsExternal word_ls
unfolding same
word_ls-IsExternal = record { not_exit = refl; not_cd = refl; not_pwd = refl; not_wait = refl }

ls-IsToken : IsToken space word_ls
ls-IsToken = ((λ e. cc), (refl, (refl, tt)))

a-IsToken : IsToken space word_a
a-IsToken = ((λ e. cc), (refl, tt))

run_line_arguments_example : run_line env (join space (word_ls ∷ word_a ∷ [])) ≡ []
unfolding join count
run_line_arguments_example =
    run_line_arguments env word_ls word_a [] (ls-IsToken, (a-IsToken, tt))
      (record { not_empty = omega arith; fits = omega arith; no_greater = refl }) word_ls-IsExternal
