-- ===== src/Shell/Commands.antt =====
-- What mysh.c does with whole lines.
use ecnu_2020_autumn_linux_l.Base.{
  ℕ, ◌≤◌, ◌<◌, ◌≡◌, ◌≢◌, ◌⊎◌, refl, true, false, none, some, List, [], ◌∷◌, ◌++◌, if◌then◌else◌,
  All, arith, length,
}
use ecnu_2020_autumn_linux_l.Shell.{
  Word, Env, inherited, to_file, write_error, spawn, waitpid, exit, count, same, tokens, space,
  greater, ampersand, word_exit, word_cd, word_pwd, word_wait, exe_built_in_commands,
  exe_command_with_child_process, strip_background, plain, with_redirection, redirected, run_line,
}
use ecnu_2020_autumn_linux_l.Shell.Tokens.{IsToken, join, tokens-join}

-- The first word names no built-in command.
pub record IsExternal (w : Word) : Type 0 where
  pub not_exit : same w word_exit ≡ false
  pub not_cd : same w word_cd ≡ false
  pub not_pwd : same w word_pwd ≡ false
  pub not_wait : same w word_wait ≡ false

-- A line that gets past the tests of `main` and holds no `>`.
pub record IsPlain (line : List ℕ) : Type 0 where
  pub not_empty : 0 < length line
  pub fits : length line ≤ 512
  pub no_greater : count greater line ≡ 0

run_line_of_plain :
    (env : Env) (line : List ℕ) → IsPlain line → run_line env line ≡ plain env (tokens space line)
unfolding run_line
run_line_of_plain env line h = ground (arith, h.not_empty, h.fits, h.no_greater)

exe_built_in_arguments :
    (env : Env) (w v : Word) (vs : List Word)
    → IsExternal w
    → exe_built_in_commands env (w ∷ v ∷ vs) ≡ some []
unfolding exe_built_in_commands
exe_built_in_arguments env w v vs h = ground arith

exe_built_in_word :
    (env : Env) (w : Word) → IsExternal w → exe_built_in_commands env (w ∷ []) ≡ none
unfolding exe_built_in_commands
exe_built_in_word env w h = ground arith

plain_arguments :
    (env : Env) (w v : Word) (vs : List Word) → IsExternal w → plain env (w ∷ v ∷ vs) ≡ []
unfolding plain
plain_arguments env w v vs h = ground (arith, exe_built_in_arguments env w v vs h)

-- A command with an argument that is no built-in is never run: on a line of two words or more, with
-- single spaces between them and no `>`, whose first word is not `cd`, `pwd`, `exit` or `wait`, the
-- shell takes no action at all.
pub run_line_arguments :
    (env : Env) (w v : Word) (vs : List Word)
    → All (IsToken space) (w ∷ v ∷ vs)
    → IsPlain (join space (w ∷ v ∷ vs))
    → IsExternal w
    → run_line env (join space (w ∷ v ∷ vs)) ≡ []
run_line_arguments env w v vs t p h =
    rw (run_line_of_plain env (join space (w ∷ v ∷ vs)) p, tokens-join space (w ∷ v ∷ vs) t)
      (plain_arguments env w v vs h)

plain_word :
    (env : Env) (w : Word)
    → IsExternal w
    → plain env (w ∷ []) ≡ exe_command_with_child_process env inherited (w ∷ [])
unfolding plain
plain_word env w h = ground (arith, exe_built_in_word env w h)

-- A line of one word that names no built-in runs it in a child and waits for that child; where
-- `fork` fails, the shell reports an error and exits with 1.
run_line_word :
    (env : Env) (w : Word)
    → IsToken space w
    → IsPlain w
    → IsExternal w
    → run_line env w
      ≡ (if env.fork_ok then spawn inherited (w ∷ []) ∷ waitpid ∷ [] else write_error ∷ exit 1 ∷ [])
unfolding join exe_command_with_child_process
run_line_word env w t p h =
    rw (run_line_of_plain env w p, tokens-join space (w ∷ []) (t, tt), plain_word env w h)
      (ground arith)

strip_background-snoc :
    (ws : List Word) → ws ≢ [] → strip_background (ws ++ ampersand ∷ []) ≡ some ws
unfolding strip_background same
strip_background-snoc [] h = absurd (h refl)
strip_background-snoc (w ∷ []) h = refl
strip_background-snoc (w ∷ v ∷ []) h = refl
strip_background-snoc (w ∷ v ∷ u ∷ us) h = rw (strip_background-snoc (v ∷ u ∷ us) (λ e. cc))

run_line_of_redirection :
    (env : Env) (line : List ℕ)
    → length line ≤ 512
    → count greater line ≡ 1
    → run_line env line ≡ with_redirection env (tokens greater line)
unfolding run_line
run_line_of_redirection env [] h e = absurd (omega arith)
run_line_of_redirection env (x ∷ xs) h e = ground (arith, h, e)

-- A line `words > file` runs the words in a child whose output is the file, and waits for it; with
-- `&` behind the file or as the last of several words it does not wait.
run_line_redirection :
    (env : Env) (line before behind : List ℕ) (words : List Word) (file : Word)
    → length line ≤ 512
    → count greater line ≡ 1
    → tokens greater line ≡ before ∷ behind ∷ []
    → tokens space before ≡ words
    → env.fork_ok ≡ true
    → strip_background words ≡ none
    → ((tokens space behind ≡ file ∷ []
          → run_line env line ≡ spawn (to_file file) words ∷ waitpid ∷ [])
        × (tokens space behind ≡ file ∷ ampersand ∷ []
            → words ≢ []
            → run_line env line ≡ spawn (to_file file) words ∷ []))
unfolding with_redirection redirected same exe_command_with_child_process
run_line_redirection env line before behind words file h c e s k n = (
  λ b. rw (run_line_of_redirection env line h c, e, s, b, k, n),
  λ b ne. rw (run_line_of_redirection env line h c, e, s, b, k, strip_background-snoc words ne),
)

-- A line that is too long, or holds `>` twice, is an error and does nothing else.
run_line_error :
    (env : Env) (line : List ℕ)
    → (512 < length line) ⊎ (1 < count greater line)
    → run_line env line ≡ write_error ∷ []
unfolding run_line
run_line_error env [] h = absurd (omega arith)
run_line_error env (x ∷ xs) h = ground arith
