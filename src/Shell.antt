-- ===== src/Shell.antt =====
-- mysh.c of Project1/1a A Unix Shell: what one line of input makes the shell do. A line is its
-- bytes without the line end; the calls of the system are actions, and their answers a parameter.
pub mod Tokens
pub mod Commands
mod Tests
use ecnu_2020_autumn_linux_l.Base.{
  ℕ, zero, suc, ◌+◌, Bool, true, false, not, ◌&&◌, ◌||◌, Option, none, some, List, [], ◌∷◌, ◌++◌,
  ◌==◌, ltb, if◌then◌else◌, length,
}

abbrev pub Word : Type 0
Word = List ℕ

-- `count`
pub count : ℕ → List ℕ → ℕ
count c [] = 0
count c (x ∷ xs) = (if x == c then 1 else 0) + count c xs

-- `strcmp(a, b) == 0`
pub same : Word → Word → Bool
same [] [] = true
same [] (y ∷ ys) = false
same (x ∷ xs) [] = false
same (x ∷ xs) (y ∷ ys) = (x == y) && same xs ys

flush : Word → List Word → List Word
flush [] rest = rest
flush (x ∷ xs) rest = (x ∷ xs) ∷ rest

-- The calls of `strtok` with one delimiter until it returns null, `word` being the bytes of the
-- token that has begun.
pub tokens_from : ℕ → Word → List ℕ → List Word
unfolding flush
tokens_from c word [] = flush word []
tokens_from c word (x ∷ xs) = elim (x == c) [
  | true ↦ flush word (tokens_from c [] xs)
  | false ↦ tokens_from c (word ++ x ∷ []) xs
]

abbrev pub tokens : ℕ → List ℕ → List Word
tokens c s = tokens_from c [] s

abbrev pub space : ℕ
space = b' '

abbrev pub greater : ℕ
greater = b'>'

abbrev pub ampersand : Word
ampersand = b'&' ∷ []

abbrev pub word_exit : Word
word_exit = b'e' ∷ b'x' ∷ b'i' ∷ b't' ∷ []

abbrev pub word_cd : Word
word_cd = b'c' ∷ b'd' ∷ []

abbrev pub word_pwd : Word
word_pwd = b'p' ∷ b'w' ∷ b'd' ∷ []

abbrev pub word_wait : Word
word_wait = b'w' ∷ b'a' ∷ b'i' ∷ b't' ∷ []

-- Where the child's output goes. `stale`: `file[0]` is read though the line set no such token.
pub data Output : Type 0 where
  inherited : Output
  to_file : Word → Output
  stale : Output

pub data Action : Type 0 where
  write_error : Action
  chdir_home : Action
  chdir : Word → Action
  write_path : Word → Action
  wait : Action
  -- `fork` and the child's `open` and `execvp`
  spawn : Output → List Word → Action
  waitpid : Action
  exit : ℕ → Action

-- What the system answers.
pub record Env : Type 0 where
  pub chdir_ok : Word → Bool
  pub getcwd : Option Word
  pub fork_ok : Bool

-- The actions of `exe_built_in_commands`, or `none` where it returns -1.
pub exe_built_in_commands : Env → List Word → Option (List Action)
exe_built_in_commands env [] = none
exe_built_in_commands env (w ∷ []) =
    if same w word_exit
    then some (exit 0 ∷ [])
    else if same w word_cd
    then some (chdir_home ∷ [])
    else if same w word_pwd
    then some (elim env.getcwd [ none ↦ write_error ∷ [] | some path ↦ write_path path ∷ [] ])
    else if same w word_wait
    then some (wait ∷ [])
    else none
exe_built_in_commands env (w ∷ v ∷ vs) =
    if same w word_cd && (length vs == 0)
    then some (if env.chdir_ok v then chdir v ∷ [] else chdir v ∷ write_error ∷ [])
    else if same w word_pwd
    then some (write_error ∷ [])
    else if same w word_exit
    then some (write_error ∷ [])
    else if same w word_wait
    then some (write_error ∷ [])
    else some []

-- The words before a last word `&` that is not the only one.
pub strip_background : List Word → Option (List Word)
strip_background [] = none
strip_background (w ∷ []) = none
strip_background (w ∷ v ∷ []) = if same v ampersand then some (w ∷ []) else none
strip_background (w ∷ v ∷ u ∷ us) = elim (strip_background (v ∷ u ∷ us)) [
  | none ↦ none
  | some ws ↦ some (w ∷ ws)
]

pub exe_command_with_child_process : Env → Output → List Word → List Action
unfolding strip_background
exe_command_with_child_process env out shell =
    if not env.fork_ok then write_error ∷ exit 1 ∷ [] else elim (strip_background shell) [
      | some argv ↦ spawn out argv ∷ []
      | none ↦ spawn out shell ∷ waitpid ∷ []
    ]

-- The branch for one `>`, with what stands before it and behind it.
redirected : Env → List Word → List Word → List Action
unfolding exe_command_with_child_process
redirected env shell [] = exe_command_with_child_process env stale shell
redirected env shell (f ∷ []) = exe_command_with_child_process env (to_file f) shell
redirected env shell (f ∷ g ∷ []) =
    if same g ampersand
    then exe_command_with_child_process env (to_file f) (shell ++ ampersand ∷ [])
    else write_error ∷ []
redirected env shell (f ∷ g ∷ h ∷ fs) = write_error ∷ []

with_redirection : Env → List Word → List Action
unfolding redirected tokens_from
with_redirection env (s ∷ f ∷ []) = redirected env (tokens space s) (tokens space f)
with_redirection env _ = write_error ∷ []

plain : Env → List Word → List Action
unfolding exe_built_in_commands exe_command_with_child_process
plain env [] = []
plain env (w ∷ ws) = elim (exe_built_in_commands env (w ∷ ws)) [
  | none ↦ exe_command_with_child_process env inherited (w ∷ ws)
  | some actions ↦ actions
]

-- The body of the loop of `main`, behind the removal of the line end.
pub run_line : Env → List ℕ → List Action
unfolding count tokens_from with_redirection plain
run_line env input =
    if length input == 0
    then []
    else if ltb 512 (length input)
    then write_error ∷ []
    else if ltb 1 (count greater input)
    then write_error ∷ []
    else if count greater input == 1
    then with_redirection env (tokens greater input)
    else plain env (tokens space input)

-- The loop: the lines of the input until `exit` is called.
exits : List Action → Bool
exits [] = false
exits (exit _ ∷ _) = true
exits (_ ∷ rest) = exits rest

pub main_loop : Env → List (List ℕ) → List Action
unfolding run_line exits
main_loop env [] = []
main_loop env (l ∷ ls) =
    let rest = main_loop env ls in
    let actions = run_line env l in if exits actions then actions else actions ++ rest
