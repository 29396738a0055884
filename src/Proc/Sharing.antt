-- ===== src/Proc/Sharing.antt =====
-- What a thread that `clone` makes shares with its caller.
use ecnu_2020_autumn_linux_l.Base.{ℕ, ◌+◌, ◌-◌, ◌≡◌, some}
use ecnu_2020_autumn_linux_l.Proc.Defs.{runnable, Proc, Kernel}

-- The thread `t` that starts at `fcn` on the page `stack`, made by the process `me`.
pub record IsThread (k : Kernel) (me : Proc) (fcn stack : ℕ) (t : Proc) : Type 0 where
  pub pid_eq : t.pid ≡ k.nextpid
  pub state_eq : t.state ≡ runnable
  pub parent_eq : t.parent ≡ some k.current
  pub pgdir_eq : t.pgdir ≡ me.pgdir
  pub sz_eq : t.sz ≡ me.sz
  pub files_eq : t.ofile ≡ me.ofile
  pub cwd_eq : t.cwd ≡ me.cwd
  pub entry_eq : t.tf.eip ≡ fcn
  pub esp_eq : t.tf.esp ≡ stack + 4096 - 8
  pub result_eq : t.tf.eax ≡ 0
  pub stack_eq : t.stack ≡ stack
