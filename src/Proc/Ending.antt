-- ===== src/Proc/Ending.antt =====
-- What `exit` leaves of a process, its children and its parent.
use ecnu_2020_autumn_linux_l.Proc.Defs.{Proc}
