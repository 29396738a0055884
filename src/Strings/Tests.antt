-- ===== src/Strings/Tests.antt =====
-- Instances of the theorems on string.c.
use ecnu_2020_autumn_linux_l.Base.{◌≡◌, ◌==◌, if◌then◌else◌}
use ecnu_2020_autumn_linux_l.Strings.{Memory, memmove}
use ecnu_2020_autumn_linux_l.Strings.Move.{memmove-moved, moved}

-- Each byte is its address, but for a NUL at 13.
abbrev ladder : Memory
ladder a = if a == 13 then 0 else a

memmove-moved_example : memmove ladder 12 10 4 14 ≡ moved ladder 12 10 4 14
memmove-moved_example = memmove-moved ladder 12 10 4 14
