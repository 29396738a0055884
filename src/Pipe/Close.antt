-- ===== src/Pipe/Close.antt =====
-- When the page of a pipe is freed.
use ecnu_2020_autumn_linux_l.Base.{◌≡◌, refl, Bool, true, false, not}
use ecnu_2020_autumn_linux_l.Pipe.{Pipe, pipeclose}

-- Of the two ends of a pipe that is open at both, closed in either order, the first close keeps the
-- page of the pipe and the second frees it.
pipeclose_twice :
    (writable : Bool) (p : Pipe)
    → p.readopen ≡ true
    → p.writeopen ≡ true
    → ((pipeclose writable p).1 ≡ false)
      × ((pipeclose (not writable) (pipeclose writable p).0).1 ≡ true)
unfolding pipeclose
pipeclose_twice true p r w = (rw r refl, refl)
pipeclose_twice false p r w = (rw w refl, refl)
