-- ===== src/Pipe/Tests.antt =====
-- Instances of the theorems on pipes: pipes whose counters are about to wrap around.
use ecnu_2020_autumn_linux_l.Base.{◌≡◌, refl, true, false, [], ◌∷◌, arith}
use ecnu_2020_autumn_linux_l.Pipe.{Pipe, pipewrite, piperead, written, read}
use ecnu_2020_autumn_linux_l.Pipe.Queue.{
  Holds, WriteOutcome, ReadOutcome, pipewrite-WriteOutcome, piperead-ReadOutcome,
  piperead-pipewrite,
}

abbrev at_the_end : Pipe
at_the_end = record {
  data_at = λ i. 9;
  nread = 4294967295;
  nwrite = 4294967295;
  readopen = true;
  writeopen = true;
}

-- One byte is left, at the last position.
abbrev one_left : Pipe
one_left = record at_the_end { nwrite = 0 }

at_the_end-Holds : Holds at_the_end []
at_the_end-Holds = record { room = omega arith; bound = omega arith; count = refl; stored = tt }

one_left-Holds : Holds one_left (9 ∷ [])
one_left-Holds = record {
  room = omega arith;
  bound = omega arith;
  count = refl;
  stored = (refl, tt);
}

piperead-pipewrite_example :
    (q r : Pipe) × (pipewrite false at_the_end (1 ∷ 2 ∷ 3 ∷ []) ≡ written q)
    × (piperead false 3 q ≡ read (1 ∷ 2 ∷ 3 ∷ []) r)
    × Holds r []
piperead-pipewrite_example =
    piperead-pipewrite false false at_the_end 1 (2 ∷ 3 ∷ []) at_the_end-Holds (omega arith)

pipewrite-WriteOutcome_example :
    WriteOutcome false true (9 ∷ []) (1 ∷ 2 ∷ []) (pipewrite false one_left (1 ∷ 2 ∷ []))
pipewrite-WriteOutcome_example =
    pipewrite-WriteOutcome false one_left (9 ∷ []) (1 ∷ 2 ∷ []) one_left-Holds

piperead-ReadOutcome_example : ReadOutcome false true 4 (9 ∷ []) (piperead false 4 one_left)
piperead-ReadOutcome_example = piperead-ReadOutcome false 4 one_left (9 ∷ []) one_left-Holds
