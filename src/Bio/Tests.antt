-- ===== src/Bio/Tests.antt =====
-- Instances of the theorems on the buffer cache: three buffers after `binit`, and one in use.
use ecnu_2020_autumn_linux_l.Base.{refl, true, false, List, [], ◌∷◌, arith}
use ecnu_2020_autumn_linux_l.Bio.{Buf, no_dev, bread}
use ecnu_2020_autumn_linux_l.Bio.Blocks.{IsUnique}
use ecnu_2020_autumn_linux_l.Bio.Contents.{ReadOutcome, bread-ReadOutcome}

abbrev spare : Buf
spare = record {
  slot = 0;
  dev = no_dev;
  sector = 0;
  busy = false;
  valid = false;
  dirty = false;
  contents = [];
}

abbrev in_use : Buf
in_use = record spare {
  slot = 1;
  dev = 1;
  sector = 7;
  busy = true;
  valid = true;
  contents = 5 ∷ [];
}

abbrev released : Buf
released = record in_use { slot = 2; sector = 8; busy = false }

abbrev cache : List Buf
cache = in_use ∷ released ∷ spare ∷ []

cache-IsUnique : IsUnique cache
cache-IsUnique d s real = ground (arith, real)

bread-ReadOutcome_example : ReadOutcome (λ d s. 5 ∷ []) 1 9 cache (bread (λ d s. 5 ∷ []) 1 9 cache)
bread-ReadOutcome_example =
    bread-ReadOutcome (λ d s. 5 ∷ []) 1 9 cache
      ((refl, λ v. refl), ((refl, λ v. refl), ((refl, λ v. cc), tt)))
