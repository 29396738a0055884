-- ===== src/Fs/Contents/Tests.antt =====
-- Instances of the theorems on the contents of an inode: a volume of 20 blocks, and a file of 3 bytes in
-- block 5.
use ecnu_2020_autumn_linux_l.Base.{◌≡◌, some, arith}
use ecnu_2020_autumn_linux_l.Fs.Contents.{Node, readi, writei, itrunc, moves}
use ecnu_2020_autumn_linux_l.Fs.Contents.Read.{segment, readi-segment}
use ecnu_2020_autumn_linux_l.Fs.Contents.Write.{WriteiOutcome, writei-WriteiOutcome}
use ecnu_2020_autumn_linux_l.Fs.Contents.Truncate.{Truncated, itrunc-Truncated}
use ecnu_2020_autumn_linux_l.Fs.Contents.Sample.{small, small-IsFile}

readi-segment_example : readi small 1 5 ≡ moves (segment small 1 2) small
readi-segment_example = readi-segment small 1 5 small-IsFile (omega arith) (omega arith)

writei-WriteiOutcome_example : WriteiOutcome small (λ i. i) 2 600 (writei small (λ i. i) 2 600)
writei-WriteiOutcome_example =
    writei-WriteiOutcome small (λ i. i) 2 600 small-IsFile (omega arith) (omega arith)

itrunc-Truncated_example : (s' : Node) × (itrunc small ≡ some s') × Truncated small s'
itrunc-Truncated_example = itrunc-Truncated small small-IsFile.node
