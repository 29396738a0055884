-- ===== src/File/Offsets.antt =====
-- The offset of an open file.
use ecnu_2020_autumn_linux_l.Base.{
  ℕ, ◌+◌, ◌-◌, ◌≤◌, ◌≡◌, refl, sym, ap, subst, ◌∙◌, Bool, true, false, ◌++◌, ltb, if◌then◌else◌,
  length, arith,
}
use ecnu_2020_autumn_linux_l.Fs.Contents.{
  Node, Transfer, moves, refuses, panics, copy_out, readi, writei,
}
use ecnu_2020_autumn_linux_l.Fs.Contents.Written.{within}
use ecnu_2020_autumn_linux_l.Fs.Contents.Read.{IsFile, segment, segment_append, readi-segment}
use ecnu_2020_autumn_linux_l.Fs.Contents.Write.{
  Wrote, WriteiOutcome, writei-WriteiOutcome, segment-copy_out,
}
use ecnu_2020_autumn_linux_l.File.{fd_inode}
use ecnu_2020_autumn_linux_l.File.Transfers.{
  Opened, file_reads, file_writes, advance, of_readi, of_writei, fileread, filewrite,
}

-- An open file of an inode that is valid, with its offset at the size at most.
pub record IsOpen (o : Opened) : Type 0 where
  pub type : o.file.type ≡ fd_inode
  pub file : IsFile o.node
  pub within_size : o.file.off ≤ o.node.size

filewrite-inode :
    (killed : Bool) (o : Opened) (src : ℕ → ℕ) (n : ℕ)
    → o.file.type ≡ fd_inode
    → o.file.writable ≡ true
    → filewrite killed o src n ≡ of_writei o (writei o.node src o.file.off n)
unfolding filewrite
filewrite-inode killed o src n t w = simp (w, t) refl

fileread-inode :
    (killed : Bool) (o : Opened) (n : ℕ)
    → o.file.type ≡ fd_inode
    → o.file.readable ≡ true
    → fileread killed o n ≡ of_readi o (readi o.node o.file.off n)
unfolding fileread
fileread-inode killed o n t w = simp (w, t) refl

-- What a write that returns leaves: the bytes at the offset, and the offset behind them.
record Advanced (o o' : Opened) (src : ℕ → ℕ) (n : ℕ) : Type 0 where
  wrote : Wrote o.node o'.node src o.file.off n
  same : o' ≡ advance o o'.node n

filewrite-Advanced :
    (killed : Bool) (o o' : Opened) (src : ℕ → ℕ) (n r : ℕ)
    → IsOpen o
    → o.file.writable ≡ true
    → o.file.off + n ≤ 71680
    → filewrite killed o src n ≡ file_writes r o'
    → Advanced o o' src n
filewrite-Advanced killed o o' src n r h w l e =
    go (writei o.node src o.file.off n)
      (writei-WriteiOutcome o.node src o.file.off n h.file h.within_size l)
      (sym (filewrite-inode killed o src n h.type w) ∙ e)
  where
    go :
        (t : Transfer ℕ)
        → WriteiOutcome o.node src o.file.off n t
        → of_writei o t ≡ file_writes r o'
        → Advanced o o' src n
    go (moves k s) (f, g) x =
        let at : advance o s k ≡ o' = cc in
        subst (λ y. Advanced o y src n) at (record { wrote = g; same = ap (advance o s) f })
    go refuses f x = absurd (cc)
    go panics f x = absurd (cc)

-- A file that a write has advanced is open as before, behind the bytes.
IsOpen-Advanced :
    (o o' : Opened) (src : ℕ → ℕ) (n : ℕ)
    → IsOpen o
    → o.file.off + n ≤ 71680
    → Advanced o o' src n
    → IsOpen o'
      × (o'.file.off ≡ o.file.off + n)
      × (o'.file.writable ≡ o.file.writable)
      × (o'.file.readable ≡ o.file.readable)
IsOpen-Advanced o o' src n h l a =
    let off : o'.file.off ≡ o.file.off + n =
      ap (λ (x : Opened). x.file.off) a.same ∙ omega (arith, l) in
    (
      record {
        type = ap (λ (x : Opened). x.file.type) a.same ∙ h.type;
        file = a.wrote.file;
        within_size = let size = a.wrote.size in ground (arith, off, size);
      },
      off,
      ap (λ (x : Opened). x.file.writable) a.same,
      ap (λ (x : Opened). x.file.readable) a.same,
    )

-- The same file at another offset.
abbrev pub at_offset : Opened → ℕ → Opened
at_offset o off = record o { file = record o.file { off = off } }

-- The bytes of two writes, one after the other.
two_writes :
    (s t u : Node) (src next : ℕ → ℕ) (off n k : ℕ)
    → off + n + k ≤ 71680
    → Wrote s t src off n
    → Wrote t u next (off + n) k
    → segment u off (n + k) ≡ copy_out src 0 n ++ copy_out next 0 k
two_writes s t u src next off n k l f g =
    let here : off + 0 ≡ off = omega arith in
    let there : off + n + 0 ≡ off + n = omega arith in
    let first : segment u off n ≡ copy_out src 0 n =
      ap (λ x. segment u x n) (sym here)
      ∙ segment-copy_out u src off 0 n (λ p i j.
        let later : within (off + n) k p ≡ false = ground (arith, j) in
        let hit : within off n p ≡ true = ground (arith, i, j) in
        g.bytes p (omega (arith, j, l))
        ∙ rw later (f.bytes p (omega (arith, j, l)) ∙ rw hit refl)) in
    let second : segment u (off + n) k ≡ copy_out next 0 k =
      ap (λ x. segment u x k) (sym there)
      ∙ segment-copy_out u next (off + n) 0 k (λ p i j.
        let hit : within (off + n) k p ≡ true = ground (arith, i, j) in
        g.bytes p (omega (arith, j, l)) ∙ rw hit refl) in
    segment_append u off n k ∙ rw (first, second) refl

-- For a file of a valid inode that may be read and written, with its offset at the size at most: what
-- two calls of `filewrite` write, one after the other and within the limit of 71680 bytes, one call of
-- `fileread` from the old offset reads in this order.
pub fileread-filewrite :
    (killed : Bool) (o o' o'' : Opened) (src next : ℕ → ℕ) (n k r r' : ℕ)
    → IsOpen o
    → o.file.writable ≡ true
    → o.file.readable ≡ true
    → o.file.off + n + k ≤ 71680
    → filewrite killed o src n ≡ file_writes r o'
    → filewrite killed o' next k ≡ file_writes r' o''
    → (o3 : Opened) × (fileread killed (at_offset o'' o.file.off) (n + k)
        ≡ file_reads (copy_out src 0 n ++ copy_out next 0 k) o3)
fileread-filewrite killed o o' o'' src next n k r r' h w rd l e e' =
    let a = filewrite-Advanced killed o o' src n r h w (omega (arith, l)) e in
    let (h', off, same_w, same_r) = IsOpen-Advanced o o' src n h (omega (arith, l)) a in
    let a' =
      filewrite-Advanced killed o' o'' next k r' h' (same_w ∙ w) (omega (arith, l, off)) e' in
    let (h'', off', same_w', same_r') =
      IsOpen-Advanced o' o'' next k h' (omega (arith, l, off)) a' in
    let seek : Opened = at_offset o'' o.file.off in
    let room : o.file.off + (n + k) ≤ o''.node.size =
      let size = h''.within_size in omega (arith, off, off', size) in
    let inside : ltb o''.node.size (o.file.off + (n + k)) ≡ false = ground (arith, room) in
    let read : readi o''.node o.file.off (n + k)
        ≡ moves (segment o''.node o.file.off (n + k)) o''.node =
      subst
        (λ (x : Bool).
          readi o''.node o.file.off (n + k)
          ≡ moves (segment o''.node o.file.off (if x then o''.node.size - o.file.off else n + k))
              o''.node)
        inside
        (readi-segment o''.node o.file.off (n + k) h''.file (omega (arith, room))
          (omega (arith, l))) in
    let g : Wrote o'.node o''.node next (o.file.off + n) k =
      subst (λ x. Wrote o'.node o''.node next x k) off a'.wrote in
    let o3 : Opened = advance seek o''.node (length (segment o''.node o.file.off (n + k))) in
    (
      o3,
      subst (λ x. fileread killed seek (n + k) ≡ file_reads x o3)
          (two_writes o.node o'.node o''.node src next o.file.off n k l a.wrote g)
          (fileread-inode killed seek (n + k) h''.type (same_r' ∙ same_r ∙ rd)
            ∙ ap (of_readi seek) read),
    )
