-- ===== src/Layout.antt =====
-- Project3/3b xv6 VM Layout: a process whose program and heap begin at 0x2000 and whose stack grows down
-- from USERTOP. `growproc` and `growstack` of kernel/proc.c, the page fault of kernel/trap.c, and the
-- argument checks of kernel/syscall.c. `allocuvm` and `deallocuvm` are those of Vm: kernel/vm.c has the
-- same text here. An unsigned `int` wraps around at 2^32.
pub mod Gap
pub mod Regions
pub mod Overlap
pub mod Stack
mod Tests
use ecnu_2020_autumn_linux_l.Base.{
  ℕ, zero, suc, ◌+◌, ◌-◌, ◌*◌, ◌%◌, Bool, ◌||◌, ◌&&◌, Option, none, some, ◌==◌, ltb, leb,
  if◌then◌else◌, ℤ, pos, negsuc,
}
use ecnu_2020_autumn_linux_l.Strings.{Memory as Bytes}
use ecnu_2020_autumn_linux_l.Args.{word, word_at, fetchstr_loop}
use ecnu_2020_autumn_linux_l.Vm.{
  Memory, usertop, allocuvm, deallocuvm, Run, ended, panicked, out_of_fuel,
}

pub record Process : Type 0 where
  pub memory : Memory
  pub pgdir : ℕ
  pub sz : ℕ
  pub size_of_stack : ℕ

-- `a - b` and `a + n` on words.
abbrev pub minus : ℕ → ℕ → ℕ
minus a b = (a + (word - b % word)) % word

abbrev pub plus : ℕ → ℤ → ℕ
plus a (pos n) = (a + n) % word
plus a (negsuc n) = minus a (n + 1)

-- How `growproc` and `growstack` end: 0, -1, a panic, or no fuel left in a loop over pages.
pub data Growth : Type 0 where
  grows : Process → Growth
  refuses : Process → Growth
  panics : Growth
  stuck : Growth

-- The address of the lowest page of the stack, and of the page below it.
abbrev pub stack_base : Process → ℕ
stack_base p = minus usertop (4096 * p.size_of_stack)

abbrev pub next_page : Process → ℕ
next_page p = minus (stack_base p) 4096

-- What `growproc` does with the new size.
unfoldable pub resize : Process → Run (ℕ × Memory) → Growth
resize p panicked = panics
resize p out_of_fuel = stuck
resize p (ended (sz, m)) =
    if sz == 0 then refuses (record p { memory = m }) else grows (record p { memory = m; sz = sz })

unfoldable pub growproc : (end : ℕ) → Process → ℤ → Growth
unfolding resize
growproc end p n =
    if ltb (stack_base p) ((plus p.sz n + 5 * 4096) % word) then refuses p else elim n [
      | pos k ↦
          if k == 0
          then grows p
          else resize p (allocuvm end p.memory p.pgdir p.sz (plus p.sz (pos k)))
      | negsuc k ↦ resize p (deallocuvm end p.memory p.pgdir p.sz (plus p.sz (negsuc k)))
    ]

-- What `growstack` does with the result of `allocuvm`.
unfoldable pub restack : Process → Run (ℕ × Memory) → Growth
restack p panicked = panics
restack p out_of_fuel = stuck
restack p (ended (sz, m)) =
    if sz == 0
    then refuses (record p { memory = m })
    else grows (record p { memory = m; size_of_stack = p.size_of_stack + 1 })

unfoldable pub growstack : (end : ℕ) → Process → Growth
unfolding restack
growstack end p =
    if ltb (minus (next_page p) p.sz) (5 * 4096)
    then refuses p
    else restack p (allocuvm end p.memory p.pgdir (next_page p) (stack_base p))

-- How a page fault of the user ends: the process goes on, or is killed, or the kernel
-- panics, or a loop has no fuel left.
pub data Fault : Type 0 where
  resumes : Process → Fault
  kills : Process → Fault
  fault_panics : Fault
  fault_stuck : Fault

unfoldable pub page_fault : (end : ℕ) → Process → (address : ℕ) → Fault
page_fault end p address =
    if leb (next_page p) address
    then elim (growstack end p) [
      | grows q ↦ resumes q
      | refuses q ↦ kills q
      | panics ↦ fault_panics
      | stuck ↦ fault_stuck
    ]
    else kills p

-- The argument checks; `none` is -1.
unfoldable pub fetchint : Bytes → Process → (addr : ℕ) → Option ℕ
fetchint m p addr =
    if (leb p.sz addr || ltb p.sz ((addr + 4) % word)) && ltb addr (stack_base p)
    then none
    else if leb usertop addr || (ltb usertop ((addr + 4) % word) || ltb addr 8192)
    then none
    else some (word_at m addr)

-- The length of the string; the pointer is `addr`.
unfoldable pub fetchstr : Bytes → Process → (addr : ℕ) → Option ℕ
fetchstr m p addr =
    if leb usertop addr || ltb addr 8192
    then none
    else if leb p.sz addr && ltb addr (stack_base p)
    then none
    else fetchstr_loop m addr 0 ((if ltb addr p.sz then p.sz else usertop) - addr)

-- `argptr` for the argument `i`, which `argint` has fetched; `size` is the word of an `int`.
unfoldable pub check_block : Process → (i size : ℕ) → Option ℕ
check_block p i size =
    if leb usertop i || (ltb usertop ((i + size) % word) || ltb i 8192)
    then none
    else if (leb p.sz i || ltb p.sz ((i + size) % word)) && ltb i (stack_base p)
    then none
    else some i

unfoldable pub argint : Bytes → Process → (esp n : ℕ) → Option ℕ
argint m p esp n = fetchint m p ((esp + 4 + 4 * n) % word)

unfoldable pub argptr : Bytes → Process → (esp n size : ℕ) → Option ℕ
argptr m p esp n size = elim (argint m p esp n) [ none ↦ none | some i ↦ check_block p i size ]

-- The pointer and the length of the string.
unfoldable pub argstr : Bytes → Process → (esp n : ℕ) → Option (ℕ × ℕ)
argstr m p esp n = elim (argint m p esp n) [
  | none ↦ none
  | some addr ↦ elim (fetchstr m p addr) [ none ↦ none | some length ↦ some (addr, length) ]
]
