-- ===== src/Fork.antt =====
-- lib/fork.c: fork, duppage and pgfault, with the pages of all environments. A page number stands for the
-- page; a frame is a physical page. sys_page_alloc takes the first free frame; sys_page_map needs memory
-- where the target has no page table, so that whether it fails is given for each environment and page.
-- Both panic the program where they fail. A frame that is in no page any more is not given back to the free
-- frames, so that the model has at most the free frames that the kernel has.
pub mod Copies
pub mod Faults
pub mod Separate
pub mod Protect
pub mod Family
mod Tests
use jos_kernel.Base.{
  Bool, List, Option, [], bit_and, if◌then◌else◌, none, not, some, suc, update, zero, ℕ, ◌+◌, ◌==◌,
  ◌||◌, ◌∷◌,
}
use jos_kernel.Kernel.Layout.{pte_syscall, pte_u, pte_w}

-- PTE_SHARE and PTE_COW
abbrev pub pte_share : ℕ
pte_share = 0x400

abbrev pub pte_cow : ℕ
pte_cow = 0x800

-- USTACKTOP and UXSTACKTOP - PGSIZE, as pages
abbrev pub ustacktop_page : ℕ
ustacktop_page = 0xeebfe

abbrev pub uxstack_page : ℕ
uxstack_page = 0xeebff

-- An entry that is present.
pub record Pte : Type 0 where
  pub frame : ℕ
  pub perm : ℕ

pub record World : Type 0 where
  pub pages : ℕ → ℕ → Option Pte
  pub mem : ℕ → ℕ → ℕ
  pub free : List ℕ
  pub map_fails : ℕ → ℕ → Bool

abbrev pub has_bits : ℕ → ℕ → Bool
has_bits flag perm = not (bit_and perm flag == 0)

abbrev pub put_page : ℕ → ℕ → Option Pte → World → World
put_page e pn p w = record w { pages = update w.pages e (update (w.pages e) pn p) }

-- sys_page_map of a frame into environment `e`; none is a panic.
abbrev pub map_frame : ℕ → ℕ → ℕ → ℕ → World → Option World
map_frame e pn frame perm w =
    if w.map_fails e pn
    then none
    else some (put_page e pn (some (record { frame = frame; perm = perm })) w)

-- Some page of a program is copied on write.
abbrev pub is_private : ℕ → Bool
is_private perm = has_bits pte_w perm || has_bits pte_cow perm

-- `perm_w | PTE_U | PTE_P`
abbrev pub cow_perm : ℕ
cow_perm = 0x805

abbrev pub then_map : ℕ → ℕ → ℕ → ℕ → Option World → Option World
then_map e pn frame perm none = none
then_map e pn frame perm (some w) = map_frame e pn frame perm w

-- duppage of the page `pn` of environment `e`, whose entry is given.
unfoldable pub duppage : ℕ → ℕ → ℕ → Pte → World → Option World
duppage e child pn pte w =
    if has_bits pte_share pte.perm
    then map_frame child pn pte.frame (bit_and pte.perm pte_syscall) w
    else if is_private pte.perm
    then then_map e pn pte.frame cow_perm (map_frame child pn pte.frame cow_perm w)
    else map_frame child pn pte.frame 5 w

-- A round of the loop of fork.
abbrev pub dup_user : ℕ → ℕ → ℕ → Option Pte → World → Option World
dup_user e child pn none w = some w
dup_user e child pn (some pte) w =
    if has_bits pte_u pte.perm then duppage e child pn pte w else some w

-- The loop of fork, with the rounds left.
unfoldable pub fork_loop : ℕ → ℕ → ℕ → ℕ → World → Option World
unfolding duppage
fork_loop e child zero pn w = some w
fork_loop e child (suc n) pn w = elim (dup_user e child pn (w.pages e pn) w) [
  | none ↦ none
  | some u ↦ fork_loop e child n (pn + 1) u
]

-- sys_page_alloc: a frame of zeros.
abbrev pub take_frame : ℕ → ℕ → List ℕ → World → Option World
take_frame e pn [] w = none
take_frame e pn (f ∷ fs) w =
    if w.map_fails e pn
    then none
    else some (
        put_page e pn (some (record { frame = f; perm = 7 }))
          (record w { mem = update w.mem f (λ o. 0); free = fs }))

abbrev pub child_stack : ℕ → Option World → Option World
child_stack child none = none
child_stack child (some w) = take_frame child uxstack_page w.free w

-- What fork does to the pages, between sys_exofork and sys_env_set_pgfault_upcall.
unfoldable pub fork : ℕ → ℕ → World → Option World
unfolding fork_loop
fork e child w = child_stack child (fork_loop e child ustacktop_page 0 w)

-- pgfault of a page with the given entry: a new frame, with the bytes of the old one. The address
-- PFTEMP, at which the frame is mapped meanwhile, is left out, and the flags of the entry are not tested.
abbrev pub copy_frame : ℕ → ℕ → Pte → List ℕ → World → Option World
copy_frame e pn pte [] w = none
copy_frame e pn pte (f ∷ fs) w =
    if w.map_fails e pn
    then none
    else some (
        put_page e pn (some (record { frame = f; perm = 7 }))
          (record w { mem = update w.mem f (w.mem pte.frame); free = fs }))

unfoldable pub pgfault : ℕ → ℕ → Pte → World → Option World
pgfault e pn pte w = copy_frame e pn pte w.free w

abbrev pub poke_byte : ℕ → ℕ → ℕ → World → World
poke_byte frame o v w = record w { mem = update w.mem frame (update (w.mem frame) o v) }

abbrev pub poke_page : Option Pte → ℕ → ℕ → World → Option World
poke_page none o v w = none
poke_page (some pte) o v w = some (poke_byte pte.frame o v w)

abbrev pub poke_after : ℕ → ℕ → ℕ → ℕ → Option World → Option World
poke_after e pn o v none = none
poke_after e pn o v (some w) = poke_page (w.pages e pn) o v w

-- A store of a program: the hardware does it if the page is writable, and again after pgfault if not.
unfoldable pub store_at : ℕ → ℕ → ℕ → ℕ → Pte → World → Option World
unfolding pgfault
store_at e pn o v pte w =
    if has_bits pte_w pte.perm
    then some (poke_byte pte.frame o v w)
    else poke_after e pn o v (pgfault e pn pte w)
