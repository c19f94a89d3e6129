-- ===== src/Pmap/Alloc.antt =====
-- kern/pmap.c: page_alloc, page_free and page_decref, and the conversions of kern/pmap.h.
pub mod FreeList
pub mod Free
use jos_kernel.Base.{
  ℕ, ◌+◌, ◌-◌, ◌*◌, ◌/◌, ◌%◌, ◌^◌, Bool, true, false, not, Option, none, some, ◌==◌, ltb, leb,
  if◌then◌else◌, update,
}
use jos_kernel.Kernel.Layout.{page_size}
use jos_kernel.Kernel.State.{Kernel, PageInfo}
use jos_kernel.Kernel.Outcome.{Cmd, Outcome, ok, panic, pure, ◌>>=◌, ◌>>◌, skip, when, set_page}

-- ALLOC_ZERO
abbrev pub alloc_zero : ℕ
alloc_zero = 1

-- A pointer is present.
abbrev pub is_some : Option ℕ → Bool
is_some none = false
is_some (some _) = true

-- page2pa
abbrev pub page2pa : ℕ → ℕ
page2pa pp = pp * page_size

-- KADDR of a physical address in page `p`: the page, through the kernel's map of memory.
unfoldable pub kaddr : ℕ → Cmd ℕ
kaddr p k = if leb k.npages p then panic else ok p k

-- pa2page of a physical address in page `p`
unfoldable pub pa2page : ℕ → Cmd ℕ
pa2page p k = if leb k.npages p then panic else ok p k

-- memset(page2kva(p), 0, PGSIZE), with the words of page `p` in `m`
abbrev pub clear : (ℕ → ℕ → ℕ) → ℕ → ℕ → ℕ → ℕ
clear m p q j = if q == p then 0 else m q j

clear_page : ℕ → Cmd (Unit {0})
clear_page p k = ok tt (record k { word = clear k.word p })

take_head : ℕ → Cmd (Unit {0})
take_head p k = ok tt (record k {
  page_free_list = (k.pages p).pp_link;
  pages = update k.pages p (record (k.pages p) { pp_link = none });
})

unfoldable pub page_alloc : ℕ → Cmd (Option ℕ)
unfolding kaddr clear_page take_head
page_alloc alloc_flags k = elim k.page_free_list [
  | none ↦ ok none k
  | some p ↦ (do take_head p; when (alloc_flags % 2 == 1) (kaddr p >>= clear_page); pure (some p)) k
]

unfoldable pub page_free : ℕ → Cmd (Unit {0})
page_free pp k =
    if not ((k.pages pp).pp_ref == 0)
    then panic
    else if is_some (k.pages pp).pp_link
    then panic
    else ok tt (record k {
      pages = update k.pages pp (record (k.pages pp) { pp_link = k.page_free_list });
      page_free_list = some pp;
    })

-- `pp->pp_ref++` and `--pp->pp_ref` on a uint16_t
unfoldable pub incref : ℕ → Cmd (Unit {0})
incref pp k = set_page pp (record (k.pages pp) { pp_ref = ((k.pages pp).pp_ref + 1) % 2 ^ 16 }) k

unfoldable pub drop_ref : ℕ → Cmd ℕ
drop_ref pp k =
    let r : ℕ = ((k.pages pp).pp_ref + (2 ^ 16 - 1)) % 2 ^ 16 in
    ok r (record k { pages = update k.pages pp (record (k.pages pp) { pp_ref = r }) })

unfoldable pub page_decref : ℕ → Cmd (Unit {0})
unfolding drop_ref page_free
page_decref pp = do r ← drop_ref pp; when (r == 0) (page_free pp)
