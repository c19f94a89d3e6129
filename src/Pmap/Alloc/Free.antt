-- ===== src/Pmap/Alloc/Free.antt =====
-- page_free and page_decref: what they do to the free list.
use jos_kernel.Base.{
  ℕ, zero, suc, ◌+◌, ◌-◌, ◌%◌, ◌^◌, ==_self, ==_ne, ◌<◌, ◌≡◌, refl, ap, sym, ◌∙◌, subst, ◌≢◌, ◌⊎◌,
  Bool, false, ◌||◌, none, some, List, [], ◌∷◌, arith, ◌==◌, if◌then◌else◌, update,
}
use jos_kernel.Kernel.Outcome.{ok, panic, Returns, returned}
use jos_kernel.Kernel.State.{Kernel, PageInfo}
use jos_kernel.Pmap.Alloc.{page_free, page_decref}
use jos_kernel.Pmap.Alloc.FreeList.{Chain, Chain-Head, Chain-nil, Chain-update, IsFree, has-ne}

abbrev pub has : ℕ → List ℕ → Bool
has p [] = false
has p (x ∷ xs) = (p == x) || has p xs

-- The state that page_free leaves.
abbrev pub given : ℕ → Kernel → Kernel
given pp k = record k {
  pages = update k.pages pp (record (k.pages pp) { pp_link = k.page_free_list });
  page_free_list = some pp;
}

pub page_free-given :
    (pp : ℕ) (k : Kernel)
    → (k.pages pp).pp_ref ≡ 0
    → (k.pages pp).pp_link ≡ none
    → page_free pp k ≡ ok tt (given pp k)
unfolding page_free
page_free-given pp k r l = rw (r, l)

pub given-IsFree :
    (pp : ℕ) (xs : List ℕ) (k : Kernel)
    → IsFree k xs
    → pp < k.npages
    → has pp xs ≡ false
    → (k.pages pp).pp_ref ≡ 0
    → IsFree (given pp k) (pp ∷ xs)
given-IsFree pp xs k f h out r =
    rw (==_self pp) (refl, h, r, out, Chain-update k.npages k.pages k.page_free_list xs pp _ out f)

page_free-panic :
    (pp : ℕ) (k : Kernel)
    → (k.pages pp).pp_ref ≢ 0 ⊎ (k.pages pp).pp_link ≢ none
    → page_free pp k ≡ panic
unfolding page_free
page_free-panic pp k bad = ground arith

-- page_free puts a page with no references and no link in front of the free list, and panics on
-- every other page.
pub page_free_lem :
    (pp : ℕ) (xs : List ℕ) (k : Kernel)
    → IsFree k xs
    → pp < k.npages
    → has pp xs ≡ false
    → ((k.pages pp).pp_ref ≡ 0
        → (k.pages pp).pp_link ≡ none
        → Returns (λ _ k'. IsFree k' (pp ∷ xs)) (page_free pp k))
      × ((k.pages pp).pp_ref ≢ 0 ⊎ (k.pages pp).pp_link ≢ none → page_free pp k ≡ panic)
page_free_lem pp xs k f h out = (
  λ r l. rw (page_free-given pp k r l) (returned (given-IsFree pp xs k f h out r)),
  page_free-panic pp k,
)

-- The count of page `pp` set to `n`.
abbrev pub counted : ℕ → ℕ → Kernel → Kernel
counted pp n k = record k { pages = update k.pages pp (record (k.pages pp) { pp_ref = n }) }

pub page_decref-counted :
    (pp n : ℕ) (k : Kernel)
    → (k.pages pp).pp_ref ≡ suc (suc n)
    → suc (suc n) < 2 ^ 16
    → page_decref pp k ≡ ok tt (counted pp (suc n) k)
unfolding page_decref
page_decref-counted pp n k e h =
    let r : ((k.pages pp).pp_ref + (2 ^ 16 - 1)) % 2 ^ 16 ≡ suc n = omega arith in
    rw r (ground arith)

pub page_decref-given :
    (pp : ℕ) (k : Kernel)
    → (k.pages pp).pp_ref ≡ 1
    → (k.pages pp).pp_link ≡ none
    → page_decref pp k ≡ ok tt (given pp (counted pp 0 k))
unfolding page_decref page_free
page_decref-given pp k e l =
    let r : ((k.pages pp).pp_ref + (2 ^ 16 - 1)) % 2 ^ 16 ≡ 0 = omega arith in
    rw r (rw (==_self pp, l))

-- page_decref of an allocated page lowers its count by one, and puts the page on the free list
-- exactly when the count falls to 0.
pub page_decref_lem :
    (pp n : ℕ) (xs : List ℕ) (k : Kernel)
    → IsFree k xs
    → pp < k.npages
    → has pp xs ≡ false
    → (k.pages pp).pp_link ≡ none
    → (k.pages pp).pp_ref ≡ suc n
    → suc n < 2 ^ 16
    → Returns
        (λ _ k'. ((k'.pages pp).pp_ref ≡ n) × IsFree k' (if n == 0 then pp ∷ xs else xs))
        (page_decref pp k)
page_decref_lem pp zero xs k f h out l e small =
    let f' = Chain-update k.npages k.pages k.page_free_list xs pp _ out f in
    rw (page_decref-given pp k e l) (
      returned {k = given pp (counted pp 0 k)}
        (rw (==_self pp), given-IsFree pp xs (counted pp 0 k) f' h out (rw (==_self pp))))
page_decref_lem pp (suc n) xs k f h out l e small = rw (page_decref-counted pp n k e small) (
    returned {k = counted pp (suc n) k} (
      rw (==_self pp),
      rw (==_ne (suc n) 0 (omega arith))
          (Chain-update k.npages k.pages k.page_free_list xs pp _ out f),
    ))

-- After a page is linked to itself no sequence of pages is a list from it.
cycle :
    (n : ℕ) (pages : ℕ → PageInfo) (pp : ℕ)
    → (pages pp).pp_link ≡ some pp
    → (ys : List ℕ) → ¬ Chain n pages (some pp) ys
cycle n pages pp e [] c = c
cycle n pages pp e (y ∷ []) c =
    subst (λ t. Chain n pages t []) (ap (λ z. (pages z).pp_link) (sym c.0) ∙ e) c.4
cycle n pages pp e (y ∷ z ∷ zs) c =
    let d = subst (λ t. Chain n pages t (z ∷ zs)) (ap (λ x. (pages x).pp_link) (sym c.0) ∙ e) c.4 in
    has-ne y z zs c.3 (sym c.0 ∙ d.0)

-- A page that is already last on the free list passes the checks of page_free. Freeing it again
-- makes the list a cycle: no sequence of pages is the free list any more.
pub page_free_twice :
    (pp : ℕ) (k : Kernel)
    → IsFree k (pp ∷ [])
    → Returns (λ _ k'. (ys : List ℕ) → ¬ IsFree k' ys) (page_free pp k)
page_free_twice pp k f =
    let h = Chain-Head k.npages k.pages k.page_free_list pp [] f in
    let l = Chain-nil k.npages k.pages (k.pages pp).pp_link h.tail in
    rw (page_free-given pp k h.ref l)
      (returned (cycle k.npages (given pp k).pages pp (rw (==_self pp) h.first)))
