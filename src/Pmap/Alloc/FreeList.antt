-- ===== src/Pmap/Alloc/FreeList.antt =====
-- The list that `page_free_list` leads through, and what page_alloc, page_free and page_decref do
-- to it.
use jos_kernel.Base.{
  ℕ, ◌%◌, ==_self, ==_ne, ◌<◌, ◌≡◌, refl, ap, ◌≢◌, inl, inr, Bool, true, false, ◌||◌, Option, none,
  some, List, [], ◌∷◌, arith, ◌==◌, if◌then◌else◌, update, Bool-cases,
}
use jos_kernel.Kernel.Outcome.{ok, Returns, returned}
use jos_kernel.Kernel.State.{Kernel, PageInfo}
use jos_kernel.Pmap.Alloc.{clear, page_alloc}

abbrev pub has : ℕ → List ℕ → Bool
has p [] = false
has p (x ∷ xs) = (p == x) || has p xs

or_true : (a b : Bool) → a ≡ true → (a || b) ≡ true
or_true true b e = refl
or_true false b e = cc

pub has-ne : (y z : ℕ) (zs : List ℕ) → has y (z ∷ zs) ≡ false → y ≢ z
has-ne y z zs h e = cc (or_true (y == z) (has y zs) (rw e (==_self z)), h)

pub has-tail : (y z : ℕ) (zs : List ℕ) → has y (z ∷ zs) ≡ false → has y zs ≡ false
has-tail y z zs h = or_right (y == z) (has y zs) h
  where
    or_right : (a b : Bool) → (a || b) ≡ false → b ≡ false
    or_right true b e = cc
    or_right false b e = e

-- From `head` the links lead through `xs` to NULL; the pages are distinct, exist and have no
-- references.
abbrev pub Chain : ℕ → (ℕ → PageInfo) → Option ℕ → List ℕ → Type 0
Chain n pages none [] = Unit
Chain n pages none (x ∷ xs) = ⊥
Chain n pages (some p) [] = ⊥
Chain n pages (some p) (x ∷ xs) =
    (p ≡ x)
    × (x < n)
    × ((pages x).pp_ref ≡ 0)
    × (has x xs ≡ false)
    × Chain n pages (pages x).pp_link xs

abbrev pub IsFree : Kernel → List ℕ → Type 0
IsFree k xs = Chain k.npages k.pages k.page_free_list xs

-- A write to a page that is not on the list keeps the list.
pub Chain-update :
    (n : ℕ) (pages : ℕ → PageInfo) (head : Option ℕ) (xs : List ℕ) (p : ℕ) (v : PageInfo)
    → has p xs ≡ false
    → Chain n pages head xs
    → Chain n (update pages p v) head xs
Chain-update n pages none [] p v out c = c
Chain-update n pages none (x ∷ xs) p v out c = c
Chain-update n pages (some h) [] p v out c = c
Chain-update n pages (some h) (x ∷ xs) p v out c =
    let ne : (x == p) ≡ false = ground arith in
    let rest = Chain-update n pages (pages x).pp_link xs p v (ground arith) c.4 in
    rw ne (c.0, c.1, c.2, c.3, rest)

-- The first page of a list that is not empty.
pub record Head (n : ℕ) (pages : ℕ → PageInfo) (head : Option ℕ) (x : ℕ) (xs : List ℕ)
    : Type 0 where
  pub first : head ≡ some x
  pub exists : x < n
  pub ref : (pages x).pp_ref ≡ 0
  pub once : has x xs ≡ false
  pub tail : Chain n pages (pages x).pp_link xs

pub Chain-Head :
    (n : ℕ) (pages : ℕ → PageInfo) (head : Option ℕ) (x : ℕ) (xs : List ℕ)
    → Chain n pages head (x ∷ xs)
    → Head n pages head x xs
Chain-Head n pages none x xs c = absurd c
Chain-Head n pages (some p) x xs c = record {
  first = ap some c.0;
  exists = c.1;
  ref = c.2;
  once = c.3;
  tail = c.4;
}

pub Chain-nil :
    (n : ℕ) (pages : ℕ → PageInfo) (head : Option ℕ) → Chain n pages head [] → head ≡ none
Chain-nil n pages none c = refl
Chain-nil n pages (some p) c = absurd c

pub Head-Chain :
    {n : ℕ} {pages : ℕ → PageInfo} {head : Option ℕ} {x : ℕ} {xs : List ℕ}
    → Head n pages head x xs
    → Chain n pages head (x ∷ xs)
Head-Chain h = rw (h.first) (refl, h.exists, h.ref, h.once, h.tail)

-- The state that an allocation of page `x`, the first of the free list, leaves.
abbrev pub taken : ℕ → ℕ → Kernel → Kernel
taken flags x k = record k {
  page_free_list = (k.pages x).pp_link;
  pages = update k.pages x (record (k.pages x) { pp_link = none });
  word = if flags % 2 == 1 then clear k.word x else k.word;
}

pub page_alloc-taken :
    (flags x : ℕ) (k : Kernel)
    → k.page_free_list ≡ some x
    → x < k.npages
    → page_alloc flags k ≡ ok (some x) (taken flags x k)
unfolding page_alloc
page_alloc-taken flags x k e h = rw (e, page_alloc) (ground arith)

-- What an allocation of page `x` leaves.
pub record Allocated (flags x : ℕ) (xs : List ℕ) (k k' : Kernel) : Type 0 where
  pub free : IsFree k' xs
  pub link : (k'.pages x).pp_link ≡ none
  pub ref : (k'.pages x).pp_ref ≡ 0
  pub zeroed : (i : ℕ) → flags % 2 ≡ 1 → k'.word x i ≡ 0
  pub others : (q i : ℕ) → q ≢ x → k'.word q i ≡ k.word q i
  pub pages : (q : ℕ) → q ≢ x → k'.pages q ≡ k.pages q

zeroed-clear : (flags x i : ℕ) (k : Kernel) → flags % 2 ≡ 1 → (taken flags x k).word x i ≡ 0
zeroed-clear flags x i k e = rw e (rw (==_self x))

pub others-clear : (flags x q i : ℕ) (k : Kernel) → q ≢ x → (taken flags x k).word q i ≡ k.word q i
others-clear flags x q i k ne = elim (Bool-cases (flags % 2 == 1)) [
  | inl e ↦ rw e (rw (==_ne q x ne))
  | inr e ↦ rw e
]

pub taken-Allocated :
    (flags x : ℕ) (xs : List ℕ) (k : Kernel)
    → IsFree k (x ∷ xs)
    → Allocated flags x xs k (taken flags x k)
taken-Allocated flags x xs k f =
    let h = Chain-Head k.npages k.pages k.page_free_list x xs f in
    record {
      free = Chain-update k.npages k.pages (k.pages x).pp_link xs x _ h.once h.tail;
      link = rw (==_self x);
      ref = rw (==_self x) h.ref;
      zeroed = λ i e. zeroed-clear flags x i k e;
      others = λ q i ne. others-clear flags x q i k ne;
      pages = λ q ne. rw (==_ne q x ne);
    }

-- page_alloc takes the first page of the free list, unlinks it, leaves its count at 0, clears it if
-- ALLOC_ZERO is set, and changes no other page.
pub page_alloc_lem :
    (flags x : ℕ) (xs : List ℕ) (k : Kernel)
    → IsFree k (x ∷ xs)
    → Returns (λ r k'. (r ≡ some x) × Allocated flags x xs k k') (page_alloc flags k)
page_alloc_lem flags x xs k f =
    let h = Chain-Head k.npages k.pages k.page_free_list x xs f in
    rw (page_alloc-taken flags x k h.first h.exists)
      (returned (refl, taken-Allocated flags x xs k f))

pub page_alloc-none :
    (flags : ℕ) (k : Kernel) → k.page_free_list ≡ none → page_alloc flags k ≡ ok none k
unfolding page_alloc
page_alloc-none flags k e = ground arith

-- With no free page page_alloc returns NULL and changes nothing.
pub page_alloc-nil : (flags : ℕ) (k : Kernel) → IsFree k [] → page_alloc flags k ≡ ok none k
page_alloc-nil flags k f = page_alloc-none flags k (Chain-nil k.npages k.pages k.page_free_list f)
