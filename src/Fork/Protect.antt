-- ===== src/Fork/Protect.antt =====
-- The entries that fork makes: they cannot be written without a fault, or are shared.
use jos_kernel.Base.{
  Bool-cases, ap, arith, bit_and, false, inl, inr, none, not, refl, some, sym, true, ℕ, ◌==◌, ◌∙◌,
  ◌≡◌, ◌⊎◌,
}
use jos_kernel.Base.Mask.{bit, bit-bit_and, bit-small, mask_test}
use jos_kernel.Fork.{Pte, has_bits, is_private, pte_share}
use jos_kernel.Fork.Copies.{copy_of, kept_of}
use jos_kernel.Kernel.Layout.{pte_syscall, pte_w}

-- PTE_SHARE is one of the bits of PTE_SYSCALL.
share_of_copy : (perm : ℕ) → has_bits pte_share (bit_and perm pte_syscall) ≡ has_bits pte_share perm
share_of_copy perm =
    let e = mask_test 10 (bit_and perm pte_syscall) in
    let e' = mask_test 10 perm in
    let b : bit (bit_and perm pte_syscall) 10 ≡ bit perm 10 =
      bit-bit_and 10 perm pte_syscall ∙ omega (arith, bit-small 10 perm) in
    ap not (e ∙ ap (λ t. t == 0) b ∙ sym e')

-- A page of the child is shared, or cannot be written without a fault.
pub copy_of-protected :
    (p : Pte)
    → (has_bits pte_share (copy_of p).perm ≡ true) ⊎ (has_bits pte_w (copy_of p).perm ≡ false)
copy_of-protected p = elim (Bool-cases (has_bits pte_share p.perm)) [
  | inl shared ↦ inl (rw shared (share_of_copy p.perm ∙ shared))
  | inr own ↦ elim (Bool-cases (is_private p.perm)) [
    | inl writes ↦ inr (rw (own, writes) refl)
    | inr reads ↦ inr (rw (own, reads) refl)
  ]
]

pub kept_of-protected :
    (p : Pte)
    → (has_bits pte_share (kept_of p).perm ≡ true) ⊎ (has_bits pte_w (kept_of p).perm ≡ false)
kept_of-protected p = elim (Bool-cases (has_bits pte_share p.perm)) [
  | inl shared ↦ inl (rw shared shared)
  | inr own ↦ elim (Bool-cases (is_private p.perm)) [
    | inl writes ↦ inr (rw (own, writes) refl)
    | inr reads ↦ inr (rw (own, reads) (ground (arith, reads)))
  ]
]

pub copy_of-frame : (p : Pte) → (copy_of p).frame ≡ p.frame
copy_of-frame p = elim (Bool-cases (has_bits pte_share p.perm)) [
  | inl shared ↦ rw shared refl
  | inr own ↦ elim (Bool-cases (is_private p.perm)) [
    | inl writes ↦ rw (own, writes) refl
    | inr reads ↦ rw (own, reads) refl
  ]
]

pub kept_of-frame : (p : Pte) → (kept_of p).frame ≡ p.frame
kept_of-frame p = elim (Bool-cases (has_bits pte_share p.perm)) [
  | inl shared ↦ rw shared refl
  | inr own ↦ elim (Bool-cases (is_private p.perm)) [
    | inl writes ↦ rw (own, writes) refl
    | inr reads ↦ rw (own, reads) refl
  ]
]

pub absent : {q : Pte} → none ≡ some q → ⊥
absent e = cc

pub copy_of-share : (p : Pte) → has_bits pte_share (copy_of p).perm ≡ has_bits pte_share p.perm
copy_of-share p = elim (Bool-cases (has_bits pte_share p.perm)) [
  | inl shared ↦ rw shared (share_of_copy p.perm ∙ shared)
  | inr own ↦ elim (Bool-cases (is_private p.perm)) [
    | inl writes ↦ rw (own, writes) refl
    | inr reads ↦ rw (own, reads) refl
  ]
]

pub kept_of-share : (p : Pte) → has_bits pte_share (kept_of p).perm ≡ has_bits pte_share p.perm
kept_of-share p = elim (Bool-cases (has_bits pte_share p.perm)) [
  | inl shared ↦ rw shared shared
  | inr own ↦ elim (Bool-cases (is_private p.perm)) [
    | inl writes ↦ rw (own, writes) refl
    | inr reads ↦ rw (own, reads) own
  ]
]
