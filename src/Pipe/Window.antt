-- ===== src/Pipe/Window.antt =====
-- The bytes that a pipe holds.
use jos_kernel.Base.{
  ==_ne, List, [], ap, arith, length, refl, suc, sym, update, zero, ℕ, ◌%◌, ◌++◌, ◌+◌, ◌-◌, ◌<◌,
  ◌∙◌, ◌∷◌, ◌≡◌, ◌≢◌, ◌≤◌,
}
use jos_kernel.Pipe.{Pipe, pipe_size}

module _ (buf : ℕ → ℕ) where
  -- The `n` bytes from position `r` on.
  abbrev pub window : ℕ → ℕ → List ℕ
  window r zero = []
  window r (suc n) = buf (r % pipe_size) ∷ window (r + 1) n

  pub length-window : (r n : ℕ) → length (window r n) ≡ n
  length-window r zero = refl
  length-window r (suc n) = ap suc (length-window (r + 1) n)

  pub window_more :
      (r n x : ℕ) → buf ((r + n) % pipe_size) ≡ x → window r (suc n) ≡ window r n ++ (x ∷ [])
  window_more r zero x h =
      let e : r + 0 ≡ r = omega arith in
      ap (λ y. y ∷ []) (ap (λ i. buf (i % pipe_size)) (sym e) ∙ h)
  window_more r (suc n) x h =
      let e : r + 1 + n ≡ r + suc n = omega arith in
      ap (λ l. buf (r % pipe_size) ∷ l)
        (window_more (r + 1) n x (ap (λ i. buf (i % pipe_size)) e ∙ h))

-- A byte stored behind a window that is not full leaves the window as it was.
pub window-update :
    (buf : ℕ → ℕ) (x w n r : ℕ)
    → r + n ≤ w
    → w < r + pipe_size
    → window (update buf (w % pipe_size) x) r n ≡ window buf r n
window-update buf x w zero r a b = refl
window-update buf x w (suc n) r a b =
    let ne : r % pipe_size ≢ w % pipe_size = λ q. omega arith in
    rw (==_ne (r % pipe_size) (w % pipe_size) ne) (
      ap (λ l. buf (r % pipe_size) ∷ l)
        (window-update buf x w n (r + 1) (omega arith) (omega arith)))

-- The bytes between the two positions.
abbrev pub contents : Pipe → List ℕ
contents p = window p.p_buf p.p_rpos (p.p_wpos - p.p_rpos)
