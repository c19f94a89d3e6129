-- ===== src/Net.antt =====
-- kern/e1000.c: the descriptor rings of the network card. The card itself is modelled by what its
-- manual documents of the rings: which descriptor it takes next, and when it stops.
pub mod Ring
pub mod Transmit
pub mod Receive
pub mod Arrived
pub mod Sent
pub mod Order
mod Tests
use jos_kernel.Base.{
  length, Bool, List, [], ap, refl, suc, zero, ℕ, ◌%◌, ◌/◌, ◌==◌, ◌∷◌, ◌≡◌, ==_iff, ==_ne, arith,
  inl, inr, lt-or-le, update, ◌+◌, ◌<◌, ◌∙◌, ◌≤◌,
}

-- NTXDESC, NRXDESC and PKT_BUF_SIZE
abbrev pub ntxdesc : ℕ
ntxdesc = 40

abbrev pub nrxdesc : ℕ
nrxdesc = 128

abbrev pub pkt_buf_size : ℕ
pkt_buf_size = 2048

-- The fields of a descriptor that the driver uses; `addr` is the index of the packet buffer.
pub record Desc : Type 0 where
  pub addr : ℕ
  pub length : ℕ
  pub cmd : ℕ
  pub status : ℕ

-- The lowest bits of `status`: E1000_TXD_DD and E1000_RXD_STATUS_DD, and E1000_RXD_STATUS_EOP.
abbrev pub has_dd : Desc → Bool
has_dd d = d.status % 2 == 1

abbrev pub has_eop : Desc → Bool
has_eop d = d.status / 2 % 2 == 1

-- E1000_TXD_RS of `cmd`
abbrev pub has_rs : Desc → Bool
has_rs d = d.cmd / 8 % 2 == 1

-- The descriptors before pci_nic_attach.
abbrev pub zero_desc : ℕ → Desc
zero_desc i = record { addr = 0; length = 0; cmd = 0; status = 0 }

-- The loops of pci_nic_attach over the descriptors from `i` on, with the rounds left.
unfoldable pub for_each : (ℕ → Desc → Desc) → ℕ → ℕ → (ℕ → Desc) → ℕ → Desc
for_each f zero i desc = desc
for_each f (suc n) i desc = for_each f n (i + 1) (update desc i (f i (desc i)))

-- memmove of `pkt` to the start of a buffer.
abbrev pub fill : List ℕ → (ℕ → ℕ) → ℕ → ℕ
fill [] buf j = buf j
fill (b ∷ pkt) buf zero = b
fill (b ∷ pkt) buf (suc j) = fill pkt (λ i. buf (suc i)) j

-- The first `n` bytes of a buffer.
abbrev pub bytes_of : (ℕ → ℕ) → ℕ → List ℕ
bytes_of buf zero = []
bytes_of buf (suc n) = buf 0 ∷ bytes_of (λ i. buf (suc i)) n

pub bytes_of-fill : (pkt : List ℕ) (buf : ℕ → ℕ) → bytes_of (fill pkt buf) (length pkt) ≡ pkt
bytes_of-fill [] buf = refl
bytes_of-fill (b ∷ pkt) buf = ap (λ l. b ∷ l) (bytes_of-fill pkt (λ i. buf (suc i)))

module _ (f : ℕ → Desc → Desc) where
  for_each-before : (n i k : ℕ) (desc : ℕ → Desc) → k < i → for_each f n i desc k ≡ desc k
  unfolding for_each
  for_each-before zero i k desc before = refl
  for_each-before (suc n) i k desc before =
      let ne = ==_ne k i (λ e. omega arith) in
      for_each-before n (i + 1) k (update desc i (f i (desc i))) (omega arith) ∙ (rw ne refl)

  -- Each descriptor of the range is changed once.
  pub for_each_lem :
      (n i k : ℕ) (desc : ℕ → Desc) → i ≤ k → k < i + n → for_each f n i desc k ≡ f k (desc k)
  unfolding for_each
  for_each_lem zero i k desc lo hi = absurd (omega arith)
  for_each_lem (suc n) i k desc lo hi =
      let d = update desc i (f i (desc i)) in
      elim (lt-or-le i k) [
        | inl later ↦
            let ne = ==_ne k i (λ e. omega arith) in
            for_each_lem n (i + 1) k d (omega arith) (omega arith) ∙ (rw ne refl)
        | inr at_i ↦
            let e : k ≡ i = omega arith in
            for_each-before n (i + 1) k d (omega arith) ∙ (rw ((==_iff k i).1 e) (rw e refl))
      ]
