-- ===== src/Net/Transmit.antt =====
-- kern/e1000.c: the transmit ring, nic_transmit, and the card that sends.
use jos_kernel.Base.{
  Bool, List, [], bit_or, false, if◌then◌else◌, length, ltb, not, true, update, ℕ, ◌%◌, ◌++◌, ◌+◌,
  ◌-◌, ◌∷◌, ◌≢◌,
}
use jos_kernel.Net.{
  Desc, bytes_of, fill, has_dd, has_rs, ntxdesc, pkt_buf_size, for_each, zero_desc,
}

-- The ring of the driver, with TDT, and TDH, which the card moves.
pub record Tx : Type 0 where
  pub tdt : ℕ
  pub tdh : ℕ
  pub tx_desc : ℕ → Desc
  pub tx_pkts_buf : ℕ → ℕ → ℕ

-- What pci_nic_attach does to the transmit descriptor `i`.
abbrev pub attach_tx : ℕ → Desc → Desc
attach_tx i d = record d { addr = i; status = bit_or d.status 1 }

-- The ring after pci_nic_attach.
unfoldable pub attached_tx : Tx
attached_tx = record {
  tdt = 0;
  tdh = 0;
  tx_desc = for_each attach_tx ntxdesc 0 zero_desc;
  tx_pkts_buf = λ i j. 0;
}

-- The descriptor of a packet of `len` bytes: DD is cleared, EOP and RS are set.
abbrev pub taken : ℕ → Desc → Desc
taken len d = record d {
  status = d.status - d.status % 2;
  cmd = bit_or (bit_or d.cmd 1) 8;
  length = len;
}

-- Whether nic_transmit returns 0, and not -1.
unfoldable pub nic_transmit : List ℕ → Tx → Bool × Tx
nic_transmit pkt n =
    if ltb pkt_buf_size (length pkt)
    then (false, n)
    else if not (has_dd (n.tx_desc n.tdt))
    then (false, n)
    else (
      true,
      record n {
        tx_pkts_buf = update n.tx_pkts_buf n.tdt (fill pkt (n.tx_pkts_buf n.tdt));
        tx_desc = update n.tx_desc n.tdt (taken (length pkt) (n.tx_desc n.tdt));
        tdt = (n.tdt + 1) % ntxdesc;
      },
    )

-- The packet that the descriptor `i` describes.
abbrev pub packet_at : Tx → ℕ → List ℕ
packet_at n i = bytes_of (n.tx_pkts_buf (n.tx_desc i).addr) (n.tx_desc i).length

-- What the card does with a descriptor when it has sent its packet.
abbrev pub reported : Desc → Desc
reported d = if has_rs d then record d { status = bit_or d.status 1 } else d

-- The card sends while the head is not the tail.
pub data Card (n : Tx) : Tx → List ℕ → Type 0 where
  send :
      n.tdh ≢ n.tdt
      → Card n
          (record n {
            tdh = (n.tdh + 1) % ntxdesc;
            tx_desc = update n.tx_desc n.tdh (reported (n.tx_desc n.tdh));
          })
          (packet_at n n.tdh)

-- The ring, the packets that nic_transmit has accepted, and those on the wire.
pub record Line : Type 0 where
  pub tx : Tx
  pub accepted : List (List ℕ)
  pub wire : List (List ℕ)

abbrev pub record_call : Line → List ℕ → Bool × Tx → Line
record_call s pkt (true, n) = record s { tx = n; accepted = s.accepted ++ (pkt ∷ []) }
record_call s pkt (false, n) = record s { tx = n }

-- A call of nic_transmit, or a packet sent by the card.
pub data Happens (s : Line) : Line → Type 0 where
  calls : (pkt : List ℕ) → Happens s (record_call s pkt (nic_transmit pkt s.tx))
  sends :
      {n : Tx} {pkt : List ℕ}
      → Card s.tx n pkt
      → Happens s (record s { tx = n; wire = s.wire ++ (pkt ∷ []) })

abbrev pub attached_line : Line
attached_line = record { tx = attached_tx; accepted = []; wire = [] }

pub data Reaches : Line → Type 0 where
  at_first : Reaches attached_line
  after : {s t : Line} → Reaches s → Happens s t → Reaches t
