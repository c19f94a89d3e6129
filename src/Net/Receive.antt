-- ===== src/Net/Receive.antt =====
-- kern/e1000.c: the receive ring, e1000_receive, and the card that stores packets.
use jos_kernel.Base.{
  List, Option, [], if◌then◌else◌, length, none, not, some, update, ℕ, ◌%◌, ◌++◌, ◌+◌, ◌-◌, ◌/◌,
  ◌∷◌, ◌≡◌, ◌≢◌, ◌≤◌,
}
use jos_kernel.Net.{
  Desc, bytes_of, fill, for_each, has_dd, has_eop, nrxdesc, pkt_buf_size, zero_desc,
}

-- The ring of the driver, with RDT, and RDH, which the card moves.
pub record Rx : Type 0 where
  pub rdt : ℕ
  pub rdh : ℕ
  pub rxq : ℕ → Desc
  pub rx_pkts : ℕ → ℕ → ℕ

-- What pci_nic_attach does to the receive descriptor `i`.
abbrev pub attach_rx : ℕ → Desc → Desc
attach_rx i d = record d { addr = i }

-- The ring after pci_nic_attach.
unfoldable pub attached_rx : Rx
attached_rx = record {
  rdt = nrxdesc - 1;
  rdh = 0;
  rxq = for_each attach_rx nrxdesc 0 zero_desc;
  rx_pkts = λ i j. 0;
}

-- The packet that is copied out, with its length, or none where e1000_receive returns -1.
unfoldable pub e1000_receive : Rx → Option (List ℕ) × Rx
e1000_receive n =
    let tail_idx = (n.rdt + 1) % nrxdesc in
    if not (has_dd (n.rxq tail_idx))
    then (none, n)
    else if not (has_eop (n.rxq tail_idx))
    then (none, n)
    else (
      some (bytes_of (n.rx_pkts tail_idx) (n.rxq tail_idx).length),
      record n {
        rxq = update n.rxq tail_idx (record (n.rxq tail_idx) { status = 0 });
        rdt = tail_idx;
      },
    )

-- The ring after the card has stored a packet at the head, with the status `st`.
abbrev pub stored : Rx → List ℕ → ℕ → Rx
stored n pkt st = record n {
  rdh = (n.rdh + 1) % nrxdesc;
  rxq = update n.rxq n.rdh (record (n.rxq n.rdh) { length = length pkt; status = st });
  rx_pkts = update n.rx_pkts (n.rxq n.rdh).addr (fill pkt (n.rx_pkts (n.rxq n.rdh).addr));
}

-- The ring, the packets that the card has stored, and those that e1000_receive has returned.
pub record Inbox : Type 0 where
  pub rx : Rx
  pub arrived : List (List ℕ)
  pub delivered : List (List ℕ)

abbrev pub record_result : Inbox → Option (List ℕ) × Rx → Inbox
record_result s (none, n) = record s { rx = n }
record_result s (some pkt, n) = record s { rx = n; delivered = s.delivered ++ (pkt ∷ []) }

-- A call of e1000_receive, or a packet stored by the card, which fits a buffer: the card stores while
-- the head is not the tail, and sets DD and EOP.
pub data Turn (s : Inbox) : Inbox → Type 0 where
  receives : Turn s (record_result s (e1000_receive s.rx))
  stores :
      (pkt : List ℕ) (st : ℕ)
      → length pkt ≤ pkt_buf_size
      → s.rx.rdh ≢ s.rx.rdt
      → st % 2 ≡ 1
      → st / 2 % 2 ≡ 1
      → Turn s (record s { rx = stored s.rx pkt st; arrived = s.arrived ++ (pkt ∷ []) })

abbrev pub attached_inbox : Inbox
attached_inbox = record { rx = attached_rx; arrived = []; delivered = [] }

pub data Comes : Inbox → Type 0 where
  at_attach : Comes attached_inbox
  turn : {s t : Inbox} → Comes s → Turn s t → Comes t
