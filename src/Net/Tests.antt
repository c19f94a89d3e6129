-- ===== src/Net/Tests.antt =====
-- The rings of the network card at work.
use jos_kernel.Base.{
  [], arith, length, refl, suc, zero, ℕ, ◌∷◌, ◌≡◌, ◌≢◌, List, leb, ltb, ◌&&◌, ◌++◌, ◌<◌, ◌≤◌, ◌+◌,
}
use jos_kernel.Net.{for_each, nrxdesc, ntxdesc, pkt_buf_size}
use jos_kernel.Net.Arrived.{e1000_receive-in_order, front}
use jos_kernel.Net.Order.{full_ring-stays, nic_transmit-in_order}
use jos_kernel.Net.Receive.{record_result, Comes, Inbox, Turn, attached_rx, e1000_receive, stored}
use jos_kernel.Net.Sent.{sent_one}
use jos_kernel.Net.Transmit.{
  record_call, Card, Happens, Line, Reaches, attached_line, attached_tx, nic_transmit, packet_at,
}

-- The line after `n` calls of nic_transmit, each with a packet of two bytes.
abbrev offered : ℕ → Line
offered zero = attached_line
offered (suc n) = record_call (offered n) (n ∷ 7 ∷ []) (nic_transmit (n ∷ 7 ∷ []) (offered n).tx)

offered-Reaches : (n : ℕ) → Reaches (offered n)
offered-Reaches zero = Reaches.at_first
offered-Reaches (suc n) = Reaches.after (offered-Reaches n) (Happens.calls (n ∷ 7 ∷ []))

offered_forty : length (offered 40).accepted ≡ length (offered 40).wire + ntxdesc
unfolding nic_transmit attached_tx for_each
offered_forty = refl

offered_three : (offered 3).tx.tdh ≢ (offered 3).tx.tdt
unfolding nic_transmit attached_tx for_each
offered_three e = omega (arith, e)

-- Three packets are accepted and the first is sent.
one_sent : Line
one_sent = record (offered 3) {
  tx = sent_one (offered 3).tx;
  wire = packet_at (offered 3).tx 0 ∷ [];
}

one_sent-Reaches : Reaches one_sent
unfolding nic_transmit attached_tx for_each one_sent
one_sent-Reaches = Reaches.after (offered-Reaches 3) (Happens.sends (Card.send offered_three))

one_sent_wire : one_sent.wire ≡ ((0 ∷ 7 ∷ []) ∷ [])
unfolding nic_transmit attached_tx for_each one_sent
one_sent_wire = refl

nic_transmit-in_order_example :
    (q : List (List ℕ)) × (one_sent.accepted ≡ one_sent.wire ++ q)
    × (length q ≤ ntxdesc)
    × ((pkt : List ℕ)
        → (nic_transmit pkt one_sent.tx).0
          ≡ (leb (length pkt) pkt_buf_size && ltb (length q) ntxdesc))
nic_transmit-in_order_example = nic_transmit-in_order one_sent one_sent-Reaches

full_ring-stays_example : offered 41 ≡ offered 40
full_ring-stays_example =
    full_ring-stays (offered 40) (offered 41) (offered-Reaches 40) offered_forty
      (Happens.calls (40 ∷ 7 ∷ []))

-- Two packets are stored and one is received.
one_stored : Inbox
one_stored = record {
  rx = stored attached_rx (1 ∷ 2 ∷ []) 3;
  arrived = (1 ∷ 2 ∷ []) ∷ [];
  delivered = [];
}

two_stored : Inbox
two_stored = record {
  rx = stored one_stored.rx (5 ∷ []) 7;
  arrived = (1 ∷ 2 ∷ []) ∷ (5 ∷ []) ∷ [];
  delivered = [];
}

one_received : Inbox
one_received = record_result two_stored (e1000_receive two_stored.rx)

two_stored-Comes : Comes two_stored
unfolding attached_rx for_each one_stored two_stored
two_stored-Comes =
    Comes.turn
      (Comes.turn Comes.at_attach
        (Turn.stores (1 ∷ 2 ∷ []) 3 (omega arith) (λ e. omega (arith, e)) refl refl))
      (Turn.stores (5 ∷ []) 7 (omega arith) (λ e. omega (arith, e)) refl refl)

one_received-Comes : Comes one_received
unfolding one_received
one_received-Comes = Comes.turn two_stored-Comes Turn.receives

one_received_now : one_received.delivered ≡ ((1 ∷ 2 ∷ []) ∷ [])
unfolding attached_rx for_each one_stored two_stored one_received e1000_receive
one_received_now = refl

e1000_receive-in_order_example :
    (q : List (List ℕ)) × (one_received.arrived ≡ one_received.delivered ++ q)
    × (length q < nrxdesc)
    × ((e1000_receive one_received.rx).0 ≡ front q)
e1000_receive-in_order_example = e1000_receive-in_order one_received one_received-Comes
