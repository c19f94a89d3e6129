-- ===== src/Net/Order.antt =====
-- The packets accepted by nic_transmit and those on the wire, in any order of calls and of the card.
use jos_kernel.Base.{
  List, [], arith, inl, inr, length, refl, sym, ℕ, ◌%◌, ◌++◌, ◌+◌, ◌∙◌, ◌∷◌, ◌≡◌, ◌≤◌, ap, leb, ltb,
  ◌&&◌, append_assoc, length-append,
}
use jos_kernel.Net.{ntxdesc, pkt_buf_size, for_each_lem, zero_desc}
use jos_kernel.Net.Sent.{Card-Pending, Pending, nic_transmit-Pending}
use jos_kernel.Net.Transmit.{Happens, Line, Reaches, attach_tx, attached_tx, nic_transmit}

attached_tx-Pending : Pending attached_tx []
unfolding attached_tx
attached_tx-Pending = record {
  few = omega arith;
  head = omega arith;
  tail = refl;
  used = tt;
  unused = λ j lo hi.
      rw
        (for_each_lem attach_tx ntxdesc 0 ((0 + j) % ntxdesc) zero_desc (omega arith) (omega arith))
        refl;
  places =
      λ i low. rw (for_each_lem attach_tx ntxdesc 0 i zero_desc (omega arith) (omega arith)) refl;
}

-- What is accepted is what was sent and what waits in the ring.
record Queued (s : Line) (q : List (List ℕ)) : Type 0 where
  pending : Pending s.tx q
  in_order : s.accepted ≡ s.wire ++ q

Happens-Queued :
    (s t : Line) (q : List (List ℕ)) → Queued s q → Happens s t → (q' : List (List ℕ)) × Queued t q'
Happens-Queued s t q v (Happens.calls pkt) = elim (nic_transmit-Pending pkt s.tx q v.pending) [
  | inl (short, room, e, p) ↦ (
    q ++ (pkt ∷ []),
    rw e (record {
      pending = p;
      in_order = ap (λ l. l ++ (pkt ∷ [])) v.in_order ∙ append_assoc s.wire q (pkt ∷ []);
    }),
  )
  | inr (why, e) ↦ (q, rw e v)
]
Happens-Queued s t q v (Happens.sends {n} {pkt} c) =
    let (rest, e, p, room) = Card-Pending s.tx n pkt q v.pending c in
    (
      rest,
      record {
        pending = p;
        in_order = v.in_order ∙ ap (λ l. s.wire ++ l) e ∙ sym (append_assoc s.wire (pkt ∷ []) rest);
      },
    )

Reaches-Queued : (s : Line) → Reaches s → (q : List (List ℕ)) × Queued s q
Reaches-Queued s Reaches.at_first = ([], record { pending = attached_tx-Pending; in_order = refl })
Reaches-Queued s (Reaches.after {s = s0} r h) =
    let (q, v) = Reaches-Queued s0 r in Happens-Queued s0 s q v h

-- In any order of calls of nic_transmit and of packets sent by the card, the accepted packets are
-- those on the wire and behind them at most 40 that wait; nic_transmit accepts a packet exactly if it
-- fits a buffer and fewer than 40 wait.
pub nic_transmit-in_order :
    (s : Line)
    → Reaches s
    → (q : List (List ℕ)) × (s.accepted ≡ s.wire ++ q)
      × (length q ≤ ntxdesc)
      × ((pkt : List ℕ)
          → (nic_transmit pkt s.tx).0 ≡ (leb (length pkt) pkt_buf_size && ltb (length q) ntxdesc))
nic_transmit-in_order s r =
    let (q, v) = Reaches-Queued s r in
    (
      q,
      v.in_order,
      v.pending.few,
      λ pkt. elim (nic_transmit-Pending pkt s.tx q v.pending) [
        | inl (short, room, e, p) ↦ ap (λ x. x.0) e ∙ ground arith
        | inr (inl long, e) ↦ ap (λ x. x.0) e ∙ ground arith
        | inr (inr full, e) ↦ ap (λ x. x.0) e ∙ ground arith
      ],
    )

-- When 40 accepted packets are not on the wire, nothing happens any more: nic_transmit refuses every
-- packet and changes nothing, and the card sends none.
pub full_ring-stays :
    (s t : Line) → Reaches s → length s.accepted ≡ length s.wire + ntxdesc → Happens s t → t ≡ s
full_ring-stays s t r full h =
    let (q, v) = Reaches-Queued s r in
    let len = ap length v.in_order ∙ length-append s.wire q in
    stays s t q v (omega (arith, len, full)) h
  where
    stays : (s t : Line) (q : List (List ℕ)) → Queued s q → length q ≡ ntxdesc → Happens s t → t ≡ s
    stays s t q v e (Happens.calls pkt) = elim (nic_transmit-Pending pkt s.tx q v.pending) [
      | inl (_, room, _, _) ↦ absurd (omega arith)
      | inr (why, eq) ↦ rw eq refl
    ]
    stays s t q v e (Happens.sends {n} {pkt} c) =
        let (rest, _, _, room) = Card-Pending s.tx n pkt q v.pending c in absurd (omega arith)
