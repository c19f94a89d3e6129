-- ===== src/Net/Sent.antt =====
-- The packets go out in the order in which nic_transmit accepts them, until the ring is full.
use jos_kernel.Base.{
  ==_ne, ==_self, List, arith, bit_or, false, length, refl, true, update, ℕ, ◌%◌, ◌+◌, ◌-◌, ◌/◌,
  ◌<◌, ◌≡◌, ◌≢◌, ◌≤◌, ==_iff, Bool-cases, [], inl, inr, length-snoc, le→ltb, lt-or-le, lt→ltb,
  subst, sym, ◌++◌, ◌==◌, ◌∙◌, ◌∷◌, ◌⊎◌, ==_false, ap,
}
use jos_kernel.Base.Bits.{bit_or-one, bit_or_step}
use jos_kernel.Net.{bytes_of-fill, fill, has_dd, has_rs, ntxdesc, pkt_buf_size}
use jos_kernel.Net.Ring.{Holds, Holds-map, Holds-snoc, Holds-same}
use jos_kernel.Net.Transmit.{Tx, packet_at, taken, nic_transmit, Card, reported}

-- Slot `i` waits to be sent as packet `p`.
abbrev pub InUse : Tx → ℕ → List ℕ → Type 0
InUse n i p =
    (has_dd (n.tx_desc i) ≡ false)
    × (has_rs (n.tx_desc i) ≡ true)
    × ((n.tx_desc i).addr ≡ i)
    × (packet_at n i ≡ p)

-- The packets that the ring holds, from the head to the tail.
pub record Pending (n : Tx) (q : List (List ℕ)) : Type 0 where
  pub few : length q ≤ ntxdesc
  pub head : n.tdh < ntxdesc
  pub tail : n.tdt ≡ (n.tdh + length q) % ntxdesc
  pub used : Holds ntxdesc (InUse n) n.tdh q
  pub unused :
      (j : ℕ) → length q ≤ j → j < ntxdesc → has_dd (n.tx_desc ((n.tdh + j) % ntxdesc)) ≡ true
  pub places : (i : ℕ) → i < ntxdesc → (n.tx_desc i).addr ≡ i

bit_or-eight : (a : ℕ) → bit_or a 8 / 8 % 2 ≡ 1
bit_or-eight a = omega (
  arith,
  bit_or_step a 8,
  bit_or_step (a / 2) 4,
  bit_or_step (a / 2 / 2) 2,
  bit_or-one (a / 2 / 2 / 2),
)

module _ (pkt : List ℕ) (n : Tx) where
  -- The ring with the packet in it.
  abbrev put : Tx
  put = record n {
    tx_pkts_buf = update n.tx_pkts_buf n.tdt (fill pkt (n.tx_pkts_buf n.tdt));
    tx_desc = update n.tx_desc n.tdt (taken (length pkt) (n.tx_desc n.tdt));
    tdt = (n.tdt + 1) % ntxdesc;
  }

  put-other : (i : ℕ) (p : List ℕ) → i ≢ n.tdt → InUse n i p → InUse put i p
  put-other i p ne (a, b, c, d) =
      let other = ==_ne i n.tdt ne in rw other (a, b, c, rw c (rw other (rw c at d)))

  put-InUse : n.tdt < ntxdesc → (n.tx_desc n.tdt).addr ≡ n.tdt → InUse put n.tdt pkt
  put-InUse low place =
      let dd : ((n.tx_desc n.tdt).status - (n.tx_desc n.tdt).status % 2) % 2 ≡ 0 = omega arith in
      let rs = bit_or-eight (bit_or (n.tx_desc n.tdt).cmd 1) in
      rw (==_self n.tdt) (
        rw dd refl,
        rw rs refl,
        place,
        rw place (rw (==_self n.tdt) (bytes_of-fill pkt (n.tx_pkts_buf n.tdt))),
      )

  module _ (q : List (List ℕ)) (v : Pending n q) where
    tail_low : n.tdt < ntxdesc
    tail_low = omega (arith, v.tail)

    -- A ring with room takes the packet.
    put-Pending : length q < ntxdesc → Pending put (q ++ (pkt ∷ []))
    put-Pending room =
        let len = length-snoc q pkt in
        let place = v.places n.tdt tail_low in
        record {
          few = omega (arith, len);
          head = v.head;
          tail = omega (arith, len, v.tail);
          used =
              Holds-snoc ntxdesc (InUse put) n.tdh q pkt
                (Holds-map ntxdesc (InUse n) (InUse put) n.tdh q
                  (λ j x lo hi u. put-other (j % ntxdesc) x (λ e. omega (arith, e, v.tail)) u)
                  v.used)
                (subst (λ k. InUse put k pkt) v.tail (put-InUse tail_low place));
          unused = λ j lo hi.
              let ne : (n.tdh + j) % ntxdesc ≢ n.tdt = λ e. omega (arith, e, v.tail, len) in
              rw (==_ne ((n.tdh + j) % ntxdesc) n.tdt ne) (v.unused j (omega (arith, len)) hi);
          places = λ i low. elim (Bool-cases (i == n.tdt)) [
            | inl here ↦ let e : i ≡ n.tdt = (==_iff i n.tdt).0 here in rw here (place ∙ sym e)
            | inr other ↦ rw other (v.places i low)
          ];
        }

    -- What nic_transmit does: it refuses a packet that is too long, and any packet if the ring is full.
    pub nic_transmit-Pending :
        ((length pkt ≤ pkt_buf_size)
          × (length q < ntxdesc)
          × (nic_transmit pkt n ≡ (true, put))
          × Pending put (q ++ (pkt ∷ [])))
        ⊎ (((pkt_buf_size < length pkt) ⊎ (length q ≡ ntxdesc)) × (nic_transmit pkt n ≡ (false, n)))
    unfolding nic_transmit
    nic_transmit-Pending = elim (lt-or-le pkt_buf_size (length pkt)) [
      | inl long ↦ inr (inl long, rw (lt→ltb pkt_buf_size (length pkt) long))
      | inr short ↦ elim (lt-or-le (length q) ntxdesc) [
        | inl room ↦
            let free =
              subst (λ k. has_dd (n.tx_desc k) ≡ true) (sym v.tail)
                (v.unused (length q) (omega arith) room) in
            inl (short, room, rw (le→ltb pkt_buf_size (length pkt) short, free), put-Pending room)
        | inr full ↦
            let busy = full_slot q v.used full in
            let at : n.tdh % ntxdesc ≡ n.tdt = omega (arith, v.tail, v.head, v.few) in
            let busy' = subst (λ k. has_dd (n.tx_desc k) ≡ false) at busy in
            inr (inr (omega (arith, v.few)), rw (le→ltb pkt_buf_size (length pkt) short, busy'))
      ]
    ]
      where
        full_slot :
            (l : List (List ℕ))
            → Holds ntxdesc (InUse n) n.tdh l
            → ntxdesc ≤ length l
            → has_dd (n.tx_desc (n.tdh % ntxdesc)) ≡ false
        full_slot [] h full = absurd (omega arith)
        full_slot (x ∷ l) (a, _) full = a.0

-- The ring after the card has sent the packet at the head.
abbrev pub sent_one : Tx → Tx
sent_one n = record n {
  tdh = (n.tdh + 1) % ntxdesc;
  tx_desc = update n.tx_desc n.tdh (reported (n.tx_desc n.tdh));
}

module _ (n : Tx) (p : List ℕ) (q : List (List ℕ)) (v : Pending n (p ∷ q)) where
  first_InUse : InUse n n.tdh p
  first_InUse =
      let e : n.tdh % ntxdesc ≡ n.tdh = omega (arith, v.head) in subst (λ k. InUse n k p) e v.used.0

  reported-dd : has_dd (reported (n.tx_desc n.tdh)) ≡ true
  reported-dd =
      let rs = first_InUse.1 in
      let one = bit_or-one (n.tx_desc n.tdh).status in
      let odd : bit_or (n.tx_desc n.tdh).status 1 % 2 ≡ 1 = omega (arith, one) in
      rw rs (rw odd refl)

  sent_one-other : (i : ℕ) (x : List ℕ) → i ≢ n.tdh → InUse n i x → InUse (sent_one n) i x
  sent_one-other i x ne (a, b, c, d) = let other = ==_ne i n.tdh ne in rw other (a, b, c, d)

  sent_one-Pending : Pending (sent_one n) q
  sent_one-Pending = record {
    few = omega (arith, v.few);
    head = omega arith;
    tail = omega (arith, v.tail);
    used =
        Holds-same ntxdesc (InUse (sent_one n)) (n.tdh + 1) ((n.tdh + 1) % ntxdesc) q
          (λ a b e. omega (arith, e)) (omega arith)
          (Holds-map ntxdesc (InUse n) (InUse (sent_one n)) (n.tdh + 1) q
            (λ j x lo hi u. sent_one-other (j % ntxdesc) x (λ e. omega (arith, e, v.head, v.few)) u)
            v.used.1);
    unused = λ j lo hi. elim (Bool-cases (((n.tdh + 1) % ntxdesc + j) % ntxdesc == n.tdh)) [
      | inl here ↦ rw here reported-dd
      | inr other ↦
          let ne = ==_false (((n.tdh + 1) % ntxdesc + j) % ntxdesc) n.tdh other in
          let same : ((n.tdh + 1) % ntxdesc + j) % ntxdesc ≡ (n.tdh + (j + 1)) % ntxdesc =
            omega arith in
          let old = v.unused (j + 1) (omega arith) (omega (arith, ne, v.head)) in
          rw other (subst (λ k. has_dd (n.tx_desc k) ≡ true) (sym same) old)
    ];
    places = λ i low. elim (Bool-cases (i == n.tdh)) [
      | inl here ↦
          let e : i ≡ n.tdh = (==_iff i n.tdh).0 here in
          rw here (rw first_InUse.1 (first_InUse.2 ∙ sym e))
      | inr other ↦ rw other (v.places i low)
    ];
  }

-- A ring whose head is not its tail is neither empty nor full.
Pending-first :
    (n : Tx) (q : List (List ℕ))
    → Pending n q
    → n.tdh ≢ n.tdt
    → (rest : List (List ℕ)) × (q ≡ packet_at n n.tdh ∷ rest)
      × Pending (sent_one n) rest
      × (length q < ntxdesc)
Pending-first n [] v ne = absurd (ne (omega (arith, v.tail, v.head)))
Pending-first n (p ∷ q) v ne = (
  q,
  ap (λ x. x ∷ q) (sym (first_InUse n p q v).3),
  sent_one-Pending n p q v,
  elim (lt-or-le (length (p ∷ q)) ntxdesc) [
    | inl room ↦ room
    | inr full ↦ absurd (ne (omega (arith, v.tail, v.head, v.few, full)))
  ],
)

-- The card sends the first packet that waits.
pub Card-Pending :
    (n n' : Tx) (pkt : List ℕ) (q : List (List ℕ))
    → Pending n q
    → Card n n' pkt
    → (rest : List (List ℕ)) × (q ≡ pkt ∷ rest) × Pending n' rest × (length q < ntxdesc)
Card-Pending n n' pkt q v (Card.send ne) = Pending-first n q v ne
