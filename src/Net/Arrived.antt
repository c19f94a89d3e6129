-- ===== src/Net/Arrived.antt =====
-- The packets come out of e1000_receive in the order in which the card has stored them.
use jos_kernel.Base.{
  ==_false, ==_iff, ==_ne, ==_self, Bool-cases, List, Option, [], arith, false, inl, inr, length,
  length-snoc, none, refl, some, subst, sym, true, update, ℕ, ◌%◌, ◌++◌, ◌+◌, ◌-◌, ◌/◌, ◌<◌, ◌==◌,
  ◌∙◌, ◌∷◌, ◌≡◌, ◌≢◌, ◌≤◌, ap, append_assoc,
}
use jos_kernel.Net.{bytes_of, bytes_of-fill, for_each_lem, has_dd, has_eop, nrxdesc, zero_desc}
use jos_kernel.Net.Receive.{
  record_result, Rx, attach_rx, attached_rx, e1000_receive, stored, Comes, Inbox, Turn,
}
use jos_kernel.Net.Ring.{Holds, Holds-map, Holds-same, Holds-snoc}

-- Slot `i` holds packet `p`.
abbrev pub Full : Rx → ℕ → List ℕ → Type 0
Full n i p =
    (has_dd (n.rxq i) ≡ true)
    × (has_eop (n.rxq i) ≡ true)
    × (bytes_of (n.rx_pkts i) (n.rxq i).length ≡ p)

-- The packets that the ring holds, from behind the tail to the head.
pub record Stored (n : Rx) (q : List (List ℕ)) : Type 0 where
  pub few : length q < nrxdesc
  pub tail : n.rdt < nrxdesc
  pub head : n.rdh ≡ (n.rdt + 1 + length q) % nrxdesc
  pub used : Holds nrxdesc (Full n) (n.rdt + 1) q
  pub unused :
      (j : ℕ) → length q ≤ j → j < nrxdesc → has_dd (n.rxq ((n.rdt + 1 + j) % nrxdesc)) ≡ false
  pub places : (i : ℕ) → i < nrxdesc → (n.rxq i).addr ≡ i

attached_rx-Stored : Stored attached_rx []
unfolding attached_rx
attached_rx-Stored = record {
  few = omega arith;
  tail = omega arith;
  head = refl;
  used = tt;
  unused = λ j lo hi.
      rw
        (for_each_lem attach_rx nrxdesc 0 ((nrxdesc - 1 + 1 + j) % nrxdesc) zero_desc (omega arith)
          (omega arith))
        refl;
  places =
      λ i low. rw (for_each_lem attach_rx nrxdesc 0 i zero_desc (omega arith) (omega arith)) refl;
}

module _ (pkt : List ℕ) (st : ℕ) (n : Rx) where
  stored-other :
      (i : ℕ) (p : List ℕ)
      → (n.rxq n.rdh).addr ≡ n.rdh
      → i ≢ n.rdh
      → Full n i p
      → Full (stored n pkt st) i p
  stored-other i p place ne (a, b, c) =
      let other = ==_ne i n.rdh ne in rw other (a, b, rw place (rw other c))

  module _ (dd : st % 2 ≡ 1) (eop : st / 2 % 2 ≡ 1) where
    stored-Full : (n.rxq n.rdh).addr ≡ n.rdh → Full (stored n pkt st) n.rdh pkt
    stored-Full place = rw (==_self n.rdh) (
      rw dd refl,
      rw eop refl,
      rw place (rw (==_self n.rdh) (bytes_of-fill pkt (n.rx_pkts n.rdh))),
    )

    -- The card stores behind the packets of the ring, while fewer than 127 wait.
    pub stored-Stored :
        (q : List (List ℕ))
        → Stored n q
        → n.rdh ≢ n.rdt
        → Stored (stored n pkt st) (q ++ (pkt ∷ []))
    stored-Stored q v ne =
        let len = length-snoc q pkt in
        let head_low : n.rdh < nrxdesc = omega (arith, v.head) in
        let place = v.places n.rdh head_low in
        let room : length q + 1 < nrxdesc = omega (arith, v.few, v.tail, v.head, ne) in
        record {
          few = omega (arith, len);
          tail = v.tail;
          head = omega (arith, len, v.head);
          used =
              Holds-snoc nrxdesc (Full (stored n pkt st)) (n.rdt + 1) q pkt
                (Holds-map nrxdesc (Full n) (Full (stored n pkt st)) (n.rdt + 1) q
                  (λ j x lo hi u.
                    stored-other (j % nrxdesc) x place (λ e. omega (arith, e, v.head, v.few)) u)
                  v.used)
                (subst (λ k. Full (stored n pkt st) k pkt) v.head (stored-Full place));
          unused = λ j lo hi.
              let other : (n.rdt + 1 + j) % nrxdesc ≢ n.rdh = λ e. omega (arith, e, v.head, len) in
              rw (==_ne ((n.rdt + 1 + j) % nrxdesc) n.rdh other)
                (v.unused j (omega (arith, len)) hi);
          places = λ i low. elim (Bool-cases (i == n.rdh)) [
            | inl here ↦ let e : i ≡ n.rdh = (==_iff i n.rdh).0 here in rw here (place ∙ sym e)
            | inr other ↦ rw other (v.places i low)
          ];
        }

-- The ring after e1000_receive has returned a packet.
abbrev returned : Rx → Rx
returned n =
    let tail_idx = (n.rdt + 1) % nrxdesc in
    record n {
      rxq = update n.rxq tail_idx (record (n.rxq tail_idx) { status = 0 });
      rdt = tail_idx;
    }

module _ (n : Rx) (p : List ℕ) (q : List (List ℕ)) (v : Stored n (p ∷ q)) where
  returned-other :
      (i : ℕ) (x : List ℕ) → i ≢ (n.rdt + 1) % nrxdesc → Full n i x → Full (returned n) i x
  returned-other i x ne (a, b, c) =
      let other = ==_ne i ((n.rdt + 1) % nrxdesc) ne in rw other (a, b, c)

  returned-Stored : Stored (returned n) q
  returned-Stored =
      let first = (n.rdt + 1) % nrxdesc in
      record {
        few = omega (arith, v.few);
        tail = omega arith;
        head = omega (arith, v.head);
        used =
            Holds-same nrxdesc (Full (returned n)) (n.rdt + 1 + 1) (first + 1) q
              (λ a b e. omega (arith, e)) (omega arith)
              (Holds-map nrxdesc (Full n) (Full (returned n)) (n.rdt + 1 + 1) q
                (λ j x lo hi u. returned-other (j % nrxdesc) x (λ e. omega (arith, e, v.few)) u)
                v.used.1);
        unused = λ j lo hi. elim (Bool-cases ((first + 1 + j) % nrxdesc == first)) [
          | inl here ↦ rw here refl
          | inr other ↦
              let ne = ==_false ((first + 1 + j) % nrxdesc) first other in
              let same : (first + 1 + j) % nrxdesc ≡ (n.rdt + 1 + (j + 1)) % nrxdesc =
                omega arith in
              let old = v.unused (j + 1) (omega arith) (omega (arith, ne, hi)) in
              rw other (subst (λ k. has_dd (n.rxq k) ≡ false) (sym same) old)
        ];
        places = λ i low. elim (Bool-cases (i == first)) [
          | inl here ↦
              let e : i ≡ first = (==_iff i first).0 here in
              rw here (v.places first (omega arith) ∙ sym e)
          | inr other ↦ rw other (v.places i low)
        ];
      }

-- The first packet of the list, and the ring that holds the others.
abbrev Taken : Rx → List (List ℕ) → Option (List ℕ) × Rx → Type 0
Taken n [] r = r ≡ (none, n)
Taken n (p ∷ q) (some x, n') = (x ≡ p) × Stored n' q
Taken n (p ∷ q) (none, n') = ⊥

e1000_receive-Taken : (n : Rx) (q : List (List ℕ)) → Stored n q → Taken n q (e1000_receive n)
unfolding e1000_receive
e1000_receive-Taken n [] v =
    let e : (n.rdt + 1 + 0) % nrxdesc ≡ (n.rdt + 1) % nrxdesc = omega arith in
    let free = subst (λ k. has_dd (n.rxq k) ≡ false) e (v.unused 0 (omega arith) (omega arith)) in
    rw free refl
e1000_receive-Taken n (p ∷ q) v = rw (v.used.0.0, v.used.0.1) (v.used.0.2, returned-Stored n p q v)

-- What has arrived is what was delivered and what waits in the ring.
record Held (s : Inbox) (q : List (List ℕ)) : Type 0 where
  waiting : Stored s.rx q
  in_order : s.arrived ≡ s.delivered ++ q

Turn-Held :
    (s t : Inbox) (q : List (List ℕ)) → Held s q → Turn s t → (q' : List (List ℕ)) × Held t q'
Turn-Held s t q v (Turn.stores pkt st short ne dd eop) = (
  q ++ (pkt ∷ []),
  record {
    waiting = stored-Stored pkt st s.rx dd eop q v.waiting ne;
    in_order = ap (λ l. l ++ (pkt ∷ [])) v.in_order ∙ append_assoc s.delivered q (pkt ∷ []);
  },
)
Turn-Held s t q v Turn.receives = go q v (e1000_receive s.rx) (e1000_receive-Taken s.rx q v.waiting)
  where
    go :
        (q : List (List ℕ))
        → Held s q
        → (r : Option (List ℕ) × Rx) → Taken s.rx q r
        → (q' : List (List ℕ)) × Held (record_result s r) q'
    go [] v r e = ([], rw e v)
    go (p ∷ q) v (some x, n') (e, w) = (
      q,
      record {
        waiting = w;
        in_order =
            v.in_order
            ∙ ap (λ y. s.delivered ++ (y ∷ q)) (sym e)
            ∙ sym (append_assoc s.delivered (x ∷ []) q);
      },
    )
    go (p ∷ q) v (none, n') bad = absurd bad

Comes-Held : (s : Inbox) → Comes s → (q : List (List ℕ)) × Held s q
Comes-Held s Comes.at_attach = ([], record { waiting = attached_rx-Stored; in_order = refl })
Comes-Held s (Comes.turn {s = s0} c step) = let (q, v) = Comes-Held s0 c in Turn-Held s0 s q v step

-- The packet at the front.
abbrev pub front : List (List ℕ) → Option (List ℕ)
front [] = none
front (p ∷ q) = some p

-- In any order of calls of e1000_receive and of packets stored by the card, the packets that have
-- arrived are those returned and behind them at most 127 that wait; e1000_receive returns the first
-- that waits, and -1 exactly if none does.
pub e1000_receive-in_order :
    (s : Inbox)
    → Comes s
    → (q : List (List ℕ)) × (s.arrived ≡ s.delivered ++ q)
      × (length q < nrxdesc)
      × ((e1000_receive s.rx).0 ≡ front q)
e1000_receive-in_order s c =
    let (q, v) = Comes-Held s c in
    (
      q,
      v.in_order,
      v.waiting.few,
      result q (e1000_receive s.rx) (e1000_receive-Taken s.rx q v.waiting),
    )
  where
    result : (q : List (List ℕ)) (r : Option (List ℕ) × Rx) → Taken s.rx q r → r.0 ≡ front q
    result [] r e = ap (λ x. x.0) e
    result (p ∷ q) (some x, n') (e, w) = ap some e
    result (p ∷ q) (none, n') bad = absurd bad
