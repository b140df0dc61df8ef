-- ===== src/Graphics/Queue/Kept.antt =====
-- graphics/context.c: no access of either thread breaks the queue.
use intense_logic.Base.{
  ℕ, suc, ◌+◌, ◌≤◌, ◌<◌, ◌≡◌, refl, sym, ap, ◌∙◌, Bool, true, false, some, List, [], ◌∷◌, ◌++◌,
  arith,
}
use intense_logic.Base.{some-injective, ne→==_false}
use intense_logic.Graphics.Queue.{
  Msg, Queue, Producer, idle, filled, linked, reclaiming, Consumer, System, update, allocate,
  link_tail, move_tail, free_first, move_head, Produce, Consume, Step, by_producer, by_consumer,
  after, send, link, link_broken, publish, reclaim, reclaim_dead, reclaim_null, produced, empty,
  poll, fetch, fetch_null, fetch_dead, handle, handle_dead, skip, release, release_dead,
  release_null,
}
use intense_logic.Graphics.Queue.Invariant.{
  msgs_to, IsChain, Prepared, InHand, IsQueue, msgs_to_congr, InHand-congr,
}

-- The parts of the invariant, over the fields of a system
record Parts (q : Queue) (p : Producer) (sent : List Msg) (c : Consumer) (handled : List Msg)
    : Type 0 where
  chain : IsChain q
  prepared : Prepared q p
  in_hand : InHand q c handled
  all_sent : sent ≡ msgs_to q.msg q.tail

module _ {c : Consumer} {h : List Msg} where
  Produce-Parts :
      {q r : Queue} {p p' : Producer} {l l' : List Msg}
      → Produce q p l r p' l'
      → Parts q p l c h
      → Parts r p' l' c h
  unfolding allocate
  Produce-Parts {q} (send m) i =
      let f = (i.chain).inside in
      let same : (k : ℕ) → k ≤ q.tail → q.msg k ≡ update q.msg q.fresh m k =
        λ k b. rw (ne→==_false q.fresh k (omega arith)) refl in
      record {
        chain = record {
          kept = (i.chain).kept;
          behind = (i.chain).behind;
          inside = omega arith;
          live = λ k a b. ground (arith, (i.chain).live k);
          row = λ k a b. ground (arith, (i.chain).row k a b);
        };
        prepared = (i.prepared, omega (arith, i.prepared));
        in_hand =
            InHand-congr q (allocate q m) c h refl (i.chain).behind (omega arith) same i.in_hand;
        all_sent = i.all_sent ∙ msgs_to_congr q.msg _ q.tail same;
      }
  Produce-Parts {q} (link {n = n} a) i = record {
    chain = record {
      kept = (i.chain).kept;
      behind = (i.chain).behind;
      inside = (i.chain).inside;
      live = (i.chain).live;
      row = λ k a b. ground (arith, (i.chain).row k a b);
    };
    prepared = ((i.prepared).0, (i.prepared).1, ground arith);
    in_hand =
        InHand-congr q (link_tail q n) c h refl (i.chain).behind (omega arith) (λ k b. refl)
          i.in_hand;
    all_sent = i.all_sent;
  }
  Produce-Parts {q} (link_broken a) i = absurd (
      cc ((i.chain).live q.tail (omega (arith, (i.chain).kept, (i.chain).behind)) (i.chain).inside))
  Produce-Parts {q} (publish {n = n}) i =
      let (e, f, g) = i.prepared in
      record {
        chain = record {
          kept = (i.chain).kept;
          behind = omega (arith, (i.chain).behind, e);
          inside = omega arith;
          live = (i.chain).live;
          row = λ k a b. ground (arith, (i.chain).row k a, e, g);
        };
        prepared = omega arith;
        in_hand =
            InHand-congr q (move_tail q n) c h refl (i.chain).behind (omega (arith, e))
              (λ k b. refl) i.in_hand;
        all_sent =
            let n_suc : n ≡ suc q.tail = omega (arith, e) in
            rw n_suc (ap (λ x. x ++ (q.msg (suc q.tail) ∷ [])) i.all_sent);
      }
  Produce-Parts {q} (reclaim {n = n} d a e) i =
      let first_lt : q.first < q.tail = omega (arith, d, (i.chain).kept, (i.chain).behind) in
      let n_suc : n ≡ q.first + 1 =
        some-injective (sym e ∙ (i.chain).row q.first (omega arith) first_lt) in
      record {
        chain = record {
          kept = omega (arith, d, (i.chain).kept);
          behind = (i.chain).behind;
          inside = (i.chain).inside;
          live = λ k x b. ground (arith, (i.chain).live k);
          row = λ k x b. (i.chain).row k (omega arith) b;
        };
        prepared = i.prepared;
        in_hand =
            InHand-congr q (free_first q n) c h refl (i.chain).behind (omega arith) (λ k b. refl)
              i.in_hand;
        all_sent = i.all_sent;
      }
  Produce-Parts {q} (reclaim_dead d a) i = absurd (
      cc (
        (i.chain).live q.first (omega arith)
          (omega (arith, (i.chain).kept, (i.chain).behind, (i.chain).inside))))
  Produce-Parts {q} (reclaim_null d a) i = absurd (
      cc ((i.chain).row q.first (omega arith) (omega (arith, d, (i.chain).kept, (i.chain).behind))))
  Produce-Parts {q} (produced d) i = record {
    chain = i.chain;
    prepared = i.prepared;
    in_hand = i.in_hand;
    all_sent = i.all_sent;
  }

-- A step of the consumer that leaves the queue alone
hold :
    {q : Queue} {p : Producer} {l h h' : List Msg} {c c' : Consumer}
    → Parts q p l c h
    → InHand q c' h'
    → Parts q p l c' h'
hold i w = record { chain = i.chain; prepared = i.prepared; in_hand = w; all_sent = i.all_sent }

-- What the producer has prepared does not depend on the consumer's node.
Prepared-head : (q : Queue) (p : Producer) (n : ℕ) → Prepared q p → Prepared (move_head q n) p
Prepared-head q idle n h = h
Prepared-head q (filled k) n h = h
Prepared-head q (linked k) n h = h
Prepared-head q reclaiming n h = h
Prepared-head q Producer.broken n h = h

InHand-after :
    (q : Queue) (h : List Msg) (last : Bool) → h ≡ msgs_to q.msg q.head → InHand q (after last) h
InHand-after q h true e = e
InHand-after q h false e = e

module _ {p : Producer} {l : List Msg} where
  -- The consumer's node is alive, and followed by the next one.
  head_alive : {q : Queue} {c : Consumer} {h : List Msg} → Parts q p l c h → q.alive q.head ≡ true
  head_alive {q} i =
      (i.chain).live q.head (i.chain).kept (omega (arith, (i.chain).behind, (i.chain).inside))

  head_next :
      {q : Queue} {c : Consumer} {h : List Msg}
      → Parts q p l c h
      → q.head < q.tail
      → q.next q.head ≡ some (q.head + 1)
  head_next {q} i b = (i.chain).row q.head (i.chain).kept b

  Consume-Parts :
      {q r : Queue} {c c' : Consumer} {h h' : List Msg}
      → Consume q c h r c' h'
      → Parts q p l c h
      → Parts r p l c' h'
  Consume-Parts {q} (empty e) i = hold i i.in_hand
  Consume-Parts {q} (poll d) i = hold i (omega (arith, d, (i.chain).behind), i.in_hand)
  Consume-Parts {q} (fetch {m = m} a e) i =
      hold i (some-injective (sym e ∙ head_next i (i.in_hand).0), (i.in_hand).0, (i.in_hand).1)
  Consume-Parts {q} (fetch_null e) i = hold i (i.in_hand).1
  Consume-Parts {q} (fetch_dead a) i = absurd (cc (head_alive i))
  Consume-Parts {q} (handle {m = m} a) i =
      let (e, b, g) = i.in_hand in
      let m_suc : m ≡ suc q.head = omega (arith, e) in
      hold i (rw m_suc (b, ap (λ x. x ++ (q.msg (suc q.head) ∷ [])) g, refl))
  Consume-Parts {q} (handle_dead {m = m} a) i =
      let (e, b, g) = i.in_hand in
      absurd (
        cc (
          (i.chain).live m (omega (arith, e, (i.chain).kept))
            (omega (arith, e, b, (i.chain).inside))))
  Consume-Parts {q} (skip e) i = absurd (omega (arith, (i.in_hand).0, e))
  Consume-Parts {q} {h = h} (release {last = last} {n = n} d a e) i =
      let n_suc : n ≡ suc q.head =
        omega (arith, some-injective (sym e ∙ head_next i (i.in_hand).0)) in
      record {
        chain = record {
          kept = omega (arith, (i.chain).kept, n_suc);
          behind = omega (arith, (i.in_hand).0, n_suc);
          inside = (i.chain).inside;
          live = (i.chain).live;
          row = (i.chain).row;
        };
        prepared = Prepared-head q p n i.prepared;
        in_hand = InHand-after (move_head q n) h last (rw n_suc (i.in_hand).1);
        all_sent = i.all_sent;
      }
  Consume-Parts {q} (release_dead d a) i = absurd (cc (head_alive i))
  Consume-Parts {q} (release_null d e) i = absurd (cc (head_next i (i.in_hand).0))

parts : {s : System} → IsQueue s → Parts s.queue s.producer s.sent s.consumer s.handled
parts v = record {
  chain = v.chain;
  prepared = v.prepared;
  in_hand = v.in_hand;
  all_sent = v.all_sent;
}

pub Step-IsQueue : {s t : System} → Step s t → IsQueue s → IsQueue t
Step-IsQueue (by_producer p) v =
    let w = Produce-Parts p (parts v) in
    record { chain = w.chain; prepared = w.prepared; in_hand = w.in_hand; all_sent = w.all_sent }
Step-IsQueue (by_consumer c) v =
    let w = Consume-Parts c (parts v) in
    record { chain = w.chain; prepared = w.prepared; in_hand = w.in_hand; all_sent = w.all_sent }
