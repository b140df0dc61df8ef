-- ===== src/Graphics/Queue/Safety.antt =====
-- graphics/context.c: what the two threads can rely on.
use intense_logic.Base.{
  ℕ, zero, suc, ◌+◌, ◌-◌, ◌≤◌, ◌≡◌, refl, sym, ap, ◌∙◌, ◌≢◌, List, [], ◌∷◌, ◌++◌, append-nil,
  append_assoc, arith,
}
use intense_logic.Graphics.Queue.{
  Msg, Queue, Producer, idle, filled, linked, reclaiming, Consumer, waiting, ready, handling,
  releasing, stopped, System, Reach, start, later, initial,
}
use intense_logic.Graphics.Queue.Invariant.{msgs_to, Prepared, InHand, IsQueue}
use intense_logic.Graphics.Queue.Kept.{Step-IsQueue}

initial-IsQueue : IsQueue initial
initial-IsQueue = record {
  chain = record {
    kept = omega arith;
    behind = omega arith;
    inside = omega arith;
    live = λ k a b. ground arith;
    row = λ k a b. absurd (omega arith);
  };
  prepared = refl;
  in_hand = refl;
  all_sent = refl;
}

-- In every interleaving the nodes stand in a row from the first to the last, all alive, and both
-- threads have in hand what they rely on.
pub Reach-IsQueue : {s : System} → Reach s → IsQueue s
Reach-IsQueue start = initial-IsQueue
Reach-IsQueue (later r st) = Step-IsQueue st (Reach-IsQueue r)

not_broken : (q : Queue) (p : Producer) → Prepared q p → p ≢ Producer.broken
not_broken q idle h e = cc
not_broken q (filled n) h e = cc
not_broken q (linked n) h e = cc
not_broken q reclaiming h e = cc
not_broken q Producer.broken h e = h

in_order : (q : Queue) (c : Consumer) (l : List Msg) → InHand q c l → c ≢ Consumer.broken
in_order q waiting l h e = cc
in_order q ready l h e = cc
in_order q (handling m) l h e = cc
in_order q (releasing last) l h e = cc
in_order q stopped l h e = cc
in_order q Consumer.broken l h e = h

-- No interleaving leads to an access to a freed node or to NULL, of either thread.
pub no_broken_access :
    {s : System} → Reach s → (s.producer ≢ Producer.broken) × (s.consumer ≢ Consumer.broken)
no_broken_access {s} r =
    let v = Reach-IsQueue r in
    (not_broken s.queue s.producer v.prepared, in_order s.queue s.consumer s.handled v.in_hand)

msgs_to-prefix :
    (f : ℕ → Msg) (k n : ℕ) → (rest : List Msg) × (msgs_to f (n + k) ≡ msgs_to f k ++ rest)
msgs_to-prefix f k zero =
    ([], ap (msgs_to f) {x = 0 + k} {y = k} (omega arith) ∙ sym (append-nil (msgs_to f k)))
msgs_to-prefix f k (suc n) =
    let (rest, e) = msgs_to-prefix f k n in
    (
      rest ++ (f (suc (n + k)) ∷ []),
      ap (msgs_to f) {x = suc n + k} {y = suc (n + k)} (omega arith)
          ∙ ap (λ l. l ++ (f (suc (n + k)) ∷ [])) e
          ∙ append_assoc (msgs_to f k) rest (f (suc (n + k)) ∷ []),
    )

prefix_of :
    (f : ℕ → Msg) (k n : ℕ) (l h : List Msg)
    → k ≤ n
    → l ≡ msgs_to f n
    → h ≡ msgs_to f k
    → (rest : List Msg) × (l ≡ h ++ rest)
prefix_of f k n l h b e g =
    let (rest, w) = msgs_to-prefix f k (n - k) in
    (
      rest,
      e ∙ ap (msgs_to f) {x = n} {y = n - k + k} (omega arith) ∙ w ∙ ap (λ x. x ++ rest) (sym g),
    )

fifo_at :
    (q : Queue) (c : Consumer) (l h : List Msg)
    → q.head ≤ q.tail
    → l ≡ msgs_to q.msg q.tail
    → InHand q c h
    → (rest : List Msg) × (l ≡ h ++ rest)
fifo_at q waiting l h b e g = prefix_of q.msg q.head q.tail l h b e g
fifo_at q ready l h b e g = prefix_of q.msg q.head q.tail l h b e g.1
fifo_at q (handling m) l h b e g = prefix_of q.msg q.head q.tail l h b e g.2
fifo_at q (releasing last) l h b e g =
    prefix_of q.msg (suc q.head) q.tail l h (omega (arith, g.0)) e g.1
fifo_at q stopped l h b e g = prefix_of q.msg q.head q.tail l h b e g
fifo_at q Consumer.broken l h b e g = absurd g

-- The messages that are handled are the first of those that are sent, each once and in the order in
-- which they are sent, whatever the interleaving.
pub handled_in_order : {s : System} → Reach s → (rest : List Msg) × (s.sent ≡ s.handled ++ rest)
handled_in_order {s} r =
    let v = Reach-IsQueue r in
    fifo_at s.queue s.consumer s.sent s.handled (v.chain).behind v.all_sent v.in_hand
