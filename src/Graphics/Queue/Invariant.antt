-- ===== src/Graphics/Queue/Invariant.antt =====
-- graphics/context.c: what holds of the queue between any two accesses.
use intense_logic.Base.{
  ℕ, zero, suc, ◌+◌, ◌≤◌, ◌<◌, ◌≡◌, refl, ap, ap₂, ◌∙◌, true, some, List, [], ◌∷◌, ◌++◌, arith,
}
use intense_logic.Graphics.Queue.{
  Msg, Queue, Producer, idle, filled, linked, reclaiming, Consumer, waiting, ready, handling,
  releasing, stopped, System, is_stop,
}

-- The messages of the nodes after the first one, up to a node
abbrev pub msgs_to : (ℕ → Msg) → ℕ → List Msg
msgs_to msg zero = []
msgs_to msg (suc n) = msgs_to msg n ++ (msg (suc n) ∷ [])

-- The nodes stand in a row from the first one, which is not after the consumer's, and are alive.
pub record IsChain (q : Queue) : Type 0 where
  pub kept : q.first ≤ q.head
  pub behind : q.head ≤ q.tail
  pub inside : q.tail < q.fresh
  pub live : (k : ℕ) → q.first ≤ k → k < q.fresh → q.alive k ≡ true
  pub row : (k : ℕ) → q.first ≤ k → k < q.tail → q.next k ≡ some (k + 1)

-- What the producer has prepared
abbrev pub Prepared : Queue → Producer → Type 0
Prepared q idle = q.fresh ≡ q.tail + 1
Prepared q (filled n) = (n ≡ q.tail + 1) × (q.fresh ≡ q.tail + 2)
Prepared q (linked n) = (n ≡ q.tail + 1) × (q.fresh ≡ q.tail + 2) × (q.next q.tail ≡ some n)
Prepared q reclaiming = q.fresh ≡ q.tail + 1
Prepared q Producer.broken = ⊥

-- What the consumer has in hand: the node after its own.
abbrev pub InHand : Queue → Consumer → List Msg → Type 0
InHand q waiting l = l ≡ msgs_to q.msg q.head
InHand q ready l = (q.head < q.tail) × (l ≡ msgs_to q.msg q.head)
InHand q (handling m) l = (m ≡ q.head + 1) × (q.head < q.tail) × (l ≡ msgs_to q.msg q.head)
InHand q (releasing last) l =
    (q.head < q.tail) × (l ≡ msgs_to q.msg (suc q.head)) × (last ≡ is_stop (q.msg (suc q.head)))
InHand q stopped l = l ≡ msgs_to q.msg q.head
InHand q Consumer.broken l = ⊥

pub record IsQueue (s : System) : Type 0 where
  pub chain : IsChain s.queue
  pub prepared : Prepared s.queue s.producer
  pub in_hand : InHand s.queue s.consumer s.handled
  pub all_sent : s.sent ≡ msgs_to (s.queue).msg (s.queue).tail

pub msgs_to_congr :
    (f g : ℕ → Msg) (n : ℕ) → ((k : ℕ) → k ≤ n → f k ≡ g k) → msgs_to f n ≡ msgs_to g n
msgs_to_congr f g zero h = refl
msgs_to_congr f g (suc n) h =
    ap₂ (λ l m. l ++ (m ∷ [])) (msgs_to_congr f g n (λ k r. h k (omega arith)))
      (h (suc n) (omega arith))

-- What the consumer has in hand stays when only later nodes change.
pub InHand-congr :
    (q r : Queue) (c : Consumer) (l : List Msg)
    → r.head ≡ q.head
    → q.head ≤ q.tail
    → q.tail ≤ r.tail
    → ((k : ℕ) → k ≤ q.tail → q.msg k ≡ r.msg k)
    → InHand q c l
    → InHand r c l
InHand-congr q r waiting l e b t m h =
    rw e (h ∙ msgs_to_congr q.msg r.msg q.head (λ k p. m k (omega arith)))
InHand-congr q r ready l e b t m h =
    rw e (omega arith, h.1 ∙ msgs_to_congr q.msg r.msg q.head (λ k p. m k (omega arith)))
InHand-congr q r (handling n) l e b t m h =
    rw e (h.0, omega arith, h.2 ∙ msgs_to_congr q.msg r.msg q.head (λ k p. m k (omega arith)))
InHand-congr q r (releasing last) l e b t m h = rw e (
  omega arith,
  h.1 ∙ msgs_to_congr q.msg r.msg (suc q.head) (λ k p. m k (omega arith)),
  h.2 ∙ ap is_stop (m (suc q.head) (omega arith)),
)
InHand-congr q r stopped l e b t m h =
    rw e (h ∙ msgs_to_congr q.msg r.msg q.head (λ k p. m k (omega arith)))
InHand-congr q r Consumer.broken l e b t m h = h
