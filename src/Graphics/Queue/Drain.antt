-- ===== src/Graphics/Queue/Drain.antt =====
-- graphics/context.c: the render thread handles what is sent.
use intense_logic.Base.{
  ℕ, zero, suc, ◌+◌, ◌-◌, ◌*◌, ◌≤◌, ◌<◌, ◌≡◌, refl, sym, ap, ◌∙◌, ◌≢◌, ◌⊎◌, inl, inr, Bool, true,
  false, List, [], ◌∷◌, ◌++◌, arith, dec_lt,
}
use intense_logic.Graphics.Queue.{
  Msg, Queue, Producer, Consumer, waiting, stopped, System, is_stop, Consume, by_consumer, after,
  move_head, poll, fetch, handle, release, Reach, later,
}
use intense_logic.Graphics.Queue.Invariant.{msgs_to}
use intense_logic.Graphics.Queue.Safety.{Reach-IsQueue}

-- `n` accesses of the consumer alone
pub data Runs : ℕ → System → System → Type 0 where
  done : {s : System} → Runs 0 s s
  more :
      {n : ℕ} {s t : System} {q : Queue} {c : Consumer} {l : List Msg}
      → Consume s.queue s.consumer s.handled q c l
      → Runs n (record s { queue = q; consumer = c; handled = l }) t
      → Runs (suc n) s t

-- The consumer has stopped, or has handled all that was sent before.
abbrev pub Drained : System → System → Type 0
Drained s t = (t.sent ≡ s.sent) × ((t.consumer ≡ stopped) ⊎ (t.handled ≡ t.sent))

abbrev pub at : Queue → Producer → Consumer → List Msg → List Msg → System
at q p c l h = record { queue = q; producer = p; consumer = c; sent = l; handled = h }

-- Nothing is left to handle.
drained_at :
    (q : Queue) (p : Producer) (l h : List Msg)
    → Reach (at q p waiting l h)
    → q.tail ≤ q.head
    → h ≡ l
drained_at q p l h r b =
    let v = Reach-IsQueue r in
    let e : q.head ≡ q.tail = omega (arith, (v.chain).behind) in
    v.in_hand ∙ ap (msgs_to q.msg) e ∙ sym v.all_sent

-- The four accesses for one message
abbrev handled_one : Queue → Producer → List Msg → List Msg → System
handled_one q p l h =
    at (move_head q (q.head + 1)) p (after (is_stop (q.msg (q.head + 1)))) l
      (h ++ (q.msg (q.head + 1) ∷ []))

module _ (q : Queue) (p : Producer) (l h : List Msg) (b : q.head < q.tail) where
  one_message :
      {n : ℕ} {t : System}
      → Reach (at q p waiting l h)
      → Runs n (handled_one q p l h) t
      → Runs (suc (suc (suc (suc n)))) (at q p waiting l h) t
  one_message r rest =
      let v = (Reach-IsQueue r).chain in
      let alive = v.live q.head v.kept (omega (arith, v.inside)) in
      let next = v.row q.head v.kept b in
      let ne : q.head ≢ q.tail = λ e. omega (arith, e) in
      more (poll ne) (
        more (fetch alive next) (
          more (handle (v.live (q.head + 1) (omega (arith, v.kept)) (omega (arith, v.inside))))
            (more (release ne alive next) rest)))

  one_message-Reach : Reach (at q p waiting l h) → Reach (handled_one q p l h)
  one_message-Reach r =
      let v = (Reach-IsQueue r).chain in
      let alive = v.live q.head v.kept (omega (arith, v.inside)) in
      let next = v.row q.head v.kept b in
      let ne : q.head ≢ q.tail = λ e. omega (arith, e) in
      later
        (later (later (later r (by_consumer (poll ne))) (by_consumer (fetch alive next))) (
          by_consumer
            (handle (v.live (q.head + 1) (omega (arith, v.kept)) (omega (arith, v.inside))))))
        (by_consumer (release ne alive next))

-- What is to be shown, for a bound on the messages that are left
abbrev Drains : ℕ → System → Type 0
Drains k s = (n : ℕ) × (t : System) × (n ≤ 4 * k) × Runs n s t × Drained s t

drain_after :
    (k : ℕ) (q : Queue) (p : Producer) (l h : List Msg) (last : Bool)
    → (Reach (at q p waiting l h) → Drains k (at q p waiting l h))
    → Reach (at q p (after last) l h)
    → Drains k (at q p (after last) l h)
drain_after k q p l h true ih r = (0, _, omega arith, done, (refl, inl refl))
drain_after k q p l h false ih r = ih r

drain :
    (k : ℕ) (q : Queue) (p : Producer) (l h : List Msg)
    → Reach (at q p waiting l h)
    → q.tail ≤ q.head + k
    → Drains k (at q p waiting l h)
drain zero q p l h r b = (0, _, omega arith, done, (refl, inr (drained_at q p l h r (omega arith))))
drain (suc k) q p l h r b = elim (dec_lt q.head q.tail) [
  | no none_left ↦ (0, _, omega arith, done, (refl, inr (drained_at q p l h r (omega arith))))
  | yes left ↦
      let next = move_head q (q.head + 1) in
      let h' = h ++ (q.msg (q.head + 1) ∷ []) in
      let (n, t, few, runs, rest) =
        drain_after k next p l h' (is_stop (q.msg (q.head + 1)))
          (λ r'. drain k next p l h' r' (omega arith)) (one_message-Reach q p l h left r) in
      (suc (suc (suc (suc n))), t, omega (arith, few), one_message q p l h left r runs, rest)
]

-- Liveness: from every reachable state in which the render thread polls the queue, with `k` messages
-- not handled, it alone comes in at most four accesses for each of them to a state in which all
-- that was sent is handled, unless a message stops it.
pub all_handled :
    (q : Queue) (p : Producer) (l h : List Msg)
    → Reach (at q p waiting l h)
    → (n : ℕ) × (t : System) × (n ≤ 4 * (q.tail - q.head))
      × Runs n (at q p waiting l h) t
      × Drained (at q p waiting l h) t
all_handled q p l h r = drain (q.tail - q.head) q p l h r (omega arith)
