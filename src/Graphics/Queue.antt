-- ===== src/Graphics/Queue.antt =====
-- graphics/context.c: the queue between the thread that sends messages to a context (the producer)
-- and the render thread (the consumer), a shared access at a time, in any interleaving. There is one
-- producer, and the accesses of one thread are seen by the other in their order.
pub mod Invariant
pub mod Kept
pub mod Safety
pub mod Drain
use intense_logic.Base.{
  ℕ, zero, suc, ◌+◌, ◌-◌, ◌*◌, ◌/◌, ◌%◌, ◌^◌, ◌≤◌, ◌<◌, min, ◌≡◌, refl, sym, ap, ap₂, ◌∙◌, ◌≢◌, ◌↔◌,
  ◌⊎◌, inl, inr, Bool, true, false, not, ◌&&◌, ◌||◌, Option, none, some, List, [], ◌∷◌, ◌++◌, map,
  append-nil, append_assoc, arith, ltb, leb, ◌==◌, if◌then◌else◌, length, get_elem?, get_or, set,
  take, drop, replicate, copy_at, Bool-cases, dec_lt, ℕ_discrete,
}

-- `struct ilG_context_msg`, without its link: its type and the fields of its union.
pub data Msg : Type 0 where
  upload : (cb ptr : ℕ) → Msg
  resize : (w h : ℕ) → Msg
  stop : Msg
  message : (node type value : ℕ) → Msg

abbrev pub is_stop : Msg → Bool
is_stop stop = true
is_stop _ = false

-- A node is the number of its allocation: of those that are compared all are alive.
pub record Queue : Type 0 where
  pub alive : ℕ → Bool
  pub next : ℕ → Option ℕ
  pub msg : ℕ → Msg
  pub fresh : ℕ
  pub first : ℕ
  pub head : ℕ
  pub tail : ℕ

-- Where the producer stands in `produce`; `broken` is an access to a freed node or to NULL.
pub data Producer : Type 0 where
  idle : Producer
  filled : (n : ℕ) → Producer
  linked : (n : ℕ) → Producer
  reclaiming : Producer
  broken : Producer

-- Where the consumer stands in the loop of `render_thread`. `done_consume` is called after a
-- message, and after `ILG_STOP` (then `last` is true).
pub data Consumer : Type 0 where
  waiting : Consumer
  ready : Consumer
  handling : (m : ℕ) → Consumer
  releasing : (last : Bool) → Consumer
  stopped : Consumer
  broken : Consumer

-- The queue, both threads, the messages sent and those handled, in their order.
pub record System : Type 0 where
  pub queue : Queue
  pub producer : Producer
  pub consumer : Consumer
  pub sent : List Msg
  pub handled : List Msg

abbrev pub update {ℓ} : {A : Type ℓ} → (ℕ → A) → ℕ → A → ℕ → A
update f i a j = if i == j then a else f j

-- `queue_init`: one node, which counts as handled.
abbrev pub queue_init : Queue
queue_init = record {
  alive = update (λ _. false) 0 true;
  next = λ _. none;
  msg = λ _. stop;
  fresh = 1;
  first = 0;
  head = 0;
  tail = 0;
}

-- `calloc` and the filling of a message, as in `ilG_context_upload`; `msg->next = NULL`.
unfoldable pub allocate : Queue → Msg → Queue
allocate q m = record q {
  alive = update q.alive q.fresh true;
  next = update q.next q.fresh none;
  msg = update q.msg q.fresh m;
  fresh = q.fresh + 1;
}

-- The writes of `produce` and of `done_consume`
abbrev pub link_tail : Queue → ℕ → Queue
link_tail q n = record q { next = update q.next q.tail (some n) }

abbrev pub move_tail : Queue → ℕ → Queue
move_tail q n = record q { tail = n }

abbrev pub free_first : Queue → ℕ → Queue
free_first q n = record q { first = n; alive = update q.alive q.first false }

abbrev pub move_head : Queue → ℕ → Queue
move_head q n = record q { head = n }

-- The accesses of `produce`, and of `consume` and `done_consume`
pub data Produce : Queue → Producer → List Msg → Queue → Producer → List Msg → Type 0 where
  send : {q : Queue} {l : List Msg} (m : Msg) → Produce q idle l (allocate q m) (filled q.fresh) l
  link :
      {q : Queue} {l : List Msg} {n : ℕ}
      → q.alive q.tail ≡ true
      → Produce q (filled n) l (link_tail q n) (linked n) l
  link_broken :
      {q : Queue} {l : List Msg} {n : ℕ}
      → q.alive q.tail ≡ false
      → Produce q (filled n) l q broken l
  publish :
      {q : Queue} {l : List Msg} {n : ℕ}
      → Produce q (linked n) l (move_tail q n) reclaiming (l ++ (q.msg n ∷ []))
  reclaim :
      {q : Queue} {l : List Msg} {n : ℕ}
      → q.first ≢ q.head
      → q.alive q.first ≡ true
      → q.next q.first ≡ some n
      → Produce q reclaiming l (free_first q n) reclaiming l
  reclaim_dead :
      {q : Queue} {l : List Msg}
      → q.first ≢ q.head
      → q.alive q.first ≡ false
      → Produce q reclaiming l q broken l
  reclaim_null :
      {q : Queue} {l : List Msg}
      → q.first ≢ q.head
      → q.next q.first ≡ none
      → Produce q reclaiming l q broken l
  produced : {q : Queue} {l : List Msg} → q.first ≡ q.head → Produce q reclaiming l q idle l

abbrev pub after : Bool → Consumer
after last = if last then stopped else waiting

pub data Consume : Queue → Consumer → List Msg → Queue → Consumer → List Msg → Type 0 where
  empty : {q : Queue} {l : List Msg} → q.head ≡ q.tail → Consume q waiting l q waiting l
  poll : {q : Queue} {l : List Msg} → q.head ≢ q.tail → Consume q waiting l q ready l
  fetch :
      {q : Queue} {l : List Msg} {m : ℕ}
      → q.alive q.head ≡ true
      → q.next q.head ≡ some m
      → Consume q ready l q (handling m) l
  fetch_null : {q : Queue} {l : List Msg} → q.next q.head ≡ none → Consume q ready l q waiting l
  fetch_dead : {q : Queue} {l : List Msg} → q.alive q.head ≡ false → Consume q ready l q broken l
  handle :
      {q : Queue} {l : List Msg} {m : ℕ}
      → q.alive m ≡ true
      → Consume q (handling m) l q (releasing (is_stop (q.msg m))) (l ++ (q.msg m ∷ []))
  handle_dead :
      {q : Queue} {l : List Msg} {m : ℕ} → q.alive m ≡ false → Consume q (handling m) l q broken l
  skip :
      {q : Queue} {l : List Msg} {last : Bool}
      → q.head ≡ q.tail
      → Consume q (releasing last) l q (after last) l
  release :
      {q : Queue} {l : List Msg} {last : Bool} {n : ℕ}
      → q.head ≢ q.tail
      → q.alive q.head ≡ true
      → q.next q.head ≡ some n
      → Consume q (releasing last) l (move_head q n) (after last) l
  release_dead :
      {q : Queue} {l : List Msg} {last : Bool}
      → q.head ≢ q.tail
      → q.alive q.head ≡ false
      → Consume q (releasing last) l q broken l
  release_null :
      {q : Queue} {l : List Msg} {last : Bool}
      → q.head ≢ q.tail
      → q.next q.head ≡ none
      → Consume q (releasing last) l q broken l

-- One access of either thread
pub data Step (s : System) : System → Type 0 where
  by_producer :
      {q : Queue} {p : Producer} {l : List Msg}
      → Produce s.queue s.producer s.sent q p l
      → Step s (record s { queue = q; producer = p; sent = l })
  by_consumer :
      {q : Queue} {c : Consumer} {l : List Msg}
      → Consume s.queue s.consumer s.handled q c l
      → Step s (record s { queue = q; consumer = c; handled = l })

abbrev pub initial : System
initial = record {
  queue = queue_init;
  producer = idle;
  consumer = waiting;
  sent = [];
  handled = [];
}

pub data Reach : System → Type 0 where
  start : Reach initial
  later : {s t : System} → Reach s → Step s t → Reach t
