-- ===== src/Util/Logger/Ring.antt =====
-- util/logger.c: the messages that a logger keeps.
use mathlib.Core.Path.{subst}
use intense_logic.Base.{
  ne→==_false, ℕ, zero, suc, ◌+◌, ◌-◌, ◌%◌, ◌≤◌, ◌<◌, ◌≡◌, refl, ap, ◌∙◌, Option, none, some, List,
  [], ◌∷◌, ◌++◌, arith, ◌==◌, if◌then◌else◌, length, get_elem?, set, take, replicate, ℕ_discrete,
}
use native.Mathlib.Nat.{add-mul-mod_self_left, mod-eq_of_lt}
use intense_logic.Base.{
  ◌>>=◌, bind_some, length-replicate, length-set, get_elem?-set_self, get_elem?-set_ne,
}
use intense_logic.Util.Logger.{LogMsg, Logger, slot, get_message, set_buffering, buffer_message}

-- Messages that are kept one after the other
unfoldable pub buffer_all : Logger → List LogMsg → Option Logger
buffer_all l [] = some l
buffer_all l (m ∷ ms) = buffer_message l m >>= λ (l', out). buffer_all l' ms

-- No message that a logger keeps can be asked for by its number: the assertion is the wrong way
-- round.
pub get_message_fails :
    (l : Logger) (id : ℕ) → l.offset ≤ id → id < l.offset + l.len → get_message l id ≡ none
unfolding get_message
get_message_fails l id a b = ground arith

-- A buffer of `n` slots that keeps `k` messages: the first slot was never written.
record IsFilling (n k : ℕ) (l : Logger) : Type 0 where
  slots : l.capacity ≡ n
  long : length l.buffer ≡ n
  begin : l.start ≡ 0
  last : (l.ends + 1) % n ≡ (if k + 1 == n then 0 else k + 1)
  unused : get_elem? l.buffer 0 ≡ some none

next_slot : (n k : ℕ) → k + 1 < n → (k + 1 + 1) % n ≡ (if k + 1 + 1 == n then 0 else k + 1 + 1)
next_slot n k h = elim (ℕ_discrete (k + 1 + 1) n) [
  | yes e ↦ rw e (grind arith)
  | no e ↦ rw (ne→==_false (k + 1 + 1) n e) (grind arith)
]

empty_buffer : (n : ℕ) → take {A = Option LogMsg} n [] ++ replicate (n - 0) none ≡ replicate n none
empty_buffer zero = refl
empty_buffer (suc n) = ap (λ k. replicate k none) {x = suc n - 0} {y = suc n} (omega arith)

first_slot : (n : ℕ) → 0 < n → get_elem? (replicate {A = Option LogMsg} n none) 0 ≡ some none
first_slot zero h = absurd (omega arith)
first_slot (suc n) h = refl

wrapped : (n : ℕ) → 1 < n → (n + 1) % n ≡ 1
wrapped n h = grind (arith, add-mul-mod_self_left 1 n 1, mod-eq_of_lt h)

set_buffering-IsFilling :
    (l : Logger) (n : ℕ) → l.buffer ≡ [] → 0 < n → IsFilling n 0 (set_buffering l n)
unfolding set_buffering
set_buffering-IsFilling l n e h =
    rw (e, empty_buffer n)
      (record {
        slots = refl;
        long = length-replicate n none;
        begin = refl;
        last = elim (ℕ_discrete 1 n) [
          | yes q ↦ rw (← q) refl
          | no q ↦ rw (ne→==_false 1 n q) (wrapped n (omega arith))
        ];
        unused = first_slot n h;
      })

-- One more message, while there is room
keep :
    (n k : ℕ) (l : Logger) (m : LogMsg)
    → IsFilling n k l
    → k + 1 < n
    → (l' : Logger) × (buffer_message l m ≡ some (l', []))
      × IsFilling n (k + 1) l'
      × (l'.buffer ≡ set l.buffer (k + 1) (some m))
unfolding buffer_message
keep n k l m f h =
    let next : (l.ends + 1) % n ≡ k + 1 = f.last ∙ rw (ne→==_false (k + 1) n (omega arith)) refl in
    (
      record l { ends = k + 1; len = l.len + 1; buffer = set l.buffer (k + 1) (some m) },
      rw
          (
            f.slots,
            next,
            f.begin,
            ne→==_false n 0 (omega arith),
            ne→==_false (k + 1) 0 (omega arith),
          )
          refl,
      record {
        slots = f.slots;
        long = length-set l.buffer (k + 1) (some m) ∙ f.long;
        begin = f.begin;
        last = next_slot n k h;
        unused = get_elem?-set_ne l.buffer (k + 1) 0 (some m) (omega arith) ∙ f.unused;
      },
      refl,
    )

full : (n k : ℕ) (l : Logger) (m : LogMsg) → IsFilling n k l → k + 1 ≡ n → buffer_message l m ≡ none
unfolding buffer_message
full n k l m f h =
    let next : (l.ends + 1) % n ≡ 0 = f.last ∙ ground (arith, h) in
    rw (f.slots, next, f.begin, ne→==_false n 0 (omega arith), f.unused) refl

-- What `k` messages and then `ms` leave in the slots
record IsKept (n k : ℕ) (ms : List LogMsg) (l l' : Logger) : Type 0 where
  pub filling : IsFilling n (k + length ms) l'
  pub kept : (i : ℕ) (m : LogMsg) → get_elem? ms i ≡ some m → slot l' (k + 1 + i) ≡ some m
  pub before : (j : ℕ) → j < k + 1 → get_elem? l'.buffer j ≡ get_elem? l.buffer j

kept_cons :
    (k : ℕ) (m : LogMsg) (ms : List LogMsg) (l : Logger)
    → get_elem? l.buffer (k + 1) ≡ some (some m)
    → ((i : ℕ) (x : LogMsg) → get_elem? ms i ≡ some x → slot l (k + 1 + 1 + i) ≡ some x)
    → (i : ℕ) (x : LogMsg) → get_elem? (m ∷ ms) i ≡ some x
    → slot l (k + 1 + i) ≡ some x
kept_cons k m ms l e h zero x q =
    ap (slot l) {x = k + 1 + 0} {y = k + 1} (omega arith) ∙ bind_some _ e ∙ q
kept_cons k m ms l e h (suc i) x q =
    ap (slot l) {x = k + 1 + suc i} {y = k + 1 + 1 + i} (omega arith) ∙ h i x q

keep_all :
    (n k : ℕ) (ms : List LogMsg) (l : Logger)
    → IsFilling n k l
    → k + length ms < n
    → (l' : Logger) × (buffer_all l ms ≡ some l') × IsKept n k ms l l'
unfolding buffer_all
keep_all n k [] l f h = (
  l,
  refl,
  record {
    filling = subst (λ j. IsFilling n j l) {x = k} {y = k + 0} (omega arith) f;
    kept = λ i m e. cc;
    before = λ j p. refl;
  },
)
keep_all n k (m ∷ ms) l f h =
    let (l', e, g, b) = keep n k l m f (omega arith) in
    let (l'', e', r) = keep_all n (k + 1) ms l' g (omega arith) in
    (
      l'',
      bind_some _ e ∙ e',
      record {
        filling =
            subst (λ j. IsFilling n j l'') {x = k + 1 + length ms} {y = k + suc (length ms)}
              (omega arith) r.filling;
        kept =
            kept_cons k m ms l''
              (r.before (k + 1) (omega arith)
                ∙ ap (λ buf. get_elem? buf (k + 1)) b
                ∙ get_elem?-set_self l.buffer (k + 1) (some m) (omega (arith, f.long)))
              r.kept;
        before = λ j p.
            r.before j (omega arith)
            ∙ ap (λ buf. get_elem? buf j) b
            ∙ get_elem?-set_ne l.buffer (k + 1) j (some m) (omega arith);
      },
    )

fill_up :
    (n k : ℕ) (ms : List LogMsg) (l : Logger)
    → IsFilling n k l
    → k + length ms ≡ n
    → k < n
    → buffer_all l ms ≡ none
unfolding buffer_all
fill_up n k [] l f e h = absurd (omega arith)
fill_up n k (m ∷ ms) l f e h = elim (ℕ_discrete (k + 1) n) [
  | yes q ↦ rw (full n k l m f q) refl
  | no q ↦
      let (l', p, g, b) = keep n k l m f (omega arith) in
      bind_some _ p ∙ fill_up n (k + 1) ms l' g (omega arith) (omega arith)
]

-- Fewer than `n` messages stay in the slots from 1 on.
set_buffering_keeps :
    (l : Logger) (n : ℕ) (ms : List LogMsg)
    → l.buffer ≡ []
    → length ms < n
    → (l' : Logger) × (buffer_all (set_buffering l n) ms ≡ some l')
      × ((i : ℕ) (m : LogMsg) → get_elem? ms i ≡ some m → slot l' (1 + i) ≡ some m)
set_buffering_keeps l n ms e h =
    let (l', p, k) =
      keep_all n 0 ms (set_buffering l n) (set_buffering-IsFilling l n e (omega arith))
        (omega arith) in
    (l', p, λ i m q. ap (slot l') {x = 1 + i} {y = 0 + 1 + i} (omega arith) ∙ k.kept i m q)

-- A logger that is told to buffer `n` messages, at least one, and has no buffer yet, keeps the first
-- ones in the slots from 1 on, as long as they are fewer than `n`. The `n`th message makes it fail: it
-- destroys what stands in a slot that was never written.
pub set_buffering_lem :
    (l : Logger) (n : ℕ) (ms : List LogMsg)
    → l.buffer ≡ []
    → 0 < n
    → (length ms < n
        → (l' : Logger) × (buffer_all (set_buffering l n) ms ≡ some l')
          × ((i : ℕ) (m : LogMsg) → get_elem? ms i ≡ some m → slot l' (1 + i) ≡ some m))
      × (length ms ≡ n → buffer_all (set_buffering l n) ms ≡ none)
set_buffering_lem l n ms e h = (
  set_buffering_keeps l n ms e,
  λ q. fill_up n 0 ms (set_buffering l n) (set_buffering-IsFilling l n e h) (omega arith) h,
)
