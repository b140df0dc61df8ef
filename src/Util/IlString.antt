-- ===== src/Util/IlString.antt =====
-- util/string.c: counted strings. `at` is the address that the allocator gives; strings with the same
-- `start` share their storage. An operation returns only the strings that it is given: what it does to
-- storage that others share is not seen in them. The outer `none` is a fault.
pub mod Verify
pub mod Concat
pub mod Compare
use intense_logic.Base.{
  ℕ, zero, suc, ◌+◌, ◌-◌, ◌*◌, ◌/◌, ◌%◌, ◌^◌, ◌≤◌, ◌<◌, min, ◌≡◌, refl, sym, ap, ap₂, ◌∙◌, ◌≢◌, ◌↔◌,
  ◌⊎◌, inl, inr, Bool, true, false, not, ◌&&◌, ◌||◌, Option, none, some, List, [], ◌∷◌, ◌++◌, map,
  append-nil, append_assoc, arith, ltb, leb, ◌==◌, if◌then◌else◌, length, get_elem?, get_or, set,
  take, drop, replicate, copy_at, Bool-cases, dec_lt, ℕ_discrete,
}
use intense_logic.Base.{ℤ, pos, negsuc, strnlen, ◌>>=◌}
use Prim.Native.Nat.{bit_xor}
use mathlib.Core.Option

-- `il_string`: `bytes` is the storage from `data` on, addresses are numbers and NULL is 0.
pub record IlString : Type 0 where
  pub length : ℕ
  pub capacity : ℕ
  pub canary : ℕ
  pub data_at : ℕ
  pub start : ℕ
  pub refs : Option ℕ
  pub bytes : List ℕ

-- What a C function sees of it.
abbrev pub text : IlString → List ℕ
text s = take (strnlen s.bytes s.length) s.bytes

-- `compute_canary`
unfoldable pub compute_canary : IlString → ℕ
compute_canary s = bit_xor (bit_xor s.length s.capacity) s.data_at

unfoldable pub sealed : IlString → IlString
sealed s = record s { canary = compute_canary s }

abbrev pub is_referred : Option ℕ → Bool
is_referred none = true
is_referred (some n) = ltb 0 n

-- `il_string_verify`, of a pointer that is not NULL.
unfoldable pub verify : IlString → Bool
verify s =
    not (s.data_at == 0)
    && (not (s.start == 0)
        && ((s.canary == compute_canary s)
            && (leb s.start s.data_at && (leb s.length s.capacity && is_referred s.refs))))

-- `il_string_static`: `start` stays NULL.
unfoldable pub string_static : ℕ → List ℕ → IlString
string_static at s = sealed (record {
  length = length s;
  capacity = length s;
  canary = 0;
  data_at = at;
  start = 0;
  refs = none;
  bytes = s ++ (0 ∷ []);
})

-- `nlen` of `il_string_new`
abbrev pub measured : Option (List ℕ) → ℤ → ℕ
measured none len = 0
measured (some s) (pos n) = min n (length s)
measured (some s) (negsuc n) = length s

-- `nlen < (size_t)len`: a negative length is a large number.
abbrev pub shorter : ℕ → ℤ → Bool
shorter nlen (pos n) = ltb nlen n
shorter nlen (negsuc n) = true

-- `il_string_new`
unfoldable pub string_new : ℕ → Option (List ℕ) → ℤ → IlString
string_new at s len =
    let nlen = measured s len in
    let size = if shorter nlen len then nlen + 1 else nlen in
    elim s [
      | none ↦ sealed (record {
        length = size;
        capacity = 64;
        canary = 0;
        data_at = at;
        start = at;
        refs = some 1;
        bytes = replicate 64 0;
      })
      | some chars ↦ sealed (record {
        length = size;
        capacity = size;
        canary = 0;
        data_at = at;
        start = at;
        refs = some 1;
        bytes = chars ++ (0 ∷ []);
      })
    ]

-- `il_string_bin`
unfoldable pub string_bin : ℕ → List ℕ → ℕ → Option IlString
string_bin at s len =
    if ltb (length s) len
    then none
    else some (
        sealed (record {
          length = len;
          capacity = len;
          canary = 0;
          data_at = at;
          start = at;
          refs = some 1;
          bytes = take len s;
        }))

-- `il_string_copy`: the inner `none` is NULL. The capacity is the old one, the storage is not.
unfoldable pub string_copy : ℕ → IlString → Option IlString
string_copy at s =
    if not (verify s)
    then none
    else some (
        sealed (record {
          length = s.length;
          capacity = s.capacity;
          canary = 0;
          data_at = at;
          start = at;
          refs = some 1;
          bytes = take s.length s.bytes ++ (0 ∷ []);
        }))

-- `il_string_cstring`: `none` is NULL.
unfoldable pub cstring : IlString → Option (List ℕ)
cstring s = if verify s then some (text s) else none

-- `il_string_resize`, with its result. Freeing a pointer into the middle of the storage is a fault.
-- The storage at the old `start` is freed, for all strings that share it.
unfoldable pub string_resize : ℕ → IlString → ℕ → Option (Bool × IlString)
string_resize at s size =
    let n = if size == 0 then (if ltb 32 s.capacity then s.capacity * 2 else 64) else size in
    if not (verify s)
    then some (false, s)
    else if ltb n s.capacity
    then some (true, s)
    else if s.start == s.data_at
    then some (
      true,
      sealed (record s {
        data_at = at;
        start = at;
        capacity = n;
        bytes = copy_at (replicate n 0) 0 s.bytes s.length;
      }),
    )
    else none

-- `il_string_ref`: `none` is NULL.
unfoldable pub string_ref : IlString → Option IlString
string_ref s = if verify s then Option.map (λ n. record s { refs = some (n + 1) }) s.refs else none

-- `il_string_unref`, and whether the string was freed.
unfoldable pub string_unref : IlString → Bool × IlString
string_unref s = if not (verify s) then (false, s) else elim (s.refs) [
  | none ↦ (false, s)
  | some n ↦ (n - 1 == 0, record s { refs = some (n - 1) })
]

-- A position, from the end if it is negative.
abbrev pub position : ℤ → ℕ → Option ℕ
position (pos n) len = some n
position (negsuc n) len = if ltb n len then some (len - (n + 1)) else none

-- `il_string_sub`: the substring, and the string with one more reference. `none` is NULL.
unfoldable pub string_sub : IlString → ℤ → ℤ → Option (IlString × IlString)
string_sub s p1 p2 = if not (verify s) then none else do
  a ← position p1 s.length
  b ← position p2 s.length
  (if ltb s.length a || (ltb s.length b || ltb b a)
      then none
      else some (
        sealed (record {
          length = b - a;
          capacity = s.capacity - a;
          canary = 0;
          data_at = s.data_at + a;
          start = s.start;
          refs = Option.map suc s.refs;
          bytes = drop a s.bytes;
        }),
        record s { refs = Option.map suc s.refs },
      ))

-- `strncmp`: what it returns has the sign of the first difference.
unfoldable pub strncmp : ℕ → List ℕ → List ℕ → ℤ
strncmp zero a b = pos 0
strncmp (suc n) [] b = pos 0
strncmp (suc n) (c ∷ a) [] = pos 0
strncmp (suc n) (c ∷ a) (d ∷ b) =
    let rest = strncmp n a b in
    if ltb c d then negsuc 0 else if ltb d c then pos 1 else if c == 0 then pos 0 else rest

-- `il_string_cmp`, of pointers that are not the same.
unfoldable pub string_cmp : IlString → IlString → ℤ
string_cmp a b =
    if not (verify a && verify b)
    then negsuc 0
    else if a.data_at == b.data_at
    then (if ltb a.length b.length
        then negsuc (b.length - a.length - 1)
        else pos (a.length - b.length))
    else strncmp (if ltb a.length b.length then a.length else b.length) a.bytes b.bytes

-- `il_string_byte`: a `char` is signed.
unfoldable pub string_byte : IlString → ℤ → Option ℤ
string_byte s p = elim (position p s.length) [
  | none ↦ some (negsuc 0)
  | some i ↦
      if leb s.length i
      then some (negsuc 0)
      else Option.map (λ c. if ltb c 128 then pos c else negsuc (255 - c)) (get_elem? s.bytes i)
]

-- The end of `il_string_cat`, when there is room.
unfoldable pub joined : IlString → ℕ → List ℕ → ℕ → Option (Bool × IlString)
joined s a t b =
    if leb (length s.bytes) (a + b)
    then none
    else some (
      true,
      sealed (record s { length = a + b; bytes = set (copy_at s.bytes a (take b t) b) (a + b) 0 }),
    )

-- `strncpy` of `b` bytes to `data + a`, from a string in the same storage whose bytes overlap them
abbrev pub overlaps : IlString → ℕ → IlString → ℕ → Bool
overlaps s a t b =
    t.start == s.start && ltb t.data_at (s.data_at + a + b) && ltb (s.data_at + a) (t.data_at + b)

-- The copy of `il_string_cat`, to `r`, which is the string `s` after it was resized. If that moved it,
-- the old storage is freed, and reading from it is a fault; so is a copy onto bytes that overlap.
unfoldable pub copy_in : IlString → IlString → ℕ → IlString → ℕ → Option (Bool × IlString)
copy_in s r a t b =
    if not (r.start == s.start) && t.start == s.start
    then none
    else if overlaps r a t b
    then none
    else joined r a t.bytes b

-- `il_string_cat` of two strings, not of one with itself, with its result. An allocation gives an
-- address that is not in use.
unfoldable pub string_cat : ℕ → IlString → IlString → Option (Bool × IlString)
string_cat at s t =
    let a = strnlen s.bytes s.length in
    let b = strnlen t.bytes t.length in
    let len = a + b in
    let size = if leb (s.capacity * 2) len then len + 1 else s.capacity * 2 in
    if not (verify s && verify t) then some (false, s) else do
      (ok, r) ← (if leb s.capacity len then string_resize at s size else some (true, s))
      if ok then copy_in s r a t b else some (false, r)

-- `il_string_catchars`; the second address is that of the string made of the characters.
unfoldable pub string_catchars : ℕ → ℕ → IlString → List ℕ → Option (Bool × IlString)
string_catchars at at' s chars =
    string_cat at s (string_new at' (some chars) (pos (length chars + 1)))
