-- ===== src/Util/Alloc.antt =====
-- util/alloc.c: allocators, and memory at aligned addresses. The C library's allocation and the
-- memory are a parameter; a byte is a number below 256, and allocation is taken to succeed.
pub mod Aligned
use Prim.Native.Nat.{bit_and}
use intense_logic.Base.{
  ℕ, zero, suc, ◌+◌, ◌-◌, ◌*◌, ◌/◌, ◌%◌, ◌^◌, ◌≤◌, ◌<◌, min, ◌≡◌, refl, sym, ap, ap₂, ◌∙◌, ◌≢◌, ◌↔◌,
  ◌⊎◌, inl, inr, Bool, true, false, not, ◌&&◌, ◌||◌, Option, none, some, List, [], ◌∷◌, ◌++◌, map,
  append-nil, append_assoc, arith, ltb, leb, ◌==◌, if◌then◌else◌, length, get_elem?, get_or, set,
  take, drop, replicate, copy_at, Bool-cases, dec_lt, ℕ_discrete,
}

-- The heap of the C library, and its bytes
pub record Heap (S : Type 0) : Type 0 where
  pub malloc : S → ℕ → S × ℕ
  pub calloc : S → ℕ → S × ℕ
  pub free : S → ℕ → S
  pub read : S → ℕ → ℕ
  pub write : S → ℕ → ℕ → S

-- A byte that is written is read back, and no other byte changes.
pub record IsHeap {S : Type 0} (h : Heap S) : Type 0 where
  pub read-write : (s : S) (p v : ℕ) → h.read (h.write s p v) p ≡ v
  pub read-write_other : (s : S) (p q v : ℕ) → q ≢ p → h.read (h.write s p v) q ≡ h.read s q

-- `struct il_allocator`: its functions with its `user`
pub record Allocator (S : Type 0) : Type 0 where
  pub alloc : S → ℕ → S × ℕ
  pub free : S → ℕ → S

-- `(ptr + align) & ~(align - 1)`: the mask clears the bits that `ptr + align` has of `align - 1`.
abbrev pub align_up : ℕ → ℕ → ℕ
align_up align ptr = ptr + align - bit_and (ptr + align) (align - 1)

module _ {S : Type 0} (h : Heap S) where
  -- `memset` and `memcpy`, byte by byte
  unfoldable pub memset : S → ℕ → ℕ → ℕ → S
  memset s p v zero = s
  memset s p v (suc n) = h.write (memset s p v n) (p + n) v

  unfoldable pub memcpy : S → ℕ → ℕ → ℕ → S
  memcpy s dst src zero = s
  memcpy s dst src (suc n) =
      let s' = memcpy s dst src n in h.write s' (dst + n) (h.read s' (src + n))

  -- `il_default_alloc`
  abbrev pub default_alloc : Allocator S
  default_alloc = record { alloc = h.calloc; free = h.free }

  -- NULL is the default allocator.
  abbrev pub or_default : Option (Allocator S) → Allocator S
  or_default none = default_alloc
  or_default (some a) = a

  -- `il_alloc`
  unfoldable pub il_alloc : Option (Allocator S) → S → ℕ → S × ℕ
  il_alloc self s size = (or_default self).alloc s size

  -- `il_calloc`, which does not test for NULL; the product wraps.
  unfoldable pub il_calloc : Option (Allocator S) → S → ℕ → ℕ → Option (S × ℕ)
  il_calloc none s nmemb size = none
  il_calloc (some a) s nmemb size = some (a.alloc s (nmemb * size % 2 ^ 64))

  -- `il_realloc`: `oldsize` bytes are copied, also if the new block has fewer.
  unfoldable pub il_realloc : Option (Allocator S) → S → ℕ → ℕ → ℕ → S × ℕ
  il_realloc self s ptr oldsize newsize =
      let a = or_default self in
      let (s1, new) = a.alloc s newsize in (a.free (memcpy s1 new ptr oldsize) ptr, new)

  -- `il_free`
  unfoldable pub il_free : Option (Allocator S) → S → ℕ → S
  il_free self s ptr = (or_default self).free s ptr

  -- `aligned_malloc`, where the C library has no `aligned_alloc`: the byte before the block holds how
  -- far it is moved.
  unfoldable pub aligned_malloc : S → ℕ → ℕ → S × ℕ
  aligned_malloc s align size =
      let (s1, ptr) = h.malloc s (size + align) in
      let aligned = align_up align ptr in
      (h.write s1 (aligned - 1) ((aligned - ptr) % 256), aligned)

  -- `aligned_free`: a `char` is signed.
  unfoldable pub aligned_free : S → ℕ → S
  aligned_free s ptr =
      let c = h.read s (ptr - 1) in
      if ltb c 128 then h.free s (ptr - c) else h.free s (ptr + (256 - c))

  -- `alloc_aligned`
  unfoldable pub alloc_aligned : ℕ → S → ℕ → S × ℕ
  alloc_aligned align s size =
      let (s1, ptr) = aligned_malloc s align size in (memset s1 ptr 0 size, ptr)

  -- `il_allocator_aligned`: the allocator's own block, with its `user`, is not in the result.
  unfoldable pub allocator_aligned : ℕ → Allocator S
  allocator_aligned align = record { alloc = alloc_aligned align; free = aligned_free }
