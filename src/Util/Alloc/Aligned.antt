-- ===== src/Util/Alloc/Aligned.antt =====
-- util/alloc.c: aligned blocks, and what is given back.
use intense_logic.Base.{
  lt→ltb, bit_and-mask, power_positive, ◌^◌, ℕ, zero, suc, ◌+◌, ◌-◌, ◌*◌, ◌/◌, ◌%◌, ◌≤◌, ◌<◌, ◌≡◌,
  refl, ap, ◌∙◌, arith, ℕ_discrete,
}
use Prim.Native.Nat.{bit_and}
use native.Mathlib.Nat.{mod-lt, mod-add-div, mul-mod_right}
use intense_logic.Util.Alloc.{
  Heap, IsHeap, memset, align_up, aligned_malloc, aligned_free, alloc_aligned,
}

-- Where an aligned block stands, for a block that starts at `ptr`
align_up_bounds :
    (align k ptr : ℕ)
    → align ≡ 2 ^ k
    → (ptr < align_up align ptr)
      × (align_up align ptr ≤ ptr + align)
      × (align_up align ptr % align ≡ 0)
align_up_bounds align k ptr e =
    let cleared : bit_and (ptr + align) (align - 1) ≡ (ptr + align) % align =
      rw e (bit_and-mask k (ptr + 2 ^ k)) in
    let lt = mod-lt (ptr + align) {m = align} (omega (arith, e, power_positive k)) in
    let parts = mod-add-div (ptr + align) align in
    (
      omega (arith, lt, cleared),
      omega arith,
      ap (λ n. n % align) {x = align_up align ptr} {y = align * ((ptr + align) / align)}
            (omega (arith, parts, cleared))
          ∙ mul-mod_right align ((ptr + align) / align),
    )

module _ {S : Type 0} (h : Heap S) (laws : IsHeap h) where
  -- Filling a block changes no byte before it, and all of it.
  memset-before : (s : S) (p v n q : ℕ) → q < p → h.read (memset h s p v n) q ≡ h.read s q
  unfolding memset
  memset-before s p v zero q k = refl
  memset-before s p v (suc n) q k =
      laws.read-write_other (memset h s p v n) (p + n) q v (λ e. omega (arith, e))
      ∙ memset-before s p v n q k

  memset-inside : (s : S) (p v n i : ℕ) → i < n → h.read (memset h s p v n) (p + i) ≡ v
  unfolding memset
  memset-inside s p v zero i k = absurd (omega arith)
  memset-inside s p v (suc n) i k = elim (ℕ_discrete i n) [
    | yes same ↦
        ap (λ j. h.read (memset h s p v (suc n)) (p + j)) same
        ∙ laws.read-write (memset h s p v n) (p + n) v
    | no other ↦
        laws.read-write_other (memset h s p v n) (p + n) (p + i) v (λ e. other (omega (arith, e)))
        ∙ memset-inside s p v n i (omega (arith, other))
  ]

  -- What `free` is given, for a block that is moved by `d`
  aligned_free_runs :
      (t : S) (ptr d : ℕ)
      → 0 < d
      → d < 128
      → h.read t (ptr + d - 1) ≡ d
      → aligned_free h t (ptr + d) ≡ h.free t ptr
  unfolding aligned_free
  aligned_free_runs t ptr d some_move small e =
      rw (e, lt→ltb d 128 small) (ap (h.free t) {x = ptr + d - d} {y = ptr} (omega arith))

  -- A block of an aligned allocator, for an alignment that is a power of
  -- two below 128, stands at a multiple of it inside
  -- the block that malloc gave, and each of its bytes is zero. Freeing it gives that block back, in a
  -- later state that keeps the byte before it. The heap returns the bytes that are written.
  pub alloc_aligned_lem :
      (align k size : ℕ) (s t : S) (i : ℕ)
      → align ≡ 2 ^ k
      → align < 128
      → i < size
      → h.read t ((alloc_aligned h align s size).1 - 1)
        ≡ h.read (alloc_aligned h align s size).0 ((alloc_aligned h align s size).1 - 1)
      → let p = (h.malloc s (size + align)).1 in
        let (s', a) = alloc_aligned h align s size in
        (a % align ≡ 0)
        × (p < a)
        × (a + size ≤ p + (size + align))
        × (h.read s' (a + i) ≡ 0)
        × (aligned_free h t a ≡ h.free t p)
  unfolding alloc_aligned aligned_malloc
  alloc_aligned_lem align k size s t i power small l e =
      let p = (h.malloc s (size + align)).1 in
      let s1 = (h.malloc s (size + align)).0 in
      let a = align_up align p in
      let (after, within, even) = align_up_bounds align k p power in
      let s2 = h.write s1 (a - 1) ((a - p) % 256) in
      let mark : h.read (memset h s2 a 0 size) (a - 1) ≡ a - p =
        memset-before s2 a 0 size (a - 1) (omega (arith, after))
        ∙ laws.read-write s1 (a - 1) ((a - p) % 256)
        ∙ omega (arith, after, within) in
      (
        even,
        after,
        omega (arith, within),
        memset-inside s2 a 0 size i l,
        ap (aligned_free h t) {x = a} {y = p + (a - p)} (omega (arith, after))
            ∙ aligned_free_runs t p (a - p) (omega (arith, after)) (omega (arith, within)) (
                ap (λ n. h.read t (n - 1)) {x = p + (a - p)} {y = a} (omega (arith, after))
                ∙ e
                ∙ mark),
      )
