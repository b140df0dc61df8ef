-- ===== src/Util/IlString/Concat.antt =====
-- util/string.c: concatenation.
use intense_logic.Base.{
  length-set, take-append, length-replicate, length-copy_at, le→leb, le→ltb_false, ne→==_false,
  take-append_add, ==_iff, lt→leb_false, take-take, length-take, length-append, ℕ, ◌+◌, ◌*◌, ◌≤◌,
  ◌<◌, ◌≡◌, refl, ap, ◌∙◌, true, false, some, List, ◌∷◌, ◌++◌, append-nil, arith, leb, ◌==◌,
  if◌then◌else◌, length, set, take, replicate, copy_at, dec_lt,
}
use intense_logic.Base.{Bool-cases, inl, inr, false, none, ◌∙◌}
use intense_logic.Base.{strnlen, NoNul, strnlen-le, NoNul-strnlen, NoNul-append, strnlen-append}
use intense_logic.Util.IlString.{
  IlString, text, verify, sealed, string_cat, string_resize, joined, copy_in,
}
use intense_logic.Util.IlString.Verify.{verify-Parts, verify-sealed, joined_bytes}

-- A string that may be written to: it has all the storage that its capacity says, from its start on.
pub record IsString (s : IlString) : Type 0 where
  pub verified : verify s ≡ true
  pub owned : s.start ≡ s.data_at
  pub storage : s.capacity ≤ length s.bytes

joined_lem :
    (s : IlString) (t : List ℕ) (a b : ℕ)
    → IsString s
    → a + b < s.capacity
    → b ≤ length t
    → NoNul (take a s.bytes ++ take b t)
    → (r : IlString) × (joined s a t b ≡ some (true, r))
      × IsString r
      × (text r ≡ take a s.bytes ++ take b t)
unfolding joined sealed
joined_lem s t a b v h m n =
    let (rest, e) = joined_bytes s.bytes t a b (omega (arith, v.storage)) m in
    let front : List ℕ = take a s.bytes ++ take b t in
    let long : a + b ≡ length front = omega (
      arith,
      length-append (take a s.bytes) (take b t),
      length-take a s.bytes,
      length-take b t,
      v.storage,
    ) in
    let p = verify-Parts s v.verified in
    let r : IlString = record s {
      length = a + b;
      bytes = set (copy_at s.bytes a (take b t) b) (a + b) 0;
    } in
    let measured : strnlen (front ++ (0 ∷ rest)) (a + b) ≡ a + b =
      strnlen-append front (0 ∷ rest) (a + b) n long in
    (
      sealed r,
      rw (lt→leb_false (length s.bytes) (a + b) (omega (arith, v.storage))) refl,
      record {
        verified = verify-sealed r (record {
          has_data = p.has_data;
          has_start = p.has_start;
          in_order = p.in_order;
          fits = omega arith;
          referred = p.referred;
        });
        owned = v.owned;
        storage = omega (
          arith,
          v.storage,
          length-set (copy_at s.bytes a (take b t) b) (a + b) 0,
          length-copy_at s.bytes a (take b t) b (omega (arith, v.storage))
              (omega (arith, length-take b t)),
        );
      },
      rw (e, measured)
          (take-append_add (a + b) 0 front (0 ∷ rest) (omega (arith, long)) ∙ append-nil front),
    )

resize_lem :
    (at : ℕ) (s : IlString) (n : ℕ)
    → IsString s
    → (at == 0) ≡ false
    → s.capacity ≤ n
    → 0 < n
    → (r : IlString) × (string_resize at s n ≡ some (true, r))
      × IsString r
      × (r.start ≡ at)
      × (r.capacity ≡ n)
      × ((k : ℕ) → k ≤ s.length → take k r.bytes ≡ take k s.bytes)
unfolding string_resize sealed
resize_lem at s n v h le pos_n =
    let p = verify-Parts s v.verified in
    let r : IlString = record s {
      data_at = at;
      start = at;
      capacity = n;
      bytes = copy_at (replicate n 0) 0 s.bytes s.length;
    } in
    (
      sealed r,
      rw
          (
            v.verified,
            ne→==_false n 0 (omega arith),
            le→ltb_false n s.capacity le,
            (==_iff s.start s.data_at).1 v.owned,
          )
          refl,
      record {
        verified = verify-sealed r (record {
          has_data = h;
          has_start = h;
          in_order = le→leb at at (omega arith);
          fits = omega (arith, p.fits);
          referred = p.referred;
        });
        owned = refl;
        storage = omega (
          arith,
          length-copy_at (replicate n 0) 0 s.bytes s.length
              (omega (arith, p.fits, length-replicate {A = ℕ} n 0))
              (omega (arith, p.fits, v.storage)),
          length-replicate {A = ℕ} n 0,
        );
      },
      refl,
      refl,
      λ k kl.
          take-append k (take s.length s.bytes) _
            (omega (arith, length-take s.length s.bytes, p.fits, v.storage))
          ∙ take-take k s.length s.bytes kl,
    )

-- A copy from other storage is neither a read of freed memory nor an overlap.
copy_in_apart :
    (s r t : IlString) (a b : ℕ)
    → (t.start == s.start) ≡ false
    → (t.start == r.start) ≡ false
    → copy_in s r a t b ≡ joined r a t.bytes b
unfolding copy_in
copy_in_apart s r t a b e d = elim (Bool-cases (r.start == s.start)) [
  | inl q ↦ rw (q, d) refl
  | inr q ↦ rw (q, e, d) refl
]

cat_in_place :
    (at : ℕ) (s t r : IlString)
    → IsString s
    → verify t ≡ true
    → (t.start == s.start) ≡ false
    → strnlen s.bytes s.length + strnlen t.bytes t.length < s.capacity
    → joined s (strnlen s.bytes s.length) t.bytes (strnlen t.bytes t.length) ≡ some (true, r)
    → string_cat at s t ≡ some (true, r)
unfolding string_cat
cat_in_place at s t r v w apart room run =
    rw
      (
        v.verified,
        w,
        lt→leb_false s.capacity (strnlen s.bytes s.length + strnlen t.bytes t.length) room,
      )
      (copy_in_apart s s t (strnlen s.bytes s.length) (strnlen t.bytes t.length) apart apart ∙ run)

cat_grown :
    (at : ℕ) (s t m r : IlString)
    → IsString s
    → verify t ≡ true
    → (t.start == s.start) ≡ false
    → (t.start == m.start) ≡ false
    → s.capacity ≤ strnlen s.bytes s.length + strnlen t.bytes t.length
    → string_resize at s (
        if leb (s.capacity * 2) (strnlen s.bytes s.length + strnlen t.bytes t.length)
        then strnlen s.bytes s.length + strnlen t.bytes t.length + 1
        else s.capacity * 2)
      ≡ some (true, m)
    → joined m (strnlen s.bytes s.length) t.bytes (strnlen t.bytes t.length) ≡ some (true, r)
    → string_cat at s t ≡ some (true, r)
unfolding string_cat
cat_grown at s t m r v w apart apart1 full grow run =
    rw
      (
        v.verified,
        w,
        le→leb s.capacity (strnlen s.bytes s.length + strnlen t.bytes t.length) full,
        grow,
      )
      (copy_in_apart s m t (strnlen s.bytes s.length) (strnlen t.bytes t.length) apart apart1 ∙ run)

-- Joining a string in other storage to a string in its own succeeds, for a new block that is neither
-- NULL nor in use: the string then reads as the two texts, and has room for what its capacity says.
pub text-string_cat :
    (at : ℕ) (s t : IlString)
    → IsString s
    → verify t ≡ true
    → (t.start == s.start) ≡ false
    → (at == 0) ≡ false
    → (t.start == at) ≡ false
    → (r : IlString) × (string_cat at s t ≡ some (true, r))
      × IsString r
      × (text r ≡ text s ++ text t)
text-string_cat at s t v w apart h fresh =
    let a : ℕ = strnlen s.bytes s.length in
    let b : ℕ = strnlen t.bytes t.length in
    let p = verify-Parts s v.verified in
    let no_nul =
      NoNul-append (text s) (text t) (NoNul-strnlen s.bytes s.length)
        (NoNul-strnlen t.bytes t.length) in
    let lt = strnlen-le t.bytes t.length in
    elim (dec_lt (a + b) s.capacity) [
      | yes room ↦
          let (r, run, vr, e) = joined_lem s t.bytes a b v room (lt.0) no_nul in
          (r, cat_in_place at s t r v w apart room run, vr, e)
      | no full ↦
          let size : ℕ = if leb (s.capacity * 2) (a + b) then a + b + 1 else s.capacity * 2 in
          let big : (s.capacity ≤ size) × (a + b < size) = ground arith in
          let (m, grow, vm, moved, cap, keep) =
            resize_lem at s size v h (big.0) (omega (arith, big)) in
          let front : take a m.bytes ≡ text s =
            keep a (omega (arith, strnlen-le s.bytes s.length)) in
          let (r, run, vr, e) =
            joined_lem m t.bytes a b vm (omega (arith, cap, big)) (lt.0) (rw front no_nul) in
          (
            r,
            cat_grown at s t m r v w apart (ap (λ n. t.start == n) moved ∙ fresh) (omega arith) grow
                run,
            vr,
            e ∙ ap (λ l. l ++ text t) front,
          )
    ]

-- Joining a substring in the same storage, when the storage must grow, reads from it after it is freed.
pub string_cat_shared :
    (at : ℕ) (s t : IlString)
    → IsString s
    → verify t ≡ true
    → (t.start == s.start) ≡ true
    → (at == s.start) ≡ false
    → (at == 0) ≡ false
    → s.capacity ≤ strnlen s.bytes s.length + strnlen t.bytes t.length
    → string_cat at s t ≡ none
unfolding string_cat copy_in
string_cat_shared at s t v w shared fresh h full =
    let a : ℕ = strnlen s.bytes s.length in
    let b : ℕ = strnlen t.bytes t.length in
    let size : ℕ = if leb (s.capacity * 2) (a + b) then a + b + 1 else s.capacity * 2 in
    let big : (s.capacity ≤ size) × (0 < size) = ground arith in
    let (m, grow, vm, moved, cap, keep) = resize_lem at s size v h big.0 big.1 in
    rw (v.verified, w, le→leb s.capacity (a + b) full, grow, moved, fresh, shared) refl
