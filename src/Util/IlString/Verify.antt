-- ===== src/Util/IlString/Verify.antt =====
-- util/string.c: what `il_string_verify` checks, and the bytes that joining leaves.
use intense_logic.Base.{
  le→leb, ==_iff, leb→le, set-mid, take-take, length-take, length-append, drop_all, ℕ, zero, suc,
  ◌+◌, ◌≤◌, ◌<◌, ◌≡◌, refl, sym, ap, ap₂, ◌∙◌, Bool, true, false, not, ◌&&◌, List, [], ◌∷◌, ◌++◌,
  append_assoc, arith, leb, ◌==◌, length, set, take, drop, copy_at,
}
use intense_logic.Util.IlString.{bit_xor, IlString, verify, sealed, compute_canary, is_referred}

not_past_end :
    (s : List ℕ) (n : ℕ) → n < length s → (c : ℕ) × (rest : List ℕ) × (drop n s ≡ c ∷ rest)
not_past_end [] n h = absurd (omega arith)
not_past_end (c ∷ s) zero h = (c, s, refl)
not_past_end (c ∷ s) (suc n) h = not_past_end s n (omega arith)

drop-drop : (n m : ℕ) (s : List ℕ) → drop n (drop m s) ≡ drop (m + n) s
drop-drop n zero s = ap (λ k. drop k s) (omega arith)
drop-drop n (suc m) [] = drop_all n [] (omega arith) ∙ sym (drop_all (suc m + n) [] (omega arith))
drop-drop n (suc m) (c ∷ s) =
    drop-drop n m s ∙ ap (λ k. drop k (c ∷ s)) {x = suc (m + n)} {y = suc m + n} (omega arith)

-- What `joined` leaves at `data`: the two texts and a NUL.
pub joined_bytes :
    (s t : List ℕ) (a b : ℕ)
    → a + b < length s
    → b ≤ length t
    → (rest : List ℕ) × (set (copy_at s a (take b t) b) (a + b) 0
        ≡ (take a s ++ take b t) ++ (0 ∷ rest))
joined_bytes s t a b h m =
    let (c, rest, e) = not_past_end s (a + b) h in
    let front : List ℕ = take a s ++ take b t in
    let long : a + b ≡ length front =
      omega (arith, length-append (take a s) (take b t), length-take a s, length-take b t) in
    let same : copy_at s a (take b t) b ≡ front ++ (c ∷ rest) =
      ap₂ (λ x y. take a s ++ (x ++ y)) (take-take b b t (omega arith)) (drop-drop b a s ∙ e)
      ∙ sym (append_assoc (take a s) (take b t) (c ∷ rest)) in
    (rest, ap (λ l. set l (a + b) 0) same ∙ set-mid front rest c 0 (a + b) long)

-- What `il_string_verify` checks.
pub record Parts (s : IlString) : Type 0 where
  pub has_data : (s.data_at == 0) ≡ false
  pub has_start : (s.start == 0) ≡ false
  pub in_order : leb s.start s.data_at ≡ true
  pub fits : s.length ≤ s.capacity
  pub referred : is_referred s.refs ≡ true

not-true : (b : Bool) → not b ≡ true → b ≡ false
not-true b h = ground arith

and_cases : (a b : Bool) → (a && b) ≡ true → (a ≡ true) × (b ≡ true)
and_cases a b h = ground arith

pub verify-Parts : (s : IlString) → verify s ≡ true → Parts s
unfolding verify
verify-Parts s h =
    let fits : Bool = leb s.length s.capacity in
    let order : Bool = leb s.start s.data_at in
    let seal : Bool = s.canary == compute_canary s in
    let (a, h1) =
      and_cases (not (s.data_at == 0))
        (not (s.start == 0) && (seal && (order && (fits && is_referred s.refs)))) h in
    let (b, h2) =
      and_cases (not (s.start == 0)) (seal && (order && (fits && is_referred s.refs))) h1 in
    let (c, h3) = and_cases seal (order && (fits && is_referred s.refs)) h2 in
    let (d, h4) = and_cases order (fits && is_referred s.refs) h3 in
    let (e, f) = and_cases fits (is_referred s.refs) h4 in
    record {
      has_data = not-true (s.data_at == 0) a;
      has_start = not-true (s.start == 0) b;
      in_order = d;
      fits = leb→le s.length s.capacity e;
      referred = f;
    }

pub verify-sealed : (s : IlString) → Parts s → verify (sealed s) ≡ true
unfolding verify sealed compute_canary
verify-sealed s p =
    let c = (==_iff (bit_xor (bit_xor s.length s.capacity) s.data_at) _).1 refl in
    rw (p.has_data, p.has_start, p.in_order, le→leb s.length s.capacity p.fits, p.referred, c) refl
