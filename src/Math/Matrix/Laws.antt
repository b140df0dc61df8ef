-- ===== src/Math/Matrix/Laws.antt =====
-- math/matrix.c: the algebra of the operations, without rounding.
use intense_logic.Base.{ℕ, ◌+◌, ◌*◌, ◌==◌, if◌then◌else◌, ◌≡◌, refl, sym, ap, ap₂, ◌∙◌}
use intense_logic.Math.Scalar.{Scalar, IsExact}
use intense_logic.Math.Vector.{Vec4}
use intense_logic.Math.Matrix.{at, Mat, mat_mul, mat_mulv, transpose}

pub transpose-transpose : {F : Type 0} (s : Scalar F) (m : Mat F) → transpose s (transpose s m) ≡ m
unfolding transpose
transpose-transpose s m = refl

module _ {F : Type 0} (s : Scalar F) (x : IsExact s) where
  infixl 60 ◌⊕◌
  abbrev ◌⊕◌ : F → F → F
  a ⊕ b = s.add a b

  infixl 70 ◌⊗◌
  abbrev ◌⊗◌ : F → F → F
  a ⊗ b = s.mul a b

  exchange : (a b c d : F) → (a ⊕ b) ⊕ (c ⊕ d) ≡ (a ⊕ c) ⊕ (b ⊕ d)
  exchange a b c d =
      x.add_assoc a b (c ⊕ d)
      ∙ ap (λ t. a ⊕ t)
          (sym (x.add_assoc b c d) ∙ ap (λ t. t ⊕ d) (x.add_comm b c) ∙ x.add_assoc c b d)
      ∙ sym (x.add_assoc a c (b ⊕ d))

  add_mul : (a b c : F) → (a ⊕ b) ⊗ c ≡ (a ⊗ c) ⊕ (b ⊗ c)
  add_mul a b c =
      x.mul_comm (a ⊕ b) c ∙ x.mul_add c a b ∙ ap₂ s.add (x.mul_comm c a) (x.mul_comm c b)

  mul_zero : (a : F) → a ⊗ s.zero ≡ s.zero
  mul_zero a = x.mul_comm a s.zero ∙ x.zero_mul a

  -- The sum that `il_mat_mul` and `il_mat_mulv` accumulate from 0.
  abbrev sum : (ℕ → F) → F
  sum f = (((s.zero ⊕ f 0) ⊕ f 1) ⊕ f 2) ⊕ f 3

  sum-add : (f g : ℕ → F) → sum (λ k. f k ⊕ g k) ≡ sum f ⊕ sum g
  sum-add f g =
      let snoc = λ (p u v b c : F) (e : p ≡ u ⊕ v). ap (λ t. t ⊕ (b ⊕ c)) e ∙ exchange u v b c in
      snoc _ _ _ (f 3) (g 3) (
        snoc _ _ _ (f 2) (g 2) (
          snoc _ _ _ (f 1) (g 1) (snoc s.zero s.zero s.zero (f 0) (g 0) (sym (x.zero_add s.zero)))))

  sum-zero : sum (λ k. s.zero) ≡ s.zero
  sum-zero =
      let z = x.zero_add s.zero in
      ap (λ t. ((t ⊕ s.zero) ⊕ s.zero) ⊕ s.zero) z
      ∙ ap (λ t. (t ⊕ s.zero) ⊕ s.zero) z
      ∙ ap (λ t. t ⊕ s.zero) z
      ∙ z

  mul-sum : (a : F) (f : ℕ → F) → a ⊗ sum f ≡ sum (λ k. a ⊗ f k)
  mul-sum a f =
      let snoc = λ (p q b : F) (e : a ⊗ p ≡ q). x.mul_add a p b ∙ ap (λ t. t ⊕ (a ⊗ b)) e in
      snoc _ _ (f 3) (snoc _ _ (f 2) (snoc _ _ (f 1) (snoc _ _ (f 0) (mul_zero a))))

  sum-ext : (f g : ℕ → F) → ((k : ℕ) → f k ≡ g k) → sum f ≡ sum g
  sum-ext f g e = λ i. sum (λ k. e k i)

  -- The order of two summations does not matter.
  sum-swap : (m : ℕ → ℕ → F) → sum (λ j. sum (λ k. m j k)) ≡ sum (λ k. sum (λ j. m j k))
  sum-swap m = sym (
      sum-add (λ k. ((s.zero ⊕ m 0 k) ⊕ m 1 k) ⊕ m 2 k) (m 3)
      ∙ ap (λ t. t ⊕ sum (m 3))
          (sum-add (λ k. (s.zero ⊕ m 0 k) ⊕ m 1 k) (m 2)
            ∙ ap (λ t. t ⊕ sum (m 2))
                (sum-add (λ k. s.zero ⊕ m 0 k) (m 1)
                  ∙ ap (λ t. t ⊕ sum (m 1))
                      (sum-add (λ k. s.zero) (m 0) ∙ ap (λ t. t ⊕ sum (m 0)) sum-zero))))

  -- One component of a product of two matrices and a vector.
  sum_assoc :
      (a : ℕ → F) (b : ℕ → ℕ → F) (v : ℕ → F)
      → sum (λ j. sum (λ k. a k ⊗ b k j) ⊗ v j) ≡ sum (λ k. a k ⊗ sum (λ j. b k j ⊗ v j))
  sum_assoc a b v =
      sum-ext (λ j. sum (λ k. a k ⊗ b k j) ⊗ v j) (λ j. sum (λ k. a k ⊗ (b k j ⊗ v j)))
        (λ j.
          x.mul_comm (sum (λ k. a k ⊗ b k j)) (v j)
          ∙ mul-sum (v j) (λ k. a k ⊗ b k j)
          ∙ sum-ext (λ k. v j ⊗ (a k ⊗ b k j)) (λ k. a k ⊗ (b k j ⊗ v j))
              (λ k. x.mul_comm (v j) (a k ⊗ b k j) ∙ x.mul_assoc (a k) (b k j) (v j)))
      ∙ sum-swap (λ j k. a k ⊗ (b k j ⊗ v j))
      ∙ sum-ext (λ k. sum (λ j. a k ⊗ (b k j ⊗ v j))) (λ k. a k ⊗ sum (λ j. b k j ⊗ v j))
          (λ k. sym (mul-sum (a k) (λ j. b k j ⊗ v j)))

  abbrev vec_at : Vec4 F → ℕ → F
  vec_at v j = if j == 0 then v.x else if j == 1 then v.y else if j == 2 then v.z else v.w

  -- In exact arithmetic, the product of two matrices acts on a vector as the one after the other.
  pub mat_mulv-mat_mul :
      (a b : Mat F) (v : Vec4 F) → mat_mulv s (mat_mul s a b) v ≡ mat_mulv s a (mat_mulv s b v)
  unfolding mat_mul mat_mulv
  mat_mulv-mat_mul a b v =
      let row = λ (i : ℕ). sum_assoc (λ k. at a (i * 4 + k)) (λ k j. at b (k * 4 + j)) (vec_at v) in
      λ i. record { x = row 0 i; y = row 1 i; z = row 2 i; w = row 3 i }
