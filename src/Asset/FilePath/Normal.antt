-- ===== src/Asset/FilePath/Normal.antt =====
-- asset/path.c: the nodes of a path are in normal form.
use intense_logic.Base.{
  take-append_add, lt→ltb, length-append, le→ltb_false, length-replicate, ℕ, zero, suc, ◌+◌, ◌-◌,
  ◌≡◌, refl, sym, ap, ap₂, ◌∙◌, inl, inr, true, false, ◌||◌, List, [], ◌∷◌, ◌++◌, append-nil,
  append_assoc, arith, ltb, ◌==◌, if◌then◌else◌, length, take, replicate, Bool-cases,
}
use intense_logic.Asset.FilePath.{parse_plain, slash, dot, parent, same, longer, split, normalise}

abbrev pub NoSlash : List ℕ → Type 0
NoSlash [] = Unit
NoSlash (c ∷ s) = ((c == slash) ≡ false) × NoSlash s

abbrev pub AllNoSlash : List (List ℕ) → Type 0
AllNoSlash [] = Unit
AllNoSlash (t ∷ ts) = NoSlash t × AllNoSlash ts

-- A node that names an entry: no `/`, and neither empty, `.` nor `..`.
pub record IsName (t : List ℕ) : Type 0 where
  pub no_slash : NoSlash t
  pub stays : (same t (dot ∷ []) || same t []) ≡ false
  pub down : same t parent ≡ false

abbrev pub AllNames : List (List ℕ) → Type 0
AllNames [] = Unit
AllNames (t ∷ ts) = IsName t × AllNames ts

longer-NoSlash :
    (c : ℕ) (ts : List (List ℕ)) → (c == slash) ≡ false → AllNoSlash ts → AllNoSlash (longer c ts)
longer-NoSlash c [] e a = ((e, tt), tt)
longer-NoSlash c (t ∷ ts) e (n, a) = ((e, n), a)

pub split-NoSlash : (s : List ℕ) → AllNoSlash (split s)
unfolding split
split-NoSlash [] = (tt, tt)
split-NoSlash (c ∷ s) = elim (Bool-cases (c == slash)) [
  | inl e ↦ rw e (tt, split-NoSlash s)
  | inr e ↦ rw e (longer-NoSlash c (split s) e (split-NoSlash s))
]

take-AllNames : (n : ℕ) (ts : List (List ℕ)) → AllNames ts → AllNames (take n ts)
take-AllNames zero ts a = tt
take-AllNames (suc n) [] a = tt
take-AllNames (suc n) (t ∷ ts) (i, a) = (i, take-AllNames n ts a)

snoc-AllNames :
    (ts : List (List ℕ)) (t : List ℕ) → AllNames ts → IsName t → AllNames (ts ++ (t ∷ []))
snoc-AllNames [] t a i = (i, tt)
snoc-AllNames (u ∷ ts) t (j, a) i = (j, snoc-AllNames ts t a i)

pub replicate-snoc : (n : ℕ) (t : List ℕ) → replicate n t ++ (t ∷ []) ≡ t ∷ replicate n t
replicate-snoc zero t = refl
replicate-snoc (suc n) t = ap (λ l. t ∷ l) (replicate-snoc n t)

-- The nodes are as many `..` as were dropped, and names.
pub record IsNormal (nodes : List (List ℕ)) : Type 0 where
  pub ups : ℕ
  pub names : List (List ℕ)
  pub nodes_are : nodes ≡ replicate ups parent ++ names
  pub all_names : AllNames names

pub same_lem : (a b : List ℕ) → same a b ≡ true → a ≡ b
same_lem [] [] h = refl
same_lem [] (d ∷ b) h = absurd (ground arith)
same_lem (c ∷ a) [] h = absurd (ground arith)
same_lem (c ∷ a) (d ∷ b) h = ap₂ (λ x y. x ∷ y) (ground arith) (same_lem a b (ground arith))

one_more : (n : ℕ) (t : List ℕ) → replicate n t ++ (t ∷ []) ≡ replicate (n + 1) t ++ []
one_more n t =
    replicate-snoc n t
    ∙ ap (λ k. replicate k t) {x = suc n} {y = n + 1} (omega arith)
    ∙ sym (append-nil (replicate (n + 1) t))

-- What `..` does to nodes in normal form.
up_step :
    (ts : List (List ℕ)) (drops : ℕ) (names : List (List ℕ))
    → AllNames names
    → (drops' : ℕ) × (names' : List (List ℕ)) × AllNames names'
      × ((if ltb drops (length (replicate drops parent ++ names))
            then normalise ts drops (
                take
                  (length (replicate drops parent ++ names) - 1)
                  (replicate drops parent ++ names))
            else normalise ts (drops + 1) ((replicate drops parent ++ names) ++ (parent ∷ [])))
          ≡ normalise ts drops' (replicate drops' parent ++ names'))
up_step ts drops [] a =
    let n : length (replicate drops parent ++ []) ≡ drops =
      ap length (append-nil (replicate drops parent)) ∙ length-replicate drops parent in
    (
      drops + 1,
      [],
      tt,
      rw (le→ltb_false drops (length (replicate drops parent ++ [])) (omega arith)) (
          ap (normalise ts (drops + 1)) (
            ap (λ l. l ++ (parent ∷ [])) (append-nil (replicate drops parent))
            ∙ one_more drops parent)),
    )
up_step ts drops (m ∷ names) a =
    let nodes : List (List ℕ) = replicate drops parent ++ (m ∷ names) in
    let r = length-replicate drops parent in
    let n : length nodes ≡ drops + suc (length names) =
      length-append (replicate drops parent) (m ∷ names) ∙ omega arith in
    (
      drops,
      take (length names) (m ∷ names),
      take-AllNames (length names) (m ∷ names) a,
      rw (lt→ltb drops (length nodes) (omega arith)) (
          ap (normalise ts drops) (
            take-append_add (length nodes - 1) (length names) (replicate drops parent) (m ∷ names)
              (omega arith))),
    )

-- Whatever the tokens, the loop keeps its nodes in normal form, with `drops` parents in front.
normalise-IsNormal :
    (ts : List (List ℕ)) (drops : ℕ) (names : List (List ℕ))
    → AllNoSlash ts
    → AllNames names
    → IsNormal (normalise ts drops (replicate drops parent ++ names))
unfolding normalise
normalise-IsNormal [] drops names a n = record {
  ups = drops;
  names = names;
  nodes_are = refl;
  all_names = n;
}
normalise-IsNormal (t ∷ ts) drops names (s, a) n =
    elim (Bool-cases (same t (dot ∷ []) || same t [])) [
      | inl e ↦ rw e (normalise-IsNormal ts drops names a n)
      | inr e ↦ elim (Bool-cases (same t parent)) [
        | inl f ↦
            let (drops', names', n', run) = up_step ts drops names n in
            rw (e, f, same_lem t parent f, run) (normalise-IsNormal ts drops' names' a n')
        | inr f ↦
            rw (e, f, append_assoc (replicate drops parent) names (t ∷ []))
              (normalise-IsNormal ts drops (names ++ (t ∷ [])) a
                (snoc-AllNames names t n (record { no_slash = s; stays = e; down = f })))
      ]
    ]

-- However a path is written, its nodes are as many `..` as lead out of where it starts, and then
-- names: none of them is empty, `.` or `..`, or has a `/`.
pub parse_plain-IsNormal : (s : List ℕ) → IsNormal (parse_plain s).nodes
unfolding parse_plain
parse_plain-IsNormal s = normalise-IsNormal (split _) 0 [] (split-NoSlash _) tt
