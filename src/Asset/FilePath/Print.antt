-- ===== src/Asset/FilePath/Print.antt =====
-- asset/path.c: a printed path is read back.
use intense_logic.Base.{
  length-replicate, le→ltb_false, ℕ, zero, suc, ◌+◌, ◌<◌, ◌≡◌, refl, sym, ap, ◌∙◌, Bool, true,
  false, ◌||◌, List, [], ◌∷◌, ◌++◌, append-nil, append_assoc, arith, ltb, length, replicate,
}
use intense_logic.Asset.FilePath.{
  slash, dot, parent, same, longer, split, normalise, parse_plain, tostr, print, starts_with,
}
use intense_logic.Asset.FilePath.Normal.{
  NoSlash, AllNoSlash, AllNames, IsNormal, replicate-snoc, parse_plain-IsNormal,
}

-- A printed list of nodes is split at the separators.
split-print :
    (n : List ℕ) (ns : List (List ℕ))
    → NoSlash n
    → AllNoSlash ns
    → split (n ++ print true ns) ≡ n ∷ ns
unfolding split print
split-print [] [] a b = refl
split-print [] (m ∷ ns) a (b, c) = ap (λ l. [] ∷ l) (split-print m ns b c)
split-print (c ∷ n) ns (e, a) b = rw e (ap (longer c) (split-print n ns a b))

-- The loop gives names back as they are,
names_stay :
    (ts : List (List ℕ)) (drops : ℕ) (nodes : List (List ℕ))
    → AllNames ts
    → normalise ts drops nodes ≡ nodes ++ ts
unfolding normalise
names_stay [] drops nodes a = sym (append-nil nodes)
names_stay (t ∷ ts) drops nodes (i, a) =
    rw (i.stays, i.down)
      (names_stay ts drops (nodes ++ (t ∷ [])) a ∙ append_assoc nodes (t ∷ []) ts)

-- and parents in front of them.
ups_stay :
    (n drops : ℕ) (ts : List (List ℕ))
    → normalise (replicate n parent ++ ts) drops (replicate drops parent)
      ≡ normalise ts (drops + n) (replicate (drops + n) parent)
unfolding normalise
ups_stay zero drops ts = ap (λ k. normalise ts k (replicate k parent)) (omega arith)
ups_stay (suc n) drops ts =
    let full : ltb drops (length (replicate drops parent)) ≡ false =
      le→ltb_false drops (length (replicate drops parent))
        (omega (arith, length-replicate drops parent)) in
    let more : replicate drops parent ++ (parent ∷ []) ≡ replicate (drops + 1) parent =
      replicate-snoc drops parent ∙ ap (λ k. replicate k parent) {x = suc drops} (omega arith) in
    rw (full, more)
      (ups_stay n (drops + 1) ts
        ∙ ap (λ k. normalise ts k (replicate k parent)) {y = drops + suc n} (omega arith))

normal_stays : (nodes : List (List ℕ)) → IsNormal nodes → normalise nodes 0 [] ≡ nodes
normal_stays nodes i =
    ap (λ l. normalise l 0 []) i.nodes_are
    ∙ ups_stay i.ups 0 i.names
    ∙ names_stay i.names (0 + i.ups) (replicate (0 + i.ups) parent) i.all_names
    ∙ ap (λ k. replicate k parent ++ i.names) (omega arith)
    ∙ sym i.nodes_are

normal-NoSlash : (k : ℕ) (ns : List (List ℕ)) → AllNames ns → AllNoSlash (replicate k parent ++ ns)
normal-NoSlash (suc k) ns a = ((refl, (refl, tt)), normal-NoSlash k ns a)
normal-NoSlash zero [] a = tt
normal-NoSlash zero (t ∷ ns) (i, a) = (i.no_slash, normal-NoSlash zero ns a)

-- A printed relative path does not start with the separator.
name_start :
    (n : List ℕ) (r : List ℕ)
    → NoSlash n
    → (same n (dot ∷ []) || same n []) ≡ false
    → starts_with slash (n ++ r) ≡ false
name_start [] r a e = absurd (ground arith)
name_start (c ∷ n) r (h, a) e = h

relative_start :
    (k : ℕ) (ns : List (List ℕ))
    → AllNames ns
    → starts_with slash (print false (replicate k parent ++ ns)) ≡ false
unfolding print
relative_start (suc k) ns a = refl
relative_start zero [] a = refl
relative_start zero (t ∷ ns) (i, a) = name_start t (print true ns) i.no_slash i.stays

nodes_back :
    (n : List ℕ) (ns : List (List ℕ))
    → IsNormal (n ∷ ns)
    → normalise (split (n ++ print true ns)) 0 [] ≡ n ∷ ns
nodes_back n ns i =
    let (a, b) = rw (sym i.nodes_are) at (normal-NoSlash i.ups i.names i.all_names) in
    ap (λ l. normalise l 0 []) (split-print n ns a b) ∙ normal_stays (n ∷ ns) i

-- What `ilA_path_string` reads of a printed path.
reparsed :
    (absolute : Bool) (n : List ℕ) (ns : List (List ℕ))
    → IsNormal (n ∷ ns)
    → parse_plain (print absolute (n ∷ ns))
      ≡ record { path = print absolute (n ∷ ns); nodes = n ∷ ns; absolute = absolute }
unfolding parse_plain print
reparsed true n ns i =
    ap (λ l. record { path = slash ∷ (n ++ print true ns); nodes = l; absolute = true })
      (nodes_back n ns i)
reparsed false n ns i =
    let start : starts_with slash (n ++ print true ns) ≡ false =
      ap (λ l. starts_with slash (print false l)) i.nodes_are
      ∙ relative_start i.ups i.names i.all_names in
    rw (start, nodes_back n ns i) refl

-- A path that has a node is printed as a string that is read back as the same path, by the reading
-- of strings without ~ in front.
pub parse_plain-tostr :
    (s : List ℕ)
    → 0 < length (parse_plain s).nodes
    → parse_plain (tostr (parse_plain s)) ≡ record (parse_plain s) { path = tostr (parse_plain s) }
unfolding tostr
parse_plain-tostr s h = go (parse_plain s).nodes (parse_plain s).absolute h (parse_plain-IsNormal s)
  where
    go :
        (nodes : List (List ℕ)) (absolute : Bool)
        → 0 < length nodes
        → IsNormal nodes
        → parse_plain (print absolute nodes)
          ≡ record { path = print absolute nodes; nodes = nodes; absolute = absolute }
    go [] absolute h i = absurd (omega arith)
    go (n ∷ ns) absolute h i = reparsed absolute n ns i
