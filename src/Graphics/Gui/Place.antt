-- ===== src/Graphics/Gui/Place.antt =====
-- graphics/gui/frame.c: where frames are drawn, and where they are clicked.
use intense_logic.Base.{
  Bool, false, none, sym, ap₂, if◌then◌else◌, ap, ℕ, zero, suc, ◌<◌, ◌≡◌, refl, ◌∙◌, inl, inr, not,
  ◌&&◌, Option, some, List, [], ◌∷◌, ◌++◌, arith, Bool-cases,
}
use intense_logic.Base.{bind_some, ℤ, pos, int_lt, int_add, int_sub, int_lt_add, int_lt_sub}
use intense_logic.Array.{contents}
use intense_logic.Graphics.Gui.{
  Floats, Rect, Frame, FrameStore, place_at, compute_coord_abs, compute_rect_abs, frame_abs,
  is_inside, draw_children, draw, gui_draw,
}

-- The children of `f` are frames with the parent `f`, and of a lower rank.
unfoldable pub AllChildren : {F : Type 0} → (ℕ → ℕ) → FrameStore F → ℕ → List ℕ → Type 0
AllChildren rank s f [] = Unit {0}
AllChildren {F = F} rank s f (c ∷ cs) =
    ((fr : Frame F) × (s c ≡ some fr) × (fr.parent ≡ some f) × (rank c < rank f))
    × AllChildren rank s f cs

-- Frames that are trees
unfoldable pub IsForest : {F : Type 0} → (ℕ → ℕ) → FrameStore F → Type 0
IsForest {F = F} rank s =
    (f : ℕ) (fr : Frame F) → s f ≡ some fr → AllChildren rank s f (contents fr.children)

-- The lists of all children, in order
unfoldable pub all_below : (ℕ → List ℕ) → List ℕ → List ℕ
all_below go [] = []
all_below go (f ∷ fs) = go f ++ all_below go fs

abbrev pub children_of : {F : Type 0} → Option (Frame F) → List ℕ
children_of none = []
children_of (some fr) = contents fr.children

-- A frame and all the frames in it, down to as many levels, each before the frames in it
unfoldable pub frames_below : {F : Type 0} → ℕ → FrameStore F → ℕ → List ℕ
frames_below zero s f = []
frames_below (suc n) s f = f ∷ all_below (frames_below n s) (children_of (s f))

abbrev pub has_draw : {F : Type 0} → Option (Frame F) → Bool
has_draw none = false
has_draw (some fr) = fr.draws

-- Those of the frames that have a draw callback
unfoldable pub with_draw : {F : Type 0} → FrameStore F → List ℕ → List ℕ
with_draw s [] = []
with_draw s (f ∷ fs) = if has_draw (s f) then f ∷ with_draw s fs else with_draw s fs

with_draw-append :
    {F : Type 0} (s : FrameStore F) (fs gs : List ℕ)
    → with_draw s (fs ++ gs) ≡ with_draw s fs ++ with_draw s gs
unfolding with_draw
with_draw-append s [] gs = refl
with_draw-append s (f ∷ fs) gs = elim (Bool-cases (has_draw (s f))) [
  | inl q ↦ rw q (ap (λ r. f ∷ r) (with_draw-append s fs gs))
  | inr q ↦ rw q (with_draw-append s fs gs)
]

-- The frames that are drawn, without where
unfoldable pub numbers : {F : Type 0} → List (ℕ × Rect F) → List ℕ
numbers [] = []
numbers ((f, r) ∷ rest) = f ∷ numbers rest

numbers-append :
    {F : Type 0} (xs ys : List (ℕ × Rect F)) → numbers (xs ++ ys) ≡ numbers xs ++ numbers ys
unfolding numbers
numbers-append [] ys = refl
numbers-append ((f, r) ∷ xs) ys = ap (λ l. f ∷ l) (numbers-append xs ys)

module _ {F : Type 0} (c : Floats F) (s : FrameStore F) where
  -- Each frame with the rectangle that `ilG_gui_frame_abs` computes for it, given enough fuel
  unfoldable pub AllPlaced : List (ℕ × Rect F) → Type 0
  AllPlaced [] = Unit {0}
  AllPlaced ((f, r) ∷ rest) = ((k : ℕ) × (frame_abs c k s f ≡ some r)) × AllPlaced rest

  AllPlaced-append :
      (xs ys : List (ℕ × Rect F)) → AllPlaced xs → AllPlaced ys → AllPlaced (xs ++ ys)
  unfolding AllPlaced
  AllPlaced-append [] ys h k = k
  AllPlaced-append ((f, r) ∷ xs) ys h k = (h.0, AllPlaced-append xs ys h.1 k)

  -- What is drawn: those of the frames that have a draw callback, in order
  abbrev Drawn : List ℕ → Option (List (ℕ × Rect F)) → Type 0
  Drawn fs o =
      (out : List (ℕ × Rect F)) × (o ≡ some out) × (numbers out ≡ with_draw s fs) × AllPlaced out

  frame_abs-child :
      (k f ch : ℕ) (fr : Frame F) (rect : Rect F)
      → s ch ≡ some fr
      → fr.parent ≡ some f
      → frame_abs c k s f ≡ some rect
      → frame_abs c (suc k) s ch ≡ some (compute_rect_abs c fr.rect rect)
  unfolding frame_abs
  frame_abs-child k f ch fr rect e p a = rw (e, p, a) refl

  module _ (rank : ℕ → ℕ) where
    draw_children_runs :
        (go : ℕ → Rect F → Option (List (ℕ × Rect F))) (below : ℕ → List ℕ) (f k : ℕ)
        (rect : Rect F)
        → frame_abs c k s f ≡ some rect
        → ((g : ℕ) (fr : Frame F) (r : Rect F)
            → s g ≡ some fr
            → rank g < rank f
            → frame_abs c (suc k) s g ≡ some r
            → Drawn (below g) (go g r))
        → (fs : List ℕ) → AllChildren rank s f fs
        → Drawn (all_below below fs) (draw_children c go s fs rect)
    unfolding draw_children AllChildren AllPlaced all_below with_draw numbers
    draw_children_runs go below f k rect a runs [] w = ([], refl, refl, tt)
    draw_children_runs go below f k rect a runs (ch ∷ fs) w =
        let (fr, e, p, lower) = w.0 in
        let (out, eo, en, po) =
          runs ch fr (compute_rect_abs c fr.rect rect) e lower
            (frame_abs-child k f ch fr rect e p a) in
        let (rest, er, nr, pr) = draw_children_runs go below f k rect a runs fs w.1 in
        (
          out ++ rest,
          rw (e, eo, er) refl,
          numbers-append out rest
              ∙ ap₂ (λ l m. l ++ m) en nr
              ∙ sym (with_draw-append s (below ch) (all_below below fs)),
          AllPlaced-append out rest po pr,
        )

    draw_runs :
        (n k top : ℕ) (fr : Frame F) (rect : Rect F)
        → IsForest rank s
        → s top ≡ some fr
        → rank top < n
        → frame_abs c k s top ≡ some rect
        → Drawn (frames_below n s top) (draw c n s top rect)
    unfolding draw IsForest AllPlaced frames_below with_draw numbers
    draw_runs zero k top fr rect w e h a = absurd (omega arith)
    draw_runs (suc n) k top fr rect w e h a =
        let (out, eo, en, po) =
          draw_children_runs (draw c n s) (frames_below n s) top k rect a
            (λ g fr' r e' lower a'. draw_runs n (suc k) g fr' r w e' (omega arith) a')
            (contents fr.children) (w top fr e) in
        elim (Bool-cases fr.draws) [
          | inl q ↦ (
            (top, rect) ∷ out,
            bind_some _ e
                ∙ bind_some _ eo
                ∙ ap (λ b. some (if b then (top, rect) ∷ out else out)) q,
            rw (e, q) (ap (λ l. top ∷ l) en),
            ((k, a), po),
          )
          | inr q ↦ (
            out,
            bind_some _ e
                ∙ bind_some _ eo
                ∙ ap (λ b. some (if b then (top, rect) ∷ out else out)) q,
            rw (e, q) en,
            po,
          )
        ]

    -- Drawing a frame of a forest, with more fuel than its rank, calls the draw callbacks of that
    -- frame and of all the frames in it, each frame before those in it, and each with the rectangle
    -- that ilG_gui_frame_abs computes for it. The frame has such a rectangle.
    pub gui_draw_lem :
        (n top : ℕ) (fr : Frame F) (rect : Rect F)
        → IsForest rank s
        → s top ≡ some fr
        → rank top < n
        → frame_abs c n s top ≡ some rect
        → (out : List (ℕ × Rect F)) × (gui_draw c n s top ≡ some out)
          × (numbers out ≡ with_draw s (frames_below n s top))
          × AllPlaced out
    unfolding gui_draw
    gui_draw_lem n top fr rect w e h a =
        let (out, eo, en, po) = draw_runs n n top fr rect w e h a in (out, rw a eo, en, po)

-- Arithmetic without rounding, where nothing is added for the percentage
unfoldable pub IsWhole : {F : Type 0} → Floats F → Type 0
IsWhole c = (coord size parent : ℤ) → place_at c coord size c.zero_f parent ≡ int_add coord parent

-- A click is tested as if the frame were at the origin: without rounding, only the size of its
-- rectangle matters, not its place.
pub is_inside_lem :
    {F : Type 0} (c : Floats F) (rect : Rect F) (x y : ℤ)
    → IsWhole c
    → is_inside c rect (record { x = x; y = y; xp = c.zero_f; yp = c.zero_f }) ≡ (
        not (int_lt x (pos 0))
        && not (int_lt y (pos 0))
        && int_lt x (int_sub (rect.b).x (rect.a).x)
        && int_lt y (int_sub (rect.b).y (rect.a).y))
unfolding is_inside compute_coord_abs IsWhole
is_inside_lem c rect x y whole =
    rw
      (
        whole x (int_sub (rect.b).x (rect.a).x) (rect.a).x,
        whole y (int_sub (rect.b).y (rect.a).y) (rect.a).y,
        int_lt_add x (rect.a).x,
        int_lt_add y (rect.a).y,
        int_lt_sub x (rect.a).x (rect.b).x,
        int_lt_sub y (rect.a).y (rect.b).y,
      )
      refl
