-- ===== src/Graphics/Gui/Click.antt =====
-- graphics/gui/frame.c: a click, and all the frames that could take it.
use intense_logic.Base.{
  ◌++◌, ℕ, zero, suc, ◌<◌, ◌≡◌, refl, sym, ap, ◌∙◌, inl, inr, Bool, true, false, not, Option, none,
  some, List, [], ◌∷◌, arith, ltb, if◌then◌else◌, Bool-cases,
}
use intense_logic.Base.{◌>>=◌, bind_some, some-injective, ℤ}
use intense_logic.Array.{contents}
use intense_logic.Graphics.Gui.Place.{AllChildren, IsForest, all_below, children_of}
use intense_logic.Graphics.Gui.{
  Rect, frame_abs, is_inside, Floats, Frame, FrameStore, InputAction, unhandled, passthrough,
  override, level, is_override, frame_contains, click_children, own_click, click,
}

-- The higher of two actions
abbrev pub higher : InputAction → InputAction → InputAction
higher a b = if ltb (level a) (level b) then b else a

-- The highest action of `res` and of all children
unfoldable highest_of : (ℕ → Option InputAction) → List ℕ → InputAction → Option InputAction
highest_of go [] res = some res
highest_of go (f ∷ fs) res = go f >>= λ res2. highest_of go fs (higher res res2)

-- A click that asks all the frames that it comes to
unfoldable highest :
    {F : Type 0}
    → Floats F
    → (depth n : ℕ) → FrameStore F
    → ℤ
    → ℤ
    → (button top : ℕ) → Option InputAction
highest c depth zero s x y button top = none
highest c depth (suc n) s x y button top =
    frame_contains c depth s top (record { x = x; y = y; xp = c.zero_f; yp = c.zero_f })
    >>= λ inside.
        if not inside
        then some unhandled
        else (s top >>= λ fr.
            highest_of (highest c depth n s x y button) (contents fr.children)
              (own_click fr x y button))

-- What a chain that returns went through
bind_result :
    {A B : Type 0} (o : Option A) (f : A → Option B) (b : B)
    → (o >>= f) ≡ some b
    → (a : A) × (o ≡ some a) × (f a ≡ some b)
bind_result none f b e = cc
bind_result (some a) f b e = (a, refl, e)

override_stays : (a : InputAction) → higher override a ≡ override
override_stays unhandled = refl
override_stays passthrough = refl
override_stays override = refl

is_override_lem : (a : InputAction) → is_override a ≡ true → a ≡ override
is_override_lem unhandled e = cc
is_override_lem passthrough e = cc
is_override_lem override e = refl

-- Nothing is higher than an override.
highest_of-override :
    (go : ℕ → Option InputAction) (fs : List ℕ) (r : InputAction)
    → highest_of go fs override ≡ some r
    → r ≡ override
unfolding highest_of
highest_of-override go [] r e = sym (some-injective e)
highest_of-override go (f ∷ fs) r e =
    let (a, ea, rest) = bind_result (go f) _ r e in
    highest_of-override go fs r (ap (λ b. highest_of go fs b) (sym (override_stays a)) ∙ rest)

module _ (go all : ℕ → Option InputAction)
    (same : (f : ℕ) (r : InputAction) → all f ≡ some r → go f ≡ some r) where
  click_children-highest :
      (fs : List ℕ) (res r : InputAction)
      → highest_of all fs res ≡ some r
      → click_children go fs res ≡ some r
  unfolding click_children highest_of
  click_children-highest [] res r e = e
  click_children-highest (f ∷ fs) res r e =
      let (a, ea, rest) = bind_result (all f) _ r e in
      bind_some _ (same f a ea) ∙ elim (Bool-cases (is_override (higher res a))) [
        | inl o ↦ rw o (
            ap some (
              sym (
                highest_of-override all fs r
                  (ap (λ b. highest_of all fs b) (sym (is_override_lem (higher res a) o)) ∙ rest))))
        | inr o ↦ rw o (click_children-highest fs (higher res a) r rest)
      ]

-- The part of a click after the test of the point, for a frame that is looked up
after_test :
    {A : Type 0} (inside : Bool) (o : Option A) (all now : A → Option InputAction) (r : InputAction)
    → ((a : A) → all a ≡ some r → now a ≡ some r)
    → (if not inside then some unhandled else (o >>= all)) ≡ some r
    → (if not inside then some unhandled else (o >>= now)) ≡ some r
after_test false o all now r h e = e
after_test true none all now r h e = e
after_test true (some a) all now r h e = h a e

-- Stopping at the first frame to override a click makes no difference.
click-highest :
    {F : Type 0} (c : Floats F) (depth n : ℕ) (s : FrameStore F) (x y : ℤ) (button top : ℕ)
    (r : InputAction)
    → highest c depth n s x y button top ≡ some r
    → click c depth n s x y button top ≡ some r
unfolding click highest
click-highest c depth zero s x y button top r e = cc
click-highest c depth (suc n) s x y button top r e =
    let (inside, ei, rest) = bind_result (frame_contains c depth s top _) _ r e in
    let go = click c depth n s x y button in
    let all = highest c depth n s x y button in
    bind_some _ ei
    ∙ after_test inside (s top)
        (λ fr. highest_of all (contents fr.children) (own_click fr x y button))
        (λ fr.
          (let res = own_click fr x y button in
            if is_override res then some res else click_children go (contents fr.children) res))
        r
        (λ fr e'. elim (Bool-cases (is_override (own_click fr x y button))) [
          | inl q ↦ rw q (
              ap some (
                is_override_lem _ q
                ∙ sym (
                    highest_of-override all (contents fr.children) r (
                      ap (λ b. highest_of all (contents fr.children) b) (sym (is_override_lem _ q))
                      ∙ e'))))
          | inr q ↦ rw q (
              click_children-highest go all (click-highest c depth n s x y button)
                (contents fr.children) (own_click fr x y button) r e')
        ])
        rest

higher_assoc : (a b c : InputAction) → higher (higher a b) c ≡ higher a (higher b c)
higher_assoc a b c = ground arith

higher_unhandled : (a : InputAction) → higher a unhandled ≡ a
higher_unhandled unhandled = refl
higher_unhandled passthrough = refl
higher_unhandled override = refl

unhandled-higher : (a : InputAction) → higher unhandled a ≡ a
unhandled-higher unhandled = refl
unhandled-higher passthrough = refl
unhandled-higher override = refl

abbrev or_false : Option Bool → Bool
or_false none = false
or_false (some b) = b

module _ {F : Type 0} (c : Floats F) (s : FrameStore F) (x y : ℤ) where
  -- Whether the point is in a frame that has a rectangle
  abbrev contains_point : ℕ → ℕ → Bool
  contains_point depth f =
      or_false (frame_contains c depth s f (record { x = x; y = y; xp = c.zero_f; yp = c.zero_f }))

  -- The frames from `top` on, down to as many levels, that contain the point, as do all the frames
  -- between them and `top`
  unfoldable pub frames_at : (depth n : ℕ) → (top : ℕ) → List ℕ
  frames_at depth zero top = []
  frames_at depth (suc n) top =
      if contains_point depth top
      then top ∷ all_below (frames_at depth n) (children_of (s top))
      else []

  abbrev pub action_of : (button : ℕ) → Option (Frame F) → InputAction
  action_of button none = unhandled
  action_of button (some fr) = own_click fr x y button

  -- The highest action that the callbacks of the frames return
  unfoldable pub highest_action : (button : ℕ) → List ℕ → InputAction
  highest_action button [] = unhandled
  highest_action button (f ∷ fs) = higher (action_of button (s f)) (highest_action button fs)

  highest_action-append :
      (button : ℕ) (fs gs : List ℕ)
      → highest_action button (fs ++ gs)
        ≡ higher (highest_action button fs) (highest_action button gs)
  unfolding highest_action
  highest_action-append button [] gs = sym (unhandled-higher (highest_action button gs))
  highest_action-append button (f ∷ fs) gs =
      ap (higher (action_of button (s f))) (highest_action-append button fs gs)
      ∙ sym (
          higher_assoc (action_of button (s f)) (highest_action button fs)
            (highest_action button gs))

module _ {F : Type 0} (c : Floats F) (depth : ℕ) (s : FrameStore F) (rank : ℕ → ℕ) where
  highest_of_runs :
      (go : ℕ → Option InputAction) (x y : ℤ) (button : ℕ) (below : ℕ → List ℕ) (f : ℕ)
      → ((g : ℕ) (fr : Frame F)
          → s g ≡ some fr
          → rank g < rank f
          → go g ≡ some (highest_action c s x y button (below g)))
      → (fs : List ℕ) (res : InputAction) → AllChildren rank s f fs
      → highest_of go fs res
        ≡ some (higher res (highest_action c s x y button (all_below below fs)))
  unfolding highest_of AllChildren all_below highest_action
  highest_of_runs go x y button below f runs [] res w = ap some (sym (higher_unhandled res))
  highest_of_runs go x y button below f runs (ch ∷ fs) res w =
      let (fr, e, p, lower) = w.0 in
      let first = highest_action c s x y button (below ch) in
      bind_some _ (runs ch fr e lower)
      ∙ highest_of_runs go x y button below f runs fs (higher res first) w.1
      ∙ ap some (
          higher_assoc res first (highest_action c s x y button (all_below below fs))
          ∙ ap (higher res)
              (sym (highest_action-append c s x y button (below ch) (all_below below fs))))

  contains_point_lem :
      (x y : ℤ) (f : ℕ) (rect : Rect F)
      → frame_abs c depth s f ≡ some rect
      → contains_point c s x y depth f
        ≡ is_inside c rect (record { x = x; y = y; xp = c.zero_f; yp = c.zero_f })
  unfolding frame_contains
  contains_point_lem x y f rect e = ap or_false (
      bind_some (λ r. some (is_inside c r (record { x = x; y = y; xp = c.zero_f; yp = c.zero_f })))
        e)

  highest_runs :
      (n : ℕ) (x y : ℤ) (button top : ℕ) (fr : Frame F)
      → IsForest rank s
      → ((f : ℕ) (fr : Frame F)
          → s f ≡ some fr
          → (rect : Rect F) × (frame_abs c depth s f ≡ some rect))
      → s top ≡ some fr
      → rank top < n
      → highest c depth n s x y button top
        ≡ some (highest_action c s x y button (frames_at c s x y depth n top))
  unfolding highest frame_contains IsForest frames_at highest_action
  highest_runs zero x y button top fr w seen e h = absurd (omega arith)
  highest_runs (suc n) x y button top fr w seen e h =
      let (rect, er) = seen top fr e in
      let eq =
        highest_of_runs (highest c depth n s x y button) x y button (frames_at c s x y depth n) top
          (λ g fr' e' lower. highest_runs n x y button g fr' w seen e' (omega arith))
          (contents fr.children) (own_click fr x y button) (w top fr e) in
      elim (Bool-cases (is_inside c rect (record { x = x; y = y; xp = c.zero_f; yp = c.zero_f }))) [
        | inl q ↦ rw (contains_point_lem x y top rect er ∙ q) (rw (er, q, e) eq)
        | inr q ↦ rw (contains_point_lem x y top rect er ∙ q) (rw (er, q) refl)
      ]

  -- A click on a frame of a forest, with more fuel than its rank, returns the highest action of all
  -- the frames, from that one down, that contain the point and are only in frames that contain it
  -- too, though it stops at the first to override. Each frame has a rectangle.
  pub click_lem :
      (n : ℕ) (x y : ℤ) (button top : ℕ) (fr : Frame F)
      → IsForest rank s
      → ((f : ℕ) (fr : Frame F)
          → s f ≡ some fr
          → (rect : Rect F) × (frame_abs c depth s f ≡ some rect))
      → s top ≡ some fr
      → rank top < n
      → click c depth n s x y button top
        ≡ some (highest_action c s x y button (frames_at c s x y depth n top))
  click_lem n x y button top fr w seen e h =
      click-highest c depth n s x y button top _ (highest_runs n x y button top fr w seen e h)
