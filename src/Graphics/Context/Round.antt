-- ===== src/Graphics/Context/Round.antt =====
-- graphics/context.c: a round of the render thread.
use intense_logic.Base.{
  if◌then◌else◌, ℕ, ◌≡◌, refl, inl, inr, Bool, false, not, ◌||◌, List, [], ◌∷◌, arith, Bool-cases,
}
use intense_logic.Graphics.Queue.{Msg, upload, resize, stop, message, is_stop}
use intense_logic.Graphics.Context.{Context, context_resize, process, follow_window, round}

unfoldable pub has_stop : List Msg → Bool
has_stop [] = false
has_stop (m ∷ ms) = is_stop m || has_stop ms

process_go :
    (complete : Bool) (c : Context) (ms : List Msg) → (process complete c ms).0 ≡ not (has_stop ms)
unfolding process has_stop
process_go complete c [] = refl
process_go complete c (upload cb ptr ∷ ms) = process_go complete c ms
process_go complete c (resize w h ∷ ms) = process_go complete (context_resize complete c w h).0 ms
process_go complete c (stop ∷ ms) = refl
process_go complete c (message node type value ∷ ms) = process_go complete c ms

follow_window_size :
    (complete : Bool) (c : Context) (w h : ℕ)
    → ((follow_window complete c w h).0.width ≡ w) × ((follow_window complete c w h).0.height ≡ h)
unfolding follow_window context_resize
follow_window_size complete c w h = ground arith

-- A round of the render thread goes on exactly if no message stops it; then the context has the
-- size of the window, whatever sizes were asked for, and whether or not the framebuffer is complete.
pub round_lem :
    (complete : Bool) (c : Context) (ms : List Msg) (w h : ℕ)
    → let (go, c', out) = round complete c ms w h in
      (go ≡ not (has_stop ms))
      × ((if has_stop ms then w else c'.width) ≡ w)
      × ((if has_stop ms then h else c'.height) ≡ h)
unfolding round
round_lem complete c ms w h =
    let (size_w, size_h) = follow_window_size complete (process complete c ms).1 w h in
    elim (Bool-cases (has_stop ms)) [
      | inl e ↦ rw (process_go complete c ms, e) (refl, refl, refl)
      | inr e ↦ rw (process_go complete c ms, e) (refl, size_w, size_h)
    ]
