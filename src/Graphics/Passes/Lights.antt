-- ===== src/Graphics/Passes/Lights.antt =====
-- graphics/lightpass.c: deleting a light deletes another one.
use intense_logic.Base.{suc, ◌≡◌, ap, true, false, some, List, [], ◌∷◌, arith, length}
use intense_logic.Array.{Array, contents, fastremove, find_from, find}
use intense_logic.Array.Valid.{IsValid, length-contents}
use intense_logic.Graphics.Passes.{Light}
use intense_logic.Graphics.Passes.Kinds.{light_eq, lights_del_light}

-- Deleting a light from a list whose first light is another one deletes that first one; the only
-- light of a list cannot be deleted.
pub lights_del_light_wrong :
    (a : Array Light) (l x : Light) (xs : List Light)
    → IsValid a
    → contents a ≡ x ∷ xs
    → (light_eq x l ≡ false → lights_del_light a l ≡ fastremove a 0)
      × (light_eq x l ≡ true → xs ≡ [] → lights_del_light a l ≡ some a)
unfolding lights_del_light find find_from
lights_del_light_wrong a l x xs v e =
    let long : a.length ≡ suc (length xs) = omega (arith, length-contents a v, ap length e) in
    (
      λ other. rw (e, other, long) (ground arith),
      λ same only. rw (e, same, long, only) (ground arith),
    )
