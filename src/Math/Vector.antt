-- ===== src/Math/Vector.antt =====
-- math/vector.c. The `w` of an `il_vec3` pads it to sixteen bytes and is left out.
use intense_logic.Math.Scalar.{Scalar}

pub record Vec2 (F : Type 0) : Type 0 where
  pub x : F
  pub y : F

pub record Vec3 (F : Type 0) : Type 0 where
  pub x : F
  pub y : F
  pub z : F

pub record Vec4 (F : Type 0) : Type 0 where
  pub x : F
  pub y : F
  pub z : F
  pub w : F

module _ {F : Type 0} (s : Scalar F) where
  -- Component by component, as `il_vec4_add` and its like do with one operation each.
  abbrev zip4 : (F → F → F) → Vec4 F → Vec4 F → Vec4 F
  zip4 f a b = record { x = f a.x b.x; y = f a.y b.y; z = f a.z b.z; w = f a.w b.w }

  abbrev zip3 : (F → F → F) → Vec3 F → Vec3 F → Vec3 F
  zip3 f a b = record { x = f a.x b.x; y = f a.y b.y; z = f a.z b.z }

  abbrev zip2 : (F → F → F) → Vec2 F → Vec2 F → Vec2 F
  zip2 f a b = record { x = f a.x b.x; y = f a.y b.y }

  -- `il_vec4_add`
  unfoldable pub vec4_add : Vec4 F → Vec4 F → Vec4 F
  vec4_add = zip4 s.add

  -- `il_vec4_sub`
  unfoldable pub vec4_sub : Vec4 F → Vec4 F → Vec4 F
  vec4_sub = zip4 s.sub

  -- `il_vec4_mul`
  unfoldable pub vec4_mul : Vec4 F → Vec4 F → Vec4 F
  vec4_mul = zip4 s.mul

  -- `il_vec4_div`
  unfoldable pub vec4_div : Vec4 F → Vec4 F → Vec4 F
  vec4_div = zip4 s.div

  -- `il_vec4_dot`
  unfoldable pub vec4_dot : Vec4 F → Vec4 F → F
  vec4_dot a b =
      s.add (s.add (s.add (s.mul a.x b.x) (s.mul a.y b.y)) (s.mul a.z b.z)) (s.mul a.w b.w)

  -- `il_vec4_to_vec3`
  unfoldable pub vec4_to_vec3 : Vec4 F → Vec3 F
  vec4_to_vec3 a = record { x = s.div a.x a.w; y = s.div a.y a.w; z = s.div a.z a.w }

  -- `il_vec4_len`
  unfoldable pub vec4_len : Vec4 F → F
  vec4_len a = s.sqrt (vec4_dot a a)

  -- `il_vec3_new`
  abbrev pub vec3_new : F → F → F → Vec3 F
  vec3_new x y z = record { x = x; y = y; z = z }

  -- `il_vec3_add`
  unfoldable pub vec3_add : Vec3 F → Vec3 F → Vec3 F
  vec3_add = zip3 s.add

  -- `il_vec3_sub`
  unfoldable pub vec3_sub : Vec3 F → Vec3 F → Vec3 F
  vec3_sub = zip3 s.sub

  -- `il_vec3_mul`
  unfoldable pub vec3_mul : Vec3 F → Vec3 F → Vec3 F
  vec3_mul = zip3 s.mul

  -- `il_vec3_div`
  unfoldable pub vec3_div : Vec3 F → Vec3 F → Vec3 F
  vec3_div = zip3 s.div

  -- `il_vec3_cross`
  unfoldable pub vec3_cross : Vec3 F → Vec3 F → Vec3 F
  vec3_cross a b = record {
    x = s.sub (s.mul a.y b.z) (s.mul b.y a.z);
    y = s.sub (s.mul a.z b.x) (s.mul b.z a.x);
    z = s.sub (s.mul a.x b.y) (s.mul b.x a.y);
  }

  -- `il_vec3_dot`
  unfoldable pub vec3_dot : Vec3 F → Vec3 F → F
  vec3_dot a b = s.add (s.add (s.mul a.x b.x) (s.mul a.y b.y)) (s.mul a.z b.z)

  -- `il_vec3_len`
  unfoldable pub vec3_len : Vec3 F → F
  vec3_len a = s.sqrt (vec3_dot a a)

  -- `il_vec3_normal`
  unfoldable pub vec3_normal : Vec3 F → Vec3 F
  vec3_normal a =
      let len = vec3_len a in record { x = s.div a.x len; y = s.div a.y len; z = s.div a.z len }

  -- `il_vec3_to_vec4`
  unfoldable pub vec3_to_vec4 : Vec3 F → F → Vec4 F
  vec3_to_vec4 a w = record { x = a.x; y = a.y; z = a.z; w = w }

  -- `il_vec2_add`
  unfoldable pub vec2_add : Vec2 F → Vec2 F → Vec2 F
  vec2_add = zip2 s.add

  -- `il_vec2_sub`
  unfoldable pub vec2_sub : Vec2 F → Vec2 F → Vec2 F
  vec2_sub = zip2 s.sub

  -- `il_vec2_mul`
  unfoldable pub vec2_mul : Vec2 F → Vec2 F → Vec2 F
  vec2_mul = zip2 s.mul

  -- `il_vec2_div`
  unfoldable pub vec2_div : Vec2 F → Vec2 F → Vec2 F
  vec2_div = zip2 s.div
