-- ===== src/Math/Quaternion.antt =====
-- math/quaternion.c, and the rotation of math/vector.c.
use intense_logic.Base.{if◌then◌else◌}
use intense_logic.Math.Scalar.{Scalar}
use intense_logic.Math.Vector.{Vec3, vec3_new, vec3_add, vec3_cross}

pub record Quat (F : Type 0) : Type 0 where
  pub x : F
  pub y : F
  pub z : F
  pub w : F

module _ {F : Type 0} (s : Scalar F) where
  -- `il_quat_new`
  abbrev pub quat_new : F → F → F → F → Quat F
  quat_new x y z w = record { x = x; y = y; z = z; w = w }

  -- `il_quat_mul`
  unfoldable pub quat_mul : Quat F → Quat F → Quat F
  quat_mul a b = record {
    w = s.sub (s.sub (s.sub (s.mul a.w b.w) (s.mul a.x b.x)) (s.mul a.y b.y)) (s.mul a.z b.z);
    x = s.sub (s.add (s.add (s.mul a.w b.x) (s.mul a.x b.w)) (s.mul a.y b.z)) (s.mul a.z b.y);
    y = s.sub (s.add (s.add (s.mul a.w b.y) (s.mul a.y b.w)) (s.mul a.z b.x)) (s.mul a.x b.z);
    z = s.sub (s.add (s.add (s.mul a.w b.z) (s.mul a.z b.w)) (s.mul a.x b.y)) (s.mul a.y b.x);
  }

  -- `il_quat_dot`
  unfoldable pub quat_dot : Quat F → Quat F → F
  quat_dot a b =
      s.add (s.add (s.add (s.mul a.x b.x) (s.mul a.y b.y)) (s.mul a.z b.z)) (s.mul a.w b.w)

  -- `il_quat_len`
  unfoldable pub quat_len : Quat F → F
  quat_len a = s.sqrt (quat_dot a a)

  -- `il_quat_normalize`
  unfoldable pub quat_normalize : Quat F → Quat F
  quat_normalize a =
      let len = quat_len a in
      let ilen = s.div s.one len in
      if s.lt s.zero len
      then record { x = s.mul a.x ilen; y = s.mul a.y ilen; z = s.mul a.z ilen; w = s.mul a.w ilen }
      else quat_new s.zero s.zero s.zero s.one

  -- `il_quat_lerp`
  unfoldable pub quat_lerp : Quat F → Quat F → F → Quat F
  quat_lerp a b t =
      let mix = λ (p q : F). s.add (s.mul p (s.sub s.one t)) (s.mul q t) in
      quat_normalize (record { x = mix a.x b.x; y = mix a.y b.y; z = mix a.z b.z; w = mix a.w b.w })

  -- `il_quat_fromYPR`
  unfoldable pub quat_from_ypr : F → F → F → Quat F
  quat_from_ypr yaw pitch roll =
      let c1 = s.cos (s.div yaw s.two) in
      let c2 = s.cos (s.div pitch s.two) in
      let c3 = s.cos (s.div roll s.two) in
      let s1 = s.sin (s.div yaw s.two) in
      let s2 = s.sin (s.div pitch s.two) in
      let s3 = s.sin (s.div roll s.two) in
      let prod = λ (a b c : F). s.mul (s.mul a b) c in
      record {
        x = s.sub (prod c1 c2 c3) (prod s1 s2 s3);
        y = s.add (prod s1 s2 c3) (prod c1 c2 s3);
        z = s.add (prod s1 c2 c3) (prod c1 s2 s3);
        w = s.sub (prod c1 s2 c3) (prod s1 c2 s3);
      }

  -- `il_quat_fromAxisAngle`
  unfoldable pub quat_from_axis_angle : F → F → F → F → Quat F
  quat_from_axis_angle x y z a =
      let sn = s.sin (s.div a s.two) in
      quat_normalize (quat_new (s.mul sn x) (s.mul sn y) (s.mul sn z) (s.cos (s.div a s.two)))

  -- `il_vec3_rotate`
  unfoldable pub vec3_rotate : Vec3 F → Quat F → Vec3 F
  vec3_rotate a q =
      let qv = vec3_new s q.x q.y q.z in
      let uv = vec3_cross s qv a in
      let uuv = vec3_cross s qv uv in
      let k = s.mul s.two q.w in
      let uv' = vec3_new s (s.mul uv.x k) (s.mul uv.y k) (s.mul uv.z k) in
      let uuv' = vec3_new s (s.mul uuv.x s.two) (s.mul uuv.y s.two) (s.mul uuv.z s.two) in
      vec3_add s (vec3_add s a uv') uuv'
