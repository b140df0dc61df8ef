-- ===== src/Math.antt =====
-- math/: vectors, quaternions and matrices over the floats, which are a parameter.
pub mod Scalar
pub mod Naturals
pub mod Vector
pub mod Quaternion
pub mod Matrix
mod Tests
