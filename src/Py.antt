-- ===== src/Py.antt =====
-- The values of the Python programs: JSON, numbers and text.
pub mod Float
pub mod Json
pub mod Text
pub mod Number
pub mod Arithmetic
