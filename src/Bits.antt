-- ===== src/Bits.antt =====
-- Binary digits of a word, and the bitwise operations of C through them.
-- `Step` has one equation per lowest digit, `Digits` the laws of a digit at any place.
mod Step
mod Digits
mod Fields
pub use Digits.*
pub use Fields.*
