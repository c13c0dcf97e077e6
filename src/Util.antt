-- ===== src/Util.antt =====
-- The helpers of util that are not calls of a library.
pub mod Fields
pub mod Text
pub mod Xor
pub mod Random
pub mod Bracketed
pub mod Delimited
pub mod Arrays
pub mod Versions
pub mod Epochs
pub mod Cipher
