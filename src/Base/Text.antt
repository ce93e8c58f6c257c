-- ===== src/Base/Text.antt =====
-- Go strings as lists of bytes, and the functions of `strings` and `strconv` that the source calls.
-- The texts that the controller compares without regard to case (protocols, states, label keys)
-- are ASCII, so `equal_fold` and `to_lower` fold the letters A to Z only.
mod Eq
pub mod Split
pub mod Number
mod Fields
mod Pieces
unfoldable pub use Eq.{
  Text, codes, text_eq, to_lower, to_lower_byte, equal_fold, has_prefix, has_suffix, text_gt,
}
pub use Eq.{
  text_eq_iff, text_eq_refl, text_eq_sym, equal_fold_iff, equal_fold_refl, equal_fold_sym,
  equal_fold_trans,
}
unfoldable pub use Split.{
  is_space, trim_left, trim_space, split_byte, split_text, fields, join, contains_byte,
}
unfoldable pub use Number.{atoi, itoa, itoa_int, int_eq, int_lt, int_add, int_mul, max_int}
pub use Number.{ℤ, pos, negsuc, int_eq_iff, int_eq_refl, int_add-pos, int_mul-pos}
pub use Fields.{fields-blank, fields-itoa, atoi-itoa}
pub use Pieces.{split_byte-prefix, split_byte-whole, more_pieces}
