-- ===== src/Text.antt =====
-- The functions of Go's `strings` and `bytes` packages that the program calls, on ASCII text.
pub mod Ascii
pub mod Search
pub mod Fields
pub mod Number
pub mod Base64
pub mod Address
unfoldable pub use Ascii.{
  to_lower, to_upper, is_space, trim_left, trim_right, trim, trim_space, normalize,
}
unfoldable pub use Search.{
  has_prefix, trim_prefix, index_byte, last_index_byte, contains_byte, contains_any, cut, cut_any,
  split, join, cut_text, contains, trim_suffix,
}
unfoldable pub use Fields.{fields}
unfoldable pub use Number.{parse_int, parse_signed, itoa}
pub use Ascii.{normalize_idem}
unfoldable pub use Base64.{decode}
unfoldable pub use Address.{split_host_port, join_host_port}
