-- ===== src/Config/Decode.antt =====
-- internal/config/config.go: decodeYAMLBase64, decodeBase64Key and decodeYAMLKey.
use carteiro.Common.{
  Bool, Bytes, Option, [], codes, filter, if◌then◌else◌, none, not, some, str_eq, ℕ, ◌&&◌, ◌==◌,
  ◌||◌,
}
use carteiro.Text.{trim_space, decode, contains}
use carteiro.Config.Types.{Tls, DkimKey, Result, ok, err, ◌>>=◌, bad_base64, missing_key, not_pem}

abbrev is_blank : ℕ → Bool
is_blank c = c == b'\n' || c == b'\r' || c == b' ' || c == b'\t'

pem_text : Option Bytes → Result Bytes
unfolding contains
pem_text none = err bad_base64
pem_text (some decoded) = if contains decoded (codes "-----BEGIN") then ok decoded else err not_pem

unfoldable pub decode_base64_key : Bytes → Result Bytes
unfolding pem_text decode
decode_base64_key v = pem_text (decode (filter (λ c. not (is_blank c)) v))

-- The closure `decode` of `decodeYAMLBase64`, and `decodeYAMLKey` before it stores the text.
unfoldable pub decode_field : Bytes → Result Bytes
unfolding decode_base64_key trim_space str_eq
decode_field field =
    if str_eq (trim_space field) [] then err missing_key else decode_base64_key field

unfoldable pub decode_yaml_base64 : Tls → Result Tls
unfolding decode_field trim_space str_eq
decode_yaml_base64 t =
    if str_eq (trim_space t.cert_data) [] && str_eq (trim_space t.key_data) [] then ok t else (do
      cert ← decode_field t.cert_data
      key ← decode_field t.key_data
      ok (record t { cert_pem = cert; key_pem = key }))

unfoldable pub decode_yaml_key : DkimKey → Result DkimKey
unfolding decode_field
decode_yaml_key k = do text ← decode_field k.key_data; ok (record k { key_data = text })
