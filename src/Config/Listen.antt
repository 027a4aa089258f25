-- ===== src/Config/Listen.antt =====
-- internal/config/config.go: normalizeListen.
use carteiro.Common.{
  Bool, Bytes, [], ap, false, if_lem, if◌then◌else◌, none, not, refl, some, str_eq, subst, sym,
  true, ◌&&◌, ◌∙◌, ◌∷◌, ◌≡◌,
}
use carteiro.Text.{trim_space, parse_signed, is_space}
use carteiro.Text.Ascii.{trim_space-cons, trim_space_idem}

abbrev is_number : Bytes → Bool
is_number v = elim (parse_signed v) [ none ↦ false | some n ↦ true ]

unfoldable pub normalize_listen : Bytes → Bytes
unfolding trim_space parse_signed str_eq
normalize_listen v =
    let v' = trim_space v in if not (str_eq v' []) && is_number v' then b':' ∷ v' else v'

colon_is_number : (v : Bytes) → is_number (b':' ∷ v) ≡ false
unfolding parse_signed
colon_is_number v = refl

abbrev is_port : Bytes → Bool
is_port v = not (str_eq v []) && is_number v

-- What `normalizeListen` makes of a text that is trimmed.
abbrev with_colon : Bytes → Bytes
with_colon v = if is_port v then b':' ∷ v else v

normalize_listen_lem : (v : Bytes) → normalize_listen v ≡ with_colon (trim_space v)
unfolding normalize_listen
normalize_listen_lem v = refl

with_colon_fixed : (v : Bytes) → trim_space v ≡ v → normalize_listen (with_colon v) ≡ with_colon v
unfolding is_space str_eq
with_colon_fixed v trimmed =
    if_lem (λ n. normalize_listen n ≡ n) (is_port v) (b':' ∷ v) v
      (λ e. normalize_listen_lem (b':' ∷ v) ∙ ap with_colon colon ∙ rw (colon_is_number v) refl)
      (λ e. normalize_listen_lem v ∙ ap with_colon trimmed ∙ rw e refl)
  where
    colon : trim_space (b':' ∷ v) ≡ b':' ∷ v
    colon = subst (λ t. trim_space (b':' ∷ t) ≡ b':' ∷ t) trimmed (trim_space-cons b':' v refl)

-- A listen address in normal form stays as it is.
pub normalize_listen_idem : (v : Bytes) → normalize_listen (normalize_listen v) ≡ normalize_listen v
normalize_listen_idem v =
    subst (λ n. normalize_listen n ≡ n) (sym (normalize_listen_lem v))
      (with_colon_fixed (trim_space v) (trim_space_idem v))
