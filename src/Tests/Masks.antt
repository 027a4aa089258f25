-- ===== src/Tests/Masks.antt =====
-- The theorem on internal/logmask/logmask.go for two addresses.
use carteiro.Common.{[], codes, refl, str_eq, ◌∷◌, ◌≡◌}
use mathlib.Core.List.{reverse}
use carteiro.Text.{split}
use carteiro.Logmask.{mask_email, is_public}
use carteiro.Logmask.Hides.{mask_email-hides}

mask_email-hides_example :
    mask_email (codes "joe@mail.gmail.com") ≡ mask_email (codes "jane@golf.com")
unfolding is_public reverse split str_eq
mask_email-hides_example =
    mask_email-hides b'j' b'g' (codes "oe") (codes "ane") (codes "mail") (codes "olf") (codes "com")
      (codes "mail.gmail.com") (codes "golf.com") (refl, (refl, (refl, tt)))
      (refl, (refl, (refl, (refl, tt)))) (λ e. cc e) (λ e. cc e) (λ e. cc e) (λ e. cc e)
      ((λ e. cc e), (codes "mail" ∷ [], refl), refl) ((λ e. cc e), ([], refl), refl)
