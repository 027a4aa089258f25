-- ===== src/Relay/Deliver/Signed.antt =====
-- internal/relay/deliver.go: the body that `prepareBody` gives to the servers.
use carteiro.Common.{Bytes, Option, false, inl, inr, none, refl, some, true, ◌≡◌, ◌⊎◌}
use carteiro.Text.{normalize}
use carteiro.Storage.Types.{DkimKey, Message, Store}
use carteiro.Storage.Db.{Outcome, done, failed, spend}
use carteiro.Storage.Dkim.{find_key, get_dkim}
use carteiro.Relay.Body.{normalize_crlf, has_crlf_only, EndsInCrlf, normalize_crlf-lines}
use carteiro.Relay.Domains.{domain_of}
use carteiro.Relay.Deliver.{Deliverer, World, prepare_body, or_unsigned}
use carteiro.Storage.Db.Rules.{query-cases}

-- Every newline comes behind a carriage return, and the text ends in a line end.
abbrev pub IsCrlf : Bytes → Type 0
IsCrlf text = (has_crlf_only false text ≡ true) × EndsInCrlf text

-- The signer's text for the plain body, under the key that the store has for the sender's domain.
abbrev pub IsSigned : Deliverer → Message → Store → Bytes → Bytes → Type 0
IsSigned d m s plain body =
    (key : DkimKey) × (find_key (normalize (domain_of m.sender)) s.dkim_keys ≡ some key)
    × (d.sign plain (domain_of m.sender) key ≡ some body)

-- The plain body is the normalised message, it has CRLF lines, and what is sent is that body or its signed form.
abbrev pub Sends : Deliverer → Message → Store → Bytes → Type 0
Sends d m s body =
    (plain : Bytes) × (plain ≡ normalize_crlf m.content)
    × IsCrlf plain
    × ((body ≡ plain) ⊎ IsSigned d m s plain body)

module _ (d : Deliverer) (m : Message) where
  signed_body :
      (s : Store) (key : DkimKey) (o : Option Bytes)
      → find_key (normalize (domain_of m.sender)) s.dkim_keys ≡ some key
      → d.sign (normalize_crlf m.content) (domain_of m.sender) key ≡ o
      → Sends d m s (or_unsigned (normalize_crlf m.content) o)
  signed_body s key none found e =
      (normalize_crlf m.content, refl, normalize_crlf-lines m.content, inl refl)
  signed_body s key (some signed) found e =
      (normalize_crlf m.content, refl, normalize_crlf-lines m.content, inr (key, found, e))

  -- What `prepareBody` makes of the answer of the store.
  abbrev prepared : World → Outcome (Option DkimKey) → Bytes × World
  prepared w o = elim o [
    | failed e t ↦ (normalize_crlf m.content, record w { store = t })
    | done found t ↦ elim found [
      | none ↦ (normalize_crlf m.content, record w { store = t })
      | some key ↦ (
        or_unsigned (normalize_crlf m.content)
            (d.sign (normalize_crlf m.content) (domain_of m.sender) key),
        record w { store = t },
      )
    ]
  ]

  prepared-Sends :
      (w : World) (found : Option DkimKey) (t : Store)
      → find_key (normalize (domain_of m.sender)) w.store.dkim_keys ≡ found
      → Sends d m w.store (prepared w (done found t)).0
  prepared-Sends w none t e =
      (normalize_crlf m.content, refl, normalize_crlf-lines m.content, inl refl)
  prepared-Sends w (some key) t e =
      signed_body w.store key (d.sign (normalize_crlf m.content) (domain_of m.sender) key) e refl

  -- The body that goes to the servers is the message as normalizeCRLF makes it, in which every newline
  -- comes behind a carriage return and which ends in a line end; or it is what the signer gives for
  -- that text, under the key that the store has for the domain of the sender.
  pub prepare_body-Sends : (w : World) → Sends d m w.store (prepare_body d m w).0
  unfolding prepare_body get_dkim
  prepare_body-Sends w =
      query-cases (λ o. Sends d m w.store (prepared w o).0) w.store
        (λ s. find_key (normalize (domain_of m.sender)) s.dkim_keys)
        (normalize_crlf m.content, refl, normalize_crlf-lines m.content, inl refl)
        (prepared-Sends w (find_key (normalize (domain_of m.sender)) w.store.dkim_keys)
          (spend w.store) refl)
