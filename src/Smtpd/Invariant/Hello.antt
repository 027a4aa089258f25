-- ===== src/Smtpd/Invariant/Hello.antt =====
-- internal/smtpd/session.go: HELO, EHLO and STARTTLS keep a session safe.
use carteiro.Common.{
  Bool, Bytes, List, Option, [], arith, codes, false, if_lem, none, refl, some, true, ◌∷◌,
}
use carteiro.Storage.Types.{Account}
use carteiro.Smtpd.Server.{
  Server, Session, Handshake, TlsMode, starttls, implicit, reply, reset, write_lines,
}
use carteiro.Smtpd.Session.{
  send_ehlo, shake, upgrade, handle_starttls, greet, handle_helo, handle_ehlo,
}
use carteiro.Smtpd.Invariant.{IsSafe, Step, Step-to, then_, blank, replied, Trusted}

pub Trusted-tls :
    (server : Server) (accounts : List Account) (user : Option Account) (tls loopback : Bool)
    → Trusted server accounts user tls loopback
    → Trusted server accounts user true loopback
Trusted-tls server accounts none tls loopback h = tt
Trusted-tls server accounts (some a) tls loopback (known, h) = (known, ground arith)

module _ (server : Server) where
  greet-Safe : (arg : Bytes) (s : Session) → IsSafe server s → IsSafe server (greet arg s)
  unfolding greet reset
  greet-Safe arg s h = blank server s.store.accounts s.user s.tls_on s.loopback h.trusted

  pub handle_helo-Step :
      (arg : Bytes) (s : Session) → IsSafe server s → Step server s (handle_helo server arg s)
  unfolding handle_helo greet reset reply
  handle_helo-Step [] s h = replied server 501 (codes "5.5.4 HELO requires a domain") s h
  handle_helo-Step (c ∷ arg) s h =
      Step-to server s (handle_helo server (c ∷ arg) s) (greet-Safe (c ∷ arg) s h) (refl, refl)

  pub handle_ehlo-Step :
      (arg : Bytes) (s : Session) → IsSafe server s → Step server s (handle_ehlo server arg s)
  unfolding handle_ehlo greet reset send_ehlo write_lines
  handle_ehlo-Step [] s h = replied server 501 (codes "5.5.4 EHLO requires a domain") s h
  handle_ehlo-Step (c ∷ arg) s h =
      Step-to server s (handle_ehlo server (c ∷ arg) s) (greet-Safe (c ∷ arg) s h) (refl, refl)

  shake-Step : (hs : List Handshake) (s : Session) → IsSafe server s → Step server s (shake hs s)
  unfolding shake reset
  shake-Step [] s h = Step-to server s (record s { input = [] }) h (refl, refl)
  shake-Step (k ∷ hs) s h =
      let s' = record s { input = k.input; handshakes = hs } in
      let t = reset false (record s' { tls_on = true; helo = [] }) in
      if_lem (Step server s) k.succeeds t s'
        (λ _.
          Step-to server s t
            (blank server s.store.accounts s.user true s.loopback
              (Trusted-tls server s.store.accounts s.user s.tls_on s.loopback h.trusted))
            (refl, refl))
        (λ _. Step-to server s s' h (refl, refl))

  upgrade-Step : (s : Session) → IsSafe server s → Step server s (upgrade s)
  unfolding upgrade reply
  upgrade-Step s h =
      let s' = reply 220 (codes "2.0.0 Ready to start TLS") s in
      let active = codes "5.5.1 TLS already active" in
      if_lem (Step server s) s.tls_on (reply 503 active s) (shake s.handshakes s')
        (λ _. replied server 503 active s h)
        (λ _.
          then_ server s s' (shake s.handshakes s') h (refl, refl) (shake-Step s.handshakes s' h))

  pub handle_starttls-Step :
      (s : Session) → IsSafe server s → Step server s (handle_starttls server s)
  unfolding handle_starttls
  handle_starttls-Step s h = go server.tls
    where
      none_text : Bytes
      none_text = codes "5.5.1 STARTTLS not available"

      go :
          (mode : Option TlsMode)
          → Step server s (elim mode [
            | none ↦ reply 502 (codes "5.5.1 STARTTLS not available") s
            | some m ↦ elim m [
              | starttls ↦ upgrade s
              | implicit ↦ reply 502 (codes "5.5.1 STARTTLS not available") s
            ]
          ])
      go none = replied server 502 (codes "5.5.1 STARTTLS not available") s h
      go (some starttls) = upgrade-Step s h
      go (some implicit) = replied server 502 (codes "5.5.1 STARTTLS not available") s h
