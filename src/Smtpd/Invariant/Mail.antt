-- ===== src/Smtpd/Invariant/Mail.antt =====
-- internal/smtpd/session.go: `MAIL` and `RCPT` keep a session safe.
use carteiro.Common.{
  All-append, Bool, Bytes, Option, [], arith, codes, false, if_lem, if◌then◌else◌, leb, length,
  length-append, none, not, refl, some, str_eq, subst, sym, true, ◌++◌, ◌∷◌, ◌≡◌,
}
use carteiro.Text.{to_upper, has_prefix}
use carteiro.Storage.Types.{Account}
use carteiro.Storage.Accounts.{allows_from}
use carteiro.Smtpd.Parse.{valid_envelope_addr, param_size}
use carteiro.Smtpd.Server.{Server, Session, reply}
use carteiro.Smtpd.Mail.{
  envelope, mail_from, handle_mail, rcpt_to, handle_rcpt, too_large, exceeds, limit_reached,
}
use carteiro.Smtpd.Invariant.{IsSafe, Step, Step-to, replied, Authorised, IsValid}

authorise :
    (user : Option Account) (a : Account) (addr : Bytes)
    → user ≡ some a
    → allows_from a addr ≡ true
    → Authorised user addr
authorise none a addr e h = absurd (cc e)
authorise (some b) a [] e h = tt
authorise (some b) a (c ∷ addr) e h = subst (λ x. Authorised x (c ∷ addr)) (sym e) h

not-false : (b : Bool) → not b ≡ false → b ≡ true
not-false true h = refl
not-false false h = absurd (cc h)

module _ (server : Server) where
  -- The envelope that `MAIL` begins.
  accepted-Step :
      (a : Account) (addr : Bytes) (s : Session)
      → s.user ≡ some a
      → allows_from a addr ≡ true
      → IsSafe server s
      → Step server s (reply 250 (codes "2.1.0 Ok") (record s { sender = addr; rcpts = [] }))
  unfolding reply
  accepted-Step a addr s u allowed h =
      Step-to server s (reply 250 (codes "2.1.0 Ok") (record s { sender = addr; rcpts = [] }))
        (record {
          trusted = h.trusted;
          authorised = authorise s.user a addr u allowed;
          valid = tt;
          few = omega arith;
        })
        (refl, refl)

  mail_from-Step :
      (a : Account) (envelope : Bytes × Bytes) (s : Session)
      → s.user ≡ some a
      → IsSafe server s
      → Step server s (mail_from server a envelope s)
  unfolding mail_from
  mail_from-Step a (addr, params) s u h =
      let invalid = codes "5.1.7 Invalid sender address: " ++ addr in
      let foreign = codes "5.7.1 Sender " ++ addr ++ codes " not allowed for account " ++ a.email in
      let large = reply 552 (too_large server.max_message_size) s in
      let s' = record s { sender = addr; rcpts = [] } in
      let fits = reply 250 (codes "2.1.0 Ok") s' in
      let is_large = exceeds (param_size params) server.max_message_size in
      if_lem (Step server s) (not (valid_envelope_addr addr)) (reply 501 invalid s)
        (if not (allows_from a addr) then reply 553 foreign s else if is_large then large else fits)
        (λ _. replied server 501 invalid s h)
        (λ _.
          if_lem (Step server s) (not (allows_from a addr)) (reply 553 foreign s)
            (if is_large then large else fits) (λ _. replied server 553 foreign s h)
            (λ allowed.
              if_lem (Step server s) is_large large fits
                (λ _. replied server 552 (too_large server.max_message_size) s h)
                (λ _. accepted-Step a addr s u (not-false (allows_from a addr) allowed) h)))

  pub handle_mail-Step :
      (arg : Bytes) (s : Session) → IsSafe server s → Step server s (handle_mail server arg s)
  unfolding handle_mail
  handle_mail-Step arg s h = go s.user refl
    where
      go :
          (u : Option Account)
          → s.user ≡ u
          → Step server s (elim u [
            | none ↦ reply 530 (codes "5.7.0 Authentication required") s
            | some a ↦
                if has_prefix (to_upper arg) (codes "FROM:")
                then mail_from server a (envelope 5 arg) s
                else reply 501 (codes "5.5.4 Syntax: MAIL FROM:<address> [parameters]") s
          ])
      go none e = replied server 530 (codes "5.7.0 Authentication required") s h
      go (some a) e =
          if_lem (Step server s) (has_prefix (to_upper arg) (codes "FROM:"))
            (mail_from server a (envelope 5 arg) s)
            (reply 501 (codes "5.5.4 Syntax: MAIL FROM:<address> [parameters]") s)
            (λ _. mail_from-Step a (envelope 5 arg) s e h)
            (λ _. replied server 501 (codes "5.5.4 Syntax: MAIL FROM:<address> [parameters]") s h)

  rcpt_to-Step :
      (addr : Bytes) (s : Session)
      → leb server.max_recipients (length s.rcpts) ≡ false
      → IsSafe server s
      → Step server s (rcpt_to addr s)
  unfolding rcpt_to reply
  rcpt_to-Step addr s room h =
      if_lem (Step server s) (valid_envelope_addr addr)
        (reply 250 (codes "2.1.5 Ok") (record s { rcpts = s.rcpts ++ addr ∷ [] }))
        (reply 501 (codes "5.1.3 Invalid recipient address: " ++ addr) s)
        (λ ok.
          Step-to server s
            (reply 250 (codes "2.1.5 Ok") (record s { rcpts = s.rcpts ++ addr ∷ [] }))
            (record {
              trusted = h.trusted;
              authorised = h.authorised;
              valid = All-append IsValid s.rcpts (addr ∷ []) h.valid (ok, tt);
              few = ground (arith, length-append s.rcpts (addr ∷ []), room);
            })
            (refl, refl))
        (λ _. replied server 501 (codes "5.1.3 Invalid recipient address: " ++ addr) s h)

  pub handle_rcpt-Step :
      (arg : Bytes) (s : Session) → IsSafe server s → Step server s (handle_rcpt server arg s)
  unfolding handle_rcpt
  handle_rcpt-Step arg s h =
      let is_full = leb server.max_recipients (length s.rcpts) in
      let is_to = has_prefix (to_upper arg) (codes "TO:") in
      let full = limit_reached server.max_recipients in
      let syntax = codes "5.5.4 Syntax: RCPT TO:<address> [parameters]" in
      let early = codes "5.5.1 Need MAIL before RCPT" in
      let to = rcpt_to (envelope 3 arg).0 s in
      if_lem (Step server s) (str_eq s.sender []) (reply 503 early s)
        (if is_full then reply 452 full s else if is_to then to else reply 501 syntax s)
        (λ _. replied server 503 early s h)
        (λ _.
          if_lem (Step server s) is_full (reply 452 full s)
            (if is_to then to else reply 501 syntax s) (λ _. replied server 452 full s h)
            (λ room.
              if_lem (Step server s) is_to to (reply 501 syntax s)
                (λ _. rcpt_to-Step (envelope 3 arg).0 s room h)
                (λ _. replied server 501 syntax s h)))
