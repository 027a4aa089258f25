-- ===== src/Smtpd/Progress/Loop.antt =====
-- internal/smtpd/session.go: the loop of `serveConn` ends, whatever the client sends.
use carteiro.Common.{
  Bytes, List, Option, [], ap, arith, codes, false, if_lem, length, none, refl, some, suc, true,
  zero, ℕ, ◌++◌, ◌<◌, ◌∷◌, ◌≡◌, ◌≤◌,
}
use carteiro.Smtpd.Auth.{handle_auth}
use carteiro.Smtpd.Mail.{handle_mail, handle_rcpt, handle_data}
use carteiro.Smtpd.Parse.{split_command}
use carteiro.Smtpd.Lines.{
  read_line, LineRead, got, bad, too_long, no_line, timed_out, eof, broken, Slice,
}
use carteiro.Smtpd.Lines.Limits.{Shrinks, read_line-Shrinks, read_line-never_long}
use carteiro.Smtpd.Server.{
  Server, Services, Session, Next, go_on, close, reply, reset, write_lines, Handshake, TlsMode,
  starttls, implicit,
}
use carteiro.Smtpd.Session.{
  Verb, helo, ehlo, auth, mail, rcpt, data_, rset, noop, vrfy, expn, help, quit, start_tls, bdat,
  unknown, verb_of, send_ehlo, shake, upgrade, handle_starttls, greet, handle_helo, handle_ehlo,
  handle_verb, handle, handle_line, read_failed, round, pending, pending_after, serve_on, serve,
}
use carteiro.Smtpd.Progress.{NotLonger, Reads, NotLonger-same, handle_auth-Reads}
use carteiro.Smtpd.Progress.Mail.{handle_mail-same, handle_rcpt-same, handle_data-NotLonger}
use carteiro.Smtpd.Mail.{handle_mail, handle_rcpt, handle_data}

-- With a connection that goes on, no more is left to read, now and after the handshakes to come.
abbrev Falls : Session → Next → Type 0
Falls s (go_on t) = pending t ≤ pending s
Falls s (close t) = Unit

pending-NotLonger : (s t : Session) → NotLonger s t → pending t ≤ pending s
unfolding pending
pending-NotLonger s t h = omega (arith, h.0, ap pending_after h.1)

Falls-Reads : (s : Session) (n : Next) → Reads s n → Falls s n
Falls-Reads s (go_on t) h = pending-NotLonger s t h
Falls-Reads s (close t) h = tt

pending-reply : (code : ℕ) (text : Bytes) (s : Session) → pending (reply code text s) ≤ pending s
unfolding pending reply
pending-reply code text s = omega arith

module _ (server : Server) where
  pending-helo : (arg : Bytes) (s : Session) → pending (handle_helo server arg s) ≤ pending s
  unfolding handle_helo greet reset reply pending
  pending-helo [] s = omega arith
  pending-helo (c ∷ arg) s = omega arith

  pending-ehlo : (arg : Bytes) (s : Session) → pending (handle_ehlo server arg s) ≤ pending s
  unfolding handle_ehlo greet reset reply send_ehlo write_lines pending
  pending-ehlo [] s = omega arith
  pending-ehlo (c ∷ arg) s = omega arith

  -- A handshake brings what was counted for it.
  pending-shake :
      (hs : List Handshake) (s : Session) → s.handshakes ≡ hs → pending (shake hs s) ≤ pending s
  unfolding shake reset pending pending_after
  pending-shake [] s e = omega arith
  pending-shake (h ∷ hs) s e =
      let s' = record s { input = h.input; handshakes = hs } in
      if_lem (λ t. pending t ≤ pending s) h.succeeds
        (reset false (record s' { tls_on = true; helo = [] })) s'
        (λ _. omega (arith, ap pending_after e)) (λ _. omega (arith, ap pending_after e))

  pending-upgrade : (s : Session) → pending (upgrade s) ≤ pending s
  unfolding upgrade reply pending
  pending-upgrade s =
      if_lem (λ t. pending t ≤ pending s) s.tls_on (reply 503 (codes "5.5.1 TLS already active") s)
        (shake s.handshakes (reply 220 (codes "2.0.0 Ready to start TLS") s)) (λ _. omega arith)
        (λ _. pending-shake s.handshakes (reply 220 (codes "2.0.0 Ready to start TLS") s) refl)

  pending-starttls : (s : Session) → pending (handle_starttls server s) ≤ pending s
  unfolding handle_starttls
  pending-starttls s = go server.tls
    where
      go :
          (mode : Option TlsMode)
          → pending (elim mode [
            | none ↦ reply 502 (codes "5.5.1 STARTTLS not available") s
            | some m ↦ elim m [
              | starttls ↦ upgrade s
              | implicit ↦ reply 502 (codes "5.5.1 STARTTLS not available") s
            ]
          ])
            ≤ pending s
      go none = pending-reply 502 (codes "5.5.1 STARTTLS not available") s
      go (some starttls) = pending-upgrade s
      go (some implicit) = pending-reply 502 (codes "5.5.1 STARTTLS not available") s

module _ (services : Services) (server : Server) where
  handle_verb-Falls :
      (v : Verb) (arg : Bytes) (s : Session) → Falls s (handle_verb services server v arg s)
  unfolding handle_verb reset reply pending
  handle_verb-Falls helo arg s = pending-helo server arg s
  handle_verb-Falls ehlo arg s = pending-ehlo server arg s
  handle_verb-Falls auth arg s =
      Falls-Reads s (handle_auth services server arg s) (handle_auth-Reads services server arg s)
  handle_verb-Falls mail arg s =
      pending-NotLonger s (handle_mail server arg s)
        (NotLonger-same s (handle_mail server arg s) (handle_mail-same server arg s))
  handle_verb-Falls rcpt arg s =
      pending-NotLonger s (handle_rcpt server arg s)
        (NotLonger-same s (handle_rcpt server arg s) (handle_rcpt-same server arg s))
  handle_verb-Falls data_ arg s =
      pending-NotLonger s (handle_data services server s) (handle_data-NotLonger services server s)
  handle_verb-Falls rset arg s = omega arith
  handle_verb-Falls noop arg s = omega arith
  handle_verb-Falls vrfy arg s = omega arith
  handle_verb-Falls expn arg s = omega arith
  handle_verb-Falls help arg s = omega arith
  handle_verb-Falls quit arg s = tt
  handle_verb-Falls start_tls arg s = pending-starttls server s
  handle_verb-Falls bdat arg s = omega arith
  handle_verb-Falls (unknown verb) arg s = omega arith

  handle_line-Falls : (text : Bytes) (s : Session) → Falls s (handle_line services server text s)
  unfolding handle_line handle
  handle_line-Falls [] s = omega arith
  handle_line-Falls (c ∷ text) s =
      let (verb, arg) = split_command (c ∷ text) in handle_verb-Falls (verb_of verb) arg s

  -- Less is left to read.
  abbrev Drops : Session → Next → Type 0
  Drops s (go_on t) = pending t < pending s
  Drops s (close t) = Unit

  Drops-Falls : (s t : Session) (n : Next) → pending t < pending s → Falls t n → Drops s n
  Drops-Falls s t (go_on u) h k = omega (arith, h, k)
  Drops-Falls s t (close u) h k = tt

  round-Drops : (s : Session) → Drops s (round services server s)
  unfolding round
  round-Drops s =
      go (read_line s.input) (read_line-Shrinks s.input) (λ rest. read_line-never_long s.input rest)
    where
      shorter :
          (rest : List Slice)
          → length rest < length s.input
          → pending (record s { input = rest }) < pending s
      shorter rest h = unfold pending in omega (arith, h)

      go :
          (r : LineRead)
          → Shrinks (length s.input) r
          → ((rest : List Slice) → ¬ (r ≡ bad too_long rest))
          → Drops s (elim r [
            | got text rest ↦ handle_line services server text (record s { input = rest })
            | bad e rest ↦ read_failed services server e (record s { input = rest })
          ])
      go (got text rest) h never =
          let s' = record s { input = rest } in
          Drops-Falls s s' (handle_line services server text s') (shorter rest h)
            (handle_line-Falls text s')
      go (bad too_long rest) h never = absurd (never rest refl)
      go (bad (no_line timed_out) rest) h never = unfold read_failed in tt
      go (bad (no_line eof) rest) h never = unfold read_failed in tt
      go (bad (no_line broken) rest) h never = unfold read_failed in tt

  -- From the first session the loop comes to the second after finitely many rounds, the last of which
  -- closes the connection.
  pub data Closes : Session → Session → Type 0 where
    closes : (s t : Session) → round services server s ≡ close t → Closes s t
    goes_on : (s t u : Session) → round services server s ≡ go_on t → Closes t u → Closes s u

  next-Closes :
      (s : Session) (n : Next) (rest : Session → Session)
      → round services server s ≡ n
      → Drops s n
      → ((t : Session) → pending t < pending s → Closes t (rest t))
      → Closes s (elim n [ go_on t ↦ rest t | close t ↦ t ])
  next-Closes s (go_on t) rest e drops ends = goes_on s t (rest t) e (ends t drops)
  next-Closes s (close t) rest e drops ends = closes s t e

  serve_on-Closes :
      (fuel : ℕ) (s : Session) → pending s < fuel → Closes s (serve_on services server fuel s)
  unfolding serve_on
  serve_on-Closes zero s h = absurd (omega (arith, h))
  serve_on-Closes (suc fuel) s h =
      next-Closes s (round services server s) (serve_on services server fuel) refl (round-Drops s)
        (λ t less. serve_on-Closes fuel t (omega (arith, h, less)))

  -- The loop of `serveConn` ends, whatever the client sends and whatever fails: behind the greeting
  -- come finitely many rounds, the last of which closes the connection, and the session is then the
  -- one that `serve` gives.
  pub serve-Closes :
      (s : Session)
      → Closes (reply 220 (server.hostname ++ codes " ESMTP Carteiro") s) (serve services server s)
  unfolding serve reply pending
  serve-Closes s =
      serve_on-Closes (suc (pending s)) (reply 220 (server.hostname ++ codes " ESMTP Carteiro") s)
        (omega arith)
