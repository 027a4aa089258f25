-- ===== src/Smtpd/Invariant/Loop.antt =====
-- internal/smtpd/session.go: every command, and the whole connection, keep a session safe.
use carteiro.Common.{
  Bool, Bytes, List, Option, [], codes, false, if_lem, none, refl, some, suc, true, zero, ℕ, ◌++◌,
  ◌∷◌, ◌≡◌,
}
use carteiro.Storage.Types.{Store, Counter}
use carteiro.Smtpd.Parse.{split_command}
use carteiro.Smtpd.Lines.{
  read_line, LineRead, got, bad, LineError, too_long, no_line, timed_out, eof, broken, Slice,
}
use carteiro.Smtpd.Server.{
  Server, Services, Session, Handshake, Next, go_on, close, TlsMode, starttls, implicit, reply,
  reset,
}
use carteiro.Smtpd.Session.{
  Verb, helo, ehlo, auth, mail, rcpt, data_, rset, noop, vrfy, expn, help, quit, start_tls, bdat,
  unknown, verb_of, new_session, handle_verb, handle, handle_line, read_failed, round, serve_on,
  serve, serve_implicit, serve_conn, pending,
}
use carteiro.Smtpd.Invariant.{
  IsSafe, Step, StepTo, session, Step-to, stay, then_, Step-trans, blank, replied, Admits,
}
use carteiro.Smtpd.Invariant.Auth.{handle_auth-Step}
use carteiro.Smtpd.Invariant.Mail.{handle_mail-Step, handle_rcpt-Step}
use carteiro.Smtpd.Invariant.Data.{handle_data-Step}
use carteiro.Smtpd.Invariant.Hello.{
  Trusted-tls, handle_ehlo-Step, handle_helo-Step, handle_starttls-Step,
}

module _ (services : Services) (server : Server) where
  handle_verb-Step :
      (v : Verb) (arg : Bytes) (s : Session)
      → IsSafe server s
      → StepTo server s (handle_verb services server v arg s)
  unfolding handle_verb reset reply
  handle_verb-Step helo arg s h = handle_helo-Step server arg s h
  handle_verb-Step ehlo arg s h = handle_ehlo-Step server arg s h
  handle_verb-Step auth arg s h = handle_auth-Step services server arg s h
  handle_verb-Step mail arg s h = handle_mail-Step server arg s h
  handle_verb-Step rcpt arg s h = handle_rcpt-Step server arg s h
  handle_verb-Step data_ arg s h = handle_data-Step services server s h
  handle_verb-Step rset arg s h =
      Step-to server s (reply 250 (codes "2.0.0 Ok") (reset true s))
        (blank server s.store.accounts none s.tls_on s.loopback tt) (refl, refl)
  handle_verb-Step noop arg s h = replied server 250 (codes "2.0.0 Ok") s h
  handle_verb-Step vrfy arg s h =
      replied server 252 (codes "2.1.5 Cannot VRFY user, but will accept message") s h
  handle_verb-Step expn arg s h = replied server 502 (codes "5.5.1 Command not implemented") s h
  handle_verb-Step help arg s h =
      replied server 214 (codes "2.0.0 https://github.com/ (Carteiro SMTP relay)") s h
  handle_verb-Step quit arg s h = replied server 221 (codes "2.0.0 Bye") s h
  handle_verb-Step start_tls arg s h = handle_starttls-Step server s h
  handle_verb-Step bdat arg s h =
      replied server 502 (codes "5.5.1 BDAT not supported, use DATA") s h
  handle_verb-Step (unknown verb) arg s h =
      replied server 500 (codes "5.5.2 Unrecognized command: " ++ verb) s h

  handle_line-Step :
      (text : Bytes) (s : Session)
      → IsSafe server s
      → StepTo server s (handle_line services server text s)
  unfolding handle_line handle
  handle_line-Step [] s h = stay server s h
  handle_line-Step (c ∷ text) s h =
      let (verb, arg) = split_command (c ∷ text) in handle_verb-Step (verb_of verb) arg s h

  read_failed-Step :
      (e : LineError) (s : Session)
      → IsSafe server s
      → StepTo server s (read_failed services server e s)
  unfolding read_failed
  read_failed-Step too_long s h = replied server 500 (codes "5.5.2 Line too long") s h
  read_failed-Step (no_line timed_out) s h =
      replied server 421
        (codes "4.4.2 "
          ++ server.hostname
          ++ codes " Service closing transmission channel (timeout)")
        s h
  read_failed-Step (no_line eof) s h = stay server s h
  read_failed-Step (no_line broken) s h = stay server s h

  pub round-Step : (s : Session) → IsSafe server s → StepTo server s (round services server s)
  unfolding round
  round-Step s h = go (read_line s.input)
    where
      go :
          (r : LineRead)
          → StepTo server s (elim r [
            | got text rest ↦ handle_line services server text (record s { input = rest })
            | bad e rest ↦ read_failed services server e (record s { input = rest })
          ])
      go (got text rest) =
          let s' = record s { input = rest } in
          then_ server s s' (session (handle_line services server text s')) h (refl, refl)
            (handle_line-Step text s' h)
      go (bad e rest) =
          let s' = record s { input = rest } in
          then_ server s s' (session (read_failed services server e s')) h (refl, refl)
            (read_failed-Step e s' h)

  -- One round, and what follows it.
  next-Step :
      (s : Session) (n : Next) (rest : Session → Session)
      → StepTo server s n
      → ((t : Session) → IsSafe server t → Step server t (rest t))
      → Step server s (elim n [ go_on t ↦ rest t | close t ↦ t ])
  next-Step s (go_on t) rest step steps = Step-trans server s t (rest t) step (steps t step.safe)
  next-Step s (close t) rest step steps = step

  serve_on-Step :
      (fuel : ℕ) (s : Session) → IsSafe server s → Step server s (serve_on services server fuel s)
  unfolding serve_on
  serve_on-Step zero s h = stay server s h
  serve_on-Step (suc fuel) s h =
      next-Step s (round services server s) (serve_on services server fuel) (round-Step s h)
        (serve_on-Step fuel)

  serve-Step : (s : Session) → IsSafe server s → Step server s (serve services server s)
  unfolding serve reply
  serve-Step s h =
      let s' = reply 220 (server.hostname ++ codes " ESMTP Carteiro") s in
      then_ server s s' (serve services server s) h (refl, refl)
        (serve_on-Step (suc (pending s)) s' h)

  serve_implicit-Step :
      (hs : List Handshake) (s : Session)
      → IsSafe server s
      → Step server s (serve_implicit services server hs s)
  unfolding serve_implicit
  serve_implicit-Step [] s h = stay server s h
  serve_implicit-Step (k ∷ hs) s h =
      let s' = record s { input = k.input; handshakes = hs; tls_on = true } in
      let safe : IsSafe server s' = record {
        trusted = Trusted-tls server s.store.accounts s.user s.tls_on s.loopback h.trusted;
        authorised = h.authorised;
        valid = h.valid;
        few = h.few;
      } in
      if_lem (Step server s) k.succeeds (serve services server s') s
        (λ _. then_ server s s' (serve services server s') safe (refl, refl) (serve-Step s' safe))
        (λ _. stay server s h)

  serve_conn-Step : (s : Session) → IsSafe server s → Step server s (serve_conn services server s)
  unfolding serve_conn
  serve_conn-Step s h = go server.tls
    where
      go :
          (mode : Option TlsMode)
          → Step server s (elim mode [
            | none ↦ serve services server s
            | some m ↦ elim m [
              | implicit ↦ serve_implicit services server s.handshakes s
              | starttls ↦ serve services server s
            ]
          ])
      go none = serve-Step s h
      go (some implicit) = serve_implicit-Step s.handshakes s h
      go (some starttls) = serve-Step s h

  -- A connection is no open relay. Whatever the client sends, and whatever the database, the reads
  -- and the handshakes do, the queue afterwards is the queue before with rows behind it, each with a
  -- sender that an account of the table allows, and with one or more valid recipients but not more
  -- than the limit; and the accounts are the same.
  pub serve_conn-no_open_relay :
      (loopback : Bool) (remote_ip : Bytes) (input : List Slice) (handshakes : List Handshake)
      (store : Store) (metrics : Counter → ℕ)
      → let t =
          (serve_conn services server
            (new_session loopback remote_ip input handshakes store metrics)).store in
        (t.accounts ≡ store.accounts) × Admits server store.accounts store.queue t.queue
  unfolding new_session
  serve_conn-no_open_relay loopback remote_ip input handshakes store metrics =
      let s = new_session loopback remote_ip input handshakes store metrics in
      let step = serve_conn-Step s (blank server store.accounts none false loopback tt) in
      (step.accounts_same, step.admits)
