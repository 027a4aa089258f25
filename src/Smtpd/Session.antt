-- ===== src/Smtpd/Session.antt =====
-- internal/smtpd/session.go: the dispatch on the verb, `EHLO`, `STARTTLS`, and the loop of a
-- connection.
use carteiro.Common.{
  Bool, Bytes, List, [], codes, false, if◌then◌else◌, length, none, not, some, str_eq, suc, true,
  zero, ℕ, ◌++◌, ◌+◌, ◌∷◌,
}
use carteiro.Text.{to_upper, itoa}
use carteiro.Storage.Types.{Store, Counter}
use carteiro.Smtpd.Parse.{split_command}
use carteiro.Smtpd.Lines.{
  read_line, got, bad, LineError, too_long, no_line, timed_out, eof, broken, Slice,
}
use carteiro.Smtpd.Server.{
  Server, Services, Session, Handshake, Next, go_on, close, Reply, starttls, implicit, reply,
  write_lines, reset, auth_allowed,
}
use carteiro.Smtpd.Auth.{handle_auth}
use carteiro.Smtpd.Mail.{handle_mail, handle_rcpt, handle_data}

-- The cases of the switch of `handle`.
pub data Verb : Type 0 where
  helo ehlo auth mail rcpt data_ rset noop vrfy expn help quit start_tls bdat : Verb
  unknown : Bytes → Verb

abbrev verbs : List (Bytes × Verb)
verbs =
    (codes "HELO", helo)
    ∷ (codes "EHLO", ehlo)
    ∷ (codes "AUTH", auth)
    ∷ (codes "MAIL", mail)
    ∷ (codes "RCPT", rcpt)
    ∷ (codes "DATA", data_)
    ∷ (codes "RSET", rset)
    ∷ (codes "NOOP", noop)
    ∷ (codes "VRFY", vrfy)
    ∷ (codes "EXPN", expn)
    ∷ (codes "HELP", help)
    ∷ (codes "QUIT", quit)
    ∷ (codes "STARTTLS", start_tls)
    ∷ (codes "BDAT", bdat)
    ∷ []

search_verb : Bytes → Bytes → List (Bytes × Verb) → Verb
unfolding str_eq
search_verb verb upper [] = unknown verb
search_verb verb upper ((name, v) ∷ vs) =
    let rest = search_verb verb upper vs in if str_eq upper name then v else rest

unfoldable pub verb_of : Bytes → Verb
unfolding search_verb to_upper
verb_of verb = search_verb verb (to_upper verb) verbs

-- The last line of the reply has no dash.
end_with : List Bytes → List Reply
end_with [] = []
end_with (l ∷ []) = Reply.final 250 l ∷ []
end_with (l ∷ m ∷ ls) = Reply.part 250 l ∷ end_with (m ∷ ls)

unfoldable pub offers_starttls : Server → Session → Bool
offers_starttls server s = elim server.tls [
  | none ↦ false
  | some mode ↦ elim mode [ starttls ↦ not s.tls_on | implicit ↦ false ]
]

unfoldable pub ehlo_lines : Server → Session → List Bytes
unfolding itoa auth_allowed offers_starttls
ehlo_lines server s =
    (server.hostname
      ∷ codes "PIPELINING"
      ∷ codes "8BITMIME"
      ∷ (codes "SIZE " ++ itoa server.max_message_size)
      ∷ [])
    ++ (if offers_starttls server s then codes "STARTTLS" ∷ [] else [])
    ++ (if auth_allowed server s then codes "AUTH PLAIN LOGIN" ∷ [] else [])

unfoldable pub send_ehlo : Server → Session → Session
unfolding ehlo_lines end_with write_lines
send_ehlo server s = write_lines (end_with (ehlo_lines server s)) s

-- After the handshake the reader is a new one, on what comes encrypted. Where no handshake is left
-- the client is gone.
unfoldable pub shake : List Handshake → Session → Session
unfolding reset
shake [] s = record s { input = [] }
shake (h ∷ hs) s =
    let s' = record s { input = h.input; handshakes = hs } in
    if h.succeeds then reset false (record s' { tls_on = true; helo = [] }) else s'

unfoldable pub upgrade : Session → Session
unfolding shake reply
upgrade s =
    if s.tls_on
    then reply 503 (codes "5.5.1 TLS already active") s
    else shake s.handshakes (reply 220 (codes "2.0.0 Ready to start TLS") s)

unfoldable pub handle_starttls : Server → Session → Session
unfolding upgrade reply
handle_starttls server s = elim server.tls [
  | none ↦ reply 502 (codes "5.5.1 STARTTLS not available") s
  | some mode ↦ elim mode [
    | starttls ↦ upgrade s
    | implicit ↦ reply 502 (codes "5.5.1 STARTTLS not available") s
  ]
]

unfoldable pub greet : Bytes → Session → Session
unfolding reset
greet arg s = reset false (record s { helo = arg })

unfoldable pub handle_helo : Server → Bytes → Session → Session
unfolding greet reply
handle_helo server [] s = reply 501 (codes "5.5.4 HELO requires a domain") s
handle_helo server (c ∷ arg) s = reply 250 server.hostname (greet (c ∷ arg) s)

unfoldable pub handle_ehlo : Server → Bytes → Session → Session
unfolding greet reply send_ehlo
handle_ehlo server [] s = reply 501 (codes "5.5.4 EHLO requires a domain") s
handle_ehlo server (c ∷ arg) s = send_ehlo server (greet (c ∷ arg) s)

-- The `smtpConn` of a new connection.
unfoldable pub new_session :
    Bool → Bytes → List Slice → List Handshake → Store → (Counter → ℕ) → Session
new_session loopback remote_ip input handshakes store metrics = record {
  helo = [];
  sender = [];
  rcpts = [];
  user = none;
  tls_on = false;
  loopback = loopback;
  remote_ip = remote_ip;
  input = input;
  handshakes = handshakes;
  output = [];
  store = store;
  metrics = metrics;
  drawn = 0;
}

-- What is left to read, now and after the handshakes to come.
unfoldable pub pending_after : List Handshake → ℕ
pending_after [] = 0
pending_after (h ∷ hs) = length h.input + pending_after hs

unfoldable pub pending : Session → ℕ
unfolding pending_after
pending s = length s.input + pending_after s.handshakes

module _ (services : Services) (server : Server) where
  unfoldable pub handle_verb : Verb → Bytes → Session → Next
  unfolding handle_helo handle_ehlo handle_auth handle_mail handle_rcpt handle_data reset reply
      handle_starttls
  handle_verb helo arg s = go_on (handle_helo server arg s)
  handle_verb ehlo arg s = go_on (handle_ehlo server arg s)
  handle_verb auth arg s = handle_auth services server arg s
  handle_verb mail arg s = go_on (handle_mail server arg s)
  handle_verb rcpt arg s = go_on (handle_rcpt server arg s)
  handle_verb data_ arg s = go_on (handle_data services server s)
  handle_verb rset arg s = go_on (reply 250 (codes "2.0.0 Ok") (reset true s))
  handle_verb noop arg s = go_on (reply 250 (codes "2.0.0 Ok") s)
  handle_verb vrfy arg s =
      go_on (reply 252 (codes "2.1.5 Cannot VRFY user, but will accept message") s)
  handle_verb expn arg s = go_on (reply 502 (codes "5.5.1 Command not implemented") s)
  handle_verb help arg s =
      go_on (reply 214 (codes "2.0.0 https://github.com/ (Carteiro SMTP relay)") s)
  handle_verb quit arg s = close (reply 221 (codes "2.0.0 Bye") s)
  handle_verb start_tls arg s = go_on (handle_starttls server s)
  handle_verb bdat arg s = go_on (reply 502 (codes "5.5.1 BDAT not supported, use DATA") s)
  handle_verb (unknown verb) arg s =
      go_on (reply 500 (codes "5.5.2 Unrecognized command: " ++ verb) s)

  unfoldable pub handle : Bytes → Bytes → Session → Next
  unfolding verb_of handle_verb
  handle verb arg s = handle_verb (verb_of verb) arg s

  unfoldable pub handle_line : Bytes → Session → Next
  unfolding handle split_command
  handle_line [] s = go_on s
  handle_line (c ∷ text) s = let (verb, arg) = split_command (c ∷ text) in handle verb arg s

  unfoldable pub read_failed : LineError → Session → Next
  unfolding reply
  read_failed too_long s = go_on (reply 500 (codes "5.5.2 Line too long") s)
  read_failed (no_line timed_out) s = close (
      reply 421
        (codes "4.4.2 "
          ++ server.hostname
          ++ codes " Service closing transmission channel (timeout)")
        s)
  read_failed (no_line eof) s = close s
  read_failed (no_line broken) s = close s

  -- One round of the loop of `serveConn`.
  unfoldable pub round : Session → Next
  unfolding read_line handle_line read_failed
  round s = elim (read_line s.input) [
    | got text rest ↦ handle_line text (record s { input = rest })
    | bad e rest ↦ read_failed e (record s { input = rest })
  ]

  -- On fuel.
  unfoldable pub serve_on : ℕ → Session → Session
  unfolding round
  serve_on zero s = s
  serve_on (suc fuel) s = elim (round s) [ go_on t ↦ serve_on fuel t | close t ↦ t ]

  -- Every round reads something or is the last: one more than what is left is enough.
  unfoldable pub serve : Session → Session
  unfolding serve_on pending reply
  serve s = serve_on (suc (pending s)) (reply 220 (server.hostname ++ codes " ESMTP Carteiro") s)

  -- `serveConn`: with implicit TLS the handshake comes before the greeting.
  unfoldable pub serve_implicit : List Handshake → Session → Session
  unfolding serve
  serve_implicit [] s = s
  serve_implicit (h ∷ hs) s =
      if h.succeeds then serve (record s { input = h.input; handshakes = hs; tls_on = true }) else s

  unfoldable pub serve_conn : Session → Session
  unfolding serve serve_implicit
  serve_conn s = elim server.tls [
    | none ↦ serve s
    | some mode ↦ elim mode [ implicit ↦ serve_implicit s.handshakes s | starttls ↦ serve s ]
  ]
