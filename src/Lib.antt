-- ===== src/Lib.antt =====
-- Carteiro, an outgoing mail relay in Go: it takes messages from authenticated users over SMTP,
-- keeps them in a queue in a SQL database, and delivers them to the recipients' MX servers.
--
-- The parts and how they interact.
-- * internal/storage is the whole state of the server: accounts, DKIM keys, the queue, the send
--   history and the lifetime counters. Storage.Types has the rows and the store, Storage.Db the SQL
--   statements: an operation is a chain of statements, any of which may fail (the field `faults` of
--   the store says which), and stops at the first error. Storage.Queue is queue.go,
--   Storage.Accounts accounts.go, Storage.Dkim dkim.go, Storage.Counters counters.go and
--   Storage.Sends sends.go, each with one function for each method under the method's name.
--   Storage.Queue.Workers has the runs of several workers, as sequences of their calls.
--   Storage.Bcrypt is the interface of the bcrypt package.
-- * internal/sends/sends.go is Sends.Recorder, which session and relay call to keep the send
--   history.
-- * internal/smtpd/session.go is Smtpd: Smtpd.Lines has readRaw, readLine and readData, Smtpd.Parse
--   the parsing of commands and envelopes, Smtpd.Server the state of a connection and the replies,
--   Smtpd.Auth, Smtpd.Mail and Smtpd.Session the handlers and the loop of serveConn. A session
--   reads the accounts, and writes the queue, the counters and the send history. Its input is the
--   list of what the calls of the buffered reader return, errors and timeouts included; TLS
--   handshakes are a list of their results with what is read after each.
-- * internal/relay/deliver.go is Relay: Relay.Body, Relay.Domains and Relay.Backoff are the
--   functions on texts and delays, Relay.Group the delivery to the MX of one domain, Relay.Deliver
--   the delivery of a message and of a batch. The resolver and the SMTP client are scripted: they
--   are functions that say what each call returns.
-- * internal/logmask/logmask.go is Logmask: the masks of addresses in log lines.
-- * internal/sends/msg.go is the parser and the composer of messages: Sends.Message is parseMsg,
--   with Sends.Headers for its header fields and Sends.Charset for its character sets;
--   Sends.Compose is BuildMessage and Sends.Quoted is qpEncode. What they use of mime,
--   mime/multipart and mime/quotedprintable is the record Mime.
-- * internal/dnscheck/dnscheck.go is Dnscheck, with Dnscheck.Spf for the SPF check and
--   Dnscheck.Records for what it reads in a record. The resolver is a record of functions, and the
--   public half of a key is a function argument.
-- * internal/api is Api, the admin API over the operations of internal/storage, with one function
--   for each handler, which takes the state to an answer and the next state: Api.System,
--   Api.Accounts, Api.Dkim, Api.Queue, Api.Sends. Api.Routes has the routes and the authorization,
--   and Api.Sound what the handlers keep. An answer is a code and a value in place of its JSON
--   text; the text that the multiplexer itself sends, for a redirect, 404 or 405, is one value; the
--   JSON decoders of the requests are function arguments.
-- * internal/config/config.go is Config: Config.Decode has the base64 keys, Config.Env applyEnv and
--   applyDKIMEnv, Config.Seeds the accounts and keys, Config.Listen the addresses to listen on,
--   Config.Normal normalizeAndValidate and Config.Load Load. An error is a constructor in place of
--   its text, and a dereference of a nil pointer is the result `panics`. The environment, the file
--   system, the YAML decoder and time.ParseDuration are records of functions.
-- * Text is what the code uses of strings, bytes, strconv and encoding/base64, on bytes that are
--   ASCII.
-- * Common has the shared names and lemmas. Tests has runs and the theorems at concrete inputs.
--
-- Numbers. Texts are lists of bytes as natural numbers. Times are Unix milliseconds and 0 is Go's
-- zero time; the clock stands still during one operation. The numbers of the configuration are
-- integers; the sizes, limits and counts elsewhere are natural numbers. Relay.Backoff works on
-- 64-bit values.
--
-- Fuel. readData has one round more than there are results of the reader, and each round takes one
-- or stops. parseMsg walks multiparts to the depth at which the code stops. serveConn has one round
-- more than there are results before and after the handshakes. Smtpd.Lines.read_data_on takes the
-- answer for fuel that has run out as an argument, and Smtpd.Progress.Loop.Closes has the rounds of
-- a connection as a relation. The loop of deliver has one round more than the message has
-- recipients.
--
-- Not modelled: DKIM signing and the parsing of its keys, the log handler, the metrics of
-- internal/metrics as a text, the web panel and its proxy, the accept loop of the SMTP and HTTP
-- servers, dialling, logging, the goroutines (a batch is delivered one message after another) and
-- the SQL text of the schema. The signer is a function argument.
pub mod Common
pub mod Text
pub mod Storage
pub mod Sends
pub mod Smtpd
pub mod Relay
pub mod Logmask
pub mod Dnscheck
pub mod Api
pub mod Config
pub mod Tests
