-- ===== src/Tests/Api.antt =====
-- The theorems on internal/api for a request with the token and one without.
use carteiro.Text.{normalize, to_lower, trim_space}
use carteiro.Common.{Bytes, [], codes, false, inl, length, none, refl, some, str_eq, ◌∷◌, ◌≡◌}
use carteiro.Storage.Types.{Store, sqlite}
use carteiro.Storage.Bcrypt.{toy_bcrypt}
use carteiro.Dnscheck.Types.{no_answer, bad_key}
use carteiro.Api.Types.{Services, Server, Request, State}
use carteiro.Api.Sends.{handle_send}
use carteiro.Api.Sends.Honest.{Honest, handle_send-Honest}
use carteiro.Api.Routes.{serve, has_token}
use carteiro.Api.Routes.Auth.{Harmless, serve-Harmless}
use carteiro.Api.Sound.{IsCoherent}
use carteiro.Api.Routes.Sound.{serve-IsCoherent}

abbrev store : Store
store = record {
  accounts =
      record {
        email = codes "ann@x";
        password_hash = 7 ∷ codes "pw";
        allowed_from = codes "ann@x" ∷ [];
      }
      ∷ [];
  dkim_keys = [];
  queue = [];
  sends_log = [];
  counters = none;
  dialect = sqlite;
  instance_id = codes "w";
  dead_max = 0;
  notify = false;
  clock = 5;
  faults = [];
}

abbrev state : State
state = record { store = store; metrics = λ c. 0; drawn = 0 }

abbrev services : Services
services = record {
  bcrypt = toy_bcrypt;
  decode_create_account = λ b. none;
  decode_update_account = λ b. none;
  decode_create_dkim = λ b. none;
  decode_send = λ b. some (record {
    sender = codes "Ann@x";
    to = codes "b@y" ∷ codes "B@y" ∷ [];
    subject = codes "Hi";
    text = codes "hello";
    html = [];
  });
  is_signer = λ b. false;
  derive = λ b. bad_key [];
  parse = λ b. record { subject = []; text = []; html = [] };
  new_id = λ now n. codes "id";
  surroundings =
      λ now n. record { date = codes "today"; random = some (1 ∷ 2 ∷ []); encode_subject = λ s. s };
}

abbrev server : Server
server = record {
  token = codes "secret";
  rec_ = none;
  version = codes "1";
  hostname = codes "mx";
  max_message_size = 1000;
  max_recipients = 2;
  dns = record {
    lookup_txt = λ n. no_answer [];
    lookup_mx = λ n. no_answer [];
    lookup_host = λ n. no_answer [];
    lookup_addr = λ n. no_answer [];
  };
  started = 0;
}

abbrev request : Bytes → Request
request authorization = record {
  method = codes "POST";
  path = codes "api" ∷ codes "send" ∷ [];
  authorization = authorization;
  query = λ k. [];
  body = [];
}

-- The token is right, and the message is queued for its one recipient.
composes : (serve services server (request (codes "Bearer secret")) state).0.code ≡ 201
unfolding serve str_eq handle_send
composes = refl

queues_one : length (handle_send services server [] state).1.store.queue ≡ 1
unfolding handle_send str_eq
queues_one = refl

handle_send-Honest_example : Honest server state (handle_send services server [] state)
handle_send-Honest_example = handle_send-Honest services server [] state

wrong_token : has_token server (request (codes "Bearer wrong")) ≡ false
unfolding has_token
wrong_token = refl

serve-Harmless_example :
    Harmless state (serve services server (request (codes "Bearer wrong")) state)
serve-Harmless_example =
    serve-Harmless services server (request (codes "Bearer wrong")) state wrong_token

state-IsCoherent : IsCoherent store
unfolding normalize to_lower trim_space
state-IsCoherent = (
  record { unique = tt; sound = tt },
  record {
    unique = (refl, tt);
    each = (record { addressed = λ e. cc e; normal = refl; own = inl refl }, tt);
  },
)

serve-IsCoherent_example :
    IsCoherent (serve services server (request (codes "Bearer secret")) state).1.store
serve-IsCoherent_example =
    serve-IsCoherent services server (request (codes "Bearer secret")) state state-IsCoherent
