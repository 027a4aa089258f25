-- ===== src/Tests/Delivery.antt =====
-- The theorems on internal/relay at concrete inputs.
use carteiro.Common.{
  Bytes, List, [], arith, codes, false, if◌then◌else◌, ltb, none, refl, some, str_eq, ◌*◌, ◌++◌,
  ◌^◌, ◌∷◌, ◌≡◌, ◌≤◌,
}
use carteiro.Relay.Deliver.Signed.{Sends, prepare_body-Sends}
use carteiro.Relay.Domains.{split_by_domain, Parts, split_by_domain-Parts}
use carteiro.Relay.Backoff.{backoff, backoff-max, backoff-doubles}
use carteiro.Relay.Group.{Mx, Network, answer, group_result, settled}
use carteiro.Relay.Group.Decides.{group_result-Decides}
use carteiro.Storage.Queue.{new_row}
use carteiro.Relay.Deliver.{Deliverer, World, process_batch, Progress, run_groups, prepare_body}
use carteiro.Relay.Deliver.KeepsQueue.{process_batch-HasQueue}
use carteiro.Relay.Deliver.Ends.{Ends, run_groups-Ends}
use carteiro.Storage.Types.{Message, sqlite}
use carteiro.Relay.Group.Refusals.{Decides}
use carteiro.Relay.Deliver.RunKeepsQueue.{HasQueue}

abbrev addrs : List Bytes
addrs = codes "a@X.org." ∷ codes "b@y" ∷ codes "c@x.org" ∷ []

split_by_domain-Parts_example : Parts (codes "x.org") addrs (split_by_domain addrs (codes "x.org"))
split_by_domain-Parts_example = split_by_domain-Parts addrs (codes "x.org")

backoff-max_example : backoff 30000000000 21600000000000 12 ≤ 21600000000000
backoff-max_example = backoff-max 30000000000 21600000000000 12

backoff-doubles_example :
    backoff 30000000000 21600000000000 4
    ≡ (if ltb 21600000000000 (30000000000 * 2 ^ 3) then 21600000000000 else 30000000000 * 2 ^ 3)
backoff-doubles_example =
    backoff-doubles 30000000000 21600000000000 3 (omega arith) (omega arith) (omega arith)

-- A server that refuses `c@x.org` for good and takes the rest.
abbrev server : Mx
server = record {
  connect = none;
  hello = none;
  starttls = some false;
  reconnect = none;
  hello_again = none;
  mail = none;
  rcpt = λ a.
      if str_eq a (codes "c@x.org")
      then some (record { code = some 550; text = codes "no such user" })
      else none;
  data_start = none;
  write = none;
  data_end = none;
}

abbrev network : Network
network = record {
  lookup_mx = λ d. answer ((20, codes "b.mx") ∷ (10, codes "a.mx") ∷ []);
  lookup_host = λ d. answer [];
  mx = λ h. server;
}

abbrev group : List Bytes
group = codes "a@X.org." ∷ codes "c@x.org" ∷ []

settles :
    group_result network (codes "x.org") group
    ≡ settled (codes "a@X.org." ∷ []) ((codes "c@x.org", codes "RCPT: no such user") ∷ [])
unfolding group_result str_eq
settles = refl

group_result-Decides_example : Decides group (group_result network (codes "x.org") group)
group_result-Decides_example = group_result-Decides network (codes "x.org") group

abbrev mail : Message
mail = record {
  id = codes "1";
  sender = codes "s@s";
  to = addrs;
  attempts = 0;
  next_attempt = 0;
  created_at = 0;
  last_error = [];
  permanent = [];
  content = codes "Hi\n";
}

abbrev first_state : Progress
first_state = record {
  remaining = addrs;
  delivered_any = false;
  perm_count = 0;
  permanent = [];
  world = record {
    store = record {
      accounts = [];
      dkim_keys = [];
      queue = [];
      sends_log = [];
      counters = none;
      dialect = sqlite;
      instance_id = codes "w";
      dead_max = 0;
      notify = false;
      clock = 0;
      faults = [];
    };
    metrics = λ c. 0;
  };
}

run_groups-Ends_example : Ends (run_groups 4 network mail first_state)
run_groups-Ends_example = run_groups-Ends 4 network mail first_state (omega arith)

abbrev relay : Deliverer
relay = record {
  max_attempts = 3;
  retry_base = 30000000000;
  retry_max = 21600000000000;
  concurrency = 1;
  rec_ = none;
  sign = λ body domain key. none;
  network = λ sender body. network;
}

abbrev waiting : World
waiting = record first_state.world {
  store = record first_state.world.store {
    queue = new_row (codes "1") (codes "s@s") addrs (codes "Hi\n") 0 ∷ [];
  };
}

-- The servers take two recipients and refuse the third: the row is gone.
empties : (process_batch relay waiting).store.queue ≡ []
unfolding process_batch str_eq
empties = refl

process_batch-HasQueue_example : HasQueue (process_batch relay waiting)
process_batch-HasQueue_example = process_batch-HasQueue relay waiting (record {
  unique = (refl, tt);
  sound = (record { addressed = λ e. cc e; unowned = λ _. refl; dead_free = λ _. refl }, tt);
})

abbrev signing : Deliverer
signing = record relay { sign = λ body domain key. some (codes "DKIM-Signature: x\r\n" ++ body) }

abbrev hello : Message
hello = record mail { sender = codes "s@s"; content = codes "a\nb\r\nc" }

abbrev keyed : World
keyed = record waiting {
  store = record waiting.store {
    dkim_keys = record { domain = codes "s"; selector = codes "m"; key_data = codes "PEM" } ∷ [];
  };
}

-- The normalised text behind the signature.
signs : (prepare_body signing hello keyed).0 ≡ codes "DKIM-Signature: x\r\na\r\nb\r\nc\r\n"
unfolding prepare_body str_eq
signs = refl

prepare_body-Sends_example : Sends signing hello keyed.store (prepare_body signing hello keyed).0
prepare_body-Sends_example = prepare_body-Sends signing hello keyed
