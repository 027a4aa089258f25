-- ===== src/Api/Sends.antt =====
-- internal/api/api.go: the handlers of the send history, and the composing of messages.
pub mod Honest
pub mod Sound
use carteiro.Common.{
  Bool, Bytes, List, Option, [], any, codes, false, if◌then◌else◌, inl, inr, length, ltb, none, not,
  some, str_eq, ℕ, ◌++◌, ◌+◌, ◌==◌, ◌||◌, ◌∷◌, ◌⊎◌,
}
use carteiro.Text.{normalize, trim_space, contains_byte, contains_any, itoa}
use carteiro.Storage.Types.{Account, SendLog, messages_queued}
use carteiro.Storage.Db.{Outcome, done, failed, after}
use carteiro.Storage.Accounts.{list_accounts, allows_from}
use carteiro.Storage.Queue.{enqueue_with_id}
use carteiro.Storage.Counters.{add_counter}
use carteiro.Sends.Recorder
use carteiro.Sends.Recorder.{Recorder}
use carteiro.Sends.Compose.{build_message, Composed, message, invalid}
use carteiro.Api.Queue.{limit_param}
use carteiro.Api.Types.{
  Services, Server, SendRequest, Request, Handler, State, write_json, write_error, call, run,
  add_metric, compose_error, sent_as, sends, send,
}

list_sends : Server → Option ℕ → Handler
unfolding call Recorder.list write_json write_error
list_sends server none = write_error 400 (codes "invalid limit")
list_sends server (some limit) =
    call (Recorder.list server.rec_ limit) (λ _. write_json 200 (sends []))
      λ logs. write_json 200 (sends logs)

unfoldable pub handle_list_sends : Server → Request → Handler
unfolding list_sends limit_param
handle_list_sends server r = list_sends server (limit_param 50 (r.query (codes "limit")))

found_send : Option SendLog → Handler
unfolding write_json write_error
found_send none =
    write_error 404 (codes "send not found (it may have been evicted from the ring buffer)")
found_send (some log) = write_json 200 (send log)

get_send : Option Recorder → Bytes → Handler
unfolding call Recorder.get found_send write_error
get_send none path_id = write_error 404 (codes "send tracking is disabled")
get_send (some r) path_id =
    call (Recorder.get (some r) (trim_space path_id)) (λ _. found_send none) found_send

unfoldable pub handle_get_send : Server → Bytes → Handler
unfolding get_send trim_space
handle_get_send server path_id = get_send server.rec_ path_id

-- An error of the look-up counts as a refusal.
allowed_by : Bytes → Outcome (List Account) → Bool
unfolding allows_from
allowed_by from (done accs t) = any (λ a. allows_from a from) accs
allowed_by from (failed e t) = false

unfoldable pub sender_allowed : Bytes → State → Bool
unfolding allowed_by list_accounts
sender_allowed from s = allowed_by from (list_accounts s.store)

-- The loop over the recipients; `out` holds those so far, and stands for the map `seen` too. The
-- first address without `@` stops it.
unfoldable pub recipients : List Bytes → List Bytes → Bytes ⊎ List Bytes
unfolding normalize contains_byte str_eq
recipients [] out = inr out
recipients (a ∷ more) out =
    let a' = normalize a in
    let stop : Bytes ⊎ List Bytes = inl a' in
    let rest =
      recipients more (if str_eq a' [] || any (str_eq a') out then out else out ++ a' ∷ []) in
    if str_eq a' [] then rest else if not (contains_byte a' b'@') then stop else rest

-- What follows the call of EnqueueWithID.
after_enqueue : Server → Bytes → Outcome Bytes → Handler
unfolding run add_counter add_metric Recorder.drop_send write_json write_error
after_enqueue server id (failed e t) s =
    write_error 500 (codes "failed to queue the message")
      (run (Recorder.drop_send server.rec_ id) (record s { store = t }))
after_enqueue server id (done qid t) s = write_json 201 (sent_as qid) (
    run (add_counter (codes "messages_queued") 1)
      (add_metric messages_queued (record s { store = t })))

queue_composed : Services → Server → Bytes → Bytes → List Bytes → Bytes → Handler
unfolding after_enqueue run Recorder.add enqueue_with_id
queue_composed services server id from to msg s =
    let s' = run (Recorder.add services.parse server.rec_ id from to msg) s in
    after_enqueue server id (enqueue_with_id id from to msg s'.store) s'

compose : Services → Server → SendRequest → Bytes → List Bytes → Bytes → Composed → Handler
unfolding queue_composed write_json write_error itoa
compose services server req from to id (invalid e) = write_json 400 (compose_error e)
compose services server req from to id (message msg) =
    if ltb server.max_message_size (length msg)
    then write_error 400
        (codes "message exceeds the limit of " ++ (itoa server.max_message_size ++ codes " bytes"))
    else queue_composed services server id from to msg

-- The checks of the recipients and of the subject. The id and the boundary are drawn here.
send_checked : Services → Server → SendRequest → Bytes → Bytes ⊎ List Bytes → Handler
unfolding compose write_error contains_any itoa build_message
send_checked services server req from (inl bad) s =
    write_error 400 (codes "invalid recipient address: " ++ bad) s
send_checked services server req from (inr to) s =
    let id = services.new_id s.store.clock s.drawn in
    if length to == 0
    then write_error 400 (codes "at least one recipient is required") s
    else if ltb server.max_recipients (length to)
    then write_error 400
        (codes "message exceeds the limit of "
          ++ (itoa server.max_recipients ++ codes " recipients"))
        s
    else if contains_any req.subject (codes "\r\n")
    then write_error 400 (codes "subject must not contain line breaks") s
    else compose services server req from to id
        (build_message (services.surroundings s.store.clock s.drawn) id from to req.subject req.text
          req.html)
        (record s { drawn = s.drawn + 1 })

-- The store after the accounts were listed.
after_listing : State → State
unfolding list_accounts
after_listing s = record s { store = after (list_accounts s.store) }

send_request : Services → Server → SendRequest → Handler
unfolding send_checked sender_allowed after_listing recipients write_error normalize contains_byte
send_request services server req s =
    let from = normalize req.sender in
    if not (contains_byte from b'@')
    then write_error 400 (codes "from must be a valid sender address") s
    else if not (sender_allowed from s)
    then write_error 403 (codes "sender not allowed by any account") (after_listing s)
    else send_checked services server req from (recipients req.to []) (after_listing s)

unfoldable pub handle_send : Services → Server → Bytes → Handler
unfolding send_request write_error
handle_send services server body = elim (services.decode_send body) [
  | none ↦ write_error 400 (codes "invalid JSON body")
  | some req ↦ send_request services server req
]
