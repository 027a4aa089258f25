-- ===== src/Api/Sends/Sound.antt =====
-- internal/api/api.go: the handlers of the send history and POST /api/send keep the store coherent.
use carteiro.Common.{
  Bytes, List, Option, [], codes, if_lem, inl, inr, length, ltb, none, not, option_lem, some, subst,
  sym, ℕ, ◌+◌, ◌==◌, ◌≡◌, ◌⊎◌,
}
use carteiro.Text.{normalize, contains_byte, contains_any, trim_space}
use carteiro.Storage.Types.{Store, SendLog}
use carteiro.Storage.Db.{after, Outcome, done, failed, order_by}
use carteiro.Storage.Db.Rules.{query-cases}
use carteiro.Storage.Counters.{add_counter}
use carteiro.Storage.Accounts.{list_accounts, by_email}
use carteiro.Storage.Accounts.Table.{IsAccounts}
use carteiro.Storage.Queue.{enqueue_with_id}
use carteiro.Storage.Queue.Soundness.{enqueue-IsQueue}
use carteiro.Smtpd.Effects.{add_counter-Kept, add-Kept, drop_send-Kept, enqueue-Queued, Queued}
use carteiro.Sends.Recorder
use carteiro.Sends.Recorder.{Recorder, add, drop_send}
use carteiro.Sends.Recorder.Frame.{list-SameRows, get-SameRows}
use carteiro.Sends.Compose.{Composed, message, invalid, build_message}
use carteiro.Api.Types.{
  Services, Server, Request, SendRequest, State, Response, write_json, write_error, run, add_metric,
}
use carteiro.Api.Sound.{
  Handles, Preserves, IsCoherent, call-Handles, error-Handles, same-Preserves, same-IsCoherent,
}
use carteiro.Api.Queue.{limit_param}
use carteiro.Api.Sends.{
  handle_list_sends, list_sends, handle_get_send, get_send, found_send, handle_send, send_request,
  sender_allowed, after_listing, send_checked, recipients, compose, queue_composed, after_enqueue,
}

list_sends-Handles : (server : Server) (limit : Option ℕ) → Handles (list_sends server limit)
unfolding list_sends write_json
list_sends-Handles server none = error-Handles 400 (codes "invalid limit")
list_sends-Handles server (some limit) =
    call-Handles (Recorder.list server.rec_ limit) _ _
      (same-Preserves (Recorder.list server.rec_ limit) (list-SameRows server.rec_ limit))
      (λ e t k. k) (λ logs t k. k)

pub handle_list_sends-Handles :
    (server : Server) (r : Request) → Handles (handle_list_sends server r)
unfolding handle_list_sends
handle_list_sends-Handles server r =
    list_sends-Handles server (limit_param 50 (r.query (codes "limit")))

found_send-Handles : (found : Option SendLog) → Handles (found_send found)
unfolding found_send write_json write_error
found_send-Handles none s c = c
found_send-Handles (some l) s c = c

get_send-Handles : (r : Option Recorder) (id : Bytes) → Handles (get_send r id)
unfolding get_send
get_send-Handles none id = error-Handles 404 (codes "send tracking is disabled")
get_send-Handles (some r) id =
    call-Handles (Recorder.get (some r) (trim_space id)) _ _
      (same-Preserves (Recorder.get (some r) (trim_space id))
        (get-SameRows (some r) (trim_space id)))
      (λ e. found_send-Handles none) found_send-Handles

pub handle_get_send-Handles : (server : Server) (id : Bytes) → Handles (handle_get_send server id)
unfolding handle_get_send
handle_get_send-Handles server id = get_send-Handles server.rec_ id

enqueue-accounts :
    (id sender : Bytes) (to : List Bytes) (raw : Bytes) (s : Store)
    → (after (enqueue_with_id id sender to raw s)).accounts ≡ s.accounts
enqueue-accounts id sender to raw s =
    go (enqueue_with_id id sender to raw s) (enqueue-Queued id sender to raw s)
  where
    go : (o : Outcome Bytes) → Queued id sender to raw s o → (after o).accounts ≡ s.accounts
    go (done qid t) q = q.1
    go (failed e t) q = q.0

enqueue-Preserves :
    (id sender : Bytes) (to : List Bytes) (raw : Bytes)
    → Preserves (enqueue_with_id id sender to raw)
enqueue-Preserves id sender to raw s c = (
  enqueue-IsQueue id sender to raw s c.0,
  subst IsAccounts (sym (enqueue-accounts id sender to raw s)) c.1,
)

after_enqueue-Handles :
    (server : Server) (id : Bytes) (o : Outcome Bytes) (s : State)
    → IsCoherent (after o)
    → IsCoherent (after_enqueue server id o s).1.store
unfolding after_enqueue run add_metric write_json write_error
after_enqueue-Handles server id (failed e t) s c =
    same-IsCoherent t (after (drop_send server.rec_ id t)) (drop_send-Kept server.rec_ id t) c
after_enqueue-Handles server id (done qid t) s c =
    same-IsCoherent t (after (add_counter (codes "messages_queued") 1 t))
      (add_counter-Kept (codes "messages_queued") 1 t) c

queue_composed-Handles :
    (services : Services) (server : Server) (id from : Bytes) (to : List Bytes) (msg : Bytes)
    → Handles (queue_composed services server id from to msg)
unfolding queue_composed run
queue_composed-Handles services server id from to msg s c =
    let t = after (add services.parse server.rec_ id from to msg s.store) in
    after_enqueue-Handles server id (enqueue_with_id id from to msg t) (record s { store = t })
      (enqueue-Preserves id from to msg t
        (same-IsCoherent s.store t (add-Kept services.parse server.rec_ id from to msg s.store) c))

compose-Handles :
    (services : Services) (server : Server) (req : SendRequest) (from : Bytes) (to : List Bytes)
    (id : Bytes) (c : Composed)
    → Handles (compose services server req from to id c)
unfolding compose write_json write_error
compose-Handles services server req from to id (invalid e) s c = c
compose-Handles services server req from to id (message msg) s c =
    if_lem Handles (ltb server.max_message_size (length msg)) _ _ (λ _ s c. c)
      (λ _. queue_composed-Handles services server id from to msg) s c

send_checked-Handles :
    (services : Services) (server : Server) (req : SendRequest) (from : Bytes)
    (r : Bytes ⊎ List Bytes)
    → Handles (send_checked services server req from r)
unfolding send_checked write_error write_json
send_checked-Handles services server req from (inl bad) s c = c
send_checked-Handles services server req from (inr to) s c =
    let P = λ (o : Response × State). IsCoherent o.1.store in
    let id = services.new_id s.store.clock s.drawn in
    let drawn = record s { drawn = s.drawn + 1 } in
    if_lem P (length to == 0) _ _ (λ _. c)
      λ _.
        if_lem P (ltb server.max_recipients (length to)) _ _ (λ _. c)
          λ _.
            if_lem P (contains_any req.subject (codes "\r\n")) _ _ (λ _. c)
              λ _.
                compose-Handles services server req from to id
                  (build_message (services.surroundings s.store.clock s.drawn) id from to
                    req.subject req.text req.html)
                  drawn c

after_listing-IsCoherent : (s : State) → IsCoherent s.store → IsCoherent (after_listing s).store
unfolding after_listing list_accounts
after_listing-IsCoherent s c =
    query-cases (λ o. IsCoherent (after o)) s.store (λ t. order_by by_email t.accounts) c c

pub handle_send-Handles :
    (services : Services) (server : Server) (body : Bytes)
    → Handles (handle_send services server body)
unfolding handle_send send_request write_error write_json
handle_send-Handles services server body =
    option_lem Handles (services.decode_send body) _ _ (λ _ s c. c)
      λ req _ s c.
        let P = λ (o : Response × State). IsCoherent o.1.store in
        let from = normalize req.sender in
        let listed = after_listing-IsCoherent s c in
        if_lem P (not (contains_byte from b'@')) _ _ (λ _. c)
          λ _.
            if_lem P (not (sender_allowed from s)) _ _ (λ _. listed)
              (λ _.
                send_checked-Handles services server req from (recipients req.to [])
                  (after_listing s) listed)
