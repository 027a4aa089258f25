-- ===== src/Api/Sends/Honest.antt =====
-- internal/api/api.go: what an answer to POST /api/send promises.
use carteiro.Common.{
  All, All-append, Bool, Bytes, List, [], any, ap, arith, codes, false, if_lem, inl, inr, length,
  ltb, not, option_lem, refl, str_eq, sym, true, ℕ, ◌++◌, ◌+◌, ◌==◌, ◌||◌, ◌∙◌, ◌∷◌, ◌≡◌, ◌≢◌, ◌≤◌,
  ◌⊎◌,
}
use carteiro.Text.{contains_byte, contains_any, normalize}
use carteiro.Storage.Accounts.{allows_from, list_accounts, by_email}
use carteiro.Storage.Accounts.Allowed.{IsDistinct, append-IsDistinct}
use carteiro.Storage.Queue.{new_row, enqueue_with_id}
use carteiro.Api.Types.{
  Services, Server, Response, State, run, sent_as, write_json, write_error, add_metric, SendRequest,
  Handler,
}
use carteiro.Api.Sends.{
  recipients, handle_send, compose, queue_composed, allowed_by, send_request, sender_allowed,
  after_listing, send_checked, after_enqueue,
}
use carteiro.Storage.Types.{Store}
use carteiro.Storage.Db.{Outcome, after, failed, order_by, done}
use carteiro.Smtpd.Effects.{
  Kept, Queued, drop_send-Kept, Kept-trans, add_counter-Kept, add-Kept, enqueue-Queued,
}
use carteiro.Sends.Compose.{message, Composed, invalid}
use carteiro.Sends.Recorder.{add}
use carteiro.Storage.Db.Rules.{query-cases}
use carteiro.Storage.Db.Order.{any-order_by}

abbrev HasAt : Bytes → Type 0
HasAt a = contains_byte a b'@' ≡ true

-- The queue is as before, and the code is not 201.
abbrev pub Refused : State → Response × State → Type 0
Refused s (resp, t) = (t.store.queue ≡ s.store.queue) × ((resp.code == 201) ≡ false)

-- The message `msg` is in the queue under the id that the answer names. An account of the table may
-- send from its sender; its recipients are distinct addresses, at least one and within the limit;
-- and its size is within the limit.
abbrev pub Accepted : Server → State → Response × State → Type 0
Accepted server s (resp, t) =
    (id : Bytes) × (from : Bytes) × (to : List Bytes) × (msg : Bytes) × (now : ℕ) × (t.store.queue
      ≡ s.store.queue ++ new_row id from to msg now ∷ [])
    × (resp ≡ record { code = 201; payload = sent_as id })
    × (any (λ a. allows_from a from) s.store.accounts ≡ true)
    × (IsDistinct to × All HasAt to)
    × (length to ≢ 0)
    × (length to ≤ server.max_recipients)
    × (length msg ≤ server.max_message_size)

abbrev pub Honest : Server → State → Response × State → Type 0
Honest server s o = Refused s o ⊎ Accepted server s o

-- What the loop over the recipients gives, if it does not stop at a bad one.
abbrev Good : Bytes ⊎ List Bytes → Type 0
Good (inl bad) = Unit
Good (inr to) = IsDistinct to × All HasAt to

recipients-Good : (l out : List Bytes) → IsDistinct out → All HasAt out → Good (recipients l out)
unfolding recipients
recipients-Good [] out d h = (d, h)
recipients-Good (a ∷ more) out d h =
    let a' = normalize a in
    let old = recipients-Good more out d h in
    let P = λ (o : List Bytes). Good (recipients more o) in
    let known = str_eq a' [] || any (str_eq a') out in
    if_lem Good (str_eq a' []) _ _
      (λ e.
        if_lem P known _ _ (λ _. old)
          (λ new. absurd (no_clash (str_eq a' []) (any (str_eq a') out) e new)))
      λ e.
        if_lem Good (not (contains_byte a' b'@')) _ _ (λ _. tt)
          λ at.
            if_lem P known _ _ (λ _. old)
              λ new.
                recipients-Good more (out ++ a' ∷ [])
                  (append-IsDistinct out a' (is_new (str_eq a' []) (any (str_eq a') out) e new) d)
                  (All-append HasAt out (a' ∷ []) h (not_not (contains_byte a' b'@') at, tt))
  where
    no_clash : (b c : Bool) → b ≡ true → (b || c) ≡ false → ⊥
    no_clash b c e h = ground arith

    is_new : (b c : Bool) → b ≡ false → (b || c) ≡ false → c ≡ false
    is_new b c e h = ground arith

    not_not : (b : Bool) → not b ≡ false → b ≡ true
    not_not b h = ground arith

module _ (server : Server) where
  -- `s` is the state before the request, and `u` the one before the message is queued.
  after_enqueue-Honest :
      (s u : State) (id from : Bytes) (to : List Bytes) (msg : Bytes) (t : Store)
      (o : Outcome Bytes)
      → Kept s.store t
      → Queued id from to msg t o
      → any (λ a. allows_from a from) s.store.accounts ≡ true
      → IsDistinct to × All HasAt to
      → length to ≢ 0
      → length to ≤ server.max_recipients
      → length msg ≤ server.max_message_size
      → Honest server s (after_enqueue server id o u)
  unfolding after_enqueue run add_metric write_json write_error
  after_enqueue-Honest s u id from to msg t (failed e v) kept same may good some_ few small =
      inl ((drop_send-Kept server.rec_ id v).1 ∙ same.1 ∙ kept.1, refl)
  after_enqueue-Honest s u id from to msg t (done qid v) kept (is_id, accounts_same, grown) may good
        some_ few small =
      inr (
        id,
        from,
        to,
        msg,
        t.clock,
        (add_counter-Kept (codes "messages_queued") 1 v).1
            ∙ grown
            ∙ ap (λ q. q ++ new_row id from to msg t.clock ∷ []) kept.1,
        ap (λ i. record { code = 201; payload = sent_as i }) is_id,
        may,
        good,
        some_,
        few,
        small,
      )

  queue_composed-Honest :
      (services : Services) (s u : State) (id from : Bytes) (to : List Bytes) (msg : Bytes)
      → Kept s.store u.store
      → any (λ a. allows_from a from) s.store.accounts ≡ true
      → IsDistinct to × All HasAt to
      → length to ≢ 0
      → length to ≤ server.max_recipients
      → length msg ≤ server.max_message_size
      → Honest server s (queue_composed services server id from to msg u)
  unfolding queue_composed run
  queue_composed-Honest services s u id from to msg kept =
      let t = after (add services.parse server.rec_ id from to msg u.store) in
      after_enqueue-Honest s (record u { store = t }) id from to msg t
        (enqueue_with_id id from to msg t)
        (Kept-trans s.store u.store t kept
          (add-Kept services.parse server.rec_ id from to msg u.store))
        (enqueue-Queued id from to msg t)

  compose-Honest :
      (services : Services) (s u : State) (req : SendRequest) (from : Bytes) (to : List Bytes)
      (id : Bytes) (c : Composed)
      → Kept s.store u.store
      → any (λ a. allows_from a from) s.store.accounts ≡ true
      → IsDistinct to × All HasAt to
      → length to ≢ 0
      → length to ≤ server.max_recipients
      → Honest server s (compose services server req from to id c u)
  unfolding compose write_json write_error
  compose-Honest services s u req from to id (invalid e) kept may good some_ few =
      inl (kept.1, refl)
  compose-Honest services s u req from to id (message msg) kept may good some_ few =
      if_lem (λ (h : Handler). Honest server s (h u)) (ltb server.max_message_size (length msg)) _ _
        (λ _. inl (kept.1, refl))
        (λ fits.
          queue_composed-Honest services s u id from to msg kept may good some_ few (ground arith))

  send_checked-Honest :
      (services : Services) (s u : State) (req : SendRequest) (from : Bytes)
      (r : Bytes ⊎ List Bytes)
      → Kept s.store u.store
      → any (λ a. allows_from a from) s.store.accounts ≡ true
      → Good r
      → Honest server s (send_checked services server req from r u)
  unfolding send_checked write_error write_json
  send_checked-Honest services s u req from (inl bad) kept may good = inl (kept.1, refl)
  send_checked-Honest services s u req from (inr to) kept may good =
      let P = Honest server s in
      let id = services.new_id u.store.clock u.drawn in
      if_lem P (length to == 0) _ _ (λ _. inl (kept.1, refl))
        λ some_.
          if_lem P (ltb server.max_recipients (length to)) _ _ (λ _. inl (kept.1, refl))
            λ few.
              if_lem P (contains_any req.subject (codes "\r\n")) _ _ (λ _. inl (kept.1, refl))
                λ _.
                  compose-Honest services s (record u { drawn = u.drawn + 1 }) req from to id _ kept
                    may good (λ e. ground arith) (ground arith)

-- The accounts that ListAccounts gives are those of the table.
allowed_by-any :
    (from : Bytes) (s : Store)
    → (allowed_by from (list_accounts s) ≡ true → any (λ a. allows_from a from) s.accounts ≡ true)
      × Kept s (after (list_accounts s))
unfolding allowed_by list_accounts
allowed_by-any from s =
    query-cases
      (λ o.
        (allowed_by from o ≡ true → any (λ a. allows_from a from) s.accounts ≡ true)
        × Kept s (after o))
      s (λ t. order_by by_email t.accounts) ((λ e. cc e), (refl, refl))
      ((λ e. sym (any-order_by by_email (λ a. allows_from a from) s.accounts) ∙ e), (refl, refl))

-- The answer to POST /api/send is honest, whatever statements fail: either the queue is as before
-- and the code is not 201, or the code is 201 and the queue has one more row under the id of the
-- answer. Its sender is allowed by an account of the table, its recipients are distinct addresses,
-- at least one and at most the limit, and its size fits the limit.
pub handle_send-Honest :
    (services : Services) (server : Server) (body : Bytes) (s : State)
    → Honest server s (handle_send services server body s)
unfolding handle_send send_request sender_allowed after_listing write_error write_json
handle_send-Honest services server body s =
    let P = λ (h : Handler). Honest server s (h s) in
    option_lem P (services.decode_send body) _ _ (λ _. inl (refl, refl))
      λ req _.
        let from = normalize req.sender in
        let listed = allowed_by-any from s.store in
        if_lem (Honest server s) (not (contains_byte from b'@')) _ _ (λ _. inl (refl, refl))
          λ _.
            if_lem (Honest server s) (not (allowed_by from (list_accounts s.store))) _ _
              (λ _. inl (listed.1.1, refl))
              λ may.
                send_checked-Honest server services s (after_listing s) req from
                  (recipients req.to []) listed.1 (listed.0 (ground arith))
                  (recipients-Good req.to [] tt tt)
