-- ===== src/Relay/Group/Decides.antt =====
-- internal/relay/deliver.go: a group that `deliverGroup` settles leaves no recipient undecided.
use carteiro.Common.{
  All, All-map, Bool, Bool-cases, Bytes, List, Option, [], arith, codes, false, if_lem,
  if◌then◌else◌, inl, inr, none, some, str_eq, str_eq_sound, subst, sym, true, ◌++◌, ◌||◌, ◌∷◌, ◌≡◌,
}
use carteiro.Storage.Types.{Reasons}
use carteiro.Relay.Group.{
  elem, has_reason, Failure, Mx, GroupResult, settled, retry, is_permanent, wrap, set_reason,
  refuse_all, finish_data, send_rcpts, send_data, rcpt_answer, group_result, send_opportunistic,
  send_plain, send_to, send_mail, Network, Resolved, host, unresolved, resolve_host,
}
use carteiro.Relay.Group.Refusals.{
  All-elem, Decides, decided, has_reason-refuse, has_reason-refuse_kept, has_reason-set,
  has_reason-set_kept,
}

refused :
    (reason : Bytes) (rcpts : List Bytes) (perm : Reasons)
    → Decides rcpts (settled [] (refuse_all reason rcpts perm))
refused reason rcpts perm = All-elem rcpts (has_reason-refuse_lem)
  where
    has_reason-refuse_lem :
        (a : Bytes) → elem a rcpts ≡ true → decided [] (refuse_all reason rcpts perm) a ≡ true
    has_reason-refuse_lem a e = has_reason-refuse a reason rcpts perm e

finish_data-Decides :
    (mx : Mx) (delivered : List Bytes) (perm : Reasons) (rcpts : List Bytes)
    → Decides rcpts (settled delivered perm)
    → Decides rcpts (finish_data mx delivered perm)
unfolding finish_data
finish_data-Decides mx delivered perm rcpts h = go mx.data_end
  where
    all_refused : (reason : Bytes) → Decides rcpts (settled [] (refuse_all reason delivered perm))
    all_refused reason =
        All-map (λ a. decided delivered perm a ≡ true)
          (λ a. decided [] (refuse_all reason delivered perm) a ≡ true)
          (λ a e. elim (Bool-cases (elem a delivered)) [
            | inl i ↦ has_reason-refuse a reason delivered perm i
            | inr i ↦ has_reason-refuse_kept a reason delivered perm (ground (arith, e, i))
          ])
          rcpts h

    go :
        (end : Option Failure)
        → Decides rcpts (elim end [
          | none ↦ settled delivered perm
          | some e ↦
              if is_permanent e
              then settled [] (refuse_all (codes "DATA: " ++ e.text) delivered perm)
              else retry (wrap (codes "DATA: ") e)
        ])
    go none = h
    go (some e) =
        if_lem (Decides rcpts) (is_permanent e)
          (settled [] (refuse_all (codes "DATA: " ++ e.text) delivered perm))
          (retry (wrap (codes "DATA: ") e)) (λ _. all_refused (codes "DATA: " ++ e.text)) (λ _. tt)

-- An option of an error, the cases of which decide the group.
or_retry-Decides :
    (rcpts : List Bytes) (prefix : Bytes) (o : Option Failure) (next : GroupResult)
    → Decides rcpts next
    → Decides rcpts (elim o [ some e ↦ retry (wrap prefix e) | none ↦ next ])
or_retry-Decides rcpts prefix none next h = h
or_retry-Decides rcpts prefix (some e) next h = tt

send_data-Decides :
    (mx : Mx) (delivered : List Bytes) (perm : Reasons) (rcpts : List Bytes)
    → Decides rcpts (settled delivered perm)
    → Decides rcpts (send_data mx delivered perm)
unfolding send_data
send_data-Decides mx [] perm rcpts h = h
send_data-Decides mx (a ∷ delivered) perm rcpts h =
    let last = finish_data mx (a ∷ delivered) perm in
    or_retry-Decides rcpts (codes "DATA: ") mx.data_start
      (elim mx.write [ some e ↦ retry (wrap (codes "writing data: ") e) | none ↦ last ])
      (or_retry-Decides rcpts (codes "writing data: ") mx.write last
        (finish_data-Decides mx (a ∷ delivered) perm rcpts h))

elem-append :
    (a b : Bytes) (delivered : List Bytes)
    → elem a (delivered ++ b ∷ []) ≡ (elem a delivered || str_eq a b)
elem-append a b [] = ground arith
elem-append a b (d ∷ delivered) = ground (arith, elem-append a b delivered)

-- Every recipient of the group is decided or still to come.
abbrev Pending : List Bytes → List Bytes → Reasons → List Bytes → Type 0
Pending rcpts delivered perm group =
    All (λ a. decided delivered perm a || elem a rcpts ≡ true) group

Pending-accepted :
    (rcp : Bytes) (rcpts delivered : List Bytes) (perm : Reasons) (group : List Bytes)
    → Pending (rcp ∷ rcpts) delivered perm group
    → Pending rcpts (delivered ++ rcp ∷ []) perm group
Pending-accepted rcp rcpts delivered perm group h =
    All-map (λ a. decided delivered perm a || elem a (rcp ∷ rcpts) ≡ true)
      (λ a. decided (delivered ++ rcp ∷ []) perm a || elem a rcpts ≡ true)
      (λ a e. ground (arith, e, elem-append a rcp delivered)) group h

reason_given :
    (a rcp reason : Bytes) (perm : Reasons)
    → str_eq a rcp ≡ true
    → has_reason a (set_reason rcp reason perm) ≡ true
reason_given a rcp reason perm e =
    subst (λ x. has_reason x (set_reason rcp reason perm) ≡ true) (sym (str_eq_sound a rcp e))
      (has_reason-set rcp reason perm)

Pending-refused :
    (rcp reason : Bytes) (rcpts delivered : List Bytes) (perm : Reasons) (group : List Bytes)
    → Pending (rcp ∷ rcpts) delivered perm group
    → Pending rcpts delivered (set_reason rcp reason perm) group
Pending-refused rcp reason rcpts delivered perm group h =
    All-map (λ a. decided delivered perm a || elem a (rcp ∷ rcpts) ≡ true)
      (λ a. decided delivered (set_reason rcp reason perm) a || elem a rcpts ≡ true)
      (λ a e. elim (Bool-cases (str_eq a rcp)) [
        | inl same ↦ ground (arith, reason_given a rcp reason perm same)
        | inr other ↦ elim (Bool-cases (has_reason a perm)) [
          | inl had ↦ ground (arith, has_reason-set_kept a rcp reason perm had)
          | inr not_had ↦ ground (arith, e, other, not_had)
        ]
      ])
      group h

send_rcpts-Decides :
    (mx : Mx) (rcpts delivered : List Bytes) (perm : Reasons) (group : List Bytes)
    → Pending rcpts delivered perm group
    → Decides group (send_rcpts mx rcpts delivered perm)
unfolding send_rcpts rcpt_answer
send_rcpts-Decides mx [] delivered perm group h = send_data-Decides mx delivered perm group (
    All-map (λ a. decided delivered perm a || elem a [] ≡ true)
      (λ a. decided delivered perm a ≡ true) (λ a e. ground (arith, e)) group h)
send_rcpts-Decides mx (rcp ∷ rcpts) delivered perm group h =
    answer-Decides (send_rcpts mx rcpts)
      (send_rcpts-Decides mx rcpts (delivered ++ rcp ∷ []) perm group
        (Pending-accepted rcp rcpts delivered perm group h))
      (λ reason.
        send_rcpts-Decides mx rcpts delivered (set_reason rcp reason perm) group
          (Pending-refused rcp reason rcpts delivered perm group h))
      (mx.rcpt rcp)
  where
    answer-Decides :
        (next : List Bytes → Reasons → GroupResult)
        → Decides group (next (delivered ++ rcp ∷ []) perm)
        → ((reason : Bytes) → Decides group (next delivered (set_reason rcp reason perm)))
        → (answer : Option Failure) → Decides group (rcpt_answer next rcp delivered perm answer)
    answer-Decides next accepted refused none = accepted
    answer-Decides next accepted refused (some e) =
        if_lem (Decides group) (is_permanent e)
          (next delivered (set_reason rcp (codes "RCPT: " ++ e.text) perm))
          (retry (wrap (codes "RCPT " ++ rcp ++ codes ": ") e))
          (λ _. refused (codes "RCPT: " ++ e.text)) (λ _. tt)

send_mail-Decides : (mx : Mx) (rcpts : List Bytes) → Decides rcpts (send_mail mx rcpts)
unfolding send_mail
send_mail-Decides mx rcpts = go mx.mail
  where
    go :
        (answer : Option Failure)
        → Decides rcpts (elim answer [
          | none ↦ send_rcpts mx rcpts [] []
          | some e ↦
              if is_permanent e
              then settled [] (refuse_all (codes "MAIL FROM: " ++ e.text) rcpts [])
              else retry (wrap (codes "MAIL FROM: ") e)
        ])
    go none = send_rcpts-Decides mx rcpts [] [] rcpts (All-elem rcpts (λ a e. ground (arith, e)))
    go (some e) =
        if_lem (Decides rcpts) (is_permanent e)
          (settled [] (refuse_all (codes "MAIL FROM: " ++ e.text) rcpts []))
          (retry (wrap (codes "MAIL FROM: ") e))
          (λ _. refused (codes "MAIL FROM: " ++ e.text) rcpts []) (λ _. tt)

send_plain-Decides :
    (name : Bytes) (mx : Mx) (rcpts : List Bytes) → Decides rcpts (send_plain name mx rcpts)
unfolding send_plain
send_plain-Decides name mx rcpts =
    let hello = codes "EHLO (plain) to " ++ name ++ codes ": " in
    or_retry-Decides rcpts (codes "reconnecting to " ++ name ++ codes ": ") mx.reconnect
      (elim mx.hello_again [ some e ↦ retry (wrap hello e) | none ↦ send_mail mx rcpts ])
      (or_retry-Decides rcpts hello mx.hello_again (send_mail mx rcpts)
        (send_mail-Decides mx rcpts))

send_opportunistic-Decides :
    (name : Bytes) (mx : Mx) (rcpts : List Bytes) → Decides rcpts (send_opportunistic name mx rcpts)
unfolding send_opportunistic
send_opportunistic-Decides name mx rcpts = go mx.starttls
  where
    go :
        (offer : Option Bool)
        → Decides rcpts (elim offer [
          | none ↦ send_mail mx rcpts
          | some ok ↦ if ok then send_mail mx rcpts else send_plain name mx rcpts
        ])
    go none = send_mail-Decides mx rcpts
    go (some true) = send_mail-Decides mx rcpts
    go (some false) = send_plain-Decides name mx rcpts

send_to-Decides :
    (domain name : Bytes) (mx : Mx) (rcpts : List Bytes)
    → Decides rcpts (send_to domain name mx rcpts)
unfolding send_to
send_to-Decides domain name mx rcpts =
    let hello = codes "EHLO to " ++ name ++ codes ": " in
    or_retry-Decides rcpts
      (codes "connecting to " ++ name ++ codes " (MX of " ++ domain ++ codes "): ") mx.connect
      (elim mx.hello [ some e ↦ retry (wrap hello e) | none ↦ send_opportunistic name mx rcpts ])
      (or_retry-Decides rcpts hello mx.hello (send_opportunistic name mx rcpts)
        (send_opportunistic-Decides name mx rcpts))

-- Whatever the resolver and the server answer: unless `deliverGroup` asks for a retry, every
-- recipient of the group was delivered to or has a reason why it was refused.
pub group_result-Decides :
    (net : Network) (domain : Bytes) (rcpts : List Bytes)
    → Decides rcpts (group_result net domain rcpts)
unfolding group_result
group_result-Decides net domain rcpts = go (resolve_host net domain)
  where
    go :
        (r : Resolved)
        → Decides rcpts (elim r [
          | host h ↦ send_to domain h (net.mx h) rcpts
          | unresolved e ↦
              if is_permanent e
              then settled [] (refuse_all e.text rcpts [])
              else retry (wrap (codes "resolving MX of " ++ domain ++ codes ": ") e)
        ])
    go (host h) = send_to-Decides domain h (net.mx h) rcpts
    go (unresolved e) =
        if_lem (Decides rcpts) (is_permanent e) (settled [] (refuse_all e.text rcpts []))
          (retry (wrap (codes "resolving MX of " ++ domain ++ codes ": ") e))
          (λ _. refused e.text rcpts []) (λ _. tt)
