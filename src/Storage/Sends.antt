-- ===== src/Storage/Sends.antt =====
-- internal/storage/sends.go: the send history of the web panel.
use carteiro.Common.{
  Bool, Bytes, List, Option, [], count, if◌then◌else◌, ltb, map, none, some, str_eq, take, ℕ, ◌&&◌,
  ◌+◌, ◌==◌, ◌||◌, ◌∷◌,
}
use carteiro.Storage.Types.{SendLog, SendStatus, Store}
use carteiro.Storage.Db.{
  M, ◌>>=◌, return, fail, query, exec, exec_, exec_on_conflict, not_in_history, ignore,
  update_where, delete_where, order_by,
}
use carteiro.Storage.Accounts.{text_le}

abbrev pub log_has_id : Bytes → SendLog → Bool
log_has_id id l = str_eq l.id id

-- The row of the id takes all columns but `queued_at`; without one the row is added.
abbrev pub put_log : SendLog → List SendLog → List SendLog
put_log l [] = l ∷ []
put_log l (x ∷ logs) =
    if log_has_id l.id x then record l { queued_at = x.queued_at } ∷ logs else x ∷ put_log l logs

abbrev pub save_log : SendLog → Store → Store
save_log l s = record s { sends_log = put_log l s.sends_log }

unfoldable pub insert_send_log : SendLog → M (Unit {0})
unfolding exec_on_conflict
insert_send_log l = exec_on_conflict (save_log l)

-- The error for an update that met no row.
unfoldable pub known_send : ℕ → M (Unit {0})
known_send n = if n == 0 then fail not_in_history else return tt

abbrev pub log_count : Bytes → Store → ℕ
log_count id s = count (log_has_id id) s.sends_log

abbrev pub change_log : Bytes → (ℕ → SendLog → SendLog) → Store → Store
change_log id f s = record s { sends_log = update_where (log_has_id id) (f s.clock) s.sends_log }

abbrev pub with_state : SendStatus → ℕ → Bytes → ℕ → SendLog → SendLog
with_state status attempts last_error now l = record l {
  status = status;
  attempts = attempts;
  last_error = last_error;
  updated_at = now;
}

unfoldable pub update_send_log_status : Bytes → SendStatus → ℕ → Bytes → M (Unit {0})
unfolding exec known_send
update_send_log_status id status attempts last_error = do
  n ← exec (log_count id) (change_log id (with_state status attempts last_error))
  known_send n

abbrev pub with_status : SendStatus → Bytes → ℕ → SendLog → SendLog
with_status status last_error now l = record l {
  status = status;
  last_error = last_error;
  updated_at = now;
}

unfoldable pub set_send_status : Bytes → SendStatus → Bytes → M (Unit {0})
unfolding exec known_send
set_send_status id status last_error = do
  n ← exec (log_count id) (change_log id (with_status status last_error))
  known_send n

abbrev pub bumped : ℕ → SendLog → SendLog
bumped now l = record l { attempts = l.attempts + 1; updated_at = now }

unfoldable pub bump_send_attempt : Bytes → M (Unit {0})
unfolding exec_
bump_send_attempt id = ignore (exec_ (change_log id bumped))

abbrev pub remove_log : Bytes → Store → Store
remove_log id s = record s { sends_log = delete_where (log_has_id id) s.sends_log }

unfoldable pub delete_send_log : Bytes → M (Unit {0})
unfolding exec_
delete_send_log id = ignore (exec_ (remove_log id))

abbrev pub list_limit : ℕ → ℕ
list_limit limit = if limit == 0 then 50 else if ltb 1000 limit then 1000 else limit

-- `ORDER BY queued_at DESC, id DESC`.
abbrev pub newer : SendLog → SendLog → Bool
newer a b = ltb b.queued_at a.queued_at || (a.queued_at == b.queued_at && text_le b.id a.id)

-- The list leaves the bodies out.
abbrev pub without_bodies : SendLog → SendLog
without_bodies l = record l { html = []; text = []; raw = [] }

unfoldable pub list_send_logs : ℕ → M (List SendLog)
unfolding query order_by text_le
list_send_logs limit =
    query λ s. map without_bodies (take (list_limit limit) (order_by newer s.sends_log))

abbrev pub find_log : Bytes → List SendLog → Option SendLog
find_log id [] = none
find_log id (l ∷ logs) = if log_has_id id l then some l else find_log id logs

unfoldable pub get_send_log : Bytes → M (Option SendLog)
unfolding query
get_send_log id = query (λ s. find_log id s.sends_log)
