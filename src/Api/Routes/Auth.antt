-- ===== src/Api/Routes/Auth.antt =====
-- internal/api/api.go: what the bearer token guards.
use carteiro.Common.{
  All, Bool, Bool-cases, Bytes, List, [], any, arith, codes, count, drop, false, if_lem, inl, inr,
  not, option_lem, refl, str_eq, true, ℕ, ◌&&◌, ◌∙◌, ◌∷◌, ◌≡◌,
}
use carteiro.Storage.Types.{Store, Stats}
use carteiro.Api.Types.{Server, Request, Response, State, Payload, write_json, write_error, Handler}
use carteiro.Api.Routes.{
  Route, has_token, require_auth, mounted, dispatch, serve, routes, Services, fit, under_api,
  method_fits, is_unclean,
}
use carteiro.Storage.Db.{query, Outcome, M, after, bind, return, spend, ◌>>=◌}
use carteiro.Storage.Queue.{stats, is_dead, is_due, is_queued}
use carteiro.Storage.Counters.{get_counters, ensure_counters_row, make_counters, row_or_zeros}
use carteiro.Api.System.{handle_metrics, handle_health, handle_openapi}
use carteiro.Storage.Db.Rules.{query-cases, exec_on_conflict-cases}

-- What anyone may see: errors, what the multiplexer itself sends, and the three public documents.
abbrev pub IsPublic : Payload → Type 0
IsPublic (Payload.error e) = Unit
IsPublic Payload.status_ok = Unit
IsPublic Payload.openapi = Unit
IsPublic Payload.mux_page = Unit
IsPublic (Payload.metrics_text t) = Unit
IsPublic _ = ⊥

-- The tables of accounts, keys, messages and sends are the same.
abbrev pub SameTables : Store → Store → Type 0
SameTables s t =
    (t.accounts ≡ s.accounts)
    × (t.dkim_keys ≡ s.dkim_keys)
    × (t.queue ≡ s.queue)
    × (t.sends_log ≡ s.sends_log)

abbrev pub Harmless : State → Response × State → Type 0
Harmless s (resp, t) = SameTables s.store t.store × IsPublic resp.payload

-- A public route answers with a public document and leaves the tables alone.
abbrev IsGuarded : Route → Type 0
IsGuarded rt = rt.public ≡ true → (r : Request) (v : Bytes) (s : State) → Harmless s (rt.h r v s)

module _ (server : Server) (r : Request) (no_token : has_token server r ≡ false) where
  mounted-Harmless :
      (rt : Route) (v : Bytes) (s : State) → IsGuarded rt → Harmless s (mounted server rt r v s)
  unfolding mounted require_auth write_error write_json
  mounted-Harmless rt v s g = elim (Bool-cases rt.public) [
    | inl e ↦ rw e (g e r v s)
    | inr e ↦ rw (e, no_token) ((refl, refl, refl, refl), tt)
  ]

  dispatch-Harmless :
      (rts : List Route) (legacy : Bool) (code : ℕ) (path : List Bytes) (s : State)
      → All IsGuarded rts
      → Harmless s (dispatch server rts legacy code r path s)
  unfolding dispatch write_json
  dispatch-Harmless [] legacy code path s g = ((refl, refl, refl, refl), tt)
  dispatch-Harmless (rt ∷ rts) legacy code path s g =
      let P = λ (h : Handler). Harmless s (h s) in
      let rest = dispatch-Harmless rts legacy code path s g.1 in
      let other = dispatch-Harmless rts legacy 405 path s g.1 in
      option_lem P (fit rt.path path) _ _ (λ _. rest)
        λ v _.
          if_lem P (legacy && not rt.legacy) _ _ (λ _. rest)
            λ _.
              if_lem P (method_fits rt.method r.method) _ _ (λ _. mounted-Harmless rt v s g.0)
                (λ _. other)

abbrev pub Keeps {ℓ} : {A : Type ℓ} → Store → Outcome A → Type 0
Keeps s o = SameTables s (after o)

SameTables-trans : (s t u : Store) → SameTables s t → SameTables t u → SameTables s u
SameTables-trans s t u h k = (k.0 ∙ h.0, k.1 ∙ h.1, k.2 ∙ h.2, k.3 ∙ h.3)

query-Keeps :
    {A B : Type 0} (f : Store → A) (g : A → M B) (s : Store)
    → ((a : A) (t : Store) → Keeps t (g a t))
    → Keeps s (bind (query f s) g)
query-Keeps f g s k =
    query-cases (λ o. Keeps s (bind o g)) s f (refl, refl, refl, refl) (k (f s) (spend s))

pub stats-Keeps : (now : ℕ) (s : Store) → Keeps s (stats now s)
unfolding stats
stats-Keeps now s =
    let result = λ (a b c : ℕ).
      return {A = Stats} (record { queued_count = a; due_count = b; dead_count = c }) in
    let third = λ (a b : ℕ). query (λ s. count is_dead s.queue) >>= result a b in
    let second = λ (a : ℕ). query (λ s. count (is_due now) s.queue) >>= third a in
    query-Keeps (λ s. count is_queued s.queue) second s
      λ a t.
        query-Keeps (λ s. count (is_due now) s.queue) (third a) t
          λ b u.
            query-Keeps (λ s. count is_dead s.queue) (result a b) u λ c v. (refl, refl, refl, refl)

pub get_counters-Keeps : (s : Store) → Keeps s (get_counters s)
unfolding get_counters ensure_counters_row
get_counters-Keeps s =
    let read = λ (t : Store). query (λ s. row_or_zeros s.counters) t in
    let made = λ (t : Store).
      query-cases (Keeps t) t (λ s. row_or_zeros s.counters) (refl, refl, refl, refl)
        (refl, refl, refl, refl) in
    exec_on_conflict-cases (λ o. Keeps s (bind o (λ _. read))) s make_counters
      (refl, refl, refl, refl) (λ _. made (make_counters (spend s)))

handle_metrics-Harmless : (s : State) → Harmless s (handle_metrics s)
unfolding handle_metrics write_json
handle_metrics-Harmless s =
    let st = stats s.store.clock s.store in
    (
      SameTables-trans s.store (after st) (after (get_counters (after st)))
          (stats-Keeps s.store.clock s.store) (get_counters-Keeps (after st)),
      tt,
    )

closed-IsGuarded : (rts : List Route) → any (λ rt. rt.public) rts ≡ false → All IsGuarded rts
closed-IsGuarded [] h = tt
closed-IsGuarded (rt ∷ rts) h = ((λ e. ground arith), closed-IsGuarded rts (ground arith))

routes-IsGuarded : (services : Services) (server : Server) → All IsGuarded (routes services server)
unfolding routes handle_health handle_openapi write_json
routes-IsGuarded services server = (
  λ _ r v s. ((refl, refl, refl, refl), tt),
  (
    λ _ r v s. handle_metrics-Harmless s,
    (
      λ _ r v s. ((refl, refl, refl, refl), tt),
      closed-IsGuarded (drop 3 (routes services server)) refl,
    ),
  ),
)

-- Without a valid bearer token no request changes an account, a DKIM key, a queued message or the
-- send history, and the answer is an error, a redirect of the multiplexer or one of the three public
-- documents.
pub serve-Harmless :
    (services : Services) (server : Server) (r : Request) (s : State)
    → has_token server r ≡ false
    → Harmless s (serve services server r s)
unfolding serve write_json
serve-Harmless services server r s h =
    let all = routes-IsGuarded services server in
    let P = λ (h : Handler). Harmless s (h s) in
    if_lem P (not (str_eq r.method (codes "CONNECT")) && is_unclean r.path) _ _
      (λ _. ((refl, refl, refl, refl), tt))
      λ _.
        option_lem P (under_api r.path) _ _
          (λ _. dispatch-Harmless server r h (routes services server) true 404 r.path s all)
          (λ path _. dispatch-Harmless server r h (routes services server) false 404 path s all)
