-- ===== src/Client/Sessions.antt =====
-- What a client gets from request to request, and how a connection ends.
use flexo.Base.{
  ℕ, zero, suc, ◌+◌, ◌≡◌, ◌≢◌, ◌↔◌, refl, Bool, true, false, ◌||◌, List, [], ◌∷◌, length, Option,
  none, some, arith,
}
use flexo.Base.Text.{codes, text_eq}
use flexo.Job.{Result, ok, err}
use flexo.Paths.{new_order}
use flexo.Request.{
  ClientError, ClientStatus, unsupported_http_method, invalid_header, buffer_size_exceeded,
  io_error, other, file_attr_error, Request, ClientResponse, request, socket_closed,
}
use flexo.Serving.{Connection, write_all, serve_400_header}
use flexo.Serving.Framing.{IsAnswered}
use flexo.Repos.{custom_provider_from_request}
use flexo.Server.{Environment, Context, Handled, serve_request}
use flexo.Server.Answers.{IsSound}
use flexo.Server.Requests.{serve_request-IsAnswered}
use flexo.Client.{
  reply_bad_request, handle_client_error, Closing, Session, waiting, is_tainting, end_with,
  serve_client,
}

-- So many answers, one behind the other.
abbrev pub Answers : ℕ → Connection → Connection → Type 0
Answers zero c c' = c ≡ c'
Answers (suc n) c c' = (between : Connection) × IsAnswered c between × Answers n between c'

-- The environment of a request is sound for it, and the request is not for the metrics.
abbrev pub IsServable : Environment → Request → Type 0
IsServable env r =
    IsSound env (new_order env.uuid (custom_provider_from_request r env.custom_repos).1.path)
      (custom_provider_from_request r env.custom_repos).1.resume_from
    × (text_eq (custom_provider_from_request r env.custom_repos).1.path.inner (codes "metrics")
        ≡ false)

abbrev pub AllServable : (ℕ → Environment) → ℕ → List (Result ClientResponse ClientError) → Type 0
AllServable envs n [] = Unit
AllServable envs n (ok (request r) ∷ rest) = IsServable (envs n) r × AllServable envs (n + 1) rest
AllServable envs n (ok socket_closed ∷ rest) = Unit
AllServable envs n (err e ∷ rest) = Unit

end_with-≢-waiting :
    (t : Bool) (ctx : Context) (closing : Closing) (t' : Bool) (ctx' : Context) (c' : Connection)
    → end_with t ctx closing ≢ waiting t' ctx' c'
unfolding end_with
end_with-≢-waiting t ctx (ok u, c) t' ctx' c' h = cc
end_with-≢-waiting t ctx (err e, c) t' ctx' c' h = cc

module _ (envs : ℕ → Environment) (others : ℕ → Context → Context) where
  abbrev round_with :
      ℕ → (Bool → Context → Connection → Session) → Bool → Option (Handled × Context) → Session
  round_with n later t m = elim m [
    | none ↦ Session.panicked
    | some served ↦ elim served.0.0 [
      | ok origin ↦ later (t || is_tainting origin) served.1 served.0.1
      | err e ↦ end_with t served.1 (handle_client_error (envs n) e served.0.1)
    ]
  ]

  round-answered :
      (n k : ℕ) (r : Request) (later : Bool → Context → Connection → Session) (t t' : Bool)
      (ctx ctx' : Context) (c c' : Connection) (m : Option (Handled × Context))
      → IsServable (envs n) r
      → ((t1 : Bool) (ctx1 : Context) (c1 : Connection)
          → later t1 ctx1 c1 ≡ waiting t' ctx' c'
          → Answers k c1 c')
      → serve_request (envs n) r ctx c ≡ m
      → round_with n later t m ≡ waiting t' ctx' c'
      → Answers (suc k) c c'
  round-answered n k r later t t' ctx ctx' c c' none servable ih e h = cc
  round-answered n k r later t t' ctx ctx' c c' (some ((ok origin, c1), ctx1)) (sound, other_path)
        ih e h =
      (
        c1,
        serve_request-IsAnswered (envs n) r ctx ctx1 c c1 origin sound other_path e,
        ih _ ctx1 c1 h,
      )
  round-answered n k r later t t' ctx ctx' c c' (some ((err e1, c1), ctx1)) servable ih e h =
      absurd (end_with-≢-waiting t ctx1 (handle_client_error (envs n) e1 c1) t' ctx' c' h)

  -- While a connection waits for its next request, the client has got exactly one answer for each
  -- request that was read, in their order, and nothing else, whatever other threads do. This holds for
  -- requests that are not for the metrics, each in an environment that is sound for it.
  pub serve_client-Answers :
      (n : ℕ) (readings : List (Result ClientResponse ClientError)) (t t' : Bool)
      (ctx ctx' : Context) (c c' : Connection)
      → AllServable envs n readings
      → serve_client envs others n readings t ctx c ≡ waiting t' ctx' c'
      → Answers (length readings) c c'
  unfolding serve_client
  serve_client-Answers n [] t t' ctx ctx' c c' servable h = cc
  serve_client-Answers n (ok (request r) ∷ rest) t t' ctx ctx' c c' (servable, more) h =
      round-answered n (length rest) r (serve_client envs others (n + 1) rest) t t' (others n ctx)
        ctx' c c' (serve_request (envs n) r (others n ctx) c) servable
        (λ t1 ctx1 c1 k. serve_client-Answers (n + 1) rest t1 t' ctx1 ctx' c1 c' more k) refl h
  serve_client-Answers n (ok socket_closed ∷ rest) t t' ctx ctx' c c' servable h = cc
  serve_client-Answers n (err e ∷ rest) t t' ctx ctx' c c' servable h =
      absurd (end_with-≢-waiting t ctx (handle_client_error (envs n) e c) t' ctx' c' h)

-- Errors of a request that is answered, if its answer has not begun.
abbrev pub IsBadRequest : ClientError → Type 0
IsBadRequest (unsupported_http_method s) = Unit
IsBadRequest (invalid_header s) = Unit
IsBadRequest buffer_size_exceeded = ⊥
IsBadRequest ClientError.timed_out = ⊥
IsBadRequest (io_error e) = ⊥
IsBadRequest (other e) = ⊥
IsBadRequest (file_attr_error e) = ⊥

replied-is_shut :
    (env : Environment) (status : ClientStatus) (c : Connection)
    → (reply_bad_request env status c).1.is_shut ≡ c.is_shut
unfolding reply_bad_request serve_400_header write_all
replied-is_shut env status c = ground arith

-- An open connection is shut after exactly those errors that are not about a bad request: also when the
-- answer to a bad request cannot be written, it is not shut.
pub handle_client_error-shut_iff :
    (env : Environment) (e : ClientError) (c : Connection)
    → c.is_shut ≡ false
    → ((handle_client_error env e c).1.is_shut ≡ true) ↔ (¬ IsBadRequest e)
unfolding handle_client_error
handle_client_error-shut_iff env (unsupported_http_method s) c h =
    ((λ k. cc (replied-is_shut env s c, h, k)), (λ no. absurd (no tt)))
handle_client_error-shut_iff env (invalid_header s) c h =
    ((λ k. cc (replied-is_shut env s c, h, k)), (λ no. absurd (no tt)))
handle_client_error-shut_iff env buffer_size_exceeded c h = ((λ k no. no), (λ k. refl))
handle_client_error-shut_iff env ClientError.timed_out c h = ((λ k no. no), (λ k. refl))
handle_client_error-shut_iff env (io_error e) c h = ((λ k no. no), (λ k. refl))
handle_client_error-shut_iff env (other e) c h = ((λ k no. no), (λ k. refl))
handle_client_error-shut_iff env (file_attr_error e) c h = ((λ k no. no), (λ k. refl))
