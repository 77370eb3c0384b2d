-- ===== src/Client.antt =====
-- flexo/src/main.rs: a connection with a client, from request to request, and its end. What is read from
-- the client is a list; other threads change the job context before each request.
pub mod Sessions
use flexo.Base.{
  ℕ, zero, suc, ◌+◌, Bool, true, false, ◌||◌, List, [], ◌∷◌, Option, none, some, if◌then◌else◌,
}
use flexo.Job.{Result, ok, err}
use flexo.Growing.{IoError}
use flexo.Request.{
  ClientStatus, ClientError, io_error, file_attr_error, unsupported_http_method, invalid_header,
  other, buffer_size_exceeded, Request, ClientResponse, request, socket_closed,
}
use flexo.Headers.{PayloadOrigin, cache, remote_mirror, no_payload}
use flexo.Serving.{Connection, Io, serve_400_header}
use flexo.Server.{Environment, Context, serve_request}

abbrev pub Closing : Type 0
Closing = Result Unit ClientError × Connection

abbrev pub replied : Io Unit → Closing
replied (ok u, c) = (ok tt, c)
replied (err e, c) = (err (io_error e), c)

abbrev pub shut : Connection → Connection
shut c = record c { is_shut = true }

-- the answer to a request that could not be read, unless it has begun already
unfoldable pub reply_bad_request : Environment → ClientStatus → Connection → Closing
reply_bad_request env status c =
    if status.response_headers_sent then (ok tt, c) else replied (serve_400_header env.network c)

unfoldable pub handle_client_error : Environment → ClientError → Connection → Closing
unfolding reply_bad_request
handle_client_error env (unsupported_http_method status) c = reply_bad_request env status c
handle_client_error env (invalid_header status) c = reply_bad_request env status c
handle_client_error env ClientError.timed_out c = (err ClientError.timed_out, shut c)
handle_client_error env (io_error e) c = (err (io_error e), shut c)
handle_client_error env buffer_size_exceeded c = (err buffer_size_exceeded, shut c)
handle_client_error env (other e) c = (err (other e), shut c)
handle_client_error env (file_attr_error e) c = (err (file_attr_error e), shut c)

-- A thread that has panicked, a connection that waits for its next request, or one that has ended, with
-- `cache_tainted` or an error.
pub data Session : Type 0 where
  panicked : Session
  waiting : Bool → Context → Connection → Session
  ended : Result Bool ClientError → Context → Connection → Session

abbrev pub is_tainting : PayloadOrigin → Bool
is_tainting remote_mirror = true
is_tainting cache = false
is_tainting no_payload = false

unfoldable pub end_with : Bool → Context → Closing → Session
end_with cache_tainted ctx (ok u, c) = ended (ok cache_tainted) ctx c
end_with cache_tainted ctx (err e, c) = ended (err e) ctx c

module _ (envs : ℕ → Environment) (others : ℕ → Context → Context) where
  -- the rounds from the n-th on
  unfoldable pub serve_client :
      ℕ → List (Result ClientResponse ClientError) → Bool → Context → Connection → Session
  unfolding handle_client_error end_with
  serve_client n [] cache_tainted ctx c = waiting cache_tainted ctx c
  serve_client n (ok (request r) ∷ rest) cache_tainted ctx c =
      elim (serve_request (envs n) r (others n ctx) c) [
        | none ↦ panicked
        | some served ↦ elim served.0.0 [
          | ok origin ↦
              serve_client (n + 1) rest (cache_tainted || is_tainting origin) served.1 served.0.1
          | err e ↦ end_with cache_tainted served.1 (handle_client_error (envs n) e served.0.1)
        ]
      ]
  serve_client n (ok socket_closed ∷ rest) cache_tainted ctx c = ended (ok cache_tainted) ctx c
  serve_client n (err e ∷ rest) cache_tainted ctx c =
      end_with cache_tainted ctx (handle_client_error (envs n) e c)
