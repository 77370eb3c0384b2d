-- ===== src/Server/MetricsTwice.antt =====
-- The answer to a request for the metrics.
use flexo.Base.{
  ℕ, ◌+◌, ◌^◌, ◌<◌, ◌≡◌, refl, ap, sym, subst, ◌∙◌, true, List, [], ◌∷◌, ◌++◌, Option, none, some,
  arith, length,
}
use flexo.Base.Text.{Text, codes, text_eq, split, Text-discrete}
use flexo.Job.{ok}
use flexo.Paths.{
  permitted_path, valid_path, components, relative_body, component_of, body, is_absolute,
  last_component,
}
use flexo.Request.{Request, get}
use flexo.Headers.{PayloadOrigin, no_payload, reply_header_success}
use flexo.Headers.Declared.{declared_length, is_one_line, reply_header-declared}
use flexo.Serving.{Sent, text, Connection, write_all, serve_200_ok_body}
use flexo.Serving.Framing.{IsFramed, IsAnswered, and_then-eq-ok, write_all-eq-ok}
use flexo.Repos.{custom_provider_from_request, repo_name_from_get_request, repo_and_path}
use flexo.Server.{Environment, Context, serve_metrics, serve_path, serve_request, answered}
use flexo.Server.Answers.{answered-eq-ok}
use mathlib.Core.List.{append_assoc, append_cancel_left}

abbrev sent_of : Connection → List Sent
sent_of c = c.sent

module _ (env : Environment) (serialized : Text) (c c' : Connection) where
  abbrev metrics_header : Text
  metrics_header = reply_header_success (length serialized) no_payload env.network.now

  serve_metrics-eq-ok :
      (u : Unit {0})
      → serve_metrics env serialized c ≡ (ok u, c')
      → c'.sent ≡ c.sent ++ text metrics_header ∷ text serialized ∷ text serialized ∷ []
  unfolding serve_metrics serve_200_ok_body
  serve_metrics-eq-ok u h =
      let net = env.network in
      let (v, c2, first, last) = and_then-eq-ok (serve_200_ok_body net serialized c) _ u c' h in
      let (w, c1, header, body) = and_then-eq-ok (write_all net metrics_header c) _ v c2 first in
      ap sent_of (write_all-eq-ok net serialized c2 c' u last)
      ∙ ap (λ (d : Connection). d.sent ++ text serialized ∷ [])
          (write_all-eq-ok net serialized c1 c2 v body)
      ∙ ap (λ (d : Connection). (d.sent ++ text serialized ∷ []) ++ text serialized ∷ [])
          (write_all-eq-ok net metrics_header c c1 w header)
      ∙ append_assoc (c.sent ++ text metrics_header ∷ []) (text serialized ∷ [])
          (text serialized ∷ [])
      ∙ append_assoc c.sent (text metrics_header ∷ []) (text serialized ∷ text serialized ∷ [])

  metrics_header-declared :
      is_one_line env.network.now ≡ true
      → length serialized < 2 ^ 64
      → declared_length metrics_header ≡ some (length serialized)
  unfolding reply_header_success
  metrics_header-declared one small =
      (reply_header-declared (codes "200 OK") (length serialized) none no_payload env.network.now
        refl one small tt).0

  twice_not-IsFramed :
      is_one_line env.network.now ≡ true
      → 0 < length serialized
      → length serialized < 2 ^ 64
      → ¬ IsFramed (text metrics_header ∷ text serialized ∷ text serialized ∷ [])
  twice_not-IsFramed one pos small framed =
      let same : length serialized ≡ length serialized + (length serialized + 0) =
        cc (sym (metrics_header-declared one small) ∙ framed) in
      absurd (omega (arith, same))

abbrev pub metrics_request : Option ℕ → Request
metrics_request resume = record {
  resume_from = resume;
  path = record { inner = codes "metrics" };
  method = get;
}

metrics_served :
    (env : Environment) (resume : Option ℕ) (ctx : Context) (c : Connection)
    → serve_request env (metrics_request resume) ctx c
      ≡ some
          (answered no_payload (serve_metrics env (env.to_json ctx.shared.provider_metrics) c), ctx)
unfolding serve_request serve_path custom_provider_from_request repo_name_from_get_request
    repo_and_path permitted_path valid_path components relative_body component_of body is_absolute
    last_component split text_eq Text-discrete
metrics_served env resume ctx c = refl

-- The header of an answer, which declares the length of a body, and behind it the body twice.
pub record IsDoubled (body : Text) (c c' : Connection) : Type 0 where
  pub header : Text
  pub declared : declared_length header ≡ some (length body)
  pub added : c'.sent ≡ c.sent ++ text header ∷ text body ∷ text body ∷ []

-- A request for the metrics that is served without an error gets a header that declares the length of the
-- body, and then exactly twice the body, so that more follows than the header declares: what was sent is not
-- one answer. The body is not empty, its length has 64 bits, and the date is one line.
pub serve_request-metrics_twice :
    (env : Environment) (resume : Option ℕ) (ctx ctx' : Context) (c c' : Connection)
    (origin : PayloadOrigin)
    → is_one_line env.network.now ≡ true
    → 0 < length (env.to_json ctx.shared.provider_metrics)
    → length (env.to_json ctx.shared.provider_metrics) < 2 ^ 64
    → serve_request env (metrics_request resume) ctx c ≡ some ((ok origin, c'), ctx')
    → IsDoubled (env.to_json ctx.shared.provider_metrics) c c' × (¬ IsAnswered c c')
serve_request-metrics_twice env resume ctx ctx' c c' origin one pos small h =
    let serialized = env.to_json ctx.shared.provider_metrics in
    let served : answered no_payload (serve_metrics env serialized c) ≡ (ok origin, c') =
      cc (sym (metrics_served env resume ctx c) ∙ h) in
    let (u, e) = answered-eq-ok no_payload origin (serve_metrics env serialized c) c' served in
    let sent_twice = serve_metrics-eq-ok env serialized c c' u e in
    (
      record {
        header = metrics_header env serialized c c';
        declared = metrics_header-declared env serialized c c' one small;
        added = sent_twice;
      },
      λ answered_once. twice_not-IsFramed env serialized c c' one pos small (
          subst IsFramed (append_cancel_left c.sent _ _ (sym answered_once.added ∙ sent_twice))
            answered_once.framed),
    )
