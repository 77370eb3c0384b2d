-- ===== src/Server/Requests.antt =====
-- `serve_request` as a whole.
use flexo.Base.{
  ℕ, ◌≡◌, refl, ap, subst, true, false, Option, none, some, Bool-cases, inl, inr, if◌then◌else◌,
}
use flexo.Base.Text.{Text, codes, text_eq}
use flexo.Job.{Result, ok}
use flexo.Paths.{DownloadOrder, permitted_path, valid_path, new_order}
use flexo.Request.{Request}
use flexo.Download.{DownloadProvider, uri_from_components}
use flexo.Download.Equality.{mirror_job}
use flexo.Context.{
  ScheduleOutcome, already_in_progress, scheduled, cached, uncacheable, Scheduling, panicked,
  outcome, try_schedule, unwrap_or,
}
use flexo.Context.Start.{Covers, IsReached, try_schedule-IsReached}
use flexo.Headers.{
  PayloadOrigin, no_payload, reply_header, reply_header_success, reply_header_bad_request,
  reply_header_forbidden,
}
use flexo.Headers.Declared.{is_one_line}
use flexo.Headers.Redirect.{redirect_header-declared}
use flexo.Serving.{
  Connection, serve_400_header, serve_403_header, serve_200_ok_empty, serve_via_redirect, write_all,
}
use flexo.Serving.Framing.{IsAnswered}
use flexo.Repos.{custom_provider_from_request}
use flexo.Server.{
  Environment, Context, Handled, answered, receive_content_length, try_complete_filesize_from_path,
  receive_and_serve, serve_outcome, with_context, serve_scheduling, serve_file, serve_path,
  serve_request, is_post, serve_scheduled, ContentLengthResult, ContentLengthError,
}
use flexo.Server.Answers.{
  IsSound, AnsweredBy, path, seen, header-AnsweredBy, declared_nothing, serve_complete-AnsweredBy,
  serve_scheduled-AnsweredBy, received_size, try_sizes-eq-ok, serve_in_progress-AnsweredBy,
}

module _ (env : Environment) (order : DownloadOrder) (resume : Option ℕ) where
  redirect-AnsweredBy :
      (uri : Text) (c : Connection)
      → IsSound env order resume
      → AnsweredBy env order resume c (answered no_payload (serve_via_redirect env.network uri c))
  unfolding serve_via_redirect
  redirect-AnsweredBy uri c sound =
      header-AnsweredBy env order resume no_payload _ c
        (redirect_header-declared uri env.network.now sound.one_line)

  receive-AnsweredBy :
      (received : Option (Result ContentLengthResult ContentLengthError)) (c : Connection)
      (h : Handled)
      → IsSound env order resume
      → receive_content_length (env.first_message order) ≡ received
      → Covers (seen env order resume) (unwrap_or resume 0)
      → receive_and_serve env received (path env order resume) resume c ≡ some h
      → AnsweredBy env order resume c h
  unfolding receive_and_serve
  receive-AnsweredBy none c h sound e covers same = cc
  receive-AnsweredBy (some received) c h sound e covers same =
      let handled : serve_scheduled env received (path env order resume) resume c ≡ h = cc same in
      subst (AnsweredBy env order resume c) handled (
        serve_scheduled-AnsweredBy env order resume received c sound
          (λ n r.
            sound.announced n
              (received_size env order resume (env.first_message order) received n e r))
          covers)

  serve_outcome-AnsweredBy :
      (o : ScheduleOutcome mirror_job) (ctx : Context) (custom : Option DownloadProvider)
      (c : Connection) (h : Handled)
      → IsSound env order resume
      → IsReached mirror_job env.cache_state ctx order custom resume o
      → serve_outcome env o order resume c ≡ some h
      → AnsweredBy env order resume c h
  unfolding serve_outcome IsReached try_complete_filesize_from_path
  serve_outcome-AnsweredBy already_in_progress ctx custom c h sound reached e =
      subst (AnsweredBy env order resume c) (cc e) (
        serve_in_progress-AnsweredBy env order resume
          (try_complete_filesize_from_path (env.complete_size (path env order resume))) c sound
          (λ n found.
            let (i, at) =
              try_sizes-eq-ok env order resume (env.complete_size (path env order resume)) 0 2000 n
                found in
            sound.recorded i n at))
  serve_outcome-AnsweredBy scheduled ctx custom c h sound reached e =
      receive-AnsweredBy (receive_content_length (env.first_message order)) c h sound refl reached e
  serve_outcome-AnsweredBy cached ctx custom c h sound reached e =
      subst (AnsweredBy env order resume c) (cc e) (
        serve_complete-AnsweredBy env order resume (env.open_file (path env order resume)) c refl
          sound reached)
  serve_outcome-AnsweredBy (uncacheable provider) ctx custom c h sound reached e =
      subst (AnsweredBy env order resume c) (cc e)
        (redirect-AnsweredBy (uri_from_components provider.uri order.requested_path.inner) c sound)

  with_context-eq-some :
      (m : Option Handled) (ctx ctx' : Context) (h : Handled)
      → with_context env m ctx ≡ some (h, ctx')
      → m ≡ some h
  unfolding with_context
  with_context-eq-some none ctx ctx' h e = cc
  with_context-eq-some (some m) ctx ctx' h e = ap some (cc e)

  serve_scheduling-AnsweredBy :
      (s : Scheduling mirror_job) (ctx ctx' : Context) (custom : Option DownloadProvider)
      (c : Connection) (h : Handled)
      → IsSound env order resume
      → try_schedule mirror_job env.cache_state ctx order custom resume ≡ s
      → serve_scheduling env s order resume c ≡ some (h, ctx')
      → AnsweredBy env order resume c h
  unfolding serve_scheduling
  serve_scheduling-AnsweredBy panicked ctx ctx' custom c h sound tried e = cc
  serve_scheduling-AnsweredBy (outcome o after) ctx ctx' custom c h sound tried e =
      serve_outcome-AnsweredBy o ctx custom c h sound
        (try_schedule-IsReached mirror_job env.cache_state ctx order custom resume o after tried)
        (with_context-eq-some _ after ctx' h e)

module _ (env : Environment) (r : Request) (ctx : Context) (c : Connection) where
  abbrev order_of : DownloadOrder
  order_of = new_order env.uuid r.path

  nothing-IsAnswered :
      (status : Text) (origin : PayloadOrigin) (c' : Connection)
      → IsSound env order_of r.resume_from
      → is_one_line status ≡ true
      → answered no_payload
          (write_all env.network (reply_header status 0 none no_payload env.network.now) c)
        ≡ (ok origin, c')
      → IsAnswered c c'
  nothing-IsAnswered status origin c' sound one h =
      header-AnsweredBy env order_of r.resume_from no_payload _ c
        (declared_nothing env order_of r.resume_from status one sound.one_line) origin c' h

  serve_path-IsAnswered :
      (custom : Option DownloadProvider) (ctx' : Context) (origin : PayloadOrigin) (c' : Connection)
      → IsSound env order_of r.resume_from
      → text_eq r.path.inner (codes "metrics") ≡ false
      → serve_path env custom r ctx c ≡ some ((ok origin, c'), ctx')
      → IsAnswered c c'
  unfolding serve_path serve_403_header serve_400_header serve_200_ok_empty reply_header_forbidden
      reply_header_bad_request reply_header_success serve_file
  serve_path-IsAnswered custom ctx' origin c' sound other h =
      elim (Bool-cases (permitted_path r.path.inner)) [
        | inr forbidden ↦
            nothing-IsAnswered (codes "403 Forbidden") origin c' sound refl (cc (rw forbidden at h))
        | inl permitted ↦ elim (Bool-cases (valid_path r.path.inner)) [
          | inr bad ↦
              nothing-IsAnswered (codes "400 Bad Request") origin c' sound refl
                (cc (rw (permitted, bad) at h))
          | inl valid ↦ elim (Bool-cases (text_eq r.path.inner (codes "status"))) [
            | inl status ↦
                nothing-IsAnswered (codes "200 OK") origin c' sound refl
                  (cc (rw (permitted, valid, status) at h))
            | inr no_status ↦
                elim (Bool-cases (
                  if text_eq r.path.inner (codes "reset-metrics")
                  then is_post env r.method
                  else false)) [
                    | inl reset ↦
                        nothing-IsAnswered (codes "200 OK") origin c' sound refl
                          (cc (rw (permitted, valid, no_status, other, reset) at h))
                    | inr file ↦
                        serve_scheduling-AnsweredBy env order_of r.resume_from _ ctx ctx' custom c _
                          sound refl (rw (permitted, valid, no_status, other, file) at h) origin c'
                          refl
                  ]
          ]
        ]
      ]

-- A request that is served without an error, other than for the metrics, is answered by exactly one
-- header and the bytes of the length that it declares, whichever way it is served. This holds as far as the
-- environment is sound for the order that the request becomes, after the name of a custom repository was
-- taken away.
pub serve_request-IsAnswered :
    (env : Environment) (r : Request) (ctx ctx' : Context) (c c' : Connection)
    (origin : PayloadOrigin)
    → IsSound env
        (new_order env.uuid (custom_provider_from_request r env.custom_repos).1.path)
        (custom_provider_from_request r env.custom_repos).1.resume_from
    → text_eq (custom_provider_from_request r env.custom_repos).1.path.inner (codes "metrics")
      ≡ false
    → serve_request env r ctx c ≡ some ((ok origin, c'), ctx')
    → IsAnswered c c'
unfolding serve_request
serve_request-IsAnswered env r ctx ctx' c c' origin sound other h =
    let found = custom_provider_from_request r env.custom_repos in
    serve_path-IsAnswered env found.1 ctx c found.0 ctx' origin c' sound other h
