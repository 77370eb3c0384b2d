-- ===== src/Tests/Witnesses.antt =====
-- Each theorem that has hypotheses, applied where they hold.
use native.Mathlib.Decide.{ℕ_discrete}
use flexo.Base.{
  ◌*◌, ◌/◌, ◌++◌, inl, inr, List, ℕ, ◌-◌, ◌^◌, ◌<◌, ◌≡◌, ◌≢◌, ◌↔◌, refl, ap, true, false, [], ◌∷◌,
  none, some, arith, contains,
}
use flexo.Base.Map.{get, insert, modify_or_insert}
use flexo.Base.Text.{head_path}
use flexo.Guards.{Selected, guards_with_scores, clone_at, get_provider_guard}
use flexo.Base.{All}
use flexo.Guards.{exclude}
use flexo.Order.Single.{OnlyRound, try_until_success-custom}
use flexo.Guards.Choice.{choice, get_provider_guard-eq-none_iff, IsBest, get_provider_guard-IsBest}
use flexo.Metrics.{
  ProviderIdentifier, ProviderIdentifier-discrete, metric, punish, pardon, pardon_one,
}
use flexo.Job.{JobResult, partial, ok, ChannelEstablishment}
use flexo.Order.{
  Run, try_loop, attempt, select_provider, attempt_with, serve, get_channel, last_chance,
  pardon_unless_success, punish_if, release_guard, finished, provider_selected, channel_established,
  try_until_success,
}
use flexo.Order.Loop.{Ends, try_until_success-Ends}
use flexo.Order.Failures.{CountsAfter, try_until_success-CountsAfter}
use flexo.Order.Custom.{try_until_success-custom_wraps}
use flexo.Metrics.Laws.{failures, entry}
use flexo.Context.{
  JobContext, free, schedule, cache_decision, scheduled, cached, outcome, try_schedule, unwrap_or,
}
use flexo.Context.Schedule.{IsHit, try_schedule-cached_iff}
use flexo.Context.Threads.{System, Reach-IsExclusive, IsExclusive}
use flexo.Context.Threads as Threads
use flexo.Growing.{serve_growing_file_loop}
use flexo.Growing.Termination.{StreamEnds, serve_growing_file_loop-StreamEnds}
use flexo.Base.Text.{codes}
use flexo.Transfer.{Call, on_header, on_write, transfer}
use flexo.Transfer.Messages.{IsConsistent, transfer-IsConsistent, told_unavailable, last_size}
use flexo.Config.{parse_si_unit}
use flexo.Config.Units.{parse_si_unit-eq-some}
use flexo.Tests.{
  fresh_download, answer_ok, append_all, text_length, ord_number, mirror_a, mirror_b, mirror_c,
  number_job, broken_world, alone, two_mirrors, not_a, three_guards, stalled_at, cache_of_seven,
}

abbrev chosen : Selected ProviderIdentifier
chosen = record {
  index = 1;
  provider = mirror_b;
  num_remaining = 2;
  guards =
      record { guarded_provider = mirror_a; strong_count = 1 }
      ∷ record { guarded_provider = mirror_b; strong_count = 2 }
      ∷ record { guarded_provider = mirror_c; strong_count = 1 }
      ∷ [];
}

choose_b : get_provider_guard ⦃o = ord_number⦄ not_a three_guards ≡ some chosen
unfolding get_provider_guard ProviderIdentifier-discrete guards_with_scores clone_at
choose_b = refl

get_provider_guard-IsBest_example : IsBest not_a ⦃o = ord_number⦄ three_guards 1 mirror_b
get_provider_guard-IsBest_example =
    get_provider_guard-IsBest not_a ⦃o = ord_number⦄ three_guards chosen choose_b

get_provider_guard-eq-none_iff_example :
    (get_provider_guard ⦃o = ord_number⦄ not_a three_guards ≡ none)
    ↔ All (λ g. choice not_a g ≡ exclude) three_guards
get_provider_guard-eq-none_iff_example =
    get_provider_guard-eq-none_iff not_a ⦃o = ord_number⦄ three_guards

try_until_success-custom_example :
    OnlyRound number_job broken_world alone 5 mirror_c
      (try_until_success number_job broken_world alone 5 (some mirror_c) two_mirrors)
try_until_success-custom_example =
    try_until_success-custom number_job broken_world alone 5 mirror_c two_mirrors

b_ne_a : mirror_a ≢ mirror_b
b_ne_a e =
    let differ : 97 ≡ 98 = head_path (ap (λ (p : ProviderIdentifier). p.identifier) e) in
    omega (arith, differ)

try_until_success-Ends_example :
    Ends number_job broken_world alone 5
      (mirror_a ∷ mirror_b ∷ [])
      (try_until_success number_job broken_world alone 5 none two_mirrors)
try_until_success-Ends_example =
    try_until_success-Ends number_job broken_world alone 5 two_mirrors ((b_ne_a, tt), (tt, tt))
      (omega arith) ((λ n s. refl), (λ n s. refl))

none_yet : (k : ProviderIdentifier) → failures k two_mirrors.provider_metrics < 2 ^ 32
unfolding metric get
none_yet k = omega arith

try_until_success-CountsAfter_example :
    (result : JobResult number_job) × (run : Run number_job) × (try_until_success number_job
        broken_world alone 5 none two_mirrors
      ≡ finished result run)
    × CountsAfter number_job broken_world alone 5
        (λ k. failures k two_mirrors.provider_metrics)
        result
        run
try_until_success-CountsAfter_example =
    try_until_success-CountsAfter number_job broken_world alone 5 two_mirrors
      ((b_ne_a, tt), (tt, tt)) (omega arith) ((λ n s. refl), (λ n s. refl))
      ((λ n s k. (refl, λ h. h)), (λ n s k. (refl, λ h. h)), (λ s k. (refl, λ h. h))) none_yet

serve_growing_file_loop-StreamEnds_example :
    StreamEnds (stalled_at 30) 110 20 (serve_growing_file_loop (stalled_at 30) 0 10 100 20)
serve_growing_file_loop-StreamEnds_example =
    serve_growing_file_loop-StreamEnds (stalled_at 30) 0 10 100 20 sends_all
  where
    sends_all :
        (filesize received : ℕ) (s t : ℕ) (n : ℕ)
        → (stalled_at 30).send filesize received s ≡ (ok n, t)
        → received < filesize
        → received < n
    sends_all filesize received s t n e lt = grind arith

abbrev idle : JobContext number_job
idle = record { shared = two_mirrors; orders_in_progress = []; panic_monitor = [] }

abbrev busy : JobContext number_job
busy = record { shared = two_mirrors; orders_in_progress = 5 ∷ []; panic_monitor = free ∷ [] }

request_5 : try_schedule number_job (λ o. none) idle 5 none none ≡ outcome scheduled busy
unfolding try_schedule ℕ_discrete schedule contains cache_decision
request_5 = refl

try_schedule-cached_iff_example :
    (try_schedule number_job cache_of_seven busy 7 none (some 4) ≡ outcome cached busy) ↔ (
      (contains number_job.Order-discrete 7 busy.orders_in_progress ≡ false)
      × (number_job.is_cacheable 7 ≡ true)
      × IsHit (cache_of_seven 7) (unwrap_or (some 4) 0))
try_schedule-cached_iff_example =
    try_schedule-cached_iff number_job cache_of_seven busy 7 none (some 4)

Reach-IsExclusive_example : IsExclusive number_job (record { context = busy; threads = 5 ∷ [] })
Reach-IsExclusive_example =
    Reach-IsExclusive number_job idle (record { context = busy; threads = 5 ∷ [] }) refl
      (Threads.later Threads.start
        (Threads.requested (λ o. none) 5 none none scheduled busy request_5))

abbrev last_run : Run number_job
last_run = record {
  num_attempt = 1;
  shared = record {
    guards = two_mirrors.guards;
    provider_metrics = (mirror_c, record { num_usages = 0; num_failures = 2 ^ 32 - 1 }) ∷ [];
    channels = [];
  };
  punished_providers = mirror_c ∷ [];
  unsuccessful_providers = [];
  messages = provider_selected mirror_c ∷ channel_established ChannelEstablishment.new_channel ∷ [];
  tx_progress = [];
}

custom_run :
    try_until_success number_job broken_world alone 5 (some mirror_c) two_mirrors
    ≡ finished (partial 7 5) last_run
unfolding try_until_success ProviderIdentifier-discrete try_loop attempt select_provider
    attempt_with serve get_channel get last_chance pardon_unless_success punish_if release_guard
    pardon pardon_one punish modify_or_insert insert
custom_run = refl

unknown_c : entry mirror_c two_mirrors.provider_metrics ≡ none
unfolding get
unknown_c = refl

try_until_success-custom_wraps_example :
    failures mirror_c last_run.shared.provider_metrics ≡ 2 ^ 32 - 1
try_until_success-custom_wraps_example =
    try_until_success-custom_wraps number_job broken_world alone 5 mirror_c two_mirrors
      (partial 7 5) last_run ((λ n s. refl), (λ n s. refl), (λ s. refl)) unknown_c custom_run refl

abbrev two_writes : List (Call answer_ok append_all text_length)
two_writes = on_header (codes "x") ∷ on_write (codes "abc") ∷ on_write (codes "de") ∷ []

fresh-IsConsistent : IsConsistent fresh_download
unfolding told_unavailable last_size
fresh-IsConsistent = record {
  cacheable = refl;
  other_chance = refl;
  announced = refl;
  not_told = refl;
}

transfer-IsConsistent_example :
    IsConsistent (transfer answer_ok append_all text_length two_writes fresh_download)
transfer-IsConsistent_example =
    transfer-IsConsistent answer_ok append_all text_length two_writes fresh_download
      fresh-IsConsistent

parse_si_unit-eq-some_example :
    (parse_si_unit 25 (codes "ki" ++ codes "b") ≡ some (25 * 2 ^ 10))
    × (parse_si_unit 25 (codes "ki" ++ codes "bit") ≡ some (25 * 2 ^ 10 / 8))
parse_si_unit-eq-some_example =
    parse_si_unit-eq-some 25 (codes "ki") (2 ^ 10) (inr (inr (inr (inr (inl (refl, refl))))))
      (omega arith)
