-- ===== src/Tests/Preference.antt =====
-- The theorem on the mirror that `select_provider` takes, applied where its hypotheses hold.
use flexo.Base.{ℕ, ◌≡◌, refl, [], ◌∷◌, none, some, contains}
use flexo.Base.Map.{get}
use flexo.Base.Text.{Text, codes, Text-discrete}
use flexo.Guards.{new_guards, get_provider_guard, guards_with_scores, clone_at}
use flexo.Metrics.{ProviderIdentifier-discrete, metric, record_usage}
use flexo.Scores.{ord_cacheable_score, le_cacheable, le_results}
use flexo.Paths.{DownloadOrder, cacheable, is_cacheable}
use flexo.Download.{DownloadProvider, provider_identifier}
use flexo.Download.Equality.{mirror_job}
use flexo.Download.Preference.{IsPreferredMirror, select_provider-IsPreferredMirror}
use flexo.Order.{
  Shared, Guarded, select_provider, choose_guard, guarded_by, score_unless_excluded, dynamic_metric,
}

abbrev mirror_at : Text → ℕ → DownloadProvider
mirror_at uri total_time = record {
  uri = uri;
  name = uri;
  mirror_results = record {
    total_time = total_time;
    namelookup_duration = 2;
    connect_duration = 3;
    pretransfer_time = 4;
    starttransfer_time = 5;
  };
  country_code = codes "DE";
}

abbrev slow_mirror : DownloadProvider
slow_mirror = mirror_at (codes "s") 90

abbrev fast_mirror : DownloadProvider
fast_mirror = mirror_at (codes "f") 9

-- The fastest mirror has failed once.
abbrev failing_mirror : DownloadProvider
failing_mirror = mirror_at (codes "x") 7

abbrev three_mirrors : Shared mirror_job
three_mirrors = record {
  guards = new_guards (failing_mirror ∷ slow_mirror ∷ fast_mirror ∷ []);
  provider_metrics =
      (record { identifier = codes "x" }, record { num_usages = 1; num_failures = 1 }) ∷ [];
  channels = [];
}

abbrev some_order : DownloadOrder
some_order = record { requested_path = record { inner = codes "a" }; cacheability = cacheable }

abbrev fast_chosen : Guarded mirror_job
fast_chosen = guarded_by mirror_job three_mirrors (record {
  index = 2;
  provider = fast_mirror;
  num_remaining = 3;
  guards =
      record { guarded_provider = failing_mirror; strong_count = 1 }
      ∷ record { guarded_provider = slow_mirror; strong_count = 1 }
      ∷ record { guarded_provider = fast_mirror; strong_count = 2 }
      ∷ [];
})

fast_selected : select_provider mirror_job some_order none [] three_mirrors ≡ some fast_chosen
unfolding select_provider choose_guard score_unless_excluded dynamic_metric contains metric get
    ProviderIdentifier-discrete Text-discrete get_provider_guard guards_with_scores clone_at
    ord_cacheable_score le_cacheable le_results record_usage is_cacheable provider_identifier
fast_selected = refl

select_provider-IsPreferredMirror_example : IsPreferredMirror [] three_mirrors fast_chosen
unfolding is_cacheable
select_provider-IsPreferredMirror_example =
    select_provider-IsPreferredMirror some_order [] three_mirrors fast_chosen refl fast_selected
