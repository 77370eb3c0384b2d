-- ===== src/Download/Equality.antt =====
-- flexo/src/mirror_flexo.rs: the equalities that orders and providers derive, field by field.
use native.Mathlib.Decide.{ℕ_discrete}
use flexo.Base.{ℕ, ◌≡◌, refl, ap, ◌∙◌, sym, Option, none, some}
use flexo.Base.Text.{Text, Text-discrete}
use flexo.Job.{Job}
use flexo.Scores.{MirrorResults}
use flexo.Paths.{Cacheability, non_cacheable, cacheable, DownloadOrder}
use flexo.Download.{DownloadProvider, download_job}

unfoldable pub pair-discrete : {A B : Type 0} → Discrete A → Discrete B → Discrete (A × B)
pair-discrete da db (a, b) (c, d) = elim (da a c) [
  | no n ↦ no (λ e. n (λ i. (e i).0))
  | yes p ↦ elim (db b d) [ no n ↦ no (λ e. n (λ i. (e i).1)) | yes q ↦ yes (λ i. (p i, q i)) ]
]

-- equality by the fields
unfoldable pub fields-discrete :
    {A B : Type 0} (fields : A → B) (of_fields : B → A)
    → ((a : A) → of_fields (fields a) ≡ a)
    → Discrete B
    → Discrete A
fields-discrete fields of_fields back db a c = elim (db (fields a) (fields c)) [
  | no n ↦ no (λ e. n (ap fields e))
  | yes p ↦ yes (sym (back a) ∙ ap of_fields p ∙ back c)
]

abbrev kind_of : Cacheability → Option Text
kind_of (non_cacheable u) = some u
kind_of cacheable = none

abbrev of_kind : Option Text → Cacheability
of_kind (some u) = non_cacheable u
of_kind none = cacheable

abbrev of_kind-kind_of : (c : Cacheability) → of_kind (kind_of c) ≡ c
of_kind-kind_of (non_cacheable u) = refl
of_kind-kind_of cacheable = refl

unfoldable pub Option-discrete : {A : Type 0} → Discrete A → Discrete (Option A)
Option-discrete da none none = yes refl
Option-discrete da none (some b) = no (λ e. cc)
Option-discrete da (some a) none = no (λ e. cc)
Option-discrete da (some a) (some b) = elim (da a b) [
  | no n ↦ no (λ e. n (cc e))
  | yes p ↦ yes (ap some p)
]

unfoldable pub Cacheability-discrete : Discrete Cacheability
unfolding fields-discrete Option-discrete
Cacheability-discrete =
    fields-discrete kind_of of_kind of_kind-kind_of (Option-discrete Text-discrete)

unfoldable pub DownloadOrder-discrete : Discrete DownloadOrder
unfolding fields-discrete pair-discrete
DownloadOrder-discrete =
    fields-discrete (λ (o : DownloadOrder). (o.requested_path.inner, o.cacheability))
      (λ (p : Text × Cacheability). record {
        requested_path = record { inner = p.0 };
        cacheability = p.1;
      })
      (λ o. refl) (pair-discrete Text-discrete Cacheability-discrete)

abbrev Numbers : Type 0
Numbers = ℕ × (ℕ × (ℕ × (ℕ × ℕ)))

unfoldable pub MirrorResults-discrete : Discrete MirrorResults
unfolding fields-discrete pair-discrete
MirrorResults-discrete =
    fields-discrete
      (λ (r : MirrorResults). (
        r.total_time,
        (r.namelookup_duration, (r.connect_duration, (r.pretransfer_time, r.starttransfer_time))),
      ))
      (λ (n : Numbers). record {
        total_time = n.0;
        namelookup_duration = n.1.0;
        connect_duration = n.1.1.0;
        pretransfer_time = n.1.1.1.0;
        starttransfer_time = n.1.1.1.1;
      })
      (λ r. refl)
      (pair-discrete ℕ_discrete
        (pair-discrete ℕ_discrete (pair-discrete ℕ_discrete (pair-discrete ℕ_discrete ℕ_discrete))))

unfoldable pub DownloadProvider-discrete : Discrete DownloadProvider
unfolding fields-discrete pair-discrete
DownloadProvider-discrete =
    fields-discrete
      (λ (p : DownloadProvider). (p.uri, (p.name, (p.mirror_results, p.country_code))))
      (λ (f : Text × (Text × (MirrorResults × Text))). record {
        uri = f.0;
        name = f.1.0;
        mirror_results = f.1.1.0;
        country_code = f.1.1.1;
      })
      (λ p. refl)
      (pair-discrete Text-discrete
        (pair-discrete Text-discrete (pair-discrete MirrorResults-discrete Text-discrete)))

-- `DownloadJob` as a job, with these equalities.
abbrev pub mirror_job : Job
mirror_job = download_job DownloadOrder-discrete DownloadProvider-discrete
