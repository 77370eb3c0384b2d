-- ===== src/Serving/Progress.antt =====
-- flexo/src/main.rs: `serve_from_growing_file`, for a file that goes on growing.
use flexo.Base.{ℕ, ◌+◌, ◌≤◌, ◌<◌, ◌≡◌, ◌⊎◌}
use flexo.Job.{ok}
use flexo.Growing.{GrowingFileSource, Stream, Served, served, failed, Round, next, fail}
use flexo.Serving.{Network, ClientFileSource, client_file_source}

module _ (net : Network) (sizes : ℕ → ℕ) (start complete max_polls : ℕ) where
  abbrev src : GrowingFileSource ClientFileSource
  src = client_file_source net (λ n. ok (sizes n))

  -- The size is that of the start, or was found by one of the first n polls.
  abbrev WasFound : ℕ → ℕ → Type 0
  WasFound n received = (received ≡ start) ⊎ ((j : ℕ) × (j < n) × (received ≡ sizes j))

  -- As long as the file is not complete, one of the next so many polls finds it longer than all polls before.
  abbrev pub Grows : Type 0
  Grows =
      (n received : ℕ)
      → received < complete
      → WasFound n received
      → ((j : ℕ) → j < n → sizes j ≤ received)
      → (k : ℕ) × (n ≤ k) × (k < n + max_polls) × (received < sizes k)

  -- What was sent is the longest that the file was found, before the last polls without progress.
  record IsLive (s : Stream ClientFileSource) : Type 0 where
    counted : s.polls_without_progress ≤ s.source.polls
    attained :
        (s.client_received ≡ start)
        ⊎ ((j : ℕ) × (j + s.polls_without_progress < s.source.polls)
            × (s.client_received ≡ sizes j))
    seen : (j : ℕ) → j < s.source.polls → sizes j ≤ s.client_received

  abbrev RoundLive : Round ClientFileSource → Type 0
  RoundLive (next t) = IsLive t
  RoundLive (fail e t) = ⊥

  -- The loop does not fail.
  ServedLive : Served ClientFileSource → Type 0
  ServedLive (served t) = Unit
  ServedLive (failed e t) = ⊥
  ServedLive Served.out_of_fuel = Unit
