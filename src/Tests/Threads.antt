-- ===== src/Tests/Threads.antt =====
-- The theorems on the threads of orders and what they send, applied where their hypotheses hold.
use flexo.Base.{
  ◌==◌, Bool, ◌⊎◌, ℕ, ◌≡◌, ◌≢◌, refl, true, false, List, [], ◌∷◌, none, some, contains,
}
use flexo.Base.Text.{codes}
use flexo.Job.{ok}
use flexo.Context.{JobContext, new_context}
use flexo.Paths.{DownloadOrder, cacheable}
use flexo.Transfer.{Call, on_header, on_write}
use flexo.Server.{receive_content_length}
use flexo.Server.FirstMessage.{
  Trial, first_received, thread_messages, receive_content_length-thread_messages,
}
use flexo.Metrics.{ProviderIdentifier-discrete}
use flexo.Context.Thread.{IsOver, IsDead, run_thread-IsOver}
use flexo.Tests.{
  answer_ok, append_all, text_length, number_job, broken_world, alone, two_mirrors, mirror_a,
  mirror_b,
}

abbrev some_order : DownloadOrder
some_order = record { requested_path = record { inner = codes "a.pkg" }; cacheability = cacheable }

abbrev trials : List (Trial (Call answer_ok append_all text_length))
trials =
    record { last_chance = false; opened = ok []; calls = [] }
    ∷ record {
      last_chance = true;
      opened = ok [];
      calls = on_header (codes "x") ∷ on_write (codes "abc") ∷ [];
    }
    ∷ []

receive_content_length-thread_messages_example :
    receive_content_length
      (first_received (thread_messages answer_ok append_all text_length some_order trials))
    ≢ none
receive_content_length-thread_messages_example =
    receive_content_length-thread_messages answer_ok append_all text_length some_order trials

abbrev made_of_mirrors : JobContext number_job
made_of_mirrors = record { shared = two_mirrors; orders_in_progress = []; panic_monitor = [] }

mirrors_made : new_context number_job (mirror_a ∷ mirror_b ∷ []) ≡ some made_of_mirrors
unfolding new_context contains ProviderIdentifier-discrete
mirrors_made = refl

-- The second round panics, if there is one.
abbrev second_panics : ℕ → Bool
second_panics n = n == 2

abbrev in_progress : JobContext number_job
in_progress = record made_of_mirrors { orders_in_progress = 5 ∷ [] }

run_thread-IsOver_example :
    IsOver number_job broken_world second_panics alone 5 two_mirrors in_progress
    ⊎ IsDead number_job broken_world second_panics alone 5 two_mirrors in_progress
run_thread-IsOver_example =
    run_thread-IsOver number_job broken_world second_panics alone 5 mirror_a (mirror_b ∷ [])
      made_of_mirrors two_mirrors in_progress mirrors_made refl ((λ n s. refl), (λ n s. refl))
