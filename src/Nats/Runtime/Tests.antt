-- ===== src/Nats/Runtime/Tests.antt =====
-- Two messages: one is handled, and the other is in the channel when the consumer is cancelled.
use ofm_mail_service.Prelude.{
  ℕ, ◌+◌, ◌≤◌, ◌<◌, ◌≡◌, ◌≢◌, ◌⊎◌, ap, refl, [], ◌∷◌, true, false, none, eqb, arith,
}
use ofm_mail_service.Effect.{ok}
use ofm_mail_service.Nats.Settings.{build_pull_consumer_config}
use ofm_mail_service.Nats.Plan.Tests.{settings, is_valid}
use ofm_mail_service.Nats.Runtime.{
  FetchState, looping, fetching, dispatching, Step, Runtime, settled, switched,
  maybe_update_adaptive_plan, start, cancels, asks, fetches, dispatches, dispatched, takes, handles,
  Reachable, started, moved,
}
use ofm_mail_service.Nats.Runtime.Laws.{Keeps, IsSound, Reachable-Keeps, Reachable-IsSound}
use ofm_mail_service.Nats.Runtime.Contract.{Allowed}
use ofm_mail_service.Nats.Runtime.Refinement.{view, past, Reachable-refines}
use ofm_mail_service.Nats.Runtime.Settling.{IsSettled, Advances, unsettled, Reachable-Settles}
use ofm_mail_service.Nats.Runtime.Termination.{
  remaining, HasEnded, Run, stays, goes, cancelled_terminates,
}

abbrev first_state : FetchState
first_state = record {
  plan = record { tier = "base"; batch = settings.batch_size; wait = settings.max_wait };
  last_adaptive_check = 0;
}

abbrev working : Runtime ℕ
working = record {
  fetcher = looping first_state;
  jobs = 12 ∷ [];
  jobs_closed = false;
  idle = 8;
  gone = 0;
  busy = [];
  cancelled = false;
  fetched = 11 ∷ 12 ∷ [];
  acked = 11 ∷ [];
  naked = [];
  dropped = [];
}

abbrev stopped : Runtime ℕ
stopped = record working { cancelled = true }

is_working : Reachable settings 0 working
unfolding start settled maybe_update_adaptive_plan switched build_pull_consumer_config
is_working =
    moved
      (moved
        (moved
          (moved
            (moved
              (moved (moved started (asks first_state 5 5 none refl refl))
                (fetches first_state (11 ∷ 12 ∷ []) refl))
              (dispatches first_state 11 (12 ∷ []) refl (omega arith)))
            (takes 11 [] 7 refl refl))
          (dispatches first_state 12 [] refl (omega arith)))
        (handles 11 (ok tt) [] [] refl))
      (dispatched first_state refl)

is_reached : Reachable settings 0 stopped
is_reached = moved is_working cancels

Reachable-Keeps_example : Keeps settings (eqb 12) stopped
Reachable-Keeps_example = Reachable-Keeps settings (eqb 12) is_reached

Reachable-IsSound_example : IsSound settings stopped
Reachable-IsSound_example = Reachable-IsSound settings is_reached

Reachable-Settles_example :
    (IsSettled working ⊎ Advances settings working)
    × ((s : Runtime ℕ)
        → Step settings working s
        → s.fetched ≡ working.fetched
        → unsettled s ≤ unsettled working)
Reachable-Settles_example = Reachable-Settles settings is_valid is_working refl

Reachable-refines_example : Allowed (view stopped) (past settings is_reached)
Reachable-refines_example = Reachable-refines settings is_reached

-- The consumer is cancelled in a call of `Fetch`, which answers two messages all the same.
abbrev asking : Runtime ℕ
asking = record {
  fetcher = fetching first_state;
  jobs = [];
  jobs_closed = false;
  idle = 8;
  gone = 0;
  busy = [];
  cancelled = true;
  fetched = [];
  acked = [];
  naked = [];
  dropped = [];
}

abbrev late : Runtime ℕ
late = record asking { fetcher = dispatching first_state (11 ∷ 12 ∷ []); fetched = 11 ∷ 12 ∷ [] }

is_asking : Reachable settings 0 asking
unfolding start maybe_update_adaptive_plan switched build_pull_consumer_config
is_asking = moved (moved started (asks first_state 5 5 none refl refl)) cancels

fetcher_differs : late ≢ asking
fetcher_differs e = let same = ap (λ s. s.fetcher) e in cc

one_step : Run settings 1 asking late
unfolding build_pull_consumer_config
one_step = goes stays (fetches first_state (11 ∷ 12 ∷ []) refl) fetcher_differs (omega arith)

cancelled_terminates_example :
    (1 + remaining late ≤ remaining asking)
    × (HasEnded late ⊎ ((s : Runtime ℕ) × Step settings late s × (remaining s < remaining late)))
cancelled_terminates_example = cancelled_terminates settings is_asking refl one_step
