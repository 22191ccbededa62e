-- ===== src/Nats/Runtime.antt =====
-- nats/pull_consumer_runtime.go: the goroutines of a pull consumer. A fetcher puts the messages of
-- each batch into a channel, and workers take them out, handle them, and answer Ack or Nak. A step
-- is what one goroutine does between two points where others may come in between. Metrics and the
-- log are left out; that `Ack` or `Nak` themselves fail is only counted by the code.
pub mod Laws
pub mod Planning
pub mod Settling
pub mod Shutdown
pub mod Termination
pub mod Contract
pub mod Refinement
mod Tests
use ofm_mail_service.Prelude.{
  ℕ, zero, suc, ◌-◌, ◌<◌, ◌≡◌, String, List, [], ◌∷◌, ◌++◌, Bool, true, false, not, ◌&&◌, ◌||◌,
  Option, none, some, ◌==◌, if◌then◌else◌, ℤ, pos, pos_part, ltb_ℤ, eqb_ℤ, int_of_uint64, length,
}
use ofm_mail_service.Effect.{Result, ok, err}
use ofm_mail_service.Config.{PullConsumerConfig}
use ofm_mail_service.Nats.Plan.{PullPlan, resolve_pull_plan}

-- pullConsumerFetchState; times are nanoseconds of the monotonic clock.
pub record FetchState : Type 0 where
  pub plan : PullPlan
  pub last_adaptive_check : ℕ

abbrev same_plan : PullPlan → PullPlan → Bool
same_plan a b = (a.tier == b.tier) && eqb_ℤ a.batch b.batch && eqb_ℤ a.wait b.wait

-- what follows `ConsumerInfo`, whose answer is the number of pending messages, a uint64
switched : PullConsumerConfig → Option ℕ → FetchState → FetchState
switched cfg none state = state
switched cfg (some pending) state =
    let next_plan = resolve_pull_plan cfg (int_of_uint64 pending) in
    if same_plan next_plan state.plan then state else record state { plan = next_plan }

-- maybeUpdateAdaptivePlan, with the two readings of the clock
unfoldable pub maybe_update_adaptive_plan :
    PullConsumerConfig → ℕ → ℕ → Option ℕ → FetchState → FetchState
unfolding switched
maybe_update_adaptive_plan cfg now later pending state =
    if not cfg.adaptive.enabled
      || ltb_ℤ (pos (now - state.last_adaptive_check)) cfg.adaptive.check_interval
    then state
    else switched cfg pending (record state { last_adaptive_check = later })

-- Where the fetcher stands: at the head of its loop, in a call of `Fetch`, before a send of the rest
-- of a batch, at `wg.Wait()`, or behind `close(r.jobs)`.
pub data Fetcher (Msg : Type 0) : Type 0 where
  looping : FetchState → Fetcher Msg
  fetching : FetchState → Fetcher Msg
  dispatching : FetchState → List Msg → Fetcher Msg
  draining : Fetcher Msg
  done : Fetcher Msg

pub record Runtime (Msg : Type 0) : Type 0 where
  pub fetcher : Fetcher Msg
  -- the buffer of the channel, the oldest message first
  pub jobs : List Msg
  pub jobs_closed : Bool
  -- the workers that wait for a message, and those that have returned
  pub idle : ℕ
  pub gone : ℕ
  -- the messages that workers handle
  pub busy : List Msg
  pub cancelled : Bool
  -- what Fetch has answered, what was acknowledged, or not, and what was given up unsent
  pub fetched : List Msg
  pub acked : List Msg
  pub naked : List Msg
  pub dropped : List Msg

-- The end of one round of a worker.
unfoldable pub settled : {Msg : Type 0} → Msg → Result (Unit {0}) → Runtime Msg → Runtime Msg
settled msg (err e) s = record s { naked = msg ∷ s.naked }
settled msg (ok _) s = record s { acked = msg ∷ s.acked }

module _ {Msg : Type 0} (cfg : PullConsumerConfig) where
  -- Start, and the state that runFetcher starts with
  unfoldable pub start : ℕ → Runtime Msg
  start now = record {
    fetcher = looping (record {
      plan = record { tier = "base"; batch = cfg.batch_size; wait = cfg.max_wait };
      last_adaptive_check = now;
    });
    jobs = [];
    jobs_closed = false;
    idle = pos_part cfg.workers;
    gone = 0;
    busy = [];
    cancelled = false;
    fetched = [];
    acked = [];
    naked = [];
    dropped = [];
  }

  pub data Step (s : Runtime Msg) : Runtime Msg → Type 0 where
    cancels : Step s (record s { cancelled = true })
    -- runFetcher
    stops :
        (state : FetchState)
        → s.fetcher ≡ looping state
        → s.cancelled ≡ true
        → Step s (record s { fetcher = draining })
    asks :
        (state : FetchState) (now later : ℕ) (pending : Option ℕ)
        → s.fetcher ≡ looping state
        → s.cancelled ≡ false
        → Step s (record s {
          fetcher = fetching (maybe_update_adaptive_plan cfg now later pending state);
        })
    -- `Fetch` comes back, also behind a cancellation: it knows nothing of the context
    fetch_fails :
        (state : FetchState)
        → s.fetcher ≡ fetching state
        → Step s (record s { fetcher = looping state })
    fetches :
        (state : FetchState) (msgs : List Msg)
        → s.fetcher ≡ fetching state
        → Step s (record s { fetcher = dispatching state msgs; fetched = msgs ++ s.fetched })
    -- dispatchFetchedMessages
    dispatches :
        (state : FetchState) (msg : Msg) (msgs : List Msg)
        → s.fetcher ≡ dispatching state (msg ∷ msgs)
        → length s.jobs < pos_part cfg.queue_size
        → Step s (record s { fetcher = dispatching state msgs; jobs = s.jobs ++ (msg ∷ []) })
    gives_up :
        (state : FetchState) (msg : Msg) (msgs : List Msg)
        → s.fetcher ≡ dispatching state (msg ∷ msgs)
        → s.cancelled ≡ true
        → Step s (record s { fetcher = draining; dropped = (msg ∷ msgs) ++ s.dropped })
    dispatched :
        (state : FetchState)
        → s.fetcher ≡ dispatching state []
        → Step s (record s { fetcher = looping state })
    -- `wg.Wait()` returns where every worker has returned
    closes :
        s.fetcher ≡ draining
        → s.gone ≡ pos_part cfg.workers
        → Step s (record s { fetcher = done; jobs_closed = true })
    -- runWorker
    takes :
        (msg : Msg) (rest : List Msg) (others : ℕ)
        → s.jobs ≡ msg ∷ rest
        → s.idle ≡ suc others
        → Step s (record s { jobs = rest; idle = others; busy = msg ∷ s.busy })
    handles :
        (msg : Msg) (result : Result (Unit {0})) (before after : List Msg)
        → s.busy ≡ before ++ (msg ∷ after)
        → Step s (settled msg result (record s { busy = before ++ after; idle = suc s.idle }))
    returns :
        (others : ℕ)
        → s.cancelled ≡ true
        → s.idle ≡ suc others
        → Step s (record s { idle = others; gone = suc s.gone })
    returns_closed :
        (others : ℕ)
        → s.jobs_closed ≡ true
        → s.jobs ≡ []
        → s.idle ≡ suc others
        → Step s (record s { idle = others; gone = suc s.gone })

  -- What a consumer can come to, from its start.
  pub data Reachable (now : ℕ) : Runtime Msg → Type 0 where
    started : Reachable now (start now)
    moved : {s s' : Runtime Msg} → Reachable now s → Step s s' → Reachable now s'
