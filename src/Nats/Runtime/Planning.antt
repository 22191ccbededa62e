-- ===== src/Nats/Runtime/Planning.antt =====
-- The plan that a pull consumer fetches by.
use ofm_mail_service.Prelude.{
  ℕ, ◌≡◌, inl, inr, Option, none, some, pos, ◌<ℤ◌, int_of_uint64, arith, Bool-cases,
}
use ofm_mail_service.Effect.{ok, err}
use ofm_mail_service.Config.{PullConsumerConfig}
use ofm_mail_service.Nats.Plan.{PullPlan, resolve_pull_plan}
use ofm_mail_service.Nats.Plan.Laws.{resolve_pull_plan_positive}
use ofm_mail_service.Nats.Validator.{validate}
use ofm_mail_service.Nats.Validator.Laws.{validate_iff}
use ofm_mail_service.Nats.Runtime.{
  FetchState, Fetcher, looping, fetching, dispatching, Runtime, same_plan, switched,
  maybe_update_adaptive_plan, settled, start, Step, cancels, stops, asks, fetch_fails, fetches,
  dispatches, gives_up, dispatched, closes, takes, handles, returns, returns_closed, Reachable,
  started, moved,
}

-- A plan that Fetch accepts.
abbrev pub IsPositive : PullPlan → Type 0
IsPositive plan = (pos 0 <ℤ plan.batch) × (pos 0 <ℤ plan.wait)

abbrev pub AsksPositive : {Msg : Type 0} → Fetcher Msg → Type 0
AsksPositive (looping state) = IsPositive state.plan
AsksPositive (fetching state) = IsPositive state.plan
AsksPositive (dispatching state msgs) = IsPositive state.plan
AsksPositive _ = Unit

module _ (cfg : PullConsumerConfig) (valid : validate cfg ≡ none) where
  switched-IsPositive :
      (pending : Option ℕ) (state : FetchState)
      → IsPositive state.plan
      → IsPositive (switched cfg pending state).plan
  unfolding switched
  switched-IsPositive none state h = h
  switched-IsPositive (some n) state h =
      elim (Bool-cases (same_plan (resolve_pull_plan cfg (int_of_uint64 n)) state.plan)) [
        | inl same ↦ rw same h
        | inr other ↦ rw other (resolve_pull_plan_positive cfg (int_of_uint64 n) valid)
      ]

  update-IsPositive :
      (now later : ℕ) (pending : Option ℕ) (state : FetchState)
      → IsPositive state.plan
      → IsPositive (maybe_update_adaptive_plan cfg now later pending state).plan
  unfolding maybe_update_adaptive_plan
  update-IsPositive now later pending state h =
      let h' = switched-IsPositive pending (record state { last_adaptive_check = later }) h in
      ground arith

  Step-AsksPositive :
      {Msg : Type 0} {s s' : Runtime Msg}
      → Step cfg s s'
      → AsksPositive s.fetcher
      → AsksPositive s'.fetcher
  unfolding settled
  Step-AsksPositive cancels h = h
  Step-AsksPositive (stops state f c) h = tt
  Step-AsksPositive (asks state now later pending f c) h =
      update-IsPositive now later pending state (rw f at h)
  Step-AsksPositive (fetch_fails state f) h = rw f at h
  Step-AsksPositive (fetches state msgs f) h = rw f at h
  Step-AsksPositive (dispatches state msg msgs f l) h = rw f at h
  Step-AsksPositive (gives_up state msg msgs f c) h = tt
  Step-AsksPositive (dispatched state f) h = rw f at h
  Step-AsksPositive (closes f g) h = tt
  Step-AsksPositive (takes msg rest others j i) h = h
  Step-AsksPositive (handles msg (ok _) before after b) h = h
  Step-AsksPositive (handles msg (err x) before after b) h = h
  Step-AsksPositive (returns others c i) h = h
  Step-AsksPositive (returns_closed others c j i) h = h

  -- With a validated configuration, the batch and the wait that the fetcher asks for are positive at
  -- every time, whatever numbers of pending messages it was told.
  pub Reachable-AsksPositive :
      {Msg : Type 0} {now : ℕ} {s : Runtime Msg} → Reachable cfg now s → AsksPositive s.fetcher
  unfolding start
  Reachable-AsksPositive started =
      let v = (validate_iff cfg).0 valid in (v.sizes.batch, v.sizes.wait)
  Reachable-AsksPositive (moved r step) = Step-AsksPositive step (Reachable-AsksPositive r)
