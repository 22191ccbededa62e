-- ===== src/Nats/Runtime/Termination.antt =====
-- The steps that a cancelled consumer has before it, counted.
use ofm_mail_service.Prelude.{
  ℕ, zero, suc, ◌+◌, ◌*◌, pos_part, ◌≤◌, ◌<◌, ◌≡◌, ◌≢◌, ◌⊎◌, inl, inr, refl, sym, ap, subst, [],
  ◌∷◌, true, arith, length, length-append,
}
use ofm_mail_service.Effect.{ok, err}
use ofm_mail_service.Config.{PullConsumerConfig}
use ofm_mail_service.Nats.Runtime.{
  Fetcher, looping, fetching, dispatching, draining, done, Runtime, settled, Step, cancels, stops,
  asks, fetch_fails, fetches, dispatches, gives_up, dispatched, closes, takes, handles, returns,
  returns_closed, Reachable, moved,
}
use ofm_mail_service.Nats.Runtime.Shutdown.{Steps, none_more, then, cancelled-Ends}

-- the most steps that a cancelled fetcher has before it, where `Fetch` answers no more messages than
-- it was asked for
abbrev pub remaining_fetcher : {Msg : Type 0} → Fetcher Msg → ℕ
remaining_fetcher (looping state) = 2
remaining_fetcher (fetching state) = 4 + 3 * pos_part state.plan.batch
remaining_fetcher (dispatching state msgs) = 3 + 3 * length msgs
remaining_fetcher draining = 1
remaining_fetcher done = 0

-- and the fetcher with the workers
abbrev pub remaining : {Msg : Type 0} → Runtime Msg → ℕ
remaining s = remaining_fetcher s.fetcher + 2 * length s.jobs + 2 * length s.busy + s.idle

abbrev pub HasEnded : {Msg : Type 0} → Runtime Msg → Type 0
HasEnded s = (s.jobs_closed ≡ true) × (s.busy ≡ [])

-- how many messages the fetcher has asked for
abbrev pub asked_for : {Msg : Type 0} → Fetcher Msg → ℕ
asked_for (fetching state) = pos_part state.plan.batch
asked_for _ = 0

-- What nats.go documents of `Fetch`: it answers no more messages than it was asked for. It says
-- nothing of the other steps, behind which the same messages were fetched.
abbrev pub AnswersAsked : {Msg : Type 0} → Runtime Msg → Runtime Msg → Type 0
AnswersAsked s s' = length s'.fetched ≤ length s.fetched + asked_for s.fetcher

module _ {Msg : Type 0} (cfg : PullConsumerConfig) where
  -- A second cancellation changes nothing; any other step is one less to come.
  Step-remaining :
      {s s' : Runtime Msg}
      → Step cfg s s'
      → s.cancelled ≡ true
      → AnswersAsked s s'
      → (s'.cancelled ≡ true) × ((s' ≡ s) ⊎ (remaining s' < remaining s))
  unfolding settled
  Step-remaining {s} cancels c a = (refl, inl (ap (λ b. record s { cancelled = b }) (sym c)))
  Step-remaining (stops state f _) c a = ground arith
  Step-remaining (asks state now later pending f o) c a = cc
  Step-remaining (fetch_fails state f) c a = ground arith
  Step-remaining {s} (fetches state msgs f) c a =
      let e = length-append msgs s.fetched in ground arith
  Step-remaining {s} (dispatches state msg msgs f l) c a =
      let e = length-append s.jobs (msg ∷ []) in ground arith
  Step-remaining (gives_up state msg msgs f _) c a = ground arith
  Step-remaining (dispatched state f) c a = ground arith
  Step-remaining (closes f g) c a = ground arith
  Step-remaining (takes msg rest others j i) c a = ground arith
  Step-remaining (handles msg (ok _) before after b) c a =
      let e = length-append before (msg ∷ after) in
      let e' = length-append before after in ground arith
  Step-remaining (handles msg (err x) before after b) c a =
      let e = length-append before (msg ∷ after) in
      let e' = length-append before after in ground arith
  Step-remaining (returns others _ i) c a = ground arith
  Step-remaining (returns_closed others o j i) c a = ground arith

  -- `n` steps that change the state, where `Fetch` answers no more messages than it was asked for
  pub data Run : ℕ → Runtime Msg → Runtime Msg → Type 0 where
    stays : {s : Runtime Msg} → Run zero s s
    goes :
        {n : ℕ} {s s' s'' : Runtime Msg}
        → Run n s s'
        → Step cfg s' s''
        → s'' ≢ s'
        → AnswersAsked s' s''
        → Run (suc n) s s''

  Run-remaining :
      {n : ℕ} {s s' : Runtime Msg}
      → Run n s s'
      → s.cancelled ≡ true
      → (s'.cancelled ≡ true) × (n + remaining s' ≤ remaining s)
  Run-remaining stays c = (c, omega arith)
  Run-remaining (goes run step differs asked) c =
      let (c', bound) = Run-remaining run c in
      let (c'', less) = Step-remaining step c' asked in
      (c'', elim less [ inl same ↦ absurd (differs same) | inr below ↦ omega arith ])

  Run-Reachable :
      {n now : ℕ} {s s' : Runtime Msg} → Run n s s' → Reachable cfg now s → Reachable cfg now s'
  Run-Reachable stays r = r
  Run-Reachable (goes run step differs asked) r = moved (Run-Reachable run r) step

  abbrev Continues : Runtime Msg → Type 0
  Continues s = HasEnded s ⊎ ((s' : Runtime Msg) × Step cfg s s' × (remaining s' < remaining s))

  Steps-Continues :
      {s s' : Runtime Msg} → Steps cfg s s' → s.cancelled ≡ true → HasEnded s' → Continues s
  Steps-Continues none_more c ended = inl ended
  Steps-Continues {s} (then {s' = s'} step same rest) c ended =
      let asked : AnswersAsked s s' = omega (arith, ap length same) in
      let (c', less) = Step-remaining step c asked in
      elim less [
        | inl still ↦ subst Continues still (Steps-Continues rest c' ended)
        | inr below ↦ inr (_, step, below)
      ]

  -- After a cancellation, whatever the order of the steps, also where a `Fetch` was under way and
  -- still answers a batch, a consumer has come to its end, or a step towards it is possible; and, as
  -- long as `Fetch` answers no more messages than it was asked for, no run of it has more steps that
  -- change anything than `remaining` says, so that no schedule keeps it from its end.
  pub cancelled_terminates :
      {n now : ℕ} {s s' : Runtime Msg}
      → Reachable cfg now s
      → s.cancelled ≡ true
      → Run n s s'
      → (n + remaining s' ≤ remaining s)
        × (HasEnded s' ⊎ ((s'' : Runtime Msg) × Step cfg s' s'' × (remaining s'' < remaining s')))
  cancelled_terminates r c run =
      let (c', bound) = Run-remaining run c in
      let (_, steps, closed, free) = cancelled-Ends cfg (Run-Reachable run r) c' in
      (bound, Steps-Continues steps c' (closed, free))
