-- ===== src/Nats/Runtime/Settling.antt =====
-- The way of the messages that were fetched to their Ack or Nak, up to a cancellation.
use ofm_mail_service.Prelude.{
  ℕ, suc, ◌+◌, ◌-◌, ◌*◌, ◌≤◌, ◌<◌, ◌≡◌, ◌⊎◌, inl, inr, refl, ap, none, ℤ, pos, negsuc, ◌<ℤ◌, List,
  [], ◌∷◌, Bool, false, arith, pos_part, length, count, length-append,
}
use ofm_mail_service.Effect.{ok, err}
use ofm_mail_service.Config.{PullConsumerConfig}
use ofm_mail_service.Nats.Validator.{validate}
use ofm_mail_service.Nats.Validator.Laws.{validate_iff}
use ofm_mail_service.Nats.Runtime.{
  Fetcher, looping, fetching, dispatching, draining, done, Runtime, settled, Step, cancels, stops,
  asks, fetch_fails, fetches, dispatches, gives_up, dispatched, closes, takes, handles, returns,
  returns_closed, Reachable,
}
use ofm_mail_service.Nats.Runtime.Laws.{held, Reachable-IsSound, Reachable-Keeps}

pos_part-positive : (z : ℤ) → pos 0 <ℤ z → 1 ≤ pos_part z
pos_part-positive (pos n) h = ground arith
pos_part-positive (negsuc n) h = ground arith

module _ (cfg : PullConsumerConfig) (valid : validate cfg ≡ none) where
  workers-positive : 1 ≤ pos_part cfg.workers
  workers-positive = pos_part-positive cfg.workers ((validate_iff cfg).0 valid).sizes.workers

  queue_size-positive : 1 ≤ pos_part cfg.queue_size
  queue_size-positive = pos_part-positive cfg.queue_size ((validate_iff cfg).0 valid).sizes.queue

module _ {Msg : Type 0} where
  -- the steps that the messages have before them: a send, a receive, and an answer
  abbrev pub unsettled : Runtime Msg → ℕ
  unsettled s = 3 * length (held s.fetcher) + 2 * length s.jobs + length s.busy

  -- Every message was acknowledged or rejected, as often as it was fetched.
  abbrev pub IsSettled : Runtime Msg → Type 0
  IsSettled s = (p : Msg → Bool) → count p s.fetched ≡ count p s.acked + count p s.naked

  module _ (cfg : PullConsumerConfig) where
    abbrev pub Advances : Runtime Msg → Type 0
    Advances s =
        (s' : Runtime Msg) × Step cfg s s' × (s'.fetched ≡ s.fetched) × (unsettled s' < unsettled s)

    -- Only a fetch brings work.
    Step-unsettled :
        {s s' : Runtime Msg} → Step cfg s s' → (s'.fetched ≡ s.fetched) → unsettled s' ≤ unsettled s
    unfolding settled
    Step-unsettled cancels same = omega arith
    Step-unsettled (stops state f c) same = ground arith
    Step-unsettled (asks state now later pending f c) same = ground arith
    Step-unsettled (fetch_fails state f) same = ground arith
    Step-unsettled {s} (fetches state msgs f) same =
        let e = length-append msgs s.fetched in let e' = ap length same in ground arith
    Step-unsettled {s} (dispatches state msg msgs f l) same =
        let e = length-append s.jobs (msg ∷ []) in ground arith
    Step-unsettled (gives_up state msg msgs f c) same = ground arith
    Step-unsettled (dispatched state f) same = ground arith
    Step-unsettled (closes f g) same = ground arith
    Step-unsettled (takes msg rest others j i) same = ground arith
    Step-unsettled (handles msg (ok _) before after b) same =
        let e = length-append before (msg ∷ after) in
        let e' = length-append before after in ground arith
    Step-unsettled (handles msg (err x) before after b) same =
        let e = length-append before (msg ∷ after) in
        let e' = length-append before after in ground arith
    Step-unsettled (returns others c i) same = omega arith
    Step-unsettled (returns_closed others c j i) same = omega arith

    module _ (valid : validate cfg ≡ none) where
      -- no message in the channel or with a worker
      held-Advances :
          (fetcher : Fetcher Msg) (s : Runtime Msg)
          → s.fetcher ≡ fetcher
          → s.jobs ≡ []
          → s.busy ≡ []
          → (held s.fetcher ≡ []) ⊎ Advances s
      held-Advances (dispatching state (msg ∷ msgs)) s f j b =
          let room : length s.jobs < pos_part cfg.queue_size =
            rw j (queue_size-positive cfg valid) in
          let e = length-append s.jobs (msg ∷ []) in
          inr (_, dispatches state msg msgs f room, refl, ground arith)
      held-Advances (dispatching state []) s f j b = inl (rw f refl)
      held-Advances (looping state) s f j b = inl (rw f refl)
      held-Advances (fetching state) s f j b = inl (rw f refl)
      held-Advances draining s f j b = inl (rw f refl)
      held-Advances done s f j b = inl (rw f refl)

      stands_still :
          {now : ℕ} {s : Runtime Msg}
          → Reachable cfg now s
          → s.cancelled ≡ false
          → s.jobs ≡ []
          → s.busy ≡ []
          → held s.fetcher ≡ []
          → IsSettled s
      stands_still {s = s} r c j b e p =
          let kept = Reachable-Keeps cfg p r in
          elim (Reachable-IsSound cfg r).complete [
            | inl over ↦ cc
            | inr (dropped, _, _) ↦ let k = rw (e, j, b, dropped) at kept in omega arith
          ]

      some_idle :
          {now : ℕ} {s : Runtime Msg}
          → Reachable cfg now s
          → s.cancelled ≡ false
          → s.busy ≡ []
          → s.idle ≡ suc (s.idle - 1)
      some_idle {s = s} r c b =
          let positive = workers-positive cfg valid in
          let sound = Reachable-IsSound cfg r in
          elim sound.complete [
            | inl over ↦ cc
            | inr (_, gone, _) ↦ let w = rw (b, gone) at sound.workers in omega arith
          ]

      goes_on :
          {now : ℕ} {s : Runtime Msg} (jobs busy : List Msg)
          → Reachable cfg now s
          → s.cancelled ≡ false
          → s.jobs ≡ jobs
          → s.busy ≡ busy
          → IsSettled s ⊎ Advances s
      unfolding settled
      goes_on jobs (msg ∷ rest) r c j b = inr (_, handles msg (ok tt) [] rest b, refl, ground arith)
      goes_on {s = s} (msg ∷ rest) [] r c j b =
          inr (_, takes msg rest (s.idle - 1) j (some_idle r c b), refl, ground arith)
      goes_on {s = s} [] [] r c j b = elim (held-Advances s.fetcher s refl j b) [
        | inl e ↦ inl (stands_still r c j b e)
        | inr advances ↦ inr advances
      ]

      -- With a validated configuration and up to a cancellation, in every interleaving: all messages
      -- that were fetched have been acknowledged or rejected, as often as they were fetched, or a
      -- step is possible that brings one of them nearer to that without a fetch; and no step but a
      -- fetch takes them further from it.
      pub Reachable-Settles :
          {now : ℕ} {s : Runtime Msg}
          → Reachable cfg now s
          → s.cancelled ≡ false
          → (IsSettled s ⊎ Advances s)
            × ((s' : Runtime Msg)
                → Step cfg s s'
                → s'.fetched ≡ s.fetched
                → unsettled s' ≤ unsettled s)
      Reachable-Settles {s = s} r c =
          (goes_on s.jobs s.busy r c refl refl, λ s' step same. Step-unsettled step same)
