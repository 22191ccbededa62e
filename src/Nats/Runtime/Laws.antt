-- ===== src/Nats/Runtime/Laws.antt =====
-- What holds of a pull consumer in every interleaving of its goroutines.
use ofm_mail_service.Prelude.{
  ℕ, ◌+◌, ◌≤◌, ◌≡◌, ◌⊎◌, List, [], ◌∷◌, Bool, true, false, arith, pos_part, length, count,
  count-append, length-append,
}
use ofm_mail_service.Effect.{ok, err}
use ofm_mail_service.Config.{PullConsumerConfig}
use ofm_mail_service.Nats.Runtime.{
  Fetcher, looping, fetching, dispatching, done, Runtime, settled, start, Step, cancels, stops,
  asks, fetch_fails, fetches, dispatches, gives_up, dispatched, closes, takes, handles, returns,
  returns_closed, Reachable, started, moved,
}

-- the messages of a batch that are not sent yet
abbrev pub held : {Msg : Type 0} → Fetcher Msg → List Msg
held (dispatching state msgs) = msgs
held _ = []

abbrev pub is_running : {Msg : Type 0} → Fetcher Msg → Bool
is_running (looping state) = true
is_running (fetching state) = true
is_running (dispatching state msgs) = true
is_running _ = false

abbrev pub is_done : {Msg : Type 0} → Fetcher Msg → Bool
is_done done = true
is_done _ = false

module _ {Msg : Type 0} where
  module _ (cfg : PullConsumerConfig) where
    abbrev pub Keeps : (Msg → Bool) → Runtime Msg → Type 0
    Keeps p s =
        count p s.fetched
        ≡ count p (held s.fetcher)
          + count p s.jobs
          + count p s.busy
          + count p s.acked
          + count p s.naked
          + count p s.dropped

    Step-Keeps : (p : Msg → Bool) {s s' : Runtime Msg} → Step cfg s s' → Keeps p s → Keeps p s'
    unfolding settled
    Step-Keeps p cancels h = h
    Step-Keeps p (stops state f c) h = rw f at h
    Step-Keeps p (asks state now later pending f c) h = rw f at h
    Step-Keeps p (fetch_fails state f) h = rw f at h
    Step-Keeps p {s} (fetches state msgs f) h =
        let e = count-append p msgs s.fetched in let h' = rw f at h in omega arith
    Step-Keeps p {s} (dispatches state msg msgs f l) h =
        let e = count-append p s.jobs (msg ∷ []) in let h' = rw f at h in ground arith
    Step-Keeps p {s} (gives_up state msg msgs f c) h =
        let e = count-append p msgs s.dropped in let h' = rw f at h in ground arith
    Step-Keeps p (dispatched state f) h = rw f at h
    Step-Keeps p (closes f g) h = rw f at h
    Step-Keeps p (takes msg rest others j i) h = let h' = rw j at h in ground arith
    Step-Keeps p {s} (handles msg (ok _) before after b) h =
        let e = count-append p before (msg ∷ after) in
        let e' = count-append p before after in let h' = rw b at h in ground arith
    Step-Keeps p {s} (handles msg (err x) before after b) h =
        let e = count-append p before (msg ∷ after) in
        let e' = count-append p before after in let h' = rw b at h in ground arith
    Step-Keeps p (returns others c i) h = h
    Step-Keeps p (returns_closed others c j i) h = h

    -- No message is lost or settled twice: whatever the goroutines do, each message that was fetched
    -- stands, as often as it was fetched, before its send, in the channel, with a worker, among those
    -- acknowledged or rejected, or among those given up.
    pub Reachable-Keeps :
        (p : Msg → Bool) {now : ℕ} {s : Runtime Msg} → Reachable cfg now s → Keeps p s
    unfolding start
    Reachable-Keeps p started = omega arith
    Reachable-Keeps p (moved r step) = Step-Keeps p step (Reachable-Keeps p r)

    -- What the channel, the workers and the fetcher are to each other.
    pub record IsSound (s : Runtime Msg) : Type 0 where
      pub bounded : length s.jobs ≤ pos_part cfg.queue_size
      pub workers : s.idle + length s.busy + s.gone ≡ pos_part cfg.workers
      pub shut :
          ((s.jobs_closed ≡ false) × (is_done s.fetcher ≡ false))
          ⊎ ((s.jobs_closed ≡ true) × (s.fetcher ≡ done) × (s.gone ≡ pos_part cfg.workers))
      pub complete :
          (s.cancelled ≡ true) ⊎ ((s.dropped ≡ []) × (s.gone ≡ 0) × (is_running s.fetcher ≡ true))

    pub Step-IsSound : {s s' : Runtime Msg} → Step cfg s s' → IsSound s → IsSound s'
    unfolding settled
    Step-IsSound cancels h = ground arith
    Step-IsSound (stops state f c) h = ground arith
    Step-IsSound (asks state now later pending f c) h = ground arith
    Step-IsSound (fetch_fails state f) h = ground arith
    Step-IsSound (fetches state msgs f) h = ground arith
    Step-IsSound {s} (dispatches state msg msgs f l) h =
        let e = length-append s.jobs (msg ∷ []) in ground arith
    Step-IsSound (gives_up state msg msgs f c) h = ground arith
    Step-IsSound (dispatched state f) h = ground arith
    Step-IsSound (closes f g) h = ground arith
    Step-IsSound (takes msg rest others j i) h = ground arith
    Step-IsSound (handles msg (ok _) before after b) h =
        let e = length-append before (msg ∷ after) in
        let e' = length-append before after in ground arith
    Step-IsSound (handles msg (err x) before after b) h =
        let e = length-append before (msg ∷ after) in
        let e' = length-append before after in ground arith
    Step-IsSound (returns others c i) h = ground arith
    Step-IsSound (returns_closed others c j i) h = ground arith

    -- Whatever the goroutines do: the channel holds no more than the queue size; each worker waits,
    -- handles a message, or has returned; the channel is closed only behind the return of the fetcher
    -- and of all workers, so that nobody sends to it or receives from it then; and up to a
    -- cancellation no message is given up, no worker returns, and the fetcher goes on.
    pub Reachable-IsSound : {now : ℕ} {s : Runtime Msg} → Reachable cfg now s → IsSound s
    unfolding start
    Reachable-IsSound started = ground arith
    Reachable-IsSound (moved r step) = Step-IsSound step (Reachable-IsSound r)
