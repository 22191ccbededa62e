-- ===== src/Nats/Runtime/Shutdown.antt =====
-- The way of a cancelled consumer to its end.
use ofm_mail_service.Prelude.{
  ℕ, zero, suc, ◌≡◌, inl, inr, refl, List, [], ◌∷◌, true, arith, pos_part, length,
}
use ofm_mail_service.Effect.{ok}
use ofm_mail_service.Config.{PullConsumerConfig}
use ofm_mail_service.Nats.Runtime.{
  FetchState, Fetcher, looping, fetching, dispatching, draining, done, Runtime, settled, Step,
  stops, fetch_fails, gives_up, dispatched, closes, handles, returns, Reachable,
}
use ofm_mail_service.Nats.Runtime.Laws.{IsSound, Step-IsSound, Reachable-IsSound}

module _ {Msg : Type 0} (cfg : PullConsumerConfig) where
  -- some steps without a fetch, one after the other
  pub data Steps : Runtime Msg → Runtime Msg → Type 0 where
    none_more : {s : Runtime Msg} → Steps s s
    then :
        {s s' s'' : Runtime Msg}
        → Step cfg s s'
        → s'.fetched ≡ s.fetched
        → Steps s' s''
        → Steps s s''

  -- a run that ends with the channel closed and no message with a worker
  abbrev pub Ends : Runtime Msg → Type 0
  Ends s = (s' : Runtime Msg) × Steps s s' × (s'.jobs_closed ≡ true) × (s'.busy ≡ [])

  Ends-before : {s s' : Runtime Msg} → Step cfg s s' → s'.fetched ≡ s.fetched → Ends s' → Ends s
  Ends-before step same (s'', steps, closed, free) = (s'', then step same steps, closed, free)

  no_more : (msgs : List Msg) → length msgs ≡ 0 → msgs ≡ []
  no_more [] h = refl
  no_more (msg ∷ msgs) h = ground arith

  -- the workers return, and the fetcher closes the channel
  Ends-idle :
      (n : ℕ) (s : Runtime Msg)
      → IsSound cfg s
      → s.cancelled ≡ true
      → s.fetcher ≡ draining
      → s.busy ≡ []
      → s.idle ≡ n
      → Ends s
  Ends-idle zero s h c f b i =
      let gone : s.gone ≡ pos_part cfg.workers = ground (arith, h.workers) in
      Ends-before (closes f gone) refl (_, none_more, refl, b)
  Ends-idle (suc n) s h c f b i =
      let step = returns n c i in
      Ends-before step refl (Ends-idle n _ (Step-IsSound cfg step h) c f b refl)

  -- the workers finish what they handle
  Ends-draining :
      (msgs : List Msg) (s : Runtime Msg)
      → IsSound cfg s
      → s.cancelled ≡ true
      → s.fetcher ≡ draining
      → s.busy ≡ msgs
      → Ends s
  unfolding settled
  Ends-draining [] s h c f b = Ends-idle s.idle s h c f b refl
  Ends-draining (msg ∷ msgs) s h c f b =
      let step : Step cfg s _ = handles msg (ok tt) [] msgs b in
      Ends-before step refl (Ends-draining msgs _ (Step-IsSound cfg step h) c f refl)

  -- the fetcher leaves its loop
  Ends-looping :
      (state : FetchState) (s : Runtime Msg)
      → IsSound cfg s
      → s.cancelled ≡ true
      → s.fetcher ≡ looping state
      → Ends s
  Ends-looping state s h c f =
      let step = stops state f c in
      Ends-before step refl (Ends-draining s.busy _ (Step-IsSound cfg step h) c refl refl)

  Ends-sound :
      (fetcher : Fetcher Msg) (s : Runtime Msg)
      → IsSound cfg s
      → s.cancelled ≡ true
      → s.fetcher ≡ fetcher
      → Ends s
  Ends-sound (looping state) s h c f = Ends-looping state s h c f
  Ends-sound (fetching state) s h c f =
      let step = fetch_fails state f in
      Ends-before step refl (Ends-looping state _ (Step-IsSound cfg step h) c refl)
  Ends-sound (dispatching state []) s h c f =
      let step = dispatched state f in
      Ends-before step refl (Ends-looping state _ (Step-IsSound cfg step h) c refl)
  Ends-sound (dispatching state (msg ∷ msgs)) s h c f =
      let step = gives_up state msg msgs f c in
      Ends-before step refl (Ends-draining s.busy _ (Step-IsSound cfg step h) c refl refl)
  Ends-sound draining s h c f = Ends-draining s.busy s h c f refl
  Ends-sound done s h c f = elim h.shut [
    | inl open_still ↦ cc
    | inr over ↦ (s, none_more, over.0, no_more s.busy (ground (arith, h.workers)))
  ]

  -- From wherever a cancelled consumer stands, it can come to the end: the
  -- fetcher leaves its loop, each worker finishes its message and returns, and the channel is closed.
  pub cancelled-Ends :
      {now : ℕ} {s : Runtime Msg} → Reachable cfg now s → s.cancelled ≡ true → Ends s
  cancelled-Ends {s = s} r c = Ends-sound s.fetcher s (Reachable-IsSound cfg r) c refl
