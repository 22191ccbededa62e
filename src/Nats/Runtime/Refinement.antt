-- ===== src/Nats/Runtime/Refinement.antt =====
-- The goroutines of the pull consumer against its contract.
use mathlib.Core.Quot
use ofm_mail_service.Prelude.{
  ℕ, ◌+◌, ◌≡◌, ◌⊎◌, inl, inr, refl, sym, subst, ◌∙◌, ℕ, List, [], ◌∷◌, ◌++◌, Bool, true, false,
  arith, count, count-append,
}
use ofm_mail_service.Effect.{ok, err}
use ofm_mail_service.Config.{PullConsumerConfig}
use ofm_mail_service.Nats.Runtime.{
  Fetcher, fetching, Runtime, settled, start, Step, cancels, stops, asks, fetch_fails, fetches,
  dispatches, gives_up, dispatched, closes, takes, handles, returns, returns_closed, Reachable,
  started, moved,
}
use ofm_mail_service.Nats.Runtime.Laws.{held}
use ofm_mail_service.Nats.Runtime.Contract.{
  Bag, bag, put, Contract, Moves, stopped, requested, unanswered, answered, acknowledged, rejected,
  given_up, Allowed, nothing, still, next,
}

abbrev pub is_fetching : {Msg : Type 0} → Fetcher Msg → Bool
is_fetching (fetching state) = true
is_fetching _ = false

module _ {Msg : Type 0} where
  -- The messages that the goroutines have between them.
  abbrev pub in_hand : Runtime Msg → List Msg
  in_hand s = held s.fetcher ++ (s.jobs ++ s.busy)

  abbrev pub view : Runtime Msg → Contract Msg
  view s = record {
    out = bag (in_hand s);
    asked = is_fetching s.fetcher;
    acked = s.acked;
    naked = s.naked;
    given_up = s.dropped;
    cancelled = s.cancelled;
  }

  -- how often a message is in hand, part by part
  count-in_hand :
      (p : Msg → Bool) (s : Runtime Msg)
      → count p (in_hand s) ≡ count p (held s.fetcher) + count p s.jobs + count p s.busy
  count-in_hand p s =
      omega
        (arith, count-append p (held s.fetcher) (s.jobs ++ s.busy), count-append p s.jobs s.busy)

  -- the same bag, from counts of the parts
  in_hand-bag :
      (s s' : Runtime Msg) (msgs : List Msg)
      → ((p : Msg → Bool)
          → count p (held s'.fetcher) + count p s'.jobs + count p s'.busy
            ≡ count p msgs + count p (held s.fetcher) + count p s.jobs + count p s.busy)
      → bag (in_hand s') ≡ put msgs (bag (in_hand s))
  unfolding put
  in_hand-bag s s' msgs h = Quot.sound (λ p.
      omega (arith, h p, count-in_hand p s, count-in_hand p s', count-append p msgs (in_hand s)))

  put-nil : (xs : List Msg) → put [] (bag xs) ≡ bag xs
  unfolding put
  put-nil xs = refl

  -- the same messages in hand
  same_bag :
      (s s' : Runtime Msg)
      → ((p : Msg → Bool)
          → count p (held s'.fetcher) + count p s'.jobs + count p s'.busy
            ≡ count p (held s.fetcher) + count p s.jobs + count p s.busy)
      → bag (in_hand s') ≡ bag (in_hand s)
  same_bag s s' h = in_hand-bag s s' [] (λ p. omega (arith, h p)) ∙ put-nil (in_hand s)

  -- a step within the goroutines
  unseen :
      (s s' : Runtime Msg)
      → is_fetching s'.fetcher ≡ is_fetching s.fetcher
      → ((p : Msg → Bool)
          → count p (held s'.fetcher) + count p s'.jobs + count p s'.busy
            ≡ count p (held s.fetcher) + count p s.jobs + count p s.busy)
      → record (view s) { out = bag (in_hand s'); asked = is_fetching s'.fetcher } ≡ view s
  unseen s s' q h = λ i. record (view s) { out = same_bag s s' h i; asked = q i }

  -- a message taken out of the middle
  middle :
      (p : Msg → Bool) (msg : Msg) (before after : List Msg)
      → count p (before ++ (msg ∷ after)) ≡ count p (msg ∷ []) + count p (before ++ after)
  middle p msg before after =
      ground (arith, count-append p before (msg ∷ after), count-append p before after)

  -- a move, where what is out, and whether more were asked for, is known by equations
  moves_to :
      (a b : Contract Msg) (out : Bag Msg) (asked : Bool)
      → out ≡ b.out
      → asked ≡ b.asked
      → Moves a b
      → Moves a (record b { out = out; asked = asked })
  moves_to a b out asked p q move =
      subst (Moves a) (λ i. record b { out = sym p i; asked = sym q i }) move

  module _ (cfg : PullConsumerConfig) where
    -- Each step of the goroutines is a move of the contract, or none that a client sees.
    pub Step_refines :
        {s s' : Runtime Msg} → Step cfg s s' → (view s' ≡ view s) ⊎ Moves (view s) (view s')
    unfolding settled
    Step_refines cancels = inr stopped
    Step_refines {s} {s'} (stops state f c) = inl (unseen s s' (rw f refl) (λ p. rw f refl))
    Step_refines {s} {s'} (asks state now later pending f o) = inr (
        moves_to (view s) (record (view s) { asked = true }) _ _ (same_bag s s' (λ p. rw f refl))
          refl (requested o (rw f refl)))
    Step_refines {s} {s'} (fetch_fails state f) = inr (
        moves_to (view s) (record (view s) { asked = false }) _ _ (same_bag s s' (λ p. rw f refl))
          refl (unanswered (rw f refl)))
    Step_refines {s} {s'} (fetches state msgs f) = inr (
        moves_to (view s) (record (view s) { asked = false; out = put msgs (bag (in_hand s)) }) _ _
          (in_hand-bag s s' msgs (λ p. rw f (omega arith))) refl (answered msgs (rw f refl)))
    Step_refines {s} {s'} (dispatches state msg msgs f l) =
        inl (unseen s s' (rw f refl) (λ p. rw f (ground (arith, count-append p s.jobs (msg ∷ [])))))
    Step_refines {s} {s'} (gives_up state msg msgs f c) = inr (
        moves_to (view s)
          (record (view s) { out = bag (in_hand s'); given_up = (msg ∷ msgs) ++ s.dropped }) _ _
          refl (rw f refl)
          (given_up (msg ∷ msgs) _ c (in_hand-bag s' s (msg ∷ msgs) (λ p. rw f (omega arith)))))
    Step_refines {s} {s'} (dispatched state f) = inl (unseen s s' (rw f refl) (λ p. rw f refl))
    Step_refines {s} {s'} (closes f g) = inl (unseen s s' (rw f refl) (λ p. rw f refl))
    Step_refines {s} {s'} (takes msg rest others j i) =
        inl (unseen s s' refl (λ p. rw j (ground arith)))
    Step_refines {s} {s'} (handles msg (ok _) before after b) = inr (
        acknowledged msg _
          (in_hand-bag s' s (msg ∷ []) (λ p. rw b (omega (arith, middle p msg before after)))))
    Step_refines {s} {s'} (handles msg (err x) before after b) = inr (
        rejected msg _
          (in_hand-bag s' s (msg ∷ []) (λ p. rw b (omega (arith, middle p msg before after)))))
    Step_refines (returns others c i) = inl refl
    Step_refines (returns_closed others c j i) = inl refl

    -- What a client has seen before.
    abbrev pub past : {now : ℕ} {s : Runtime Msg} → Reachable cfg now s → List (Contract Msg)
    past started = []
    past (moved {s = s} r step) = view s ∷ past r

    -- Whatever the goroutines do, in any order, what a client has seen from the start is allowed by
    -- the contract, state by state: messages come out only as the answer to a request, of which a
    -- cancelled consumer makes no more; a message that is out comes back once, acknowledged or
    -- rejected, or is given up by a consumer that was cancelled; and no message comes or goes
    -- otherwise.
    pub Reachable-refines :
        {now : ℕ} {s : Runtime Msg} (r : Reachable cfg now s) → Allowed (view s) (past r)
    unfolding start
    Reachable-refines started = nothing
    Reachable-refines (moved {s = s} r step) = elim (Step_refines step) [
      | inl same ↦ subst (λ a. Allowed a (view s ∷ past r)) (sym same) (still (Reachable-refines r))
      | inr move ↦ next (Reachable-refines r) move
    ]
