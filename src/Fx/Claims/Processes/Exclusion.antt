-- ===== src/Fx/Claims/Processes/Exclusion.antt =====
-- How often an event is handled by several processes.
use ofm_mail_service.Prelude.{
  ℕ, ◌+◌, ◌≤◌, ◌≡◌, refl, ap, ◌∙◌, inl, inr, subst, String, List, [], ◌∷◌, ◌++◌, Bool, false,
  Option, none, some, ◌==◌, arith, count, count-append, eq_iff, Bool-cases,
}
use ofm_mail_service.Fx.Claims.Processes.{
  Store, Place, idle, handling, releasing, Move, granted, refused, claim_lost, answer_lost,
  succeeds, fails, completes, completion_lost, releases, release_lost, System, Step, moves, crashes,
  lapses, idle_places, Reachable, started, moved,
}

abbrev pub times : String → List String → ℕ
times k keys = count (λ j. j == k) keys

-- A process that was granted the event, up to the return of its handler with nil.
abbrev pub works_on : String → Place → Bool
works_on k (handling j) = j == k
works_on k (releasing j) = j == k
works_on k _ = false

abbrev pub workers : String → System → ℕ
workers k s = count (works_on k) s.places

-- one if the key is not set
abbrev pub unset : Option String → ℕ
unset none = 1
unset (some v) = 0

abbrev pub weight : String → Store → ℕ
weight k st = times k st.handled + unset (st.keys k)

abbrev pub here : String → Place → ℕ
here k p = count (works_on k) (p ∷ [])

module _ (k : String) where
  pub Move-weight :
      {st st' : Store} {p p' : Place}
      → Move st p st' p'
      → (weight k st' + here k p' ≤ weight k st + here k p) × (st'.lapsed ≡ st.lapsed)
  Move-weight {st} (granted j e) = elim (Bool-cases (j == k)) [
    | inl same ↦
        let e' : st.keys k ≡ none = subst (λ i. st.keys i ≡ none) ((eq_iff j k).0 same) e in
        rw same (rw e' (omega arith, refl))
    | inr other ↦ rw other (omega arith, refl)
  ]
  Move-weight (refused j e) = (omega arith, refl)
  Move-weight claim_lost = (omega arith, refl)
  Move-weight (answer_lost j e) = (ground arith, refl)
  Move-weight (succeeds j) = (ground arith, refl)
  Move-weight (fails j) = (omega arith, refl)
  Move-weight (completes j) = (ground arith, refl)
  Move-weight (completion_lost j) = (omega arith, refl)
  Move-weight (releases j) = (ground arith, refl)
  Move-weight (release_lost j) = (omega arith, refl)

  -- a place in the middle
  workers-middle :
      (before after : List Place) (p : Place)
      → count (works_on k) (before ++ p ∷ after) ≡ count (works_on k) (before ++ after) + here k p
  workers-middle before after p =
      ground (
        arith,
        count-append (works_on k) before (p ∷ after),
        count-append (works_on k) before after,
      )

  abbrev Bounded : System → Type 0
  Bounded s = weight k s.store + workers k s ≤ 1 + times k s.store.lapsed

  Step-Bounded : {s s' : System} → Step s s' → Bounded s → Bounded s'
  Step-Bounded {s} (moves before after {p} {p'} at move) bounded =
      let (light, same) = Move-weight move in
      let was : workers k s ≡ count (works_on k) (before ++ after) + here k p =
        ap (count (works_on k)) at ∙ workers-middle before after p in
      rw same (omega (arith, light, was, workers-middle before after p'))
  Step-Bounded {s} (crashes before after p at) bounded =
      let was : workers k s ≡ count (works_on k) (before ++ after) + here k p =
        ap (count (works_on k)) at ∙ workers-middle before after p in
      omega (arith, was, workers-middle before after idle)
  Step-Bounded (lapses j e) bounded = ground arith

  idle-workers : (processes : List (Unit {0})) → count (works_on k) (idle_places processes) ≡ 0
  idle-workers [] = refl
  idle-workers (_ ∷ rest) = idle-workers rest

  Reachable-Bounded : {processes : List (Unit {0})} {s : System} → Reachable processes s → Bounded s
  Reachable-Bounded {processes} started = omega (arith, idle-workers processes)
  Reachable-Bounded (moved r step) = Step-Bounded step (Reachable-Bounded r)

-- In every order of the calls of several processes, with crashes and lost answers, the processes that
-- work on an event together with the times that its handler has returned nil are at most one more
-- than the claims of the event that have run out of their time.
pub handled_within_lapses :
    {processes : List (Unit {0})} {s : System} (k : String)
    → Reachable processes s
    → workers k s + times k s.store.handled ≤ 1 + times k s.store.lapsed
handled_within_lapses k r = omega (arith, Reachable-Bounded k r)
