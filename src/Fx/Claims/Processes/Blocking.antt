-- ===== src/Fx/Claims/Processes/Blocking.antt =====
-- An event whose process has crashed between its calls of Redis.
use ofm_mail_service.Prelude.{
  ◌+◌, ◌≤◌, ◌<◌, ◌≡◌, refl, ap, ◌∙◌, ◌⊎◌, inl, inr, subst, sym, String, List, [], ◌∷◌, ◌++◌, Bool,
  false, none, some, ◌==◌, arith, count, count-append, eq_iff, Bool-cases,
}
use ofm_mail_service.Fx.Claims.Processes.{
  Store, Place, idle, handling, completing, releasing, Move, granted, refused, claim_lost,
  answer_lost, succeeds, fails, completes, completion_lost, releases, release_lost, System, Step,
  moves, crashes, lapses,
}
use ofm_mail_service.Fx.Claims.Processes.Exclusion.{times, Move-weight}

-- A process that will still call Redis for an event.
abbrev pub holds : String → Place → Bool
holds k idle = false
holds k (handling j) = j == k
holds k (completing j) = j == k
holds k (releasing j) = j == k

-- The key is claimed, and no process will complete or release it.
abbrev pub Abandoned : String → System → Type 0
Abandoned k s = (s.store.keys k ≡ some "processing") × (count (holds k) s.places ≡ 0)

-- steps in any order
pub data Run (s : System) : System → Type 0 where
  here : Run s s
  later : {s' s'' : System} → Run s s' → Step s' s'' → Run s s''

module _ (k : String) where
  -- What a move leaves of an event that the process does not hold.
  Kept : Store → Store → Place → Type 0
  Kept st st' p' =
      (st'.keys k ≡ some "processing")
      × (holds k p' ≡ false)
      × (times k st'.handled ≡ times k st.handled)
      × (st'.lapsed ≡ st.lapsed)

  claimed_other :
      (j : String) (st : Store) → st.keys j ≡ none → st.keys k ≡ some "processing" → j == k ≡ false
  claimed_other j st free set = elim (Bool-cases (j == k)) [
    | inl same ↦
        let e : st.keys k ≡ none = subst (λ i. st.keys i ≡ none) ((eq_iff j k).0 same) free in cc
    | inr other ↦ other
  ]

  Move-Kept :
      {st st' : Store} {p p' : Place}
      → Move st p st' p'
      → st.keys k ≡ some "processing"
      → holds k p ≡ false
      → Kept st st' p'
  unfolding Kept
  Move-Kept {st} (granted j e) set none_held =
      let other = claimed_other j st e set in rw other (set, refl, refl, refl)
  Move-Kept (refused j e) set none_held = (set, refl, refl, refl)
  Move-Kept claim_lost set none_held = (set, refl, refl, refl)
  Move-Kept {st} (answer_lost j e) set none_held =
      let other = claimed_other j st e set in rw other (set, refl, refl, refl)
  Move-Kept (succeeds j) set none_held = rw none_held (set, refl, refl, refl)
  Move-Kept (fails j) set none_held = (set, none_held, refl, refl)
  Move-Kept (completes j) set none_held = rw none_held (set, refl, refl, refl)
  Move-Kept (completion_lost j) set none_held = (set, refl, refl, refl)
  Move-Kept (releases j) set none_held = rw none_held (set, refl, refl, refl)
  Move-Kept (release_lost j) set none_held = (set, refl, refl, refl)

  -- After a step the event is as before, or one more of its claims has run out.
  After : System → System → Type 0
  After s s' =
      (Abandoned k s'
        × (times k s'.store.handled ≡ times k s.store.handled)
        × (times k s'.store.lapsed ≡ times k s.store.lapsed))
      ⊎ (times k s.store.lapsed < times k s'.store.lapsed)

  middle :
      (before after : List Place) (p : Place)
      → count (holds k) (before ++ p ∷ after)
        ≡ count (holds k) (before ++ after) + count (holds k) (p ∷ [])
  middle before after p =
      ground (arith, count-append (holds k) before (p ∷ after), count-append (holds k) before after)

  Step-After : {s s' : System} → Step s s' → Abandoned k s → After s s'
  unfolding After Kept
  Step-After {s} (moves before after {p} {p'} at move) (set, held) =
      let was : count (holds k) (before ++ p ∷ after) ≡ 0 = ap (count (holds k)) (sym at) ∙ held in
      let all = middle before after p in
      let own : holds k p ≡ false = ground arith in
      let (still, idle_now, same, lapsed) = Move-Kept move set own in
      inl ((still, ground (arith, middle before after p')), same, ap (times k) lapsed)
  Step-After {s} (crashes before after p at) (set, held) =
      let was : count (holds k) (before ++ p ∷ after) ≡ 0 = ap (count (holds k)) (sym at) ∙ held in
      inl ((set, ground (arith, middle before after p, middle before after idle)), refl, refl)
  Step-After {s} (lapses j e) (set, held) = elim (Bool-cases (j == k)) [
    | inl same ↦ inr (rw same (omega arith))
    | inr other ↦ rw other (inl ((set, held), refl, refl))
  ]

  Step-lapsed : {s s' : System} → Step s s' → times k s.store.lapsed ≤ times k s'.store.lapsed
  Step-lapsed (moves before after at move) = rw ((Move-weight k move).1) (omega arith)
  Step-lapsed (crashes before after p at) = omega arith
  Step-lapsed (lapses j e) = ground arith

  Run-After : {s s' : System} → Run s s' → Abandoned k s → After s s'
  unfolding After
  Run-After here held = inl (held, refl, refl)
  Run-After (later run step) held = elim (Run-After run held) [
    | inl (still, same, lapsed) ↦ elim (Step-After step still) [
      | inl (still', same', lapsed') ↦ inl (still', same' ∙ same, lapsed' ∙ lapsed)
      | inr more ↦ inr (omega (arith, more, lapsed))
    ]
    | inr more ↦ inr (omega (arith, more, Step-lapsed step))
  ]

-- After a crash between the claim of an event and its completion or release, whatever the other
-- processes do and in whichever order, the event is not handled and its key stays set as long as none
-- of its claims runs out.
pub crash_blocks :
    {s s' : System} (k : String)
    → Run s s'
    → Abandoned k s
    → times k s'.store.lapsed ≡ times k s.store.lapsed
    → Abandoned k s' × (times k s'.store.handled ≡ times k s.store.handled)
unfolding After
crash_blocks k run held none_lapsed = elim (Run-After k run held) [
  | inl (still, same, lapsed) ↦ (still, same)
  | inr more ↦ absurd (omega (arith, more, none_lapsed))
]
