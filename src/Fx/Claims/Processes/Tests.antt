-- ===== src/Fx/Claims/Processes/Tests.antt =====
-- The claim of a slow process runs out, and a second process handles the event as well.
use ofm_mail_service.Prelude.{◌+◌, ◌≤◌, ◌≡◌, refl, List, [], ◌∷◌, none, some, ◌==◌, if◌then◌else◌}
use ofm_mail_service.Errors.{foreign, deadline_exceeded}
use ofm_mail_service.Effect.{ok}
use ofm_mail_service.Fx.Claims.Processes.{
  Store, idle, handling, completing, granted, refused, succeeds, fails, releases, System, moves,
  lapses, Reachable, started, moved,
}
use ofm_mail_service.Fx.Claims.Processes.Exclusion.{times, workers, handled_within_lapses}
use ofm_mail_service.Fx.Claims.Processes.Blocking.{Run, here, later, Abandoned, crash_blocks}
use ofm_mail_service.Fx.Claims.Processes.Delivery.{served, lost, Moves, deliver, deliver_moves}

abbrev three : List (Unit {0})
three = tt ∷ tt ∷ tt ∷ []

abbrev Reach : List (Unit {0}) → Type 0
Reach processes = (s : System) × Reachable processes s

abbrev slow : Reach three
slow = (
  _,
  moved
      (moved (moved started (moves [] (idle ∷ idle ∷ []) refl (granted "e1" refl)))
        (lapses "e1" refl))
      (moves (handling "e1" ∷ []) (idle ∷ []) refl (granted "e1" refl)),
)

-- Both handlers return nil.
abbrev both : Reach three
both = (
  _,
  moved (moved slow.1 (moves [] (handling "e1" ∷ idle ∷ []) refl (succeeds "e1")))
      (moves (completing "e1" ∷ []) (idle ∷ []) refl (succeeds "e1")),
)

handled_within_lapses_example :
    workers "e1" both.0 + times "e1" both.0.store.handled ≤ 1 + times "e1" both.0.store.lapsed
handled_within_lapses_example = handled_within_lapses "e1" both.1

-- The slow process fails, and its release clears the key of the second: a third one is let in while
-- the second still handles the event.
abbrev late_release : Reach three
late_release = (
  _,
  moved
      (moved (moved slow.1 (moves [] (handling "e1" ∷ idle ∷ []) refl (fails "e1")))
        (moves [] (handling "e1" ∷ idle ∷ []) refl (releases "e1")))
      (moves (idle ∷ handling "e1" ∷ []) [] refl (granted "e1" refl)),
)

let_in : late_release.0.places ≡ idle ∷ handling "e1" ∷ handling "e1" ∷ []
let_in = refl

abbrev empty : Store
empty = record { keys = λ _. none; handled = []; lapsed = [] }

deliver_moves_example :
    Moves empty idle
      (deliver
        (λ topic bytes. bytes)
        served
        (lost (foreign deadline_exceeded "i/o timeout"))
        served
        (ok tt)
        "mail.send"
        "e1"
        empty).1
      idle
deliver_moves_example =
    deliver_moves (λ topic bytes. bytes) served (lost (foreign deadline_exceeded "i/o timeout"))
      served (ok tt) "mail.send" "e1" empty

-- The first process crashes with its claim; the delivery to the second is refused.
abbrev abandoned : System
abandoned = record {
  store = record {
    keys = λ j. if "e1" == j then some "processing" else none;
    handled = [];
    lapsed = [];
  };
  places = idle ∷ idle ∷ [];
}

refusal : Run abandoned abandoned
refusal = later here (moves (idle ∷ []) [] refl (refused "e1" (λ n. cc)))

crash_blocks_example :
    Abandoned "e1" abandoned
    × (times "e1" abandoned.store.handled ≡ times "e1" abandoned.store.handled)
crash_blocks_example = crash_blocks "e1" refusal (refl, refl) refl
