-- ===== src/Fx/Process/Hooks.antt =====
-- What the container's hooks amount to where none of them fails to start.
use ofm_mail_service.Prelude.{◌≡◌, refl, ap, ◌∙◌, List, [], ◌∷◌, ◌++◌, Option, none, some}
use ofm_mail_service.Effect.{ok, Eff}
use ofm_mail_service.Fx.Lifecycle.{Hook}
use ofm_mail_service.Fx.Startup.{Container}

module _ {W : Type 0} where
  abbrev pub run : Option (Eff W (Unit {0})) → W → W
  run (some m) w = (m w).1
  run none w = w

  abbrev pub start_all : List (Hook W) → W → W
  start_all [] w = w
  start_all (hook ∷ hooks) w = start_all hooks (run hook.on_start w)

  abbrev pub stop_all : List (Hook W) → W → W
  stop_all [] w = w
  stop_all (hook ∷ hooks) w = run hook.on_stop (stop_all hooks w)

  abbrev pub Succeeds : Option (Eff W (Unit {0})) → Type 0
  Succeeds none = Unit {0}
  Succeeds (some m) = (w : W) → (m w).0 ≡ ok tt

  abbrev pub AllStart : List (Hook W) → Type 0
  AllStart [] = Unit {0}
  AllStart (hook ∷ hooks) = Succeeds hook.on_start × AllStart hooks

  pub AllStart-++ :
      (hooks : List (Hook W)) (hook : Hook W)
      → AllStart hooks
      → Succeeds hook.on_start
      → AllStart (hooks ++ hook ∷ [])
  AllStart-++ [] hook _ good = (good, tt)
  AllStart-++ (first ∷ hooks) hook (good, rest) last = (good, AllStart-++ hooks hook rest last)

  pub start_all-++ :
      (hooks : List (Hook W)) (hook : Hook W) (w : W)
      → start_all (hooks ++ hook ∷ []) w ≡ run hook.on_start (start_all hooks w)
  start_all-++ [] hook w = refl
  start_all-++ (first ∷ hooks) hook w = start_all-++ hooks hook (run first.on_start w)

  pub stop_all-++ :
      (hooks : List (Hook W)) (hook : Hook W) (w : W)
      → stop_all (hooks ++ hook ∷ []) w ≡ stop_all hooks (run hook.on_stop w)
  stop_all-++ [] hook w = refl
  stop_all-++ (first ∷ hooks) hook w = ap (run first.on_stop) (stop_all-++ hooks hook w)

-- four hooks behind others
module _ {W : Type 0} (hooks : List (Hook W)) (a b c d : Hook W) where
  abbrev pub four_more : List (Hook W)
  four_more = (((hooks ++ a ∷ []) ++ b ∷ []) ++ c ∷ []) ++ d ∷ []

  pub four_more-AllStart :
      AllStart hooks
      → Succeeds a.on_start
      → Succeeds b.on_start
      → Succeeds c.on_start
      → Succeeds d.on_start
      → AllStart four_more
  four_more-AllStart all sa sb sc sd =
      AllStart-++ (((hooks ++ a ∷ []) ++ b ∷ []) ++ c ∷ []) d
        (AllStart-++ ((hooks ++ a ∷ []) ++ b ∷ []) c
          (AllStart-++ (hooks ++ a ∷ []) b (AllStart-++ hooks a all sa) sb) sc)
        sd

  pub run-four_more :
      (w : W)
      → start_all hooks w ≡ w
      → stop_all four_more (start_all four_more w)
        ≡ stop_all hooks (
            run a.on_stop (
              run b.on_stop (
                run c.on_stop (
                  run d.on_stop
                    (run d.on_start (run c.on_start (run b.on_start (run a.on_start w))))))))
  run-four_more w quiet = rw (start_all-++ (((hooks ++ a ∷ []) ++ b ∷ []) ++ c ∷ []) d w) (
      rw (start_all-++ ((hooks ++ a ∷ []) ++ b ∷ []) c w) (
        rw (start_all-++ (hooks ++ a ∷ []) b w) (
          rw (start_all-++ hooks a w) (
            rw quiet (
              stop_all-++ (((hooks ++ a ∷ []) ++ b ∷ []) ++ c ∷ []) d _
              ∙ stop_all-++ ((hooks ++ a ∷ []) ++ b ∷ []) c _
              ∙ stop_all-++ (hooks ++ a ∷ []) b _
              ∙ stop_all-++ hooks a _)))))

module _ {W : Type 0} (container : Container W) where
  start_next :
      (start : Option (Eff W (Unit {0}))) (hook : Hook W) (hooks : List (Hook W)) (w : W)
      → hook.on_start ≡ start
      → Succeeds start
      → container.start (hook ∷ hooks) w ≡ container.start hooks (run start w)
  start_next none hook hooks w same good = container.start_none hook hooks w same
  start_next (some m) hook hooks w same good = container.start_some hook hooks m w same (good w)

  pub start-start_all :
      (hooks : List (Hook W)) (w : W) → AllStart hooks → container.start hooks w ≡ start_all hooks w
  start-start_all [] w good = container.start_nil w
  start-start_all (hook ∷ hooks) w (good, rest) =
      start_next hook.on_start hook hooks w refl good
      ∙ start-start_all hooks (run hook.on_start w) rest

  stop_next :
      (stop : Option (Eff W (Unit {0}))) (hook : Hook W) (hooks : List (Hook W)) (w : W)
      → hook.on_stop ≡ stop
      → container.stop (hook ∷ hooks) w ≡ run stop (container.stop hooks w)
  stop_next none hook hooks w same = container.stop_none hook hooks w same
  stop_next (some m) hook hooks w same = container.stop_some hook hooks m w same

  pub stop-stop_all : (hooks : List (Hook W)) (w : W) → container.stop hooks w ≡ stop_all hooks w
  stop-stop_all [] w = container.stop_nil w
  stop-stop_all (hook ∷ hooks) w =
      stop_next hook.on_stop hook hooks w refl ∙ ap (run hook.on_stop) (stop-stop_all hooks w)
