-- ===== src/Fx/Startup/Tests.antt =====
-- A container that runs hooks as fx documents it.
use ofm_mail_service.Prelude.{◌≡◌, refl, List, [], ◌∷◌, Option, none, some}
use ofm_mail_service.Effect.{Result, ok, err, Eff}
use ofm_mail_service.Fx.Lifecycle.{Hook}
use ofm_mail_service.Fx.Startup.{Container}

abbrev next_start : {W : Type 0} → Result (Unit {0}) × W → (W → W) → W
next_start (ok _, w) rest = rest w
next_start (err e, w) rest = w

abbrev run_start : {W : Type 0} → Option (Eff W (Unit {0})) → (W → W) → W → W
run_start (some run) rest w = next_start (run w) rest
run_start none rest w = rest w

abbrev run_stop : {W : Type 0} → Option (Eff W (Unit {0})) → W → W
run_stop (some run) w = (run w).1
run_stop none w = w

abbrev start_all : {W : Type 0} → List (Hook W) → W → W
start_all [] w = w
start_all (hook ∷ hooks) w = run_start hook.on_start (start_all hooks) w

abbrev stop_all : {W : Type 0} → List (Hook W) → W → W
stop_all [] w = w
stop_all (hook ∷ hooks) w = run_stop hook.on_stop (stop_all hooks w)

pub started :
    {W : Type 0} (x : Result (Unit {0}) × W) (rest : W → W)
    → x.0 ≡ ok tt
    → next_start x rest ≡ rest x.1
started (ok _, w) rest good = refl
started (err e, w) rest good = cc

abbrev pub container : {W : Type 0} → Container W
container = record {
  start = start_all;
  stop = stop_all;
  start_nil = λ w. refl;
  start_none = λ hook hooks w e. rw e refl;
  start_some = λ hook hooks run w e good. rw e (started (run w) (start_all hooks) good);
  stop_nil = λ w. refl;
  stop_none = λ hook hooks w e. rw e refl;
  stop_some = λ hook hooks run w e. rw e refl;
}
