-- ===== src/Fx/Lifecycle.antt =====
-- fx.Lifecycle: a constructor appends hooks, which the container runs when it starts and stops the
-- process. A local variable of a constructor that its hooks share is a place in the world.
use ofm_mail_service.Prelude.{List, [], ◌∷◌, ◌++◌, Option, none, some}
use ofm_mail_service.Effect.{ok, Eff}

pub record Hook (W : Type 0) : Type 0 where
  pub on_start : Option (Eff W (Unit {0}))
  pub on_stop : Option (Eff W (Unit {0}))

-- A constructor that the container calls: hooks that were appended, beside the world.
abbrev pub Wiring : Type 0 → Type 0 → Type 0
Wiring W A = Eff (List (Hook W) × W) A

module _ {W : Type 0} where
  -- lc.Append
  abbrev pub append : Hook W → Wiring W (Unit {0})
  append hook (hooks, w) = (ok tt, (hooks ++ hook ∷ [], w))

  abbrev pub outside : {A : Type 0} → Eff W A → Wiring W A
  outside m (hooks, w) = let (r, w') = m w in (r, (hooks, w'))

-- a hook with a goroutine that runs up to its cancellation
pub record Background (W Context : Type 0) : Type 0 where
  -- context.WithCancel(context.Background()), and the call of its second result
  pub with_cancel : W → Context × W
  pub cancel : Context → W → W
  -- the variable `cancel`, which is nil at first
  pub assign : Context → W → W
  pub assigned : W → Option Context
  -- the `go` statement
  pub go : Context → W → W

module _ {W Context : Type 0} (b : Background W Context) where
  abbrev pub start_background : Eff W (Unit {0})
  start_background w = let (ctx, w') = b.with_cancel w in (ok tt, b.go ctx (b.assign ctx w'))

  abbrev pub stop_background : Eff W (Unit {0})
  stop_background w = elim (b.assigned w) [ some ctx ↦ (ok tt, b.cancel ctx w) | none ↦ (ok tt, w) ]
