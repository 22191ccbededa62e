-- ===== src/Fx/Presentation.antt =====
-- internal/fx/presentation.go `InvokeSubscribeMailCommands`: the hooks of the background consumer.
-- The body of its goroutine is in Fx/Reconnect.
use ofm_mail_service.Prelude.{some}
use ofm_mail_service.Fx.Lifecycle.{Wiring, append, Background, start_background, stop_background}

unfoldable pub invoke_subscribe_mail_commands :
    {W Context : Type 0} → Background W Context → Wiring W (Unit {0})
invoke_subscribe_mail_commands b =
    append (record { on_start = some (start_background b); on_stop = some (stop_background b) })
