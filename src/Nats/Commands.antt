-- ===== src/Nats/Commands.antt =====
-- nats/commands.go, whose messages have the fields and the JSON names of those in kafka/commands.go.
use ofm_mail_service.EventBroker.Commands

abbrev pub SendMailCommand : Type 0 → Type 0
SendMailCommand = Commands.SendMailCommand

abbrev pub SendMailResult : Type 0
SendMailResult = Commands.SendMailResult
