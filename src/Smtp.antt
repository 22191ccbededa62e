-- ===== src/Smtp.antt =====
-- pkg/mailer/smtp/smtp.go: the SMTP transport. The network, TLS and the SMTP client of Go's library
-- are parameters; each call of `send` has one connection, so the calls carry no handles.
pub mod Error
pub mod Config
pub mod Session
pub mod Headers
pub mod Lines
pub mod Reading
