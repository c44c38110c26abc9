-- ===== src/Mail.antt =====
-- What goes over the wire to a mail server (`deliverSMTP` of internal/httpapi/auth.go): the setting,
-- the transport that it makes, and the steps of a delivery.
use batch_managementof_cloud.Prelude.{ℕ, Bool, String, ℤ}

-- `smtpSetting`
pub record SmtpSetting : Type 0 where
  pub host : String
  pub port : ℤ
  pub username : String
  pub from : String
  pub starttls : Bool

-- `smtpTransport`; its address joins the host and the port, and its TLS configuration names the
-- host and asks for TLS 1.2.
pub record SmtpTransport : Type 0 where
  pub host : String
  pub port : ℤ
  pub implicit_tls : Bool
  pub start_tls : Bool
  pub connect_timeout : ℕ
  pub io_timeout : ℕ

-- One call of `net`, `tls` or `smtp`, each of which may fail.
pub data SmtpStep : Type 0 where
  dial : String → ℤ → ℕ → SmtpStep
  set_deadline : ℕ → SmtpStep
  handshake : String → SmtpStep
  greet : String → SmtpStep
  upgrade : String → SmtpStep
  -- `smtp.PlainAuth` with a user name and a password.
  log_in : String → String → String → SmtpStep
  mail_from : String → SmtpStep
  rcpt_to : String → SmtpStep
  begin_data : SmtpStep
  write : String → SmtpStep
  end_data : SmtpStep
