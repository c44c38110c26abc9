-- ===== src/Httpapi/Mail.antt =====
-- The mails of internal/httpapi/auth.go: `validEmail`, `smtpTransportFor`, `sendEmail` and
-- `deliverSMTP`.
pub mod Still
use Prim.Native.String.{len}
use batch_managementof_cloud.Mail.{
  SmtpSetting, SmtpStep, SmtpTransport, begin_data, dial, end_data, greet, handshake, log_in,
  mail_from, rcpt_to, set_deadline, upgrade, write,
}
use batch_managementof_cloud.Prelude.{
  ℕ, Bool, Option, String, coalesce, false, if◌then◌else◌, ltb, none, not, pos, some, str_eq,
  trim_space, ◌&&◌, ◌*◌, ◌+◌, ◌==ℤ◌, ◌||◌, true, append_text, cut_at, has_char,
}
use batch_managementof_cloud.Model.Failure.{Error, decode_failure, err, ok, wrap, canceled, Result}
use batch_managementof_cloud.Model.Records.{second}
use batch_managementof_cloud.Security.Passwords.{random_token}
use batch_managementof_cloud.Store.{Setting, SettingValue, of_smtp, Purpose}
use batch_managementof_cloud.Store.Jobs.{start}
use batch_managementof_cloud.Store.Settings.{get_setting}
use batch_managementof_cloud.Store.Tokens.{replace_one_time_token}
use batch_managementof_cloud.Effects.{
  Program, attempt, decrypt, pure, query, raise, read_clock, smtp_step, with_env, ◌>>=◌, ◌>>◌,
  statement, encrypt,
}

-- The tests of `validEmail` on the address that was read and on the two sides of its first `@`.
abbrev pub is_address : String → Option String → Bool
is_address email none = false
is_address email (some address) = str_eq address email

abbrev pub has_domain : Option (String × String) → Bool
has_domain none = false
has_domain (some (local, domain)) = not (str_eq local "") && has_char 46 domain

-- `validEmail`, with `mail.ParseAddress` as a parameter.
unfoldable pub valid_email : (String → Option String) → String → Bool
valid_email parse_address raw =
    let email = trim_space raw in
    if str_eq email "" || ltb 254 (len email) || has_char 13 email || has_char 10 email
    then false
    else is_address email (parse_address email) && has_domain (cut_at 64 email)

abbrev pub smtp_connect_timeout : ℕ
smtp_connect_timeout = 10 * second

abbrev pub smtp_io_timeout : ℕ
smtp_io_timeout = 15 * second

abbrev pub smtp_operation_timeout : ℕ
smtp_operation_timeout = 45 * second

-- `smtpTransportFor`
unfoldable pub smtp_transport_for : SmtpSetting → SmtpTransport
smtp_transport_for setting =
    let implicit = setting.port ==ℤ pos 465 in
    record {
      host = setting.host;
      port = setting.port;
      implicit_tls = implicit;
      start_tls = setting.starttls && not implicit;
      connect_timeout = smtp_connect_timeout;
      io_timeout = smtp_io_timeout;
    }

-- A step whose error names its stage. When the context is over, `stageError` says that instead.
unfoldable pub staged : String → SmtpStep → Program (Unit {0})
staged stage s env w =
    let (r, v) = smtp_step s env w in
    (
      elim r [
        | ok done ↦ ok tt
        | err e ↦ err (wrap stage (if env.is_canceled v.tick then canceled else e))
      ],
      v,
    )

-- An error that `fmt.Errorf` wraps.
abbrev pub wrapped : {A : Type 0} → String → Result A → Program A
wrapped stage (ok a) = pure a
wrapped stage (err e) = raise (wrap stage e)

-- `setDeadline`: the end of the step's time, but no later than the end of the operation's.
unfoldable pub limit_step : SmtpTransport → ℕ → String → Program (Unit {0})
limit_step transport context_deadline stage = do
  now ← read_clock
  let deadline = now + transport.io_timeout
  attempt (
        smtp_step
          (set_deadline (if ltb context_deadline deadline then context_deadline else deadline)))
      >>= wrapped stage

abbrev pub when : Bool → Program (Unit {0}) → Program (Unit {0})
when test m = if test then m else pure tt

abbrev pub close_on_error : Result (Unit {0}) → Program (Unit {0})
close_on_error (ok _) = pure tt
close_on_error (err e) = attempt (smtp_step end_data) >> raise e

-- A message that was begun is closed when its deadline cannot be set.
unfoldable pub or_close : Program (Unit {0}) → Program (Unit {0})
or_close m = attempt m >>= close_on_error

-- The part of `deliverSMTP` before the sender is named.
unfoldable pub open_smtp : ℕ → SmtpTransport → SmtpSetting → String → Program (Unit {0})
open_smtp deadline transport setting password = do
  dialled ←
      attempt (smtp_step (dial transport.host transport.port transport.connect_timeout))
      >>= wrapped "SMTP 连接失败"
  secured ← when transport.implicit_tls do
    limited ← limit_step transport deadline "SMTP TLS 握手超时设置失败"
    staged "SMTP TLS 握手失败" (handshake setting.host)
  limited ← limit_step transport deadline "SMTP 服务问候超时设置失败"
  greeted ← staged "SMTP 服务问候失败" (greet transport.host)
  upgraded ← when transport.start_tls do
    limited ← limit_step transport deadline "SMTP STARTTLS 升级超时设置失败"
    staged "SMTP STARTTLS 升级失败" (upgrade setting.host)
  when (not (str_eq setting.username "")) do
    limited ← limit_step transport deadline "SMTP 认证超时设置失败"
    staged "SMTP 认证失败" (log_in setting.username password transport.host)

-- The part of `deliverSMTP` that hands over the message.
unfoldable pub hand_over : ℕ → SmtpTransport → SmtpSetting → String → String → Program (Unit {0})
hand_over deadline transport setting to message = do
  limited ← limit_step transport deadline "SMTP 发件人校验超时设置失败"
  sender ← staged "SMTP 发件人校验失败" (mail_from setting.from)
  limited ← limit_step transport deadline "SMTP 收件人校验超时设置失败"
  recipient ← staged "SMTP 收件人校验失败" (rcpt_to to)
  limited ← limit_step transport deadline "SMTP DATA 命令超时设置失败"
  begun ← staged "SMTP DATA 命令失败" begin_data
  limited ← or_close (limit_step transport deadline "SMTP 正文写入超时设置失败")
  written ← staged "SMTP 正文写入失败" (write message)
  limited ← or_close (limit_step transport deadline "SMTP 投递确认超时设置失败")
  staged "SMTP 投递确认失败" end_data

-- `deliverSMTP`
unfoldable pub deliver_smtp :
    ℕ → SmtpTransport → SmtpSetting → String → String → String → Program (Unit {0})
deliver_smtp deadline transport setting password to message =
    open_smtp deadline transport setting password >> hand_over deadline transport setting to message

-- `json.Unmarshal` of the setting `smtp`.
abbrev pub smtp_setting : SettingValue → Option SmtpSetting
smtp_setting (of_smtp host port username from starttls) =
    some
      (record { host = host; port = port; username = username; from = from; starttls = starttls })
smtp_setting _ = none

-- The password of the setting, when it has one.
abbrev pub smtp_password : Option String → Option String → Program String
smtp_password none iv = pure ""
smtp_password (some ciphertext) iv =
    attempt (decrypt ciphertext (coalesce iv "") "smtp_password") >>= wrapped "解密 SMTP 密码失败"

-- The headers and the body of a message.
abbrev pub message_of : String → String → String → String → String
message_of from to subject body = append_text "From: " (
    append_text from (
      append_text "\r\nTo: " (
        append_text to (
          append_text "\r\nSubject: " (
            append_text subject (
              append_text "\r\nMIME-Version: 1.0\r\nContent-Type: text/plain; charset=UTF-8\r\n\r\n"
                body))))))

-- `sendEmail` with a setting that was read.
unfoldable pub send_with : Setting → SmtpSetting → String → String → String → Program (Unit {0})
send_with s setting to subject body =
    if str_eq setting.host "" || str_eq setting.from ""
    then raise (Error.text "SMTP is not configured")
    else do
      password ← smtp_password s.secret_ciphertext s.secret_nonce
      start ← read_clock
      deliver_smtp (start + smtp_operation_timeout) (smtp_transport_for setting) setting password to
          (message_of setting.from to subject body)

abbrev pub send_decoded :
    Setting → String → String → String → Option SmtpSetting → Program (Unit {0})
send_decoded s to subject body none = raise (wrap "解析 SMTP 配置失败" decode_failure)
send_decoded s to subject body (some setting) = send_with s setting to subject body

abbrev pub send_found : String → String → String → Result Setting → Program (Unit {0})
send_found to subject body (err e) = raise (wrap "读取 SMTP 配置失败" e)
send_found to subject body (ok s) = send_decoded s to subject body (smtp_setting s.value)

-- `sendEmail`
unfoldable pub send_email : String → String → String → Program (Unit {0})
send_email to subject body = with_env λ env.
    if not (valid_email env.parse_address to)
    then raise (Error.text "invalid recipient email")
    else attempt (query (λ now db. get_setting db "smtp")) >>= send_found to subject body

-- A new one-time token of a user, which replaces the one he has for the purpose (`register`,
-- `resendVerification` and `forgotPassword`).
unfoldable pub issue_token : (String → String) → ℕ → Purpose → ℕ → Program String
issue_token hash_token owner purpose ttl = do
  token ← random_token 32
  done ←
      statement
        λ now ids db. replace_one_time_token db now (ids 0) owner purpose (hash_token token) ttl
  pure token

-- `smtpSecretUpdate`: the ciphertext and the nonce, and whether to write them.
unfoldable pub smtp_secret_update : String → Bool → Program (Option (String × String) × Bool)
smtp_secret_update password clear =
    if str_eq password ""
    then pure (none, clear)
    else do secret ← encrypt password "smtp_password"; pure (some secret, true)
