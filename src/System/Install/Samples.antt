-- ===== src/System/Install/Samples.antt =====
-- A reader of the payloads of the agent, which does on them what encoding/json documents.
use nodefoundry.Base.{
  until, until-append, ◌≡◌, refl, ◌∙◌, Option, none, some, [], ◌∷◌, ◌++◌, drop, IsFree, Text, codes,
}
use nodefoundry.Mqtt.{StatusMessage}
use nodefoundry.Agent.Client.{status_payload, format_int}
use nodefoundry.System.Install.{IsPlain, ReadsReports}

IsPlain-IsFree : (t : Text) → IsPlain t → IsFree b'"' t
IsPlain-IsFree [] h = tt
IsPlain-IsFree (c ∷ t) ((low, high, quote, slash), h) = (quote, IsPlain-IsFree t h)

abbrev read_hostname : Text → Text → Text → Option StatusMessage
read_hostname status ip p = elim (until b'"' (drop 13 p)) [
  | none ↦ none
  | some (hostname, rest) ↦ some (record { status = status; ip = ip; hostname = hostname })
]

abbrev read_ip : Text → Text → Option StatusMessage
read_ip status p = elim (until b'"' (drop 7 p)) [
  | none ↦ none
  | some (ip, rest) ↦ read_hostname status ip rest
]

abbrev pub read_report : Text → Option StatusMessage
read_report p = elim (until b'"' (drop 11 p)) [
  | none ↦ none
  | some (status, rest) ↦ read_ip status rest
]

hostname_read :
    (status ip hostname p rest : Text)
    → until b'"' (drop 13 p) ≡ some (hostname, rest)
    → read_hostname status ip p ≡ some (record { status = status; ip = ip; hostname = hostname })
hostname_read status ip hostname p rest e = rw (e, read_hostname) refl

ip_read :
    (status ip p rest : Text)
    → until b'"' (drop 7 p) ≡ some (ip, rest)
    → read_ip status p ≡ read_hostname status ip rest
ip_read status ip p rest e = rw (e, read_ip) refl

status_read :
    (status p rest : Text)
    → until b'"' (drop 11 p) ≡ some (status, rest)
    → read_report p ≡ read_ip status rest
status_read status p rest e = rw (e, read_report) refl

pub read_report-ReadsReports : ReadsReports read_report
unfolding status_payload
read_report-ReadsReports status r plain (ip, hostname, timestamp) =
    let after_hostname : Text =
      codes ",\"uptime\":"
      ++ (format_int r.uptime ++ (codes ",\"timestamp\":\"" ++ (r.timestamp ++ codes "\"}"))) in
    let after_ip : Text = codes ",\"hostname\":\"" ++ (r.hostname ++ b'"' ∷ after_hostname) in
    let after_status : Text = codes ",\"ip\":\"" ++ (r.ip ++ b'"' ∷ after_ip) in
    status_read status (status_payload status r) after_status
      (until-append b'"' status after_status (IsPlain-IsFree status plain))
    ∙ ip_read status r.ip after_status after_ip
        (until-append b'"' r.ip after_ip (IsPlain-IsFree r.ip ip))
    ∙ hostname_read status r.ip r.hostname after_ip after_hostname
        (until-append b'"' r.hostname after_hostname (IsPlain-IsFree r.hostname hostname))
