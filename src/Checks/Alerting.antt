-- ===== src/Checks/Alerting.antt =====
-- A sender for warnings, with room for two payloads.
use inference_fabric_autopil.Prelude.{
  ℕ, ◌+◌, ◌≤◌, ◌≡◌, refl, Bool, true, Option, some, List, [], ◌∷◌, is_some, length, if◌then◌else◌,
  arith, ltb, ◌++◌, ◌==◌, ◌||◌, not,
}
use inference_fabric_autopil.Prelude.Int.{pos}
use inference_fabric_autopil.Prelude.Texts.{Text, codes, text_eq}
use inference_fabric_autopil.Prelude.Maps.{lookup, insert}
use inference_fabric_autopil.Float.Sample.{Num}
use inference_fabric_autopil.Telemetry.Snapshot.{severity_warning, rank}
use inference_fabric_autopil.Recommender.Engine.{contains}
use inference_fabric_autopil.Alerting.Payload.{Payload}
use inference_fabric_autopil.Alerting.Url.{Url, redact_url, redact_in, from_delimiter}
use inference_fabric_autopil.Alerting.Url.Redaction.{redact_url-same, redact_in-https}
use inference_fabric_autopil.Alerting.Sender.{Sender, Options, new_sender, notify, too_mild}
use inference_fabric_autopil.Alerting.Sender.View.{Op, notifies, serves, run}
use inference_fabric_autopil.Alerting.Sender.Invariant.{IsValid}
use inference_fabric_autopil.Alerting.Sender.Runs.{run-new_sender-IsValid}
use inference_fabric_autopil.Alerting.Sender.Noted.{wanted}
use inference_fabric_autopil.Alerting.Sender.Repeats.{IsQuiet, notify-open, notify-repeated}
use inference_fabric_autopil.Alerting.Delivery.{
  Exchange, answered, deliver, drain, count_sent, count_failed,
}
use inference_fabric_autopil.Alerting.Delivery.Attempts.{
  may_pass, is_accepted, deliver_lem, drain_lem,
}
use inference_fabric_autopil.Checks.Data.{findings, at_second}

abbrev sender : Sender Num
sender = record {
  min_severity = severity_warning;
  cluster = codes "east";
  timeout = pos 5_000_000_000;
  backoff = pos 500_000_000;
  capacity = 2;
  queue = [];
  sent = 0;
  failed = 0;
  dropped = 0;
  suppressed = 0;
  open_alerts = [];
}

abbrev options : Options
options = record {
  has_logger = true;
  url = codes "https://hooks";
  min_severity = [];
  cluster = codes "east";
  timeout = pos 0;
  queue_size = pos 2;
  backoff = pos 0;
}

abbrev any_url : Text → Bool
any_url raw = true

options-sender : new_sender any_url options ≡ some sender
unfolding new_sender text_eq
options-sender = refl

-- The endpoint fails at first and then accepts.
abbrev flaky : Payload Num → ℕ → Exchange
flaky p attempt = if ltb attempt 2 then answered 503 else answered 204

abbrev ops : List (Op Num)
ops =
    notifies (at_second 60) findings
    ∷ serves flaky
    ∷ notifies (at_second 75) []
    ∷ notifies (at_second 90) []
    ∷ serves flaky
    ∷ []

run-new_sender-IsValid_example : IsValid (run ([], sender) ops).0 (run ([], sender) ops).1
run-new_sender-IsValid_example = run-new_sender-IsValid any_url options sender ops options-sender

undropped : (notify (at_second 60) findings sender).dropped ≡ 0
unfolding notify too_mild rank text_eq lookup insert
undropped = refl

notify-open_example :
    is_some (lookup (codes "b") (notify (at_second 60) findings sender).open_alerts)
    ≡ contains (codes "b") (wanted sender findings)
notify-open_example = notify-open (at_second 60) findings sender (codes "b") tt undropped

notify-repeated_example :
    IsQuiet
      (notify (at_second 60) findings sender)
      (notify (at_second 75) findings (notify (at_second 60) findings sender))
notify-repeated_example = notify-repeated (at_second 60) (at_second 75) findings sender tt undropped

abbrev net : ℕ → Exchange
net attempt = if ltb attempt 2 then answered 503 else answered 204

deliver_lem_example :
    let (posts, after) = deliver net sender in
    (1 ≤ posts)
    × (posts ≤ 2)
    × ((posts == 1 || may_pass (net 1)) ≡ true)
    × (after ≡ (if is_accepted (net posts) then count_sent sender else count_failed sender))
    × ((is_accepted (net posts) || posts == 2 || not (may_pass (net posts))) ≡ true)
deliver_lem_example = deliver_lem net sender

-- A status such as 400 is counted as a failure after one post.
refused_once : deliver (λ attempt. answered 400) sender ≡ (1, count_failed sender)
unfolding deliver
refused_once = refl

abbrev loaded : Sender Num
loaded = notify (at_second 60) findings sender

loaded-length : length loaded.queue ≤ 2
unfolding notify too_mild rank text_eq lookup insert
loaded-length = omega arith

drain_lem_example :
    ((drain flaky 2 loaded).queue ≡ [])
    × ((drain flaky 2 loaded).sent + (drain flaky 2 loaded).failed
        ≡ loaded.sent + loaded.failed + length loaded.queue)
drain_lem_example = drain_lem flaky 2 loaded loaded-length

-- A parser for one webhook with two tokens.
abbrev hook : Text → Option Url
hook raw = some (record { scheme = codes "https"; host = codes "hooks"; path = codes "/" ++ raw })

hooks_alike : redact_url hook (codes "one") ≡ redact_url hook (codes "two")
unfolding text_eq
hooks_alike =
    redact_url-same hook (codes "one") (codes "two")
      (record { scheme = codes "https"; host = codes "hooks"; path = codes "/" ++ codes "one" })
      (record { scheme = codes "https"; host = codes "hooks"; path = codes "/" ++ codes "two" })
      refl refl refl refl refl

redact_in-https_example :
    redact_in
      (codes "Post \"" ++ (codes "https://" ++ (codes "hook/key" ++ codes "\": EOF")))
      (codes "https://hook/(redacted)")
    ≡ codes "Post \"" ++ codes "https://hook/(redacted)" ++ from_delimiter (codes "\": EOF")
redact_in-https_example =
    redact_in-https (codes "Post \"") (codes "hook/key") (codes "\": EOF")
      (codes "https://hook/(redacted)") (refl, (refl, (refl, (refl, (refl, (refl, tt))))))
      (refl, (refl, (refl, (refl, (refl, (refl, (refl, (refl, tt))))))))
