-- ===== src/Lib.antt =====
-- cpa-monitor watches one host and its CLIProxyAPI service. Each cycle it collects facts, turns
-- them into batches of conditions, one per scope, and reconciles each batch with the alerts that
-- are active: new conditions are announced and stored, and in a complete batch the ones that are
-- gone are announced as recovered and taken out. After a healthy cycle a status report is sent on a
-- schedule.
--
-- Base holds what the parts share: Boolean tests, lists, texts as lists of code points, maps as
-- lists with a key, sorting by key, int64 integers and decimal numerals. The decimal numeral of n
-- runs on the fuel n + 1, which is enough since each digit divides by ten.
--
-- State models internal/state/file.go: State has the map of records and its operations, State.View
-- what they do to a lookup, State.Persist the load and the save through a JSON codec, which is a
-- parameter, and State.Atomic the system calls of the atomic write, each of which may fail.
--
-- Collector has the data of internal/collector/types.go, and its children the parsers on the lines
-- that a scanner gives: Memory for memory.go, Mounts for mountinfo.go, Tables for tcp.go; Disks has
-- disk.go, Proc the collector of proc.go, and Calls its statfs calls, which callers share, with
-- Shared for the steps of callers and goroutines. Bounds, Escapes, Batches, Usage and Shared have
-- the proofs.
--
-- Cliproxy has the data of internal/cliproxy/types.go and the account id of a token, with the JSON
-- and base64 decoders as parameters, and the account index; Cliproxy.Client what New of client.go
-- accepts, and Cliproxy.Version the comparison of releases of version.go, with the proofs in
-- Releases; Cliproxy.Quota the quota of quota.go, from the answer of the management interface on,
-- with the proofs in Windows.
--
-- Config models internal/config/config.go: the types and Default, the environment and the
-- normalisation, Config.Url the base URL, hosts and mailboxes, Config.Check the validation and the
-- service port. What net/url, net and net/mail make of a text is a value of Nets.
--
-- Mailer models internal/mailer: New of smtp.go, in Mailer.Language and Mailer.Html the words and
-- the HTML of a mail, in Mailer.Message the alert and recovery mails of message.go, in Mailer.Batch
-- SendBatch, and in Mailer.Exchange the steps of the SMTP session, which the server may refuse one
-- by one. Delivery, Secured and Lines have the proofs, and Reports the validation of a
-- healthy-status mail. A replaced word of a text is passed by a count of its characters.
--
-- Dingtalk models internal/dingtalk: New of client.go, and of message.go the escaping and
-- truncation in Dingtalk.Markdown, the labels and the details of an event in Labels, its sections
-- in Events, the alert message in Alert, the accounts in Usage and Quota, and the healthy-status
-- message in Health. Dingtalk.Send has the sending of client.go with its pause. Escaped, Bounds,
-- Reports, Cooling and Details have the proofs. The formats of times and floats are a value of
-- Notification.Formats.
--
-- Logfile models internal/logfile: Logfile.Directory the files and the system calls, each of which
-- may fail, Logfile.Rotation the rotation and the limit on the total, Logfile.Writer NewWriter,
-- Write and Close. The loop of Write runs on the length of its argument as fuel, which is enough
-- since each round takes a byte or ends. Fresh, Complete, Bounds and Opened have the proofs.
--
-- App models internal/app: the transports in App, buildRuntime in App.Build, which calls the
-- constructors of all the parts in the source's order, and Run with its exit codes in App.Run.
-- Parts, Start, Ready and Built have the proofs.
--
-- Rule models internal/rule/rule.go and types.go: health, memory and TCP in Rule, the disks in
-- Rule.Disks, the accounts in Rule.Auth. Percentages are of a type F with the comparisons and the
-- format that the source uses. Rule.Checked, Mounts and Accounts have the proofs.
--
-- Notification models internal/notification/types.go and router.go: the batches and their
-- validation, the health report in Notification.Health, and the two transports in
-- Notification.Router, which act on a world W.
--
-- Alerter models internal/alerter/manager.go: `reconcile` is `Reconcile`, with its loops as
-- functions on the local variables, the store and a log of what was sent and saved. The answers of
-- the sender, the clock and the disk may depend on that log, so any order of failures is covered.
-- Alerter.Message has the texts; Plan, Groups, Effect, Outcome, Sends and Saved have the proofs.
--
-- Monitor models internal/monitor/runner.go: NewRunner, the account summaries, and in Monitor.Cycle
-- the cycle `RunOnce`, one definition for each check, on a log as above; the context may end at any
-- point. Monitor.Trace, Facts, Stages and Verdict have the proofs. Monitor.Loop models
-- internal/monitor/loop.go: the daemon runs over the list of rounds that it meets.
--
-- Healthreport models internal/healthreport/manager.go: the schedule, the report and its quota and
-- version blocks; Healthreport.Schedule, Content and Coherent have the proofs.
--
-- Instants are nanoseconds after Go's zero instant, as natural numbers, and durations do not
-- overflow. Texts are code points, not bytes. Nil receivers, nil contexts and nil dependencies, the
-- locks and the log lines are left out; a locked operation is one step. Not modelled, since it is
-- input and output or another library: making the HTTP requests, with the signature of the DingTalk
-- address, the decoding of JSON and YAML, and the encodings of MIME. Also not modelled: the
-- redaction of secrets in error texts, the release lookup, the text of the healthy-status mail, the
-- sending of a test notification, the closing of the log file after a failed start, and the
-- installation scripts.
pub mod Base
pub mod State
pub mod Notification
pub mod Collector
pub mod Config
pub mod Logfile
pub mod Mailer
pub mod Dingtalk
pub mod Cliproxy
pub mod Rule
pub mod Alerter
pub mod Monitor
pub mod Healthreport
pub mod App
pub mod Tests
