-- ===== src/Healthreport/Schedule.antt =====
-- When `ReportHealthy` sends: the schedule over two calls, and the state that it writes.
use cpa_monitor.Base.{
  Bool-cases, Option, Option-cases, Text, [], ap, arith, false, if◌then◌else◌, inl, inr, is_none,
  is_some, leb, none, refl, some, true, ℕ, ◌&&◌, ◌+◌, ◌<◌, ◌||◌, ◌∙◌, ◌≡◌,
}
use cpa_monitor.State.{
  HealthReportState, validate_health_report_state, set_health_report, File, is_zero,
}
use cpa_monitor.State.Persist.{save}
use cpa_monitor.Rule.{Floats}
use cpa_monitor.Monitor.{HealthSnapshot}
use cpa_monitor.Notification.Health.{HealthReport}
use cpa_monitor.Healthreport.{
  Outside, Manager, due, attempted, keep_schedule, health_report, report_healthy,
}

module _ {F : Type 0} (fl : Floats F) (o : Outside F) where
  -- A schedule that is due accepts the attempt.
  attempted-valid :
      (v : HealthReportState) (i r : ℕ) (answer : Option Text)
      → 0 < o.now
      → due v o.now i r ≡ true
      → validate_health_report_state (attempted fl o v answer) ≡ none
  unfolding validate_health_report_state attempted due
  attempted-valid v i r none p h = ground arith
  attempted-valid v i r (some e) p h = ground arith

  attempted-fields :
      (f : File) (answer : Option Text)
      → attempted fl o f.health answer ≡ record {
        last_attempt_at = o.now;
        last_sent_at = if is_none answer then o.now else f.health.last_sent_at;
      }
  unfolding attempted
  attempted-fields f none = refl
  attempted-fields f (some e) = refl

  keep_schedule-store :
      (answer : Option Text) (f : File) → (keep_schedule fl o answer (f, none)).1 ≡ f
  unfolding keep_schedule
  keep_schedule-store answer f = elim (Option-cases (save o.codec o.write_fails f)) [
    | inl ok ↦ rw (ok, keep_schedule) refl
    | inr (e, failed) ↦ rw (failed, keep_schedule) refl
  ]

  set_attempted :
      (f : File) (i r : ℕ) (answer : Option Text)
      → 0 < o.now
      → due f.health o.now i r ≡ true
      → set_health_report (attempted fl o f.health answer) f
        ≡ (record f { health = attempted fl o f.health answer }, none)
  unfolding set_health_report
  set_attempted f i r answer p d =
      rw (attempted-valid f.health i r answer p d, set_health_report) refl

  -- A call in which a report is due.
  report_healthy-due :
      (m : Manager) (f : File) (s : HealthSnapshot F)
      → 0 < o.now
      → m.enabled ≡ true
      → due f.health o.now m.interval m.retry_interval ≡ true
      → let answer = o.send_health (health_report fl o m s) in
        let out = report_healthy fl o m f s in
        (out.message ≡ some (health_report fl o m s, answer))
        × (out.store ≡ record f { health = attempted fl o f.health answer })
  unfolding report_healthy
  report_healthy-due m f s p on d =
      let answer = o.send_health (health_report fl o m s) in
      let taken : (report_healthy fl o m f s).store
          ≡ (keep_schedule fl o answer (set_health_report (attempted fl o f.health answer) f)).1 =
        ground (arith, on, d) in
      (
        ground (arith, on, d),
        taken
            ∙ (rw (set_attempted f m.interval m.retry_interval answer p d) (
                keep_schedule-store answer (record f { health = attempted fl o f.health answer }))),
      )

  -- Whether a call sends a report.
  report_healthy-message :
      (m : Manager) (f : File) (s : HealthSnapshot F)
      → is_some (report_healthy fl o m f s).message
        ≡ (m.enabled && due f.health o.now m.interval m.retry_interval)
  unfolding report_healthy
  report_healthy-message m f s = ground arith

  report_healthy-idle :
      (m : Manager) (f : File) (s : HealthSnapshot F)
      → (m.enabled && due f.health o.now m.interval m.retry_interval) ≡ false
      → report_healthy fl o m f s ≡ record { message = none; errors = []; store = f; stored = none }
  unfolding report_healthy
  report_healthy-idle m f s h = ground (arith, h)

attempted-due :
    {F : Type 0} (fl : Floats F) (o : Outside F) (v : HealthReportState) (i r t : ℕ)
    (answer : Option Text)
    → 0 < o.now
    → 0 < i
    → due v o.now i r ≡ true
    → due (attempted fl o v answer) t i r ≡ (
        if is_none answer
        then leb (o.now + i) t
        else leb (o.now + r) t && (is_zero v.last_sent_at || leb (v.last_sent_at + i) t))
unfolding due attempted
attempted-due fl o v i r t none p q d = ground arith
attempted-due fl o v i r t (some e) p q d = ground arith

-- Two calls of `ReportHealthy` of an enabled manager with a positive interval, the first one when a
-- report is due, at an instant after Go's zero instant. The second call sends a report exactly when:
-- after a delivery, the interval has passed since the first call; after a failed one, the retry
-- interval has passed since the first call and, if a report was ever delivered, the interval has
-- passed since that.
pub report_healthy-next :
    {F : Type 0} (fl : Floats F) (o o' : Outside F) (m : Manager) (f : File)
    (s s' : HealthSnapshot F)
    → 0 < o.now
    → 0 < m.interval
    → m.enabled ≡ true
    → due f.health o.now m.interval m.retry_interval ≡ true
    → is_some (report_healthy fl o' m (report_healthy fl o m f s).store s').message ≡ (
        if is_none (o.send_health (health_report fl o m s))
        then leb (o.now + m.interval) o'.now
        else leb (o.now + m.retry_interval) o'.now
          && (is_zero f.health.last_sent_at || leb (f.health.last_sent_at + m.interval) o'.now))
report_healthy-next fl o o' m f s s' p q on d =
    let answer = o.send_health (health_report fl o m s) in
    let enabled : (m.enabled
          && due (attempted fl o f.health answer) o'.now m.interval m.retry_interval)
        ≡ due (attempted fl o f.health answer) o'.now m.interval m.retry_interval =
      ap (λ b. b && due (attempted fl o f.health answer) o'.now m.interval m.retry_interval) on in
    report_healthy-message fl o' m (report_healthy fl o m f s).store s'
    ∙ (rw (report_healthy-due fl o m f s p on d).1
        (enabled ∙ attempted-due fl o f.health m.interval m.retry_interval o'.now answer p q d))

-- After a call at an instant after Go's zero instant, on a valid schedule: where it sent a report, the
-- store is as it was but for the schedule, in which the last attempt is now and, after a delivery, so
-- is the last report sent; where it sent none, the store is as it was. The schedule is valid.
pub report_healthy-store :
    {F : Type 0} (fl : Floats F) (o : Outside F) (m : Manager) (f : File) (s : HealthSnapshot F)
    → 0 < o.now
    → validate_health_report_state f.health ≡ none
    → let out = report_healthy fl o m f s in
      (validate_health_report_state out.store.health ≡ none)
      × ((r : HealthReport F) (answer : Option Text)
          → out.message ≡ some (r, answer)
          → out.store ≡ record f {
            health = record {
              last_attempt_at = o.now;
              last_sent_at = if is_none answer then o.now else f.health.last_sent_at;
            };
          })
      × (out.message ≡ none → out.store ≡ f)
report_healthy-store {F = F} fl o m f s p v = elim (Bool-cases m.enabled) [
  | inr off ↦ idle (report_healthy-idle fl o m f s (ground (arith, off)))
  | inl on ↦ elim (Bool-cases (due f.health o.now m.interval m.retry_interval)) [
    | inr early ↦ idle (report_healthy-idle fl o m f s (ground (arith, early)))
    | inl d ↦
        let answer = o.send_health (health_report fl o m s) in
        let (message, store) = report_healthy-due fl o m f s p on d in
        rw store (
          attempted-valid fl o f.health m.interval m.retry_interval answer p d,
          (λ r given h.
              let same : answer ≡ given = cc in
              ap (λ h. record f { health = h })
                (ap (attempted fl o f.health) same ∙ attempted-fields fl o f given)),
          λ h. cc,
        )
  ]
]
  where
    idle :
        report_healthy fl o m f s ≡ record { message = none; errors = []; store = f; stored = none }
        → let out = report_healthy fl o m f s in
          (validate_health_report_state out.store.health ≡ none)
          × ((r : HealthReport F) (answer : Option Text)
              → out.message ≡ some (r, answer)
              → out.store ≡ record f {
                health = record {
                  last_attempt_at = o.now;
                  last_sent_at = if is_none answer then o.now else f.health.last_sent_at;
                };
              })
          × (out.message ≡ none → out.store ≡ f)
    idle e = rw e (v, (λ r given h. cc), (λ h. refl))
