-- ===== src/Ledger/Watermark.antt =====
-- The device counters under `appendNow` of server/src/ledger/appender.ts.
use vorcaro_ledger.Database.Action.{◌>>=◌}
use mathlib.Core.Option
use vorcaro_ledger.Prelude.{
  ℕ, ◌≤◌, ◌<◌, true, Option, none, some, Option-cases, inl, inr, Text, text_eq, text_eq_iff, ◌≡◌,
  ◌≢◌, refl, arith, ap, find-update_where, find-some, if◌then◌else◌,
}
use vorcaro_ledger.Protocol.Types.{EventStatus, ErrorCode}
use vorcaro_ledger.Protocol.Result.{Result, ok}
use vorcaro_ledger.Protocol.Envelope.{ServerAck}
use vorcaro_ledger.Protocol.Schema.{envelope_valid, parse_envelope}
use vorcaro_ledger.Database.Tables.{Db, DeviceRow, DeviceStatus, ExecutiveStatus}
use vorcaro_ledger.Database.Select.{find_existing_event, find_device, find_executive}
use vorcaro_ledger.Database.Insert.{set_watermark}
use vorcaro_ledger.Ledger.Rows.{DeviceExecutiveRow, find_device_executive}
use vorcaro_ledger.Ledger.Append.{Appender, sign_non_appended_ack}
use vorcaro_ledger.Ledger.Admission.{
  AppendEventRequest, append_now, admit_new, admit_found, admit_device,
}
use vorcaro_ledger.Ledger.Effects.{Appended}
use vorcaro_ledger.Ledger.Frame.{Appended-frame}
use vorcaro_ledger.Ledger.Outcome.{
  Outcome, thrown, repeated, refused, written, Ruling, rejects, waits, resolves, changes, collides,
  Authorised,
}
use vorcaro_ledger.Ledger.Outcome.Cases.{append_now-Outcome}
use vorcaro_ledger.Ledger.Idempotence.{refused-sequence, Appended-ack}

-- The device row that `updateDeviceWatermark` leaves.
abbrev pub stamped : Text → ℕ → Text → DeviceRow → DeviceRow
stamped device_id counter now d =
    if text_eq d.id device_id
    then record d { max_event_counter = counter; last_seen_at = some now }
    else d

module _ (a : Appender) (request : AppendEventRequest) (status : EventStatus)
    (code : Option ErrorCode) (db : Db) (ack : ServerAck) (db' : Db)
    (done : Appended a request.event status code db ack db') where
  pub Appended-find_device :
      (device_id : Text)
      → find_device device_id db'
        ≡ Option.map
            (stamped request.event.device_id request.event.device_event_counter a.now)
            (find_device device_id db)
  unfolding find_device set_watermark
  Appended-find_device device_id =
      rw (ap (λ (d : Db). d.devices) (Appended-frame a request.event status code db ack db' done)) (
        find-update_where (λ (d : DeviceRow). text_eq d.id device_id)
          (λ d. text_eq d.id request.event.device_id)
          (λ d. record d {
            max_event_counter = request.event.device_event_counter;
            last_seen_at = some a.now;
          })
          (λ d. refl) db.devices)

  pub Appended-find_executive :
      (executive_id : Text) → find_executive executive_id db' ≡ find_executive executive_id db
  unfolding find_executive
  Appended-find_executive executive_id =
      rw
        (ap (λ (d : Db). d.executives) (Appended-frame a request.event status code db ack db' done))

  -- The same device and executive stand there, with the event's counter for watermark.
  pub Appended-find_device_executive :
      (device : DeviceExecutiveRow)
      → find_device_executive request.event.device_id db ≡ some device
      → find_device_executive request.event.device_id db'
        ≡ some (record device { max_event_counter = request.event.device_event_counter })
  unfolding find_device_executive
  Appended-find_device_executive device found =
      elim (Option-cases (find_device request.event.device_id db)) [
        | inl missing ↦ absurd (ground arith)
        | inr (d, here) ↦ elim (Option-cases (find_executive d.executive_id db)) [
          | inl missing ↦ absurd (ground arith)
          | inr (e, there) ↦
              let named = device_id_eq d here in
              ground (
                arith,
                Appended-find_device request.event.device_id,
                Appended-find_executive d.executive_id,
              )
        ]
      ]
    where
      device_id_eq :
          (d : DeviceRow)
          → find_device request.event.device_id db ≡ some d
          → text_eq d.id request.event.device_id ≡ true
      device_id_eq d here =
          find-some (λ (r : DeviceRow). text_eq r.id request.event.device_id) db.devices d
            (unfold find_device in here)

module _ (a : Appender) (request : AppendEventRequest) (db : Db) where
  written_watermark :
      (ack : ServerAck) (db' : Db) (n : ℕ) (r : Result ServerAck × Db)
      → Outcome a request db r
      → r ≡ (ok ack, db')
      → find_existing_event request.event.event_id db ≡ none
      → ack.server_sequence ≡ some n
      → (device_id : Text)
      → find_device device_id db'
        ≡ Option.map
            (stamped request.event.device_id request.event.device_event_counter a.now)
            (find_device device_id db)
  written_watermark ack db' n r (thrown e same) h new numbered j = absurd (ground arith)
  written_watermark ack db' n r (repeated row seen same) h new numbered j = absurd (ground arith)
  written_watermark ack db' n r (refused code ack' _ signed same) h new numbered j =
      absurd (ground (arith, refused-sequence a request db code ack' signed))
  written_watermark ack db' n r (written status code ack' db'' valid _ ruling done same) h new
        numbered j =
      let stands = Appended-find_device a request status code db ack' db'' done j in
      let is : db' ≡ db'' = ground arith in rw is stands

  -- Each event that is written, also a rejected one, makes its counter the watermark of the device
  -- that it names, higher or lower than before, and leaves the other devices as they were.
  pub append_now-watermark :
      (ack : ServerAck) (db' : Db) (n : ℕ)
      → append_now a request db ≡ (ok ack, db')
      → find_existing_event request.event.event_id db ≡ none
      → ack.server_sequence ≡ some n
      → (device_id : Text)
      → find_device device_id db'
        ≡ Option.map
            (stamped request.event.device_id request.event.device_event_counter a.now)
            (find_device device_id db)
  append_now-watermark ack db' n =
      written_watermark ack db' n (append_now a request db) (append_now-Outcome a request db)

  -- The device of an event that was written and not rejected.
  record Stands (db' : Db) : Type 0 where
    device : DeviceExecutiveRow
    found : find_device_executive request.event.device_id db' ≡ some device
    certificate : device.certificate_fingerprint ≡ request.certificate_fingerprint
    enrolled : device.device_status ≡ DeviceStatus.enrolled
    own : device.executive_id ≡ request.event.actor_id
    active : device.executive_status ≡ ExecutiveStatus.active
    watermark : device.max_event_counter ≡ request.event.device_event_counter
    raised :
        (old : DeviceExecutiveRow)
        → find_device_executive request.event.device_id db ≡ some old
        → old.max_event_counter < request.event.device_event_counter

  authorised-Stands :
      (status : EventStatus) (code : Option ErrorCode) (ack : ServerAck) (db' : Db)
      → Appended a request.event status code db ack db'
      → Authorised a request db
      → Stands db'
  authorised-Stands status code ack db' done auth = record {
    device = record auth.device { max_event_counter = request.event.device_event_counter };
    found =
        Appended-find_device_executive a request status code db ack db' done auth.device
          auth.device_found;
    certificate = auth.same_certificate;
    enrolled = auth.device_enrolled;
    own = auth.own_device;
    active = auth.executive_active;
    watermark = refl;
    raised = λ old here. ground (arith, auth.device_found, auth.fresh);
  }

  Ruling-Stands :
      (status : EventStatus) (code : Option ErrorCode) (ack : ServerAck) (db' : Db)
      → Appended a request.event status code db ack db'
      → Ruling a request db status code
      → status ≢ EventStatus.rejected
      → Stands db'
  Ruling-Stands status code ack db' done (rejects c is why) kept = absurd (kept is)
  Ruling-Stands status code ack db' done (waits auth roles count said is why) kept =
      authorised-Stands status code ack db' done auth
  Ruling-Stands status code ack db' done (resolves auth said type marked listed is why) kept =
      authorised-Stands status code ack db' done auth
  Ruling-Stands status code ack db' done (changes auth said type unmarked fits is why) kept =
      authorised-Stands status code ack db' done auth
  Ruling-Stands status code ack db' done (collides auth said type unmarked late is why) kept =
      authorised-Stands status code ack db' done auth

  Outcome-Stands :
      (ack : ServerAck) (db' : Db) (r : Result ServerAck × Db)
      → Outcome a request db r
      → r ≡ (ok ack, db')
      → find_existing_event request.event.event_id db ≡ none
      → ack.status ≢ EventStatus.rejected
      → Stands db'
  Outcome-Stands ack db' r (thrown e same) h new kept = absurd (ground arith)
  Outcome-Stands ack db' r (repeated row seen same) h new kept = absurd (ground arith)
  Outcome-Stands ack db' r (refused code ack' _ signed same) h new kept =
      absurd (kept (ground (arith, refused-sequence a request db code ack' signed)))
  Outcome-Stands ack db' r (written status code ack' db'' valid _ ruling done same) h new kept =
      let keeps : status ≢ EventStatus.rejected =
        λ e. kept (ground (arith, Appended-ack a request db status code ack' db'' done)) in
      let is : db' ≡ db'' = ground arith in
      rw is (Ruling-Stands status code ack' db'' done ruling keeps)

  -- The next event of the same device, executive and certificate, with a counter that is no higher.
  pub record Replays (db' : Db) (later : Appender) (next : AppendEventRequest) : Type 0 where
    pub valid : envelope_valid later.host.is_datetime next.event ≡ true
    pub new : find_existing_event next.event.event_id db' ≡ none
    pub same_device : next.event.device_id ≡ request.event.device_id
    pub same_actor : next.event.actor_id ≡ request.event.actor_id
    pub same_certificate : next.certificate_fingerprint ≡ request.certificate_fingerprint
    pub not_higher : next.event.device_event_counter ≤ request.event.device_event_counter

  refuse_replay :
      (db' : Db) (later : Appender) (next : AppendEventRequest)
      → Stands db'
      → Replays db' later next
      → append_now later next db'
        ≡ (sign_non_appended_ack later next.event.event_id ErrorCode.replay_counter, db')
  unfolding ◌>>=◌ append_now parse_envelope admit_new admit_found admit_device
  refuse_replay db' later next stands again =
      let known : find_device_executive next.event.device_id db' ≡ some stands.device =
        rw again.same_device stands.found in
      rw (again.valid, again.new, known)
        (ground (
          arith,
          stands.certificate,
          stands.enrolled,
          stands.own,
          stands.active,
          stands.watermark,
          again.same_actor,
          again.same_certificate,
          again.not_higher,
          text_eq_iff stands.device.certificate_fingerprint next.certificate_fingerprint,
          text_eq_iff stands.device.executive_id next.event.actor_id,
        ))

  -- After an event that was written and not rejected, the device's watermark has risen to the
  -- event's counter, and the next valid, new event of the same device, executive and certificate
  -- with a counter no higher gets the answer REPLAY_COUNTER and writes nothing.
  pub append_now-replay :
      (ack : ServerAck) (db' : Db)
      → append_now a request db ≡ (ok ack, db')
      → find_existing_event request.event.event_id db ≡ none
      → ack.status ≢ EventStatus.rejected
      → (old : DeviceExecutiveRow) → find_device_executive request.event.device_id db ≡ some old
      → (later : Appender) (next : AppendEventRequest) → Replays db' later next
      → (old.max_event_counter < request.event.device_event_counter)
        × (append_now later next db'
            ≡ (sign_non_appended_ack later next.event.event_id ErrorCode.replay_counter, db'))
  append_now-replay ack db' h new kept old here later next again =
      let stands =
        Outcome-Stands ack db' (append_now a request db) (append_now-Outcome a request db) h new
          kept in
      (stands.raised old here, refuse_replay db' later next stands again)
