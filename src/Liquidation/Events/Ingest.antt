-- ===== src/Liquidation/Events/Ingest.antt =====
-- What a call of `ingest_force_order` leaves in the store, and a message that comes twice
-- (liquidation_aggregator.py).
use crt_master.Base.{
  if◌then◌else◌, Option, some, ◌⊎◌, ◌>>◌, Bool, Error, List, Result, Result-cases, String, [], any,
  ap, arith, err, false, inl, inr, length, ok, refl, str_eq, str_eq_refl, subst, sym, true, ℤ, ◌++◌,
  ◌∙◌, ◌∷◌, ◌≡◌, ◌≤ℤ◌, ◌≤◌,
}
use crt_master.Runtime.{Moment, Runtime, Value, or_clock}
use crt_master.Liquidation.Order.{Event, normalize_force_order}
use crt_master.Liquidation.Order.Accepted.{IsEvent}
use crt_master.Liquidation.Order.Later.{normalize_force_order-later}
use crt_master.Liquidation.Events.{
  Anomaly, EventStore, anomaly_of, has_hash, ingest_force_order, insert_event, latest_event_time_ms,
  raw_hash, record_anomaly, Faults, is_storable, insert_values, write_raw,
}

module _ (rt : Runtime) (utc_date : ℤ → Result String) where
  -- A call that returns `True` added one event, of a hash that was not there and with times that a
  -- row can hold, with its line in the file of its day; one that returns `False` added at most one
  -- anomaly; one that raises added nothing, or the line of an event whose row could not be inserted.
  abbrev pub IsIngested : EventStore rt → ℤ → Faults → EventStore rt × Result Bool → Type 0
  IsIngested store received faults (store', ok true) =
      (e : Event rt) × (day : String) × IsEvent rt received e
      × (any (has_hash rt e.event_hash) store.events ≡ false)
      × (utc_date e.event_time_ms ≡ ok day)
      × (is_storable rt e ≡ true)
      × (store' ≡ record store {
        events = store.events ++ e ∷ [];
        raw_lines = store.raw_lines ++ (day, e) ∷ [];
      })
  IsIngested store received faults (store', ok false) =
      (added : List (Anomaly rt)) × (length added ≤ 1)
      × (store' ≡ record store { anomalies = store.anomalies ++ added })
  IsIngested store received faults (store', err raised) =
      (store' ≡ store)
      ⊎ ((e : Event rt) × (day : String) × IsEvent rt received e
          × (any (has_hash rt e.event_hash) store.events ≡ false)
          × (utc_date e.event_time_ms ≡ ok day)
          × ((is_storable rt e ≡ false) ⊎ (faults.insert_error ≡ some raised))
          × (store' ≡ record store { raw_lines = store.raw_lines ++ (day, e) ∷ [] }))

  append_hash :
      (h : String) (events : List (Event rt)) (e : Event rt)
      → str_eq e.event_hash h ≡ true
      → any (has_hash rt h) (events ++ e ∷ []) ≡ true
  append_hash h [] e same = ground arith
  append_hash h (x ∷ events) e same = ground (arith, append_hash h events e)

  differ : (m : Result (Unit {0})) → (m >> ok false) ≡ ok true → ⊥
  differ (err e) h = cc
  differ (ok x) h = cc

  insert_event-taken :
      (store store' : EventStore rt) (e : Event rt) (faults : Faults)
      → insert_event rt utc_date store e faults ≡ (store', ok true)
      → any (has_hash rt e.event_hash) store'.events ≡ true
  unfolding insert_event
  insert_event-taken store store' e faults h =
      by_cases (any (has_hash rt e.event_hash) store.events) (write_raw rt utc_date e faults)
        (insert_values rt e faults) h
    where
      by_cases :
          (taken : Bool) (written : Result String) (inserted : Result (Unit {0}))
          → ◌≡◌ {A = EventStore rt × Result Bool}
              (if taken then (store, ok false) else elim written [
                | err raised ↦ (store, err raised)
                | ok day ↦ elim inserted [
                  | err raised ↦
                      (record store { raw_lines = store.raw_lines ++ (day, e) ∷ [] }, err raised)
                  | ok _ ↦ (
                    record store {
                      events = store.events ++ e ∷ [];
                      raw_lines = store.raw_lines ++ (day, e) ∷ [];
                    },
                    ok true,
                  )
                ]
              ])
              (store', ok true)
          → any (has_hash rt e.event_hash) store'.events ≡ true
      by_cases true written inserted h = cc
      by_cases false (err raised) inserted h = cc
      by_cases false (ok day) (err raised) h = cc
      by_cases false (ok day) (ok _) h =
          ap (λ (r : EventStore rt × Result Bool). any (has_hash rt e.event_hash) r.0.events)
            (sym h)
          ∙ append_hash e.event_hash store.events e (str_eq_refl e.event_hash)

  insert_event-again :
      (store : EventStore rt) (e : Event rt) (faults : Faults)
      → any (has_hash rt e.event_hash) store.events ≡ true
      → insert_event rt utc_date store e faults ≡ (store, ok false)
  unfolding insert_event
  insert_event-again store e faults taken = rw (taken, insert_event) refl

  -- After a call of `ingest_force_order` that returned `True`, a call with the same message at the
  -- same or a later receipt returns `False` and leaves the store as it is.
  pub ingest_force_order-again :
      (store : EventStore rt) (payload : Value rt) (received_ms : Option ℤ) (moment : Moment)
      (faults : Faults) (store' : EventStore rt) (received_ms' : Option ℤ) (moment' : Moment)
      (faults' : Faults)
      → ingest_force_order rt utc_date store payload received_ms moment faults ≡ (store', ok true)
      → or_clock received_ms moment.now_ms ≤ℤ or_clock received_ms' moment'.now_ms
      → ingest_force_order rt utc_date store' payload received_ms' moment' faults'
        ≡ (store', ok false)
  unfolding ingest_force_order
  ingest_force_order-again store payload received_ms moment faults store' received_ms' moment'
        faults' h later =
      let received = or_clock received_ms moment.now_ms in
      let received' = or_clock received_ms' moment'.now_ms in
      elim (Result-cases
        (normalize_force_order rt payload received (latest_event_time_ms rt store))) [
          | inl (e, normalized) ↦
              let (e', again, same) =
                normalize_force_order-later rt payload received received'
                  (latest_event_time_ms rt store) (latest_event_time_ms rt store') later
                  normalized in
              let taken =
                insert_event-taken store store' e faults (sym (accepted_first e normalized) ∙ h) in
              rw (again, ingest_force_order)
                (insert_event-again store' e' faults'
                  (subst (λ i. any (has_hash rt i) store'.events ≡ true) (sym same) taken))
          | inr (e, raised) ↦ absurd (
              differ (refused e).1
                (ap (λ (r : EventStore rt × Result Bool). r.1) (sym (refused_first e raised) ∙ h)))
        ]
    where
      refused : Error → EventStore rt × Result (Unit {0})
      refused e =
          record_anomaly rt store (anomaly_of rt e) (or_clock received_ms moment.now_ms)
            (raw_hash rt payload) e payload faults

      accepted_first :
          (e : Event rt)
          → normalize_force_order rt payload
              (or_clock received_ms moment.now_ms)
              (latest_event_time_ms rt store)
            ≡ ok e
          → ingest_force_order rt utc_date store payload received_ms moment faults
            ≡ insert_event rt utc_date store e faults
      accepted_first e normalized = rw (normalized, ingest_force_order) refl

      refused_first :
          (e : Error)
          → normalize_force_order rt payload
              (or_clock received_ms moment.now_ms)
              (latest_event_time_ms rt store)
            ≡ err e
          → ingest_force_order rt utc_date store payload received_ms moment faults
            ≡ ((refused e).0, ((refused e).1 >> ok false))
      refused_first e raised = rw (raised, ingest_force_order) refl
