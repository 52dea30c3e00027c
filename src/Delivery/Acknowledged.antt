-- ===== src/Delivery/Acknowledged.antt =====
-- src/github_analytics/webhook/kafka.py and src/github_analytics/consumers/dlq.py: when a
-- publication ends, and when it returns.
use github_delivery_intellig.Common.{
  ◌≡◌, refl, inl, inr, ◌⊎◌, ℕ, zero, suc, ◌+◌, ◌≤◌, ◌<◌, true, false, Option, some, any, is_some,
  if◌then◌else◌, arith, Bool-cases,
}
use github_delivery_intellig.Common.Text.{Text}
use github_delivery_intellig.Common.Result.{Result, ok, raise, Result-cases}
use github_delivery_intellig.Common.Exception.{Exception}
use github_delivery_intellig.Webhook.Models.{Bytes}
use github_delivery_intellig.Delivery.{
  Clock, ProducerClient, Waiting, is_set, delivered, poll_once, await, publish_and_wait,
  is_queue_failure,
}

-- The callback has run, and never with an error.
abbrev pub Acknowledged :
    {clock : Clock} {client : ProducerClient clock} → Waiting clock client → Type 0
Acknowledged {clock = clock} {client = client} w =
    (is_set clock client w.reports ≡ true) × (any is_some w.reports ≡ false)

module _ (clock : Clock) (client : ProducerClient clock) (failure : Exception)
    (poll_failure : Exception → Exception) (Fails : Exception → Type 0) (fails : Fails failure)
    (poll_fails : (t : clock.Float) (p : client.Producer) (e : Exception)
      → (client.poll t p).0.result ≡ raise e
      → Fails (poll_failure e)) where
  -- The loop ends once the clock is past the deadline at one of its next `n + 1` readings; it reads
  -- no further, and returns only if the record is acknowledged, and raises only what `Fails` says.
  abbrev pub Ends :
      ℕ
      → Waiting clock client
      → Option (Result Exception (Unit {0})) × Waiting clock client
      → Type 0
  Ends n w (r, w') =
      (result : Result Exception (Unit {0})) × (r ≡ some result)
      × (w'.readings ≤ w.readings + suc n)
      × (((result ≡ ok tt) × Acknowledged w') ⊎ (e : Exception) × (result ≡ raise e) × Fails e)

  delivered-Ends :
      (n : ℕ) (w : Waiting clock client)
      → is_set clock client w.reports ≡ true
      → Ends n w (some (delivered clock client failure w.reports), w)
  delivered-Ends n w set = elim (Bool-cases (any is_some w.reports)) [
    | inl e ↦ rw e (raise failure, refl, omega arith, inr (failure, refl, fails))
    | inr e ↦ rw e (ok tt, refl, omega arith, inl (refl, (set, refl)))
  ]

  await-Ends :
      (deadline : clock.Float) (n fuel : ℕ) (w : Waiting clock client)
      → clock.is_nonpositive (clock.subtract deadline (clock.monotonic (w.readings + n))) ≡ true
      → n < fuel
      → Ends n w (await clock client failure poll_failure deadline fuel w)
  unfolding await
  await-Ends deadline n zero w past enough = absurd (omega arith)
  await-Ends deadline n (suc fuel) w past enough =
      let remaining = clock.subtract deadline (clock.monotonic w.readings) in
      elim (Bool-cases (is_set clock client w.reports)) [
        | inl set ↦ rw (set, await) (delivered-Ends n w set)
        | inr waiting ↦ elim (Bool-cases (clock.is_nonpositive remaining)) [
          | inl late ↦
              rw (waiting, late, await)
                (raise failure, refl, omega arith, inr (failure, refl, fails))
          | inr early ↦
              let polled = poll_once clock client (clock.min remaining clock.tenth) w in
              elim (Result-cases polled.0) [
                | inr (e, escaped) ↦
                    rw (waiting, early, escaped, await)
                      (
                        raise (poll_failure e),
                        refl,
                        omega arith,
                        inr (poll_failure e, refl, poll_fails _ w.producer e escaped),
                      )
                | inl (u, served) ↦
                    rw (waiting, early, served, await)
                      (later n past early enough λ m w' p e. await-Ends deadline m fuel w' p e)
              ]
        ]
      ]
    where
      next : Waiting clock client
      next =
          (poll_once clock client
            (clock.min (clock.subtract deadline (clock.monotonic w.readings)) clock.tenth) w).1

      later :
          (n : ℕ)
          → clock.is_nonpositive (clock.subtract deadline (clock.monotonic (w.readings + n))) ≡ true
          → clock.is_nonpositive (clock.subtract deadline (clock.monotonic w.readings)) ≡ false
          → n < suc fuel
          → ((m : ℕ) (w' : Waiting clock client)
              → clock.is_nonpositive (clock.subtract deadline (clock.monotonic (w'.readings + m)))
                ≡ true
              → m < fuel
              → Ends m w' (await clock client failure poll_failure deadline fuel w'))
          → Ends n w (await clock client failure poll_failure deadline fuel next)
      later zero past early enough more =
          let same : w.readings + 0 ≡ w.readings = omega arith in
          let late = rw same at past in absurd (cc)
      later (suc n) past early enough more =
          let same : w.readings + suc n ≡ suc w.readings + n = omega arith in
          let (result, e, bound, ends) = more n next (rw same at past) (omega arith) in
          (result, e, omega (arith, bound), ends)

  -- A publication ends when the clock is past its deadline at a reading.
  pub publish_and_wait-Ends :
      (timeout : clock.Float) (topic : Text) (value : Result Exception Bytes) (key : Option Bytes)
      → (n fuel : ℕ) (w : Waiting clock client)
      → clock.is_nonpositive (
          clock.subtract
            (clock.add (clock.monotonic w.readings) timeout)
            (clock.monotonic (suc w.readings + n)))
        ≡ true
      → n < fuel
      → ((e : Exception) → value ≡ raise e → Fails (if is_queue_failure e then failure else e))
      → ((bytes : Bytes) (e : Exception)
          → (client.produce topic bytes key w.producer).0.result ≡ raise e
          → Fails (if is_queue_failure e then failure else e))
      → Ends
          (suc n)
          w
          (publish_and_wait clock client failure poll_failure timeout topic value key fuel w)
  unfolding publish_and_wait
  publish_and_wait-Ends timeout topic (raise e) key n fuel w past enough value_fails produce_fails =
      (
        raise (if is_queue_failure e then failure else e),
        refl,
        omega arith,
        inr (if is_queue_failure e then failure else e, refl, value_fails e refl),
      )
  publish_and_wait-Ends timeout topic (ok bytes) key n fuel w past enough value_fails
        produce_fails =
      let produced = client.produce topic bytes key w.producer in
      elim (Result-cases produced.0.result) [
        | inr (e, refused) ↦
            rw (refused, publish_and_wait)
              (
                raise (if is_queue_failure e then failure else e),
                refl,
                omega arith,
                inr (
                  if is_queue_failure e then failure else e,
                  refl,
                  produce_fails bytes e refused,
                ),
              )
        | inl (u, queued) ↦
            let (result, e, bound, ends) =
              await-Ends (clock.add (clock.monotonic w.readings) timeout) n fuel
                (record {
                  producer = produced.1;
                  readings = suc w.readings;
                  reports = produced.0.reports;
                })
                past enough in
            rw (queued, publish_and_wait) (result, e, omega (arith, bound), ends)
      ]
