-- ===== src/Webhook/Kafka.antt =====
-- src/github_analytics/webhook/kafka.py: `KafkaEnvelopePublisher`. The thread that
-- `asyncio.to_thread` runs it in is left out.
use github_delivery_intellig.Common.{
  ◌≡◌, ◌⊎◌, inl, inr, ◌≤◌, ◌<◌, suc, ◌+◌, true, ℕ, ℤ, Bool, false, Option, some,
}
use github_delivery_intellig.Common.Text.{Text}
use github_delivery_intellig.Common.Json.{object}
use github_delivery_intellig.Common.Result.{Result, ok, raise}
use github_delivery_intellig.Common.Exception.{Exception, publish_error, kafka_exception}
use github_delivery_intellig.Webhook.Models.{Bytes, Envelope}
use github_delivery_intellig.Webhook.Wire.{Encoder, dump}
use github_delivery_intellig.Delivery.Acknowledged.{Acknowledged, publish_and_wait-Ends}
use github_delivery_intellig.Delivery.{Clock, ProducerClient, Waiting, publish_and_wait}

module _ (clock : Clock) (client : ProducerClient clock) (encoder : Encoder)
    (ascii_decimal : ℤ → Bytes) (topic : Text) where
  -- `_publish_sync`; an exception of `poll` goes through.
  unfoldable pub publish_sync :
      clock.Float
      → Envelope
      → ℕ
      → Waiting clock client
      → Option (Result Exception (Unit {0})) × Waiting clock client
  unfolding publish_and_wait dump
  publish_sync publish_timeout envelope =
      publish_and_wait clock client publish_error (λ e. e) publish_timeout topic
        (encoder.dumps (object (dump encoder envelope)))
        (some (ascii_decimal envelope.repository_id))

  abbrev not_reachable : Exception → Result Exception Bool
  not_reachable kafka_exception = ok false
  not_reachable e = raise e

  -- `_is_ready_sync`
  unfoldable pub is_ready_sync :
      clock.Float → client.Producer → Result Exception Bool × client.Producer
  is_ready_sync readiness_timeout producer =
      let (r, producer') = client.has_brokers readiness_timeout producer in
      (elim r [ ok b ↦ ok b | raise e ↦ not_reachable e ], producer')

  -- A publication ends as soon as the clock is past the deadline at one of its readings, with one
  -- unit of fuel for each: it reads no further, and it returns only after a delivery report came
  -- and none had an error. In every other case it raises.
  pub publish_sync_ends :
      (timeout : clock.Float) (envelope : Envelope) (n fuel : ℕ) (w : Waiting clock client)
      → clock.is_nonpositive (
          clock.subtract
            (clock.add (clock.monotonic w.readings) timeout)
            (clock.monotonic (suc w.readings + n)))
        ≡ true
      → n < fuel
      → let (r, w') = publish_sync timeout envelope fuel w in
        (result : Result Exception (Unit {0})) × (r ≡ some result)
        × (w'.readings ≤ w.readings + suc (suc n))
        × (((result ≡ ok tt) × Acknowledged w') ⊎ (e : Exception) × (result ≡ raise e))
  unfolding publish_sync
  publish_sync_ends timeout envelope n fuel w past enough =
      let (result, returned, bound, ends) =
        publish_and_wait-Ends clock client publish_error (λ e. e) (λ e. Unit {0}) tt (λ t p e h. tt)
          timeout topic (encoder.dumps (object (dump encoder envelope)))
          (some (ascii_decimal envelope.repository_id)) n fuel w past enough (λ e h. tt)
          (λ bytes e h. tt) in
      (result, returned, bound, elim ends [ inl here ↦ inl here | inr (e, h, _) ↦ inr (e, h) ])
