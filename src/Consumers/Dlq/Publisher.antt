-- ===== src/Consumers/Dlq/Publisher.antt =====
-- src/github_analytics/consumers/dlq.py: `KafkaDlqPublisher`. How pydantic writes a record is the
-- parameter `model_dump_json`, and how a text is written in UTF-8 the parameter `utf8`.
use github_delivery_intellig.Common.{
  ◌≡◌, refl, ◌⊎◌, inl, inr, ◌≤◌, ◌<◌, suc, ◌+◌, ℕ, true, Option, none, some,
}
use github_delivery_intellig.Common.Text.{Text}
use github_delivery_intellig.Common.Result.{Result, ok, raise}
use github_delivery_intellig.Common.Exception.{
  Exception, buffer_error, kafka_exception, runtime_error, dlq_publish_error,
}
use github_delivery_intellig.Webhook.Models.{Bytes}
use github_delivery_intellig.Consumers.Dlq.{DeadLetterRecord}
use github_delivery_intellig.Delivery.Acknowledged.{Acknowledged, publish_and_wait-Ends}
use github_delivery_intellig.Delivery.{
  is_queue_failure, Clock, ProducerClient, Waiting, publish_and_wait,
}

-- The `except` around `poll`.
unfoldable pub poll_failure : Exception → Exception
poll_failure kafka_exception = dlq_publish_error
poll_failure runtime_error = dlq_publish_error
poll_failure e = e

module _ (clock : Clock) (client : ProducerClient clock)
    (model_dump_json : DeadLetterRecord → Result Exception Bytes) (utf8 : Text → Bytes) where
  -- `kafka_key`
  unfoldable pub kafka_key : DeadLetterRecord → Option Bytes
  kafka_key r = elim r.delivery_id [ none ↦ none | some id ↦ some (utf8 id) ]

  -- `KafkaDlqPublisher.publish`
  unfoldable pub publish :
      Text
      → clock.Float
      → DeadLetterRecord
      → ℕ
      → Waiting clock client
      → Option (Result Exception (Unit {0})) × Waiting clock client
  unfolding publish_and_wait kafka_key poll_failure
  publish topic publish_timeout r =
      publish_and_wait clock client dlq_publish_error poll_failure publish_timeout topic
        (model_dump_json r) (kafka_key r)

  -- What Kafka's producer may raise: `produce` a `BufferError` for a full queue, a `KafkaException`
  -- for a refused record and a `RuntimeError` for a closed producer, `poll` the latter two.
  pub record Documented (topic : Text) : Type 0 where
    pub produce_raises :
        (bytes : Bytes) (key : Option Bytes) (p : client.Producer) (e : Exception)
        → (client.produce topic bytes key p).0.result ≡ raise e
        → (e ≡ buffer_error) ⊎ ((e ≡ kafka_exception) ⊎ (e ≡ runtime_error))
    pub poll_raises :
        (t : clock.Float) (p : client.Producer) (e : Exception)
        → (client.poll t p).0.result ≡ raise e
        → (e ≡ kafka_exception) ⊎ (e ≡ runtime_error)

  -- A record that pydantic writes is acknowledged without an error when `publish` returns, and
  -- `DlqPublishError` is all that `publish` raises, where the producer raises what it documents. It
  -- ends as soon as the clock is past the deadline at one of its readings, with one unit of fuel
  -- for each.
  pub dlq_publish_ends :
      (topic : Text) (timeout : clock.Float) (r : DeadLetterRecord) (bytes : Bytes) (n fuel : ℕ)
      → (w : Waiting clock client) → Documented topic
      → model_dump_json r ≡ ok bytes
      → clock.is_nonpositive (
          clock.subtract
            (clock.add (clock.monotonic w.readings) timeout)
            (clock.monotonic (suc w.readings + n)))
        ≡ true
      → n < fuel
      → let (answer, w') = publish topic timeout r fuel w in
        (result : Result Exception (Unit {0})) × (answer ≡ some result)
        × (w'.readings ≤ w.readings + suc (suc n))
        × (((result ≡ ok tt) × Acknowledged w')
            ⊎ (e : Exception) × (result ≡ raise e) × (e ≡ dlq_publish_error))
  unfolding publish poll_failure is_queue_failure
  dlq_publish_ends topic timeout r bytes n fuel w documented written past enough =
      publish_and_wait-Ends clock client dlq_publish_error poll_failure (λ e. e ≡ dlq_publish_error)
        refl
        (λ t p e h. elim (documented.poll_raises t p e h) [
          | inl kafka ↦ rw kafka refl
          | inr runtime ↦ rw runtime refl
        ])
        timeout topic (model_dump_json r) (kafka_key r) n fuel w past enough (λ e h. absurd (cc))
        (λ b e h. elim (documented.produce_raises b (kafka_key r) w.producer e h) [
          | inl full ↦ rw full refl
          | inr (inl kafka) ↦ rw kafka refl
          | inr (inr runtime) ↦ rw runtime refl
        ])
