-- ===== src/Delivery.antt =====
-- src/github_analytics/webhook/kafka.py and src/github_analytics/consumers/dlq.py: the two Kafka
-- publishers share their shape, which is here: one record is queued, and the producer is polled
-- until its delivery callback has run or the deadline has passed. The producer is a parameter with
-- a state of its own; a call of it serves the reports of the callbacks that it ran. The clock and
-- its floats are the parameter `Clock`, by the number of the reading. The loop runs on fuel.
pub mod Acknowledged
use github_delivery_intellig.Common.{
  ℕ, zero, suc, ◌+◌, Bool, true, false, Option, none, some, List, [], ◌∷◌, ◌++◌, any, is_some,
  if◌then◌else◌,
}
use github_delivery_intellig.Common.Text.{Text}
use github_delivery_intellig.Common.Result.{Result, ok, raise}
use github_delivery_intellig.Common.Exception.{
  Exception, kafka_exception, buffer_error, runtime_error,
}
use github_delivery_intellig.Webhook.Models.{Bytes}

pub record Clock : Type 1 where
  pub Float : Type 0
  pub add : Float → Float → Float
  pub subtract : Float → Float → Float
  pub min : Float → Float → Float
  pub is_nonpositive : Float → Bool
  pub tenth : Float
  pub monotonic : ℕ → Float

-- What a call of the producer reports, an error or none for each callback, and how it ends.
pub record Served : Type 0 where
  pub reports : List (Option Text)
  pub result : Result Exception (Unit {0})

-- `except (BufferError, KafkaException, RuntimeError)`
unfoldable pub is_queue_failure : Exception → Bool
is_queue_failure kafka_exception = true
is_queue_failure buffer_error = true
is_queue_failure runtime_error = true
is_queue_failure _ = false

module _ (clock : Clock) where
  open clock use {Float, subtract, min, is_nonpositive, tenth, monotonic}

  -- `ProducerClient` and `DlqProducerClient`; `has_brokers` is `bool(list_topics().brokers)`.
  pub record ProducerClient : Type 1 where
    pub Producer : Type 0
    pub produce : Text → Bytes → Option Bytes → Producer → Served × Producer
    pub poll : Float → Producer → Served × Producer
    pub has_brokers : Float → Producer → Result Exception Bool × Producer

  module _ (client : ProducerClient) where
    open client use {Producer, produce, poll}

    -- The producer, the clock's readings so far, and the reports so far. `completed` is set when
    -- there is a report, and `errors` are the reports with an error.
    pub record Waiting : Type 0 where
      pub producer : Producer
      pub readings : ℕ
      pub reports : List (Option Text)

    abbrev pub is_set : List (Option Text) → Bool
    is_set [] = false
    is_set (r ∷ rs) = true

    abbrev pub delivered : Exception → List (Option Text) → Result Exception (Unit {0})
    delivered failure reports = if any is_some reports then raise failure else ok tt

    -- `self._producer.poll`
    unfoldable pub poll_once : Float → Waiting → Result Exception (Unit {0}) × Waiting
    poll_once timeout w =
        let (served, producer') = poll timeout w.producer in
        (
          served.result,
          record {
            producer = producer';
            readings = suc w.readings;
            reports = w.reports ++ served.reports;
          },
        )

    module _ (failure : Exception) (poll_failure : Exception → Exception) (deadline : Float) where
      -- The loop and the test after it; nothing where the fuel does not suffice.
      unfoldable pub await : ℕ → Waiting → Option (Result Exception (Unit {0})) × Waiting
      unfolding poll_once
      await zero w = (none, w)
      await (suc fuel) w = elim (is_set w.reports) [
        | true ↦ (some (delivered failure w.reports), w)
        | false ↦
            let remaining = subtract deadline (monotonic w.readings) in
            elim (is_nonpositive remaining) [
              | true ↦ (some (raise failure), record w { readings = suc w.readings })
              | false ↦
                  let (result, w') = poll_once (min remaining tenth) w in
                  elim result [
                    | raise e ↦ (some (raise (poll_failure e)), w')
                    | ok u ↦ await fuel w'
                  ]
            ]
      ]

    -- One publication: `produce`, the deadline, and the wait.
    unfoldable pub publish_and_wait :
        Exception
        → (Exception → Exception)
        → Float
        → Text
        → Result Exception Bytes
        → Option Bytes
        → ℕ
        → Waiting
        → Option (Result Exception (Unit {0})) × Waiting
    unfolding await is_queue_failure
    publish_and_wait failure poll_failure timeout topic value key fuel w = elim value [
      | raise e ↦ (some (raise (if is_queue_failure e then failure else e)), w)
      | ok bytes ↦
          let (served, producer') = produce topic bytes key w.producer in
          elim served.result [
            | raise e ↦ (
              some (raise (if is_queue_failure e then failure else e)),
              record w { producer = producer' },
            )
            | ok u ↦
                await failure poll_failure (clock.add (monotonic w.readings) timeout) fuel record {
                  producer = producer';
                  readings = suc w.readings;
                  reports = served.reports;
                }
          ]
    ]
