-- ===== src/Common/Exception.antt =====
-- The exceptions that the repository raises or lets through, one constructor for each class. All are
-- subclasses of Python's `Exception`; `KeyboardInterrupt` and `SystemExit`, which are not, are left
-- out.
pub data Exception : Type 0 where
  -- confluent_kafka: `KafkaException`, and `BufferError` of a full producer queue
  kafka_exception buffer_error : Exception
  -- Python: `ValueError`, `TypeError`, `RuntimeError`; pydantic: `ValidationError`
  value_error type_error runtime_error validation_error : Exception
  -- psycopg: a violated unique constraint, a row that breaks a check or the length of a column, and
  -- any other failure of the database
  unique_violation check_violation database_error : Exception
  -- backfill/rest.py: `RestRequestError`, `RestRateLimitError`, the `AssertionError` behind its loop,
  -- and whatever its HTTP client raises
  rest_request_error rest_rate_limit_error assertion_error http_error : Exception
  -- backfill/rest_backfill.py: `RestDataError`; backfill/github.py: `GraphQLDataError`;
  -- backfill/graphql.py: `GraphQLRequestError`, `RateLimitError`
  rest_data_error graphql_data_error graphql_request_error rate_limit_error : Exception
  -- the repository's `DlqPublishError`, `PublishError`
  dlq_publish_error publish_error : Exception
  -- any other subclass of `Exception`
  other_exception : Exception
