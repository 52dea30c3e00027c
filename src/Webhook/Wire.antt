-- ===== src/Webhook/Wire.antt =====
-- src/github_analytics/webhook/models.py: the JSON object that `model_dump_json` writes for an
-- envelope, and what `model_validate_json` makes of it. How pydantic writes a JSON value and a
-- datetime are the parameters of `Encoder`.
use github_delivery_intellig.Common.{◌≡◌, refl, ℤ, pos, some, list_beq}
use github_delivery_intellig.Common.Text.{Text, text, text_eq, text_beq}
use github_delivery_intellig.Common.Json.{Json, integer, str, object, Fields, no_fields, field, get}
use github_delivery_intellig.Common.Time.{Datetime}
use github_delivery_intellig.Common.Result.{Result, ok}
use github_delivery_intellig.Common.Exception.{Exception}
use github_delivery_intellig.Webhook.Models.{
  Bytes, Decoder, GitHubEventName, pull_request, pull_request_review, workflow_run, deployment,
  deployment_status, event_name_of, event_name_text, Envelope, from_webhook, envelope_of_fields,
  model_validate_json,
}
use github_delivery_intellig.Webhook.Models.Valid.{IsValid, from_webhook-IsValid}

-- `dumps` may refuse a text that UTF-8 cannot hold.
pub record Encoder : Type 0 where
  pub dumps : Json → Result Exception Bytes
  pub datetime_json : Datetime → Json

-- The object of `envelope.model_dump_json()`.
unfoldable pub dump : Encoder → Envelope → Fields
dump encoder e = field (text "schema_version") (integer (pos 1)) (
    field (text "delivery_id") (str e.delivery_id) (
      field (text "event_name") (str (event_name_text e.event_name)) (
        field (text "action") (str e.action) (
          field (text "installation_id") (integer e.installation_id) (
            field (text "repository_id") (integer e.repository_id) (
              field (text "repository_full_name") (str e.repository_full_name) (
                field (text "received_at") (encoder.datetime_json e.received_at)
                  (field (text "payload") (object e.payload) no_fields))))))))

-- pydantic reads what it wrote: a number as that number, a text as that text, a datetime as that
-- datetime.
pub record Converts (decoder : Decoder) (encoder : Encoder) : Type 0 where
  pub int_back : (n : ℤ) → decoder.to_int (integer n) ≡ some n
  pub text_back : (s : Text) → decoder.to_text (str s) ≡ some s
  pub datetime_back : (t : Datetime) → decoder.to_datetime (encoder.datetime_json t) ≡ some t

event_name_back : (n : GitHubEventName) → event_name_of (event_name_text n) ≡ some n
unfolding event_name_of event_name_text text_beq list_beq text
event_name_back pull_request = refl
event_name_back pull_request_review = refl
event_name_back workflow_run = refl
event_name_back deployment = refl
event_name_back deployment_status = refl

module _ (decoder : Decoder) (encoder : Encoder) (converts : Converts decoder encoder) where
  fields_back : (e : Envelope) → IsValid e → envelope_of_fields decoder (dump encoder e) ≡ some e
  unfolding envelope_of_fields dump get text_beq list_beq text
  fields_back e v = rw (converts.text_back e.delivery_id) (
      rw v.id_kept (
        rw (converts.text_back (event_name_text e.event_name)) (
          rw (event_name_back e.event_name) (
            rw (converts.text_back e.action) (
              rw v.action_kept (
                rw (converts.int_back e.installation_id) (
                  rw v.installation_kept (
                    rw (converts.int_back e.repository_id) (
                      rw v.repository_kept (
                        rw (converts.text_back e.repository_full_name) (
                          rw v.name_kept (
                            rw (converts.datetime_back e.received_at)
                              (rw v.time_kept refl)))))))))))))

  -- An envelope that the receiver builds comes back as it was from the bytes that its JSON object is
  -- written to, where pydantic reads what it writes: numbers, texts and datetimes, and, for these
  -- bytes, the object as a whole.
  pub model_validate_json-dump :
      (id : Text) (name : GitHubEventName) (at : Datetime) (payload : Fields) (e : Envelope)
      (bytes : Bytes)
      → from_webhook decoder id name at payload ≡ some e
      → encoder.dumps (object (dump encoder e)) ≡ ok bytes
      → decoder.model_loads bytes ≡ some (object (dump encoder e))
      → model_validate_json decoder bytes ≡ some e
  unfolding model_validate_json
  model_validate_json-dump id name at payload e bytes built written read =
      rw read (fields_back e (from_webhook-IsValid decoder id name at payload e built))
