-- ===== src/Webhook/App/Safety.antt =====
-- src/github_analytics/webhook/app.py: what reaches the publisher, and what a request is answered.
use github_delivery_intellig.Common.{
  ◌≡◌, refl, ◌⊎◌, inl, inr, ℕ, suc, ◌≤◌, true, Option, none, some, List, [], ◌∷◌, ◌++◌, arith,
  length,
}
use github_delivery_intellig.Common.Text.{Text, text, strip}
use github_delivery_intellig.Common.Time.{Datetime}
use github_delivery_intellig.Common.Json.{Json, Fields, as_object}
use github_delivery_intellig.Common.Result.{Result, ok, raise, Result-cases, bound}
use github_delivery_intellig.Common.Exception.{Exception, publish_error}
use github_delivery_intellig.Webhook.Models.{
  Parsed, parsed, undecodable, escaping, Bytes, Decoder, GitHubEventName, event_name_of, Envelope,
  from_webhook,
}
use github_delivery_intellig.Webhook.App.{
  Hmac, EnvelopePublisher, Settings, Request, Metrics, Refusal, http_exception, unhandled, accepted,
  refused, read_limited_body, required_header, or_http, loaded, parse_payload, has_valid_signature,
  check_signature, validated_envelope, Receiver, finish, after_publication, publish_envelope,
  receive_github_webhook,
}

read_limited_body-bound :
    (maximum : ℕ) (body : List ℕ) (chunks : List Bytes) (b : Bytes)
    → length body ≤ maximum
    → read_limited_body maximum body chunks ≡ ok b
    → length b.octets ≤ maximum
unfolding read_limited_body
read_limited_body-bound maximum body [] b within h = ground arith
read_limited_body-bound maximum body (chunk ∷ rest) b within h =
    ground (arith, read_limited_body-bound maximum (body ++ chunk.octets) rest b)

module _ (decoder : Decoder) (hmac : Hmac) where
  -- What the envelope and the delivery id of a request that passes every check come from.
  pub record Authentic (settings : Settings) (now : Datetime) (request : Request)
      (envelope : Envelope) (delivery_id : Text) : Type 0 where
    pub body : Bytes
    pub signature : Text
    pub event_name : GitHubEventName
    pub payload : Fields
    pub json : Json
    pub body_read : read_limited_body settings.webhook_max_body_bytes [] request.chunks ≡ ok body
    pub body_within : length body.octets ≤ settings.webhook_max_body_bytes
    pub signed : request.header (text "X-Hub-Signature-256") ≡ some signature
    pub signature_valid :
        has_valid_signature decoder hmac body settings.webhook_secret signature ≡ ok true
    pub identified : request.header (text "X-GitHub-Delivery") ≡ some delivery_id
    pub decoded : decoder.loads body ≡ parsed json
    pub is_object : as_object json ≡ some payload
    pub built : from_webhook decoder delivery_id event_name now payload ≡ some envelope

  required_header-found :
      (request : Request) (name value : Text)
      → required_header request name ≡ ok value
      → request.header name ≡ some value
  unfolding required_header
  required_header-found request name value h = ground arith

  check_signature-valid :
      (settings : Settings) (body : Bytes) (header : Option Text)
      → check_signature decoder hmac settings body header ≡ ok tt
      → (signature : Text) × (header ≡ some signature)
        × (has_valid_signature decoder hmac body settings.webhook_secret signature ≡ ok true)
  unfolding check_signature
  check_signature-valid settings body none h = absurd (cc)
  check_signature-valid settings body (some signature) h = (signature, refl, ground arith)

  or_http-found {ℓ} :
      {A : Type ℓ} (status : ℕ) (found : Option A) {a : A}
      → or_http status found ≡ ok a
      → found ≡ some a
  or_http-found status none h = absurd (cc)
  or_http-found status (some b) h = cc

  loaded-parsed :
      (answer : Parsed) {json : Json} → loaded decoder hmac answer ≡ ok json → answer ≡ parsed json
  loaded-parsed (parsed json) h = cc
  loaded-parsed undecodable h = absurd (cc)
  loaded-parsed (escaping e) h = absurd (cc)

  validated_envelope-Authentic :
      (settings : Settings) (now : Datetime) (request : Request) (e : Envelope) (id : Text)
      → validated_envelope decoder hmac settings now request ≡ ok (e, id)
      → Authentic settings now request e id
  unfolding validated_envelope parse_payload
  validated_envelope-Authentic settings now request e id h =
      bound (read_limited_body settings.webhook_max_body_bytes [] request.chunks) _ h λ body e₁ h₁.
        bound
          (check_signature decoder hmac settings body (request.header (text "X-Hub-Signature-256")))
          _ h₁
          λ u e₂ h₂. bound (required_header request (text "X-GitHub-Event")) _ h₂ λ event e₃ h₃.
            bound (required_header request (text "X-GitHub-Delivery")) _ h₃ λ id' e₄ h₄.
              bound (or_http 422 (event_name_of event)) _ h₄ λ name e₅ h₅.
                bound (parse_payload decoder hmac body) _ h₅ λ payload e₆ h₆.
                  bound (or_http 422 (from_webhook decoder id' name now payload)) _ h₆ λ e' e₇ h₇.
                    bound (loaded decoder hmac (decoder.loads body)) _ e₆ λ json e₈ h₈.
                      let (signature, signed, valid) =
                        check_signature-valid settings body
                          (request.header (text "X-Hub-Signature-256")) e₂ in
                      let same_id : id' ≡ id = cc in
                      let same : e' ≡ e = cc in
                      record {
                        body = body;
                        signature = signature;
                        event_name = name;
                        payload = payload;
                        json = json;
                        body_read = e₁;
                        body_within =
                            read_limited_body-bound settings.webhook_max_body_bytes []
                              request.chunks body (omega arith) e₁;
                        signed = signed;
                        signature_valid = valid;
                        identified = rw (← same_id) (required_header-found request _ id' e₄);
                        decoded = loaded-parsed (decoder.loads body) e₈;
                        is_object = or_http-found 422 (as_object json) h₈;
                        built = rw (← same) (rw (← same_id) (or_http-found 422 _ e₇));
                      }

  module _ (publisher : EnvelopePublisher) where
    open publisher use {Topic, publish}

    after_publication-answer :
        (r : Result Exception (Unit {0})) (topic' : Topic) (id : Text) (m : Metrics)
        → let (answer, s') = after_publication decoder hmac publisher r topic' id m in
          (s'.topic ≡ topic')
          × ((r ≡ ok tt) × (answer ≡ accepted (strip id))
              ⊎ (e : Exception) × (r ≡ raise e) × (x : Refusal) × (answer ≡ refused x))
    unfolding after_publication
    after_publication-answer (ok u) topic' id m = (refl, inl (refl, refl))
    after_publication-answer (raise publish_error) topic' id m =
        (refl, inr (publish_error, refl, http_exception 503, refl))
    after_publication-answer (raise x) topic' id m = (refl, inr (x, refl, unhandled x, refl))

    publish_envelope-answer :
        (envelope : Envelope) (id : Text) (s : Receiver decoder hmac publisher)
        → let (answer, s') = publish_envelope decoder hmac publisher envelope id s in
          (s'.topic ≡ (publish envelope s.topic).1)
          × (((publish envelope s.topic).0 ≡ ok tt) × (answer ≡ accepted (strip id))
              ⊎ (e : Exception) × ((publish envelope s.topic).0 ≡ raise e)
                × (r : Refusal) × (answer ≡ refused r))
    unfolding publish_envelope
    publish_envelope-answer envelope id s =
        after_publication-answer (publish envelope s.topic).0 (publish envelope s.topic).1 id
          (record s.metrics { publish_durations = suc s.metrics.publish_durations })

    -- A request changes the topic only by the publication of one envelope, and only if its body is
    -- within the limit, its signature header is valid for that body, and the envelope is what the
    -- body's object and the delivery header say. It is accepted, with the stripped delivery id,
    -- exactly if the publisher then returns; in every other case it is refused.
    pub receive_github_webhook-Authentic :
        (settings : Settings) (now : Datetime) (request : Request)
        → (s : Receiver decoder hmac publisher)
        → let (answer, s') = receive_github_webhook decoder hmac publisher settings now request s in
          ((s'.topic ≡ s.topic) × (r : Refusal) × (answer ≡ refused r))
          ⊎ (envelope : Envelope) × (id : Text) × Authentic settings now request envelope id
            × (s'.topic ≡ (publish envelope s.topic).1)
            × (((publish envelope s.topic).0 ≡ ok tt) × (answer ≡ accepted (strip id))
                ⊎ (e : Exception) × ((publish envelope s.topic).0 ≡ raise e)
                  × (r : Refusal) × (answer ≡ refused r))
    unfolding receive_github_webhook finish
    receive_github_webhook-Authentic settings now request s =
        elim (Result-cases (validated_envelope decoder hmac settings now request)) [
          | inl ((envelope, id), e) ↦
              let (topic, answer) = publish_envelope-answer envelope id s in
              rw e (
                inr (
                  envelope,
                  id,
                  validated_envelope-Authentic settings now request envelope id e,
                  topic,
                  answer,
                ))
          | inr (r, e) ↦ rw e (inl (refl, r, refl))
        ]
