-- ===== src/Webhook/Models/Valid.antt =====
-- src/github_analytics/webhook/models.py: the constraints that every envelope satisfies, however it
-- was made.
use github_delivery_intellig.Common.{◌≡◌, ℤ, Option, some, arith}
use github_delivery_intellig.Common.Text.{Text, text}
use github_delivery_intellig.Common.Text.Strip.{trim-trim}
use github_delivery_intellig.Common.Json.{Json, Fields, get}
use github_delivery_intellig.Common.Maybe.{bound}
use github_delivery_intellig.Common.Time.{Datetime}
use github_delivery_intellig.Webhook.Models.{
  Decoder, GitHubEventName, Envelope, nonempty_string, full_name, positive, aware_datetime,
  webhook_payload, from_webhook, required, required_object,
}

-- Each field passes its own constraint, which leaves it as it is.
pub record IsValid (e : Envelope) : Type 0 where
  pub id_kept : nonempty_string e.delivery_id ≡ some e.delivery_id
  pub action_kept : nonempty_string e.action ≡ some e.action
  pub installation_kept : positive e.installation_id ≡ some e.installation_id
  pub repository_kept : positive e.repository_id ≡ some e.repository_id
  pub name_kept : full_name e.repository_full_name ≡ some e.repository_full_name
  pub time_kept : aware_datetime e.received_at ≡ some e.received_at

nonempty_string-kept : (s t : Text) → nonempty_string s ≡ some t → nonempty_string t ≡ some t
unfolding nonempty_string
nonempty_string-kept s t h = ground (arith, trim-trim s)

full_name-kept : (s t : Text) → full_name s ≡ some t → full_name t ≡ some t
unfolding full_name
full_name-kept s t h = ground (arith, trim-trim s)

positive-kept : (n m : ℤ) → positive n ≡ some m → positive m ≡ some m
unfolding positive
positive-kept n m h = ground arith

aware-kept : (s t : Datetime) → aware_datetime s ≡ some t → aware_datetime t ≡ some t
unfolding aware_datetime
aware-kept s t h = ground arith

module _ (decoder : Decoder) where
  -- What a required field gives has passed its constraint.
  required-kept {ℓ κ μ} :
      {A : Type ℓ} {B : Type κ} {P : Type μ} (convert : Json → Option A) (constrain : A → Option B)
      (name : Text) (fields : Fields) {b : B}
      → required decoder convert constrain name fields ≡ some b
      → ((a : A) → constrain a ≡ some b → P)
      → P
  required-kept convert constrain name fields h k =
      bound (get name fields) _ h λ v e₁ h₁. bound (convert v) _ h₁ λ a e₂ h₂. k a h₂

  webhook_payload-kept :
      (payload : Fields) (action : Text) (installation_id repository_id : ℤ) (name : Text)
      → webhook_payload decoder payload ≡ some (action, installation_id, repository_id, name)
      → (nonempty_string action ≡ some action)
        × (positive installation_id ≡ some installation_id)
        × (positive repository_id ≡ some repository_id)
        × (full_name name ≡ some name)
  unfolding webhook_payload
  webhook_payload-kept payload action i r name h =
      bound (required decoder decoder.to_text nonempty_string (text "action") payload) _ h
        λ a e₁ h₁. bound (required_object decoder (text "installation") payload) _ h₁ λ inst e₂ h₂.
          bound (required decoder decoder.to_int positive (text "id") inst) _ h₂ λ i' e₃ h₃.
            bound (required_object decoder (text "repository") payload) _ h₃ λ repo e₄ h₄.
              bound (required decoder decoder.to_int positive (text "id") repo) _ h₄ λ r' e₅ h₅.
                bound (required decoder decoder.to_text full_name (text "full_name") repo) _ h₅
                  λ n' e₆ h₆.
                    let a-kept : nonempty_string a ≡ some a =
                      required-kept decoder.to_text nonempty_string (text "action") payload e₁
                        λ x k. nonempty_string-kept x a k in
                    let i-kept : positive i' ≡ some i' =
                      required-kept decoder.to_int positive (text "id") inst e₃
                        λ x k. positive-kept x i' k in
                    let r-kept : positive r' ≡ some r' =
                      required-kept decoder.to_int positive (text "id") repo e₅
                        λ x k. positive-kept x r' k in
                    let n-kept : full_name n' ≡ some n' =
                      required-kept decoder.to_text full_name (text "full_name") repo e₆
                        λ x k. full_name-kept x n' k in
                    ground arith

  -- An envelope that the receiver builds is valid.
  pub from_webhook-IsValid :
      (id : Text) (name : GitHubEventName) (at : Datetime) (payload : Fields) (e : Envelope)
      → from_webhook decoder id name at payload ≡ some e
      → IsValid e
  unfolding from_webhook
  from_webhook-IsValid id name at payload e h =
      bound (webhook_payload decoder payload) _ h λ fields e₁ h₁.
        bound (nonempty_string id) _ h₁ λ id' e₂ h₂. bound (aware_datetime at) _ h₂ λ at' e₃ h₃.
          let kept = webhook_payload-kept payload fields.0 fields.1 fields.2 fields.3 e₁ in
          let same : e ≡ record {
            delivery_id = id';
            event_name = name;
            action = fields.0;
            installation_id = fields.1;
            repository_id = fields.2;
            repository_full_name = fields.3;
            received_at = at';
            payload = payload;
          } =
            cc in
          rw same record {
            id_kept = nonempty_string-kept id id' e₂;
            action_kept = kept.0;
            installation_kept = kept.1;
            repository_kept = kept.2;
            name_kept = kept.3;
            time_kept = aware-kept at at' e₃;
          }
