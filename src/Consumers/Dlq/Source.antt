-- ===== src/Consumers/Dlq/Source.antt =====
-- src/github_analytics/consumers/dlq.py: what a dead letter keeps of the poison bytes, which is
-- the delivery id where they expose one, and the bytes in base64.
use github_delivery_intellig.Common.{
  ℕ, ◌+◌, ◌-◌, ◌*◌, ◌/◌, ◌%◌, Bool, false, ◌&&◌, leb, any, Option, none, some, List, [], ◌∷◌,
  if◌then◌else◌, ltb, ◌==◌,
}
use github_delivery_intellig.Common.Text.{Text, text, strip, is_blank}
use github_delivery_intellig.Common.Json.{Json, get, as_object, as_text}
use github_delivery_intellig.Common.Result.{Result, ok, raise}
use github_delivery_intellig.Common.Exception.{Exception}
use github_delivery_intellig.Common.Maybe.{◌>>=◌}
use github_delivery_intellig.Webhook.Models.{Bytes, Decoder, parsed, undecodable, escaping}

-- `delivery_id.strip()`, where that is not empty.
stripped : Text → Option Text
stripped id = if is_blank id then none else some (strip id)

-- The text under the key `delivery_id` of an object, stripped.
delivery_id_of : Json → Option Text
unfolding stripped
delivery_id_of decoded = do
  fields ← as_object decoded
  found ← get (text "delivery_id") fields
  id ← as_text found
  stripped id

-- `_extract_delivery_id`
unfoldable pub extract_delivery_id : Decoder → Option Bytes → Result Exception (Option Text)
unfolding delivery_id_of
extract_delivery_id decoder none = ok none
extract_delivery_id decoder (some bytes) = elim (decoder.loads bytes) [
  | parsed decoded ↦ ok (delivery_id_of decoded)
  | undecodable ↦ ok none
  | escaping e ↦ raise e
]

-- A text that pydantic refuses, since it holds half of a surrogate pair.
unfoldable pub has_surrogate : Option Text → Bool
has_surrogate none = false
has_surrogate (some s) = any (λ c. leb 0xd800 c && leb c 0xdfff) s.points

-- The base64 digit of a number below 64.
unfoldable pub digit : ℕ → ℕ
digit n =
    if ltb n 26
    then n + b'A'
    else if ltb n 52
    then n - 26 + b'a'
    else if ltb n 62
    then n - 52 + b'0'
    else if n == 62
    then b'+'
    else b'/'

-- `base64.b64encode(value).decode("ascii")`, three octets at a time.
unfoldable pub b64encode : List ℕ → List ℕ
unfolding digit
b64encode [] = []
b64encode (a ∷ []) = digit (a / 4) ∷ digit (a % 4 * 16) ∷ b'=' ∷ b'=' ∷ []
b64encode (a ∷ b ∷ []) =
    digit (a / 4) ∷ digit (a % 4 * 16 + b / 16) ∷ digit (b % 16 * 4) ∷ b'=' ∷ []
b64encode (a ∷ b ∷ c ∷ rest) =
    digit (a / 4)
    ∷ digit (a % 4 * 16 + b / 16)
    ∷ digit (b % 16 * 4 + c / 64)
    ∷ digit (c % 64)
    ∷ b64encode rest

-- `_encode_optional_bytes`
unfoldable pub encode_optional_bytes : Option Bytes → Option Text
encode_optional_bytes value = do bytes ← value; some record { points = b64encode bytes.octets }
