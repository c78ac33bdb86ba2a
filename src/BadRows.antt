-- ===== src/BadRows.antt =====
-- common/bad_rows.py: the masking of payloads, the cutting of texts, and the context of a bad row. A
-- payload is a decoded JSON message. `json.dumps` is a parameter: the preview's text, with the keys
-- sorted, and the length of the payload's own text.
pub mod Masked
mod Examples
use coinwhale_data_pipeline.Prelude.{
  ℕ, zero, suc, ltb, String, ◌<>◌, Bool, true, false, Option, none, some, List, [], ◌∷◌, any, ◌=ˢ◌,
  if◌then◌else◌, lower, contains, prefix,
}
use Prim.Native.String.{count}
use coinwhale_data_pipeline.Value.{
  Value, null, bool, int, float, str, list, dict, Items, nil, cons, Fields, end, field,
}

-- `_SECRET_KEY_PATTERN.search`, without regard to case
unfoldable pub is_secret_key : String → Bool
is_secret_key key =
    any (λ word. contains (lower key) word)
      ("password" ∷ "passwd" ∷ "secret" ∷ "token" ∷ "apikey" ∷ "api_key" ∷ "api-key" ∷ [])

-- The limit of a list's items.
abbrev pub max_items : ℕ
max_items = 50

unfoldable mutual
  -- `_mask_payload`; of a list it keeps the first fifty items
  pub mask_payload : Value → Value
  mask_payload null = null
  mask_payload (bool b) = bool b
  mask_payload (int n) = int n
  mask_payload (float x) = float x
  mask_payload (str s) = str s
  mask_payload (list vs) = list (mask_items max_items vs)
  mask_payload (dict fs) = dict (mask_fields fs)

  pub mask_items : ℕ → Items → Items
  mask_items n nil = nil
  mask_items zero (cons v vs) = nil
  mask_items (suc n) (cons v vs) = cons (mask_payload v) (mask_items n vs)

  pub mask_fields : Fields → Fields
  mask_fields end = end
  mask_fields (field key v rest) =
      let masked = mask_payload v in
      field key (if is_secret_key key then str "***" else masked) (mask_fields rest)

-- A text that is longer than a limit is cut there, and says so.
unfoldable pub cut : ℕ → String → String
cut limit s = if ltb limit (count s) then prefix limit s <> "...[truncated]" else s

pub record Dumps : Type 0 where
  pub preview : Value → String
  pub size : Value → ℕ

unfoldable pub payload_preview : Dumps → Value → String
payload_preview d payload = cut 500 (d.preview (mask_payload payload))

unfoldable pub or_unknown : Option String → String
or_unknown none = "unknown"
or_unknown (some s) = if s =ˢ "" then "unknown" else s

-- What a bad row is reported with, without its time and its schema version.
pub record Context : Type 0 where
  pub error_type : String
  pub collector : String
  pub symbol : String
  pub source : String
  pub topic : String
  pub original_topic : String
  pub key : Option String
  pub reason : String
  pub payload_preview : String
  pub original_payload_size : ℕ

pub record Report : Type 0 where
  pub error_type : String
  pub collector : Option String
  pub symbol : Option String
  pub source : Option String
  pub topic : Option String
  pub original_topic : Option String
  pub key : Option String
  pub reason : String
  pub payload : Value

-- `original_topic or topic or "unknown"`
or_topic : Option String → Option String → String
unfolding or_unknown
or_topic none topic = or_unknown topic
or_topic (some s) topic = if s =ˢ "" then or_unknown topic else s

unfoldable pub build_bad_row_context : Dumps → Report → Context
unfolding or_topic
build_bad_row_context d r = record {
  error_type = r.error_type;
  collector = or_unknown r.collector;
  symbol = or_unknown r.symbol;
  source = or_unknown r.source;
  topic = or_unknown r.topic;
  original_topic = or_topic r.original_topic r.topic;
  key = r.key;
  reason = cut 300 r.reason;
  payload_preview = payload_preview d r.payload;
  original_payload_size = d.size r.payload;
}
