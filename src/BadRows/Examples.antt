-- ===== src/BadRows/Examples.antt =====
-- A run of the masking on a payload with a token in a nested object.
use coinwhale_data_pipeline.Value.{Value, str, list, dict, nil, cons, end, field}
use coinwhale_data_pipeline.BadRows.{mask_payload}
use coinwhale_data_pipeline.BadRows.Masked.{HidesSecrets, mask_payload-HidesSecrets}

abbrev payload : Value
payload = dict (
    field "symbol" (str "BTCUSDT") (
      field "auth" (dict (field "Api-Key" (str "abc") end))
        (field "tags" (list (cons (str "a") nil)) end)))

mask_payload-HidesSecrets_example : HidesSecrets (mask_payload payload)
mask_payload-HidesSecrets_example = mask_payload-HidesSecrets payload
