-- ===== src/BadRows/Masked.antt =====
-- common/bad_rows.py: what a masked payload shows.
use coinwhale_data_pipeline.Prelude.{
  ℕ, zero, suc, ◌≤◌, ◌≡◌, refl, Bool, true, false, arith, if◌then◌else◌,
}
use coinwhale_data_pipeline.Value.{
  Value, null, bool, int, float, str, list, dict, Items, nil, cons, Fields, end, field,
}
use coinwhale_data_pipeline.BadRows.{is_secret_key, mask_payload, mask_items, mask_fields}

abbrev items_count : Items → ℕ
items_count nil = 0
items_count (cons v vs) = suc (items_count vs)

unfoldable mutual
  -- At every depth, the value of a secret key is the mask, and a list has at most fifty items.
  pub HidesSecrets : Value → Type 0
  HidesSecrets null = Unit
  HidesSecrets (bool b) = Unit
  HidesSecrets (int n) = Unit
  HidesSecrets (float x) = Unit
  HidesSecrets (str s) = Unit
  HidesSecrets (list vs) = (items_count vs ≤ 50) × ItemsHide vs
  HidesSecrets (dict fs) = FieldsHide fs

  ItemsHide : Items → Type 0
  ItemsHide nil = Unit
  ItemsHide (cons v vs) = HidesSecrets v × ItemsHide vs

  FieldsHide : Fields → Type 0
  FieldsHide end = Unit
  FieldsHide (field key v rest) =
      (is_secret_key key ≡ true → v ≡ str "***") × HidesSecrets v × FieldsHide rest

items_count-mask_items : (n : ℕ) (vs : Items) → items_count (mask_items n vs) ≤ n
unfolding mask_items
items_count-mask_items n nil = omega arith
items_count-mask_items zero (cons v vs) = omega arith
items_count-mask_items (suc n) (cons v vs) = omega (arith, items_count-mask_items n vs)

chosen_hides : (b : Bool) (v : Value) → HidesSecrets v → HidesSecrets (if b then str "***" else v)
unfolding HidesSecrets
chosen_hides true v hides = tt
chosen_hides false v hides = hides

mutual
  unfolding mask_payload mask_items mask_fields HidesSecrets ItemsHide FieldsHide

  value_hides : (v : Value) → HidesSecrets (mask_payload v)
  value_hides null = tt
  value_hides (bool b) = tt
  value_hides (int n) = tt
  value_hides (float x) = tt
  value_hides (str s) = tt
  value_hides (list vs) = (items_count-mask_items 50 vs, items_hide 50 vs)
  value_hides (dict fs) = fields_hide fs

  items_hide : (n : ℕ) (vs : Items) → ItemsHide (mask_items n vs)
  items_hide n nil = tt
  items_hide zero (cons v vs) = tt
  items_hide (suc n) (cons v vs) = (value_hides v, items_hide n vs)

  fields_hide : (fs : Fields) → FieldsHide (mask_fields fs)
  fields_hide end = tt
  fields_hide (field key v rest) =
      let shown = value_hides v in
      (
        λ secret. rw secret refl,
        chosen_hides (is_secret_key key) (mask_payload v) shown,
        fields_hide rest,
      )

-- A masked payload hides its secrets at every depth: the value under a key that looks like a password,
-- a secret, a token or an API key is the mask, and every list has at most fifty items.
pub mask_payload-HidesSecrets : (v : Value) → HidesSecrets (mask_payload v)
mask_payload-HidesSecrets v = value_hides v
