-- ===== src/Value.antt =====
-- The Python values that a decoded JSON message holds, and what the collectors ask of them:
-- truth, `dict.get`, `str`. A float is its bit pattern; what Python's float functions answer is a
-- parameter of the definitions that ask.
use coinwhale_data_pipeline.Prelude.{
  ℕ, zero, suc, ℤ, pos, negsuc, String, Bool, true, false, not, Option, ◌=ˢ◌, if◌then◌else◌, show_ℤ,
  eqb_ℤ,
}

pub data Float : Type 0 where
  bits : ℕ → Float

mutual
  pub data Value : Type 0 where
    null : Value
    bool : Bool → Value
    int : ℤ → Value
    float : Float → Value
    str : String → Value
    list : Items → Value
    dict : Fields → Value

  pub data Fields : Type 0 where
    end : Fields
    field : String → Value → Fields → Fields

  pub data Items : Type 0 where
    nil : Items
    cons : Value → Items → Items

-- `payload.get(key)`; `null` stands for Python's `None`, for a missing key too.
unfoldable pub get : Fields → String → Value
get end key = null
get (field k v rest) key = if k =ˢ key then v else get rest key

unfoldable pub has_key : Fields → String → Bool
has_key end key = false
has_key (field k v rest) key = if k =ˢ key then true else has_key rest key

-- `value in (None, "")`
unfoldable pub is_blank : Value → Bool
is_blank null = true
is_blank (str s) = s =ˢ ""
is_blank _ = false

-- `int(x)` of a float: a `ValueError` at a NaN, an `OverflowError` at an infinity
pub data ToInt : Type 0 where
  whole : ℤ → ToInt
  not_a_number infinite : ToInt

-- What CPython answers about floats and about printing: documented behaviour, not code of the
-- repository.
pub record PyFloats : Type 0 where
  -- `x != 0.0`
  pub nonzero : Float → Bool
  pub lt : Float → Float → Bool
  pub le : Float → Float → Bool
  -- `float(text)`: `none` is the `ValueError`
  pub of_text : String → Option Float
  -- `float(n)`: `none` is the `OverflowError`
  pub of_int : ℤ → Option Float
  pub to_int : Float → ToInt
  -- `str` of a float, a list or a dict
  pub repr : Value → String
  -- `==` where a float, a list or a dict is compared
  pub eq : Value → Value → Bool

-- a `bool` is the number 0 or 1
as_int : Bool → ℤ
as_int false = pos 0
as_int true = pos 1

module _ (py : PyFloats) where
  -- `bool(value)`
  unfoldable pub truthy : Value → Bool
  truthy null = false
  truthy (bool b) = b
  truthy (int (pos zero)) = false
  truthy (int (pos (suc n))) = true
  truthy (int (negsuc n)) = true
  truthy (float x) = py.nonzero x
  truthy (str s) = not (s =ˢ "")
  truthy (list nil) = false
  truthy (list (cons v vs)) = true
  truthy (dict end) = false
  truthy (dict (field k v fs)) = true

  -- `str(value)`
  unfoldable pub show : Value → String
  show null = "None"
  show (bool true) = "True"
  show (bool false) = "False"
  show (int n) = show_ℤ n
  show (float x) = py.repr (float x)
  show (str s) = s
  show (list vs) = py.repr (list vs)
  show (dict fs) = py.repr (dict fs)

  -- `a == b`
  unfoldable pub equal : Value → Value → Bool
  unfolding as_int
  equal null null = true
  equal null _ = false
  equal (str s) (str t) = s =ˢ t
  equal (str s) (float x) = false
  equal (str s) (list vs) = false
  equal (str s) (dict fs) = false
  equal (str s) _ = false
  equal (bool a) (bool b) = eqb_ℤ (as_int a) (as_int b)
  equal (bool a) (int n) = eqb_ℤ (as_int a) n
  equal (bool a) null = false
  equal (bool a) (str s) = false
  equal (int n) (bool b) = eqb_ℤ n (as_int b)
  equal (int n) (int m) = eqb_ℤ n m
  equal (int n) null = false
  equal (int n) (str s) = false
  equal a b = py.eq a b

  -- `a or b`
  unfoldable pub or_else : Value → Value → Value
  unfolding truthy
  or_else a b = if truthy a then a else b
