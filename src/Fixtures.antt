-- ===== src/Fixtures.antt =====
-- Concrete instances of what stands outside the repository's code, for the runs of the theorems.
pub mod Rollup
pub mod Store
use coinwhale_data_pipeline.Prelude.{
  ℕ, ◌+◌, ◌*◌, ◌^◌, pos, Bool, true, false, Option, none, some, [], ◌∷◌, ltb, leb,
}
use coinwhale_data_pipeline.Value.{Float, bits, PyFloats, ToInt, whole}
use coinwhale_data_pipeline.Routing.{Config}
use coinwhale_data_pipeline.Ledger.{Contract}
use coinwhale_data_pipeline.Rest.{Arithmetic}

abbrev pub float_nonzero : Float → Bool
float_nonzero (bits n) = ltb 0 n

abbrev pub float_lt : Float → Float → Bool
float_lt (bits a) (bits b) = ltb a b

abbrev pub float_le : Float → Float → Bool
float_le (bits a) (bits b) = leb a b

abbrev pub float_int : Float → ToInt
float_int (bits n) = whole (pos n)

-- Floats that are whole and not negative, each with itself for its bits.
abbrev pub floats : PyFloats
floats = record {
  nonzero = float_nonzero;
  lt = float_lt;
  le = float_le;
  of_text = λ s. none;
  of_int = λ n. none;
  to_int = float_int;
  repr = λ v. "0";
  eq = λ a b. false;
}

abbrev pub float_add : Float → Float → Float
float_add (bits a) (bits b) = bits (a + b)

abbrev pub float_mul : Float → Float → Float
float_mul (bits a) (bits b) = bits (a * b)

-- Everything above two to the third overflows.
abbrev pub float_scale : Float → ℕ → Option Float
float_scale (bits a) n = elim (leb n 3) [ true ↦ some (bits (a * 2 ^ n)) | false ↦ none ]

abbrev pub arithmetic : Arithmetic
arithmetic = record {
  py = floats;
  zero = bits 0;
  one = bits 1;
  two = bits 2;
  add = float_add;
  sub = λ a b. a;
  mul = float_mul;
  scale = float_scale;
  http_date = λ s. none;
}

-- Six partitions for the hot topics, two routing symbols.
abbrev pub config : Config
config = record {
  default_partitions = pos 1;
  hot_topic_partitions = pos 6;
  active_lanes = [];
  active_lanes_env = "";
  routing_symbols = "BTCUSDT" ∷ "ETHUSDT" ∷ [];
  blake2b = λ s. 0 ∷ 7 ∷ [];
  py = floats;
}

abbrev pub contract : Contract
contract = record { py = floats; sha256 = λ key. key.checkpoint_path }
