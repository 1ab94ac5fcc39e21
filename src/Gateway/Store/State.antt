-- ===== src/Gateway/Store/State.antt =====
-- internal/opsgateway/store.go: the state of `Store`, with the state of its Redis server and the
-- updates of the metrics so far.
use graph_ops.Base.{ℕ, String, Bool, List, [], ◌++◌}
use graph_ops.Base.Map
use graph_ops.Base.Map.{Map}
use graph_ops.Base.Result.{Result}
use graph_ops.Gateway.Types.{ActionReceipt}
use graph_ops.Gateway.Telemetry.{Sample}

-- `errUnknownScenario`, or an error with another text.
pub data GatewayError : Type 0 where
  unknown_scenario : GatewayError
  failed : String → GatewayError

abbrev pub Outcome : Type 0 → Type 0
Outcome A = Result GatewayError A

pub record Store (R : Type 0) : Type 0 where
  pub receipt_seq : ℕ
  pub receipts_by_key : Map ActionReceipt
  pub receipt_key_by_inc : Map String
  pub rolled_back_by_inc : Map Bool
  pub redis : R
  pub samples : List Sample

abbrev pub new_store : {R : Type 0} → R → Store R
new_store redis = record {
  receipt_seq = 0;
  receipts_by_key = Map.empty;
  receipt_key_by_inc = Map.empty;
  rolled_back_by_inc = Map.empty;
  redis = redis;
  samples = [];
}

abbrev pub emit : {R : Type 0} → List Sample → Store R → Store R
emit new s = record s { samples = s.samples ++ new }
