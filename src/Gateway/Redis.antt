-- ===== src/Gateway/Redis.antt =====
-- internal/opsgateway/redis.go. The Redis server is not part of the program: a client is a record of
-- the calls that the gateway makes, over a state `R` of the server.
use Prim.Native.String.{◌++◌ as concat}
use graph_ops.Base.{ℕ, ◌*◌, String, ◌==◌, Bool, List, [], ◌∷◌, if◌then◌else◌}
use graph_ops.Base.Result.{Result}
use graph_ops.Gateway.Requests.{RollbackRequest}

-- The lifetime of a key, in seconds.
abbrev pub rollback_idempotency_ttl : ℕ
rollback_idempotency_ttl = 24 * 3600

-- `SetNX`, `Set` and `Del`: a key, a value, a lifetime; a call may fail, and may have been carried
-- out all the same.
pub record RedisClient (R : Type 0) : Type 0 where
  pub set_nx : String → String → ℕ → R → Result String Bool × R
  pub set : String → String → ℕ → R → Result String (Unit {0}) × R
  pub del : String → R → Result String (Unit {0}) × R

unfoldable pub rollback_redis_key : RollbackRequest → String
rollback_redis_key req =
    concat "idemp:rollback:" (concat req.incident_id (concat ":" req.target_service))

unfoldable pub resolve_playbook_key : String → String
resolve_playbook_key playbook_key =
    if playbook_key == "" then "release_config_regression" else playbook_key

unfoldable pub first_non_empty : List String → String
first_non_empty [] = ""
first_non_empty (value ∷ values) =
    let rest = first_non_empty values in if value == "" then rest else value
