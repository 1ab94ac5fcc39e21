-- ===== src/Gateway/Scenarios/Release/Checks.antt =====
-- internal/opsgateway/mockdata.go: the signal checks of `releaseRegressionScenario`.
use graph_ops.Base.{true, false, List, [], ◌∷◌}
use graph_ops.Gateway.Types.{SignalCheck}
use graph_ops.Gateway.Scenarios.Parts.{bits}

abbrev pub before_checks : List SignalCheck
before_checks =
    record {
      name = "error_rate";
      query_ref = "promql:error_rate:order-api";
      observed_value = bits 4623170197477182669;
      threshold = "<= 1.0";
      passed = false;
      summary = "HTTP 5xx ratio is above the rollback recovery threshold.";
    }
    ∷ record {
      name = "p95_latency_ms";
      query_ref = "promql:p95_latency:order-api";
      observed_value = bits 4651831386980745216;
      threshold = "<= 300";
      passed = false;
      summary = "P95 latency is elevated and confirms user-facing degradation.";
    }
    ∷ []

abbrev pub after_checks : List SignalCheck
after_checks =
    record {
      name = "error_rate";
      query_ref = "promql:error_rate:order-api";
      observed_value = bits 4599075939470750515;
      threshold = "<= 1.0";
      passed = true;
      summary = "5xx ratio returned to the healthy baseline after rollback.";
    }
    ∷ record {
      name = "p95_latency_ms";
      query_ref = "promql:p95_latency:order-api";
      observed_value = bits 4638003928749834240;
      threshold = "<= 300";
      passed = true;
      summary = "P95 latency recovered after reverting the bad release.";
    }
    ∷ []
