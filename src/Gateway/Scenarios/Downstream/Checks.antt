-- ===== src/Gateway/Scenarios/Downstream/Checks.antt =====
-- internal/opsgateway/mockdata.go: the signal checks of `downstreamInventoryScenario`.
use graph_ops.Base.{false, List, [], ◌∷◌}
use graph_ops.Gateway.Types.{SignalCheck}
use graph_ops.Gateway.Scenarios.Parts.{bits}

abbrev pub before_checks : List SignalCheck
before_checks =
    record {
      name = "error_rate";
      query_ref = "promql:error_rate:order-api";
      observed_value = bits 4621087282649523814;
      threshold = "<= 1.0";
      passed = false;
      summary = "Order traffic remains degraded while inventory-service is timing out.";
    }
    ∷ record {
      name = "p95_latency_ms";
      query_ref = "promql:p95_latency:order-api";
      observed_value = bits 4650599933957636096;
      threshold = "<= 300";
      passed = false;
      summary =
          "P95 latency remains elevated because the downstream dependency is still unhealthy.";
    }
    ∷ []

abbrev pub after_checks : List SignalCheck
after_checks =
    record {
      name = "error_rate";
      query_ref = "promql:error_rate:order-api";
      observed_value = bits 4620805807672813158;
      threshold = "<= 1.0";
      passed = false;
      summary = "Rolling back order-api does not remove the upstream timeout source.";
    }
    ∷ record {
      name = "p95_latency_ms";
      query_ref = "promql:p95_latency:order-api";
      observed_value = bits 4650256886329769984;
      threshold = "<= 300";
      passed = false;
      summary = "Latency remains degraded because inventory-service is still saturated.";
    }
    ∷ []
