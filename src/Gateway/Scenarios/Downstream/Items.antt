-- ===== src/Gateway/Scenarios/Downstream/Items.antt =====
-- internal/opsgateway/mockdata.go: the evidence of `downstreamInventoryScenario`.
use graph_ops.Base.{List, [], ◌∷◌}
use graph_ops.Gateway.Types.{EvidenceItem}
use graph_ops.Gateway.Scenarios.Parts.{bits}

abbrev pub change_items : List EvidenceItem
change_items =
    record {
      source_ref = "deploy/order-api@2026.04.16-2210";
      summary = "No relevant order-api change in the last 2 hours.";
      confidence = bits 4606551914852185539;
    }
    ∷ []

abbrev pub log_items : List EvidenceItem
log_items =
    record {
      source_ref = "logs/order-api#inventory-timeouts";
      summary = "order-api errors are dominated by timeouts when calling inventory-service.";
      confidence = bits 4606822130829827768;
    }
    ∷ record {
      source_ref = "logs/order-api#error-cluster-2";
      summary =
          "The top error pattern is upstream timeout rather than local configuration failure.";
      confidence = bits 4606371770867090719;
    }
    ∷ []

abbrev pub dependency_items : List EvidenceItem
dependency_items =
    record {
      source_ref = "dep/inventory-service#pool-exhaustion";
      summary =
          "inventory-service is degraded with database pool exhaustion; downstream propagation is likely.";
      confidence = bits 4606912202822375178;
    }
    ∷ record {
      source_ref = "dep/inventory-service#db-pool";
      summary = "inventory-service depends on a saturated database connection pool.";
      confidence = bits 4606461842859638129;
    }
    ∷ []
