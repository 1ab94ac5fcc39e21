-- ===== src/Gateway/Scenarios/Release/Items.antt =====
-- internal/opsgateway/mockdata.go: the evidence of `releaseRegressionScenario`.
use graph_ops.Base.{String, List, [], ◌∷◌}
use graph_ops.Gateway.Types.{EvidenceItem}
use graph_ops.Gateway.Scenarios.Parts.{bits}
use Prim.Native.String.{◌++◌ as concat}

abbrev pub change_items : String → List EvidenceItem
change_items suffix =
    record {
      source_ref = concat "deploy/order-api@2026.04.17-0155" suffix;
      summary = "order-api released 8 minutes before the alert with a configuration bundle update.";
      confidence = bits 4606641986844732948;
    }
    ∷ record {
      source_ref = concat "config/order-api/db-dsn" suffix;
      summary = "Database DSN and pool settings changed in the same release window.";
      confidence = bits 4606461842859638129;
    }
    ∷ []

abbrev pub log_items : String → List EvidenceItem
log_items suffix =
    record {
      source_ref = concat "logs/order-api#db-auth" suffix;
      summary =
          "High-frequency errors show invalid connection string and database authentication failures.";
      confidence = bits 4606912202822375178;
    }
    ∷ record {
      source_ref = concat "logs/order-api#error-cluster-1" suffix;
      summary =
          "The error spike starts immediately after the release and stays local to order-api.";
      confidence = bits 4606281698874543309;
    }
    ∷ []

abbrev pub dependency_items : String → List EvidenceItem
dependency_items suffix =
    record {
      source_ref = concat "dep/order-api->inventory-service" suffix;
      summary = "No downstream error amplification detected on inventory-service.";
      confidence = bits 4605200834963974390;
    }
    ∷ record {
      source_ref = concat "dep/order-api->payment-service" suffix;
      summary =
          "payment-service remains healthy; the blast radius is currently limited to order-api.";
      confidence = bits 4605561122934164029;
    }
    ∷ []
