-- ===== src/Gateway/Scenarios/Release/Metrics.antt =====
-- internal/opsgateway/mockdata.go: the metrics of `releaseRegressionScenario`.
use graph_ops.Base.{true, false, List, [], ◌∷◌}
use graph_ops.Gateway.Types.{MetricObservation}
use graph_ops.Gateway.Scenarios.Parts.{bits, metric_observation}

abbrev pub release_baseline_metrics : List MetricObservation
release_baseline_metrics =
    metric_observation "timeout_rate" "超时率" "before_release" (bits 4591870180066957722) "%" "<= 1.0"
      false "Timeout rate stayed within the healthy baseline before the release."
    ∷ metric_observation "avg_response_time_ms" "接口平均响应时间" "before_release"
        (bits 4636174341401214976) "ms" "<= 150" false
        "Average response time was stable before the release window."
    ∷ metric_observation "p95_latency_ms" "P95 延迟" "before_release" (bits 4638144666238189568) "ms"
        "<= 300" false "P95 latency was healthy before the release."
    ∷ metric_observation "p99_latency_ms" "P99 延迟" "before_release" (bits 4641592734702895104) "ms"
        "<= 500" false "P99 latency was healthy before the release."
    ∷ metric_observation "requests_per_minute" "每分钟请求量" "before_release" (bits 4670731991862214656)
        "rpm" ">= 15000" false "Traffic volume was normal before the release."
    ∷ metric_observation "http_4xx_rate" "4xx 比例" "before_release" (bits 4600877379321698714) "%"
        "<= 2.0" false "Client-side errors were low before the release."
    ∷ metric_observation "http_5xx_rate" "5xx 错误率" "before_release" (bits 4596373779694328218) "%"
        "<= 1.0" false "Server-side errors were low before the release."
    ∷ metric_observation "gc_count" "GC 次数" "before_release" (bits 4618441417868443648) "count/min"
        "<= 20" false "GC frequency was normal before the release."
    ∷ metric_observation "gc_pause_ms" "GC 耗时" "before_release" (bits 4622945017495814144) "ms"
        "<= 50" false "GC pause time was stable before the release."
    ∷ metric_observation "db_slow_queries" "数据库慢查询数" "before_release" (bits 4613937818241073152)
        "count/min" "<= 10" false "Slow SQL volume was normal before the release."
    ∷ metric_observation "redis_hit_rate" "Redis 命中率" "before_release" (bits 4636582480117445427)
        "%" ">= 90" false "Cache hit ratio was healthy before the release."
    ∷ metric_observation "mq_backlog" "MQ 堆积量" "before_release" (bits 4620693217682128896)
        "messages" "<= 100" false "Message backlog was negligible before the release."
    ∷ []

abbrev pub alert_window_metrics : List MetricObservation
alert_window_metrics =
    metric_observation "timeout_rate" "超时率" "alert_window" (bits 4619342137793917747) "%" "<= 1.0"
      true "Timeout rate surged after the release and directly affected user traffic."
    ∷ metric_observation "avg_response_time_ms" "接口平均响应时间" "alert_window" (bits 4648840715353194496)
        "ms" "<= 150" true "Average response time spiked immediately after the release."
    ∷ metric_observation "p95_latency_ms" "P95 延迟" "alert_window" (bits 4651831386980745216) "ms"
        "<= 300" true "P95 latency is far above the rollback decision threshold."
    ∷ metric_observation "p99_latency_ms" "P99 延迟" "alert_window" (bits 4654487807073452032) "ms"
        "<= 500" true "Tail latency confirms severe user-facing degradation."
    ∷ metric_observation "requests_per_minute" "每分钟请求量" "alert_window" (bits 4670512089536659456)
        "rpm" ">= 15000" false
        "Traffic stayed near baseline, so the spike is unlikely to be caused by traffic collapse."
    ∷ metric_observation "http_4xx_rate" "4xx 比例" "alert_window" (bits 4608083138725491507) "%"
        "<= 2.0" false "4xx ratio increased slightly but is not the dominant failure mode."
    ∷ metric_observation "http_5xx_rate" "5xx 错误率" "alert_window" (bits 4623170197477182669) "%"
        "<= 1.0" true "5xx error rate surged in the same window as the release."
    ∷ metric_observation "gc_count" "GC 次数" "alert_window" (bits 4629981891913580544) "count/min"
        "<= 20" true "GC frequency increased under retry and connection churn pressure."
    ∷ metric_observation "gc_pause_ms" "GC 耗时" "alert_window" (bits 4639305750517121024) "ms"
        "<= 50" true "GC pause time increased and contributed to latency amplification."
    ∷ metric_observation "db_slow_queries" "数据库慢查询数" "alert_window" (bits 4633359591634108416)
        "count/min" "<= 10" true "Slow SQL count rose sharply after the configuration regression."
    ∷ metric_observation "redis_hit_rate" "Redis 命中率" "alert_window" (bits 4635625465196629197) "%"
        ">= 90" true
        "Cache hit rate dropped during the incident because retries increased database pressure."
    ∷ metric_observation "mq_backlog" "MQ 堆积量" "alert_window" (bits 4648664793492750336) "messages"
        "<= 100" true "Message backlog rose because downstream handlers slowed down."
    ∷ []

abbrev pub after_rollback_metrics : List MetricObservation
after_rollback_metrics =
    metric_observation "timeout_rate" "超时率" "after_rollback" (bits 4596373779694328218) "%" "<= 1.0"
      false "Timeout rate returned to the healthy baseline after rollback."
    ∷ metric_observation "avg_response_time_ms" "接口平均响应时间" "after_rollback"
        (bits 4635892866424504320) "ms" "<= 150" false
        "Average response time recovered after rollback."
    ∷ metric_observation "p95_latency_ms" "P95 延迟" "after_rollback" (bits 4638003928749834240) "ms"
        "<= 300" false "P95 latency recovered after rollback."
    ∷ metric_observation "p99_latency_ms" "P99 延迟" "after_rollback" (bits 4641416812842450944) "ms"
        "<= 500" false "P99 latency returned to baseline after rollback."
    ∷ metric_observation "requests_per_minute" "每分钟请求量" "after_rollback" (bits 4670718247966867456)
        "rpm" ">= 15000" false "Traffic volume remained stable after rollback."
    ∷ metric_observation "http_4xx_rate" "4xx 比例" "after_rollback" (bits 4602678819172646912) "%"
        "<= 2.0" false "4xx ratio returned to normal after rollback."
    ∷ metric_observation "http_5xx_rate" "5xx 错误率" "after_rollback" (bits 4599075939470750515) "%"
        "<= 1.0" false "5xx error rate dropped back under the release guardrail."
    ∷ metric_observation "gc_count" "GC 次数" "after_rollback" (bits 4619567317775286272) "count/min"
        "<= 20" false "GC frequency normalized after rollback."
    ∷ metric_observation "gc_pause_ms" "GC 耗时" "after_rollback" (bits 4624070917402656768) "ms"
        "<= 50" false "GC pause time returned to baseline after rollback."
    ∷ metric_observation "db_slow_queries" "数据库慢查询数" "after_rollback" (bits 4616189618054758400)
        "count/min" "<= 10" false "Slow query volume returned to baseline."
    ∷ metric_observation "redis_hit_rate" "Redis 命中率" "after_rollback" (bits 4636533221996521062)
        "%" ">= 90" false "Redis hit rate recovered after rollback."
    ∷ metric_observation "mq_backlog" "MQ 堆积量" "after_rollback" (bits 4622945017495814144)
        "messages" "<= 100" false "Message backlog was drained after rollback."
    ∷ []
