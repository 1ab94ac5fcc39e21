-- ===== src/Gateway/Scenarios/Downstream/Metrics.antt =====
-- internal/opsgateway/mockdata.go: the metrics of `downstreamInventoryScenario`.
use graph_ops.Base.{true, false, List, [], ◌∷◌}
use graph_ops.Gateway.Types.{MetricObservation}
use graph_ops.Gateway.Scenarios.Parts.{bits, metric_observation}

abbrev pub release_baseline_metrics : List MetricObservation
release_baseline_metrics =
    metric_observation "timeout_rate" "超时率" "before_release" (bits 4596373779694328218) "%" "<= 1.0"
      false "Timeout rate was healthy before the dependency outage."
    ∷ metric_observation "avg_response_time_ms" "接口平均响应时间" "before_release"
        (bits 4636385447633747968) "ms" "<= 150" false
        "Average response time was healthy before the outage."
    ∷ metric_observation "p95_latency_ms" "P95 延迟" "before_release" (bits 4638566878703255552) "ms"
        "<= 300" false "P95 latency was healthy before the outage."
    ∷ metric_observation "p99_latency_ms" "P99 延迟" "before_release" (bits 4642296422144671744) "ms"
        "<= 500" false "P99 latency was healthy before the outage."
    ∷ metric_observation "requests_per_minute" "每分钟请求量" "before_release" (bits 4670635784594784256)
        "rpm" ">= 15000" false "Traffic volume was normal before the outage."
    ∷ metric_observation "http_4xx_rate" "4xx 比例" "before_release" (bits 4602678819172646912) "%"
        "<= 2.0" false "4xx ratio was normal before the outage."
    ∷ metric_observation "http_5xx_rate" "5xx 错误率" "before_release" (bits 4599075939470750515) "%"
        "<= 1.0" false "5xx ratio was healthy before the outage."
    ∷ metric_observation "gc_count" "GC 次数" "before_release" (bits 4619567317775286272) "count/min"
        "<= 20" false "GC frequency was normal before the outage."
    ∷ metric_observation "gc_pause_ms" "GC 耗时" "before_release" (bits 4625196817309499392) "ms"
        "<= 50" false "GC pause time was normal before the outage."
    ∷ metric_observation "db_slow_queries" "数据库慢查询数" "before_release" (bits 4618441417868443648)
        "count/min" "<= 10" false "Slow query volume was normal before the outage."
    ∷ metric_observation "redis_hit_rate" "Redis 命中率" "before_release" (bits 4636483963875596698)
        "%" ">= 90" false "Cache hit ratio was healthy before the outage."
    ∷ metric_observation "mq_backlog" "MQ 堆积量" "before_release" (bits 4624070917402656768)
        "messages" "<= 100" false "Message backlog was negligible before the outage."
    ∷ []

abbrev pub alert_window_metrics : List MetricObservation
alert_window_metrics =
    metric_observation "timeout_rate" "超时率" "alert_window" (bits 4621481347616918733) "%" "<= 1.0"
      true "Timeout rate is driven by the degraded inventory-service dependency."
    ∷ metric_observation "avg_response_time_ms" "接口平均响应时间" "alert_window" (bits 4648383318516039680)
        "ms" "<= 150" true
        "Average response time increased because downstream calls are timing out."
    ∷ metric_observation "p95_latency_ms" "P95 延迟" "alert_window" (bits 4650599933957636096) "ms"
        "<= 300" true "P95 latency is elevated due to dependency saturation."
    ∷ metric_observation "p99_latency_ms" "P99 延迟" "alert_window" (bits 4653784119631675392) "ms"
        "<= 500" true "P99 latency confirms severe tail degradation from downstream blocking."
    ∷ metric_observation "requests_per_minute" "每分钟请求量" "alert_window" (bits 4670380148141326336)
        "rpm" ">= 15000" false
        "Traffic remained steady, so the issue is not caused by a traffic cliff."
    ∷ metric_observation "http_4xx_rate" "4xx 比例" "alert_window" (bits 4605380978949069210) "%"
        "<= 2.0" false "4xx ratio remained low during the outage."
    ∷ metric_observation "http_5xx_rate" "5xx 错误率" "alert_window" (bits 4621087282649523814) "%"
        "<= 1.0" true
        "5xx ratio increased because upstream requests are failing after dependency timeouts."
    ∷ metric_observation "gc_count" "GC 次数" "alert_window" (bits 4625759767262920704) "count/min"
        "<= 20" false "GC frequency increased slightly but is not the dominant signal."
    ∷ metric_observation "gc_pause_ms" "GC 耗时" "alert_window" (bits 4630544841867001856) "ms"
        "<= 50" false "GC pause stayed under threshold during the dependency outage."
    ∷ metric_observation "db_slow_queries" "数据库慢查询数" "alert_window" (bits 4635752128936148992)
        "count/min" "<= 10" true "Downstream storage is showing a surge in slow queries."
    ∷ metric_observation "redis_hit_rate" "Redis 命中率" "alert_window" (bits 4634133647820062720) "%"
        ">= 90" true
        "Redis hit rate dropped during the dependency incident, increasing database pressure."
    ∷ metric_observation "mq_backlog" "MQ 堆积量" "alert_window" (bits 4661339963537752064) "messages"
        "<= 100" true "MQ backlog built up because downstream consumers were stalled."
    ∷ []

abbrev pub after_rollback_metrics : List MetricObservation
after_rollback_metrics =
    metric_observation "timeout_rate" "超时率" "after_rollback" (bits 4621199872640208077) "%" "<= 1.0"
      true "Timeout rate remained high because rollback did not remove the downstream fault."
    ∷ metric_observation "avg_response_time_ms" "接口平均响应时间" "after_rollback"
        (bits 4648145824004440064) "ms" "<= 150" true
        "Average response time remained elevated after rollback."
    ∷ metric_observation "p95_latency_ms" "P95 延迟" "after_rollback" (bits 4650256886329769984) "ms"
        "<= 300" true "P95 remained degraded because the dependency is still unhealthy."
    ∷ metric_observation "p99_latency_ms" "P99 延迟" "after_rollback" (bits 4653520236841009152) "ms"
        "<= 500" true "Tail latency remained elevated after rollback."
    ∷ metric_observation "requests_per_minute" "每分钟请求量" "after_rollback" (bits 4670349911571562496)
        "rpm" ">= 15000" false "Traffic volume remained steady after rollback."
    ∷ metric_observation "http_4xx_rate" "4xx 比例" "after_rollback" (bits 4604480259023595110) "%"
        "<= 2.0" false "4xx ratio stayed low after rollback."
    ∷ metric_observation "http_5xx_rate" "5xx 错误率" "after_rollback" (bits 4620805807672813158) "%"
        "<= 1.0" true "5xx ratio remained above threshold after rollback."
    ∷ metric_observation "gc_count" "GC 次数" "after_rollback" (bits 4625478292286210048) "count/min"
        "<= 20" false "GC frequency remained acceptable after rollback."
    ∷ metric_observation "gc_pause_ms" "GC 耗时" "after_rollback" (bits 4629981891913580544) "ms"
        "<= 50" false "GC pause remained below threshold after rollback."
    ∷ metric_observation "db_slow_queries" "数据库慢查询数" "after_rollback" (bits 4635259547726905344)
        "count/min" "<= 10" true
        "Slow query volume remained high because the dependency bottleneck still exists."
    ∷ metric_observation "redis_hit_rate" "Redis 命中率" "after_rollback" (bits 4634351790927013478)
        "%" ">= 90" true "Redis hit rate improved only slightly after rollback."
    ∷ metric_observation "mq_backlog" "MQ 堆积量" "after_rollback" (bits 4661036498328485888)
        "messages" "<= 100" true
        "MQ backlog remained high because the stalled dependency path was not fixed."
    ∷ []
