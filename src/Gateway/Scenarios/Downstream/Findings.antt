-- ===== src/Gateway/Scenarios/Downstream/Findings.antt =====
-- internal/opsgateway/mockdata.go: the comparisons and the anomalies of `downstreamInventoryScenario`.
use graph_ops.Base.{List, [], ◌∷◌}
use graph_ops.Gateway.Types.{MetricComparison, AnomalyFinding}
use graph_ops.Gateway.Scenarios.Parts.{Arithmetic, bits, metric_comparison, anomaly_finding}

abbrev pub release_comparisons : Arithmetic → List MetricComparison
release_comparisons arithmetic =
    metric_comparison arithmetic "avg_response_time_ms" "告警窗口平均响应时间变化" (bits 4636385447633747968)
      (bits 4648383318516039680) "ms"
      "Average latency increased by 493ms during the dependency outage."
    ∷ metric_comparison arithmetic "p95_latency_ms" "告警窗口 P95 延迟变化" (bits 4638566878703255552)
        (bits 4650599933957636096) "ms"
        "P95 latency increased by 714ms during the dependency outage."
    ∷ metric_comparison arithmetic "http_5xx_rate" "告警窗口 5xx 错误率变化" (bits 4599075939470750515)
        (bits 4621087282649523814) "%"
        "5xx error rate increased by 8.4 percentage points during the dependency outage."
    ∷ metric_comparison arithmetic "mq_backlog" "告警窗口 MQ 堆积量变化" (bits 4624070917402656768)
        (bits 4661339963537752064) "messages"
        "MQ backlog increased sharply during the dependency outage."
    ∷ []

abbrev pub anomalies : List AnomalyFinding
anomalies =
    anomaly_finding "timeout_rate" "critical" "超时率升到 9.4%，主要错误模式来自对 inventory-service 的超时调用。"
      "优先联系下游服务负责人，检查库存服务线程池、数据库连接池和超时重试配置。"
    ∷ anomaly_finding "p95_latency_ms" "high" "P95 延迟升到 840ms，说明上游服务正在承受下游阻塞传播。"
        "不要先回滚上游发布，优先验证下游依赖是否已经恢复。"
    ∷ anomaly_finding "http_5xx_rate" "high" "5xx 错误率升到 8.7%，但日志和变更证据并不支持本地发布回归。"
        "结合 Change Agent 结论，避免误回滚，把排障重点放在 dependency path。"
    ∷ anomaly_finding "db_slow_queries" "high" "数据库慢查询数飙升到 86 次/分钟，说明下游存储已经成为瓶颈。"
        "检查库存服务数据库执行计划、慢 SQL 和连接池配置。"
    ∷ anomaly_finding "redis_hit_rate" "medium" "Redis 命中率跌到 63.5%，说明缓存未能有效保护下游存储。"
        "检查缓存预热、TTL 设置和热点 key，避免缓存失效放大数据库压力。"
    ∷ anomaly_finding "mq_backlog" "high" "MQ 堆积量达到 4200，异步链路正在持续积压。"
        "检查消费者吞吐、消费报错和下游依赖阻塞，必要时扩容消费者。"
    ∷ []
