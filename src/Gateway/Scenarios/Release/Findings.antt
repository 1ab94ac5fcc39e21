-- ===== src/Gateway/Scenarios/Release/Findings.antt =====
-- internal/opsgateway/mockdata.go: the comparisons and the anomalies of `releaseRegressionScenario`.
use graph_ops.Base.{List, [], ◌∷◌}
use graph_ops.Gateway.Types.{MetricComparison, AnomalyFinding}
use graph_ops.Gateway.Scenarios.Parts.{Arithmetic, bits, metric_comparison, anomaly_finding}

abbrev pub release_comparisons : Arithmetic → List MetricComparison
release_comparisons arithmetic =
    metric_comparison arithmetic "avg_response_time_ms" "发布前后平均响应时间" (bits 4636174341401214976)
      (bits 4648840715353194496) "ms" "Average latency increased by 548ms after the release."
    ∷ metric_comparison arithmetic "p95_latency_ms" "发布前后 P95 延迟" (bits 4638144666238189568)
        (bits 4651831386980745216) "ms" "P95 latency increased by 860ms after the release."
    ∷ metric_comparison arithmetic "p99_latency_ms" "发布前后 P99 延迟" (bits 4641592734702895104)
        (bits 4654487807073452032) "ms" "P99 latency increased by 1330ms after the release."
    ∷ metric_comparison arithmetic "http_5xx_rate" "发布前后 5xx 错误率" (bits 4596373779694328218)
        (bits 4623170197477182669) "%"
        "5xx error rate surged by 12.2 percentage points after the release."
    ∷ []

abbrev pub anomalies : List AnomalyFinding
anomalies =
    anomaly_finding "http_5xx_rate" "critical" "发布后 5xx 错误率从 0.2% 激增到 12.4%，已经明显超出发布回滚阈值。"
      "优先核对最近发布中的配置变更、数据库连接串和连接池参数；若持续扩大，执行回滚。"
    ∷ anomaly_finding "timeout_rate" "high" "超时率升至 6.8%，说明用户请求已经受到明显影响。"
        "检查数据库连接建立、线程池和重试策略，必要时限流并快速回退异常版本。"
    ∷ anomaly_finding "p95_latency_ms" "high" "P95 从 120ms 升至 980ms，性能退化与错误峰值同时出现。"
        "结合日志与慢查询信息排查本地资源争用，必要时用上一稳定版本进行对照验证。"
    ∷ anomaly_finding "gc_pause_ms" "medium" "GC 停顿时间放大到 145ms，说明异常重试和对象抖动正在放大尾延迟。"
        "检查连接泄漏、对象分配热点和失败重试风暴，避免 GC 放大发布故障影响。"
    ∷ anomaly_finding "db_slow_queries" "medium" "数据库慢查询数显著上升，说明错误配置已经向存储侧放大。"
        "复核 SQL 连接参数、池大小和慢 SQL 来源，必要时在回滚后继续做数据库侧复盘。"
    ∷ []
