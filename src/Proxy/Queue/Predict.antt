-- ===== src/Proxy/Queue/Predict.antt =====
-- The predictions of `QueueManager` for one task. The regressors of proxy/metrics come in as an
-- interface: what the manager uses of them is their result.
use cache_route.Common.{
  ℕ, ◌+◌, ◌-◌, ◌*◌, ◌/◌, ◌%◌, ◌≡◌, ◌≤◌, ◌<◌, max, Option, none, some, if◌then◌else◌, arith,
  Bool-cases, inl, inr, refl,
}
use cache_route.Common.Text.{codes, text_eq, lower}
use cache_route.Common.Floats.{Floats, float_max}
use cache_route.Proxy.Queue.Task.{ProxyTask, ServicePrediction, injection_mode}

pub record Predictors (R : Type 0) : Type 0 where
  -- `queue_predictor(length=…, bs=1)`, in seconds
  pub prefill : ℕ → R
  -- `predict_redis_pull_ms(kvcache_size_gb=…)`
  pub redis_pull_ms : R → R
  -- `decode_tpot_predictor(length=…, bs=1)`; `none` if it raises
  pub tpot : ℕ → Option R

abbrev pub header_overhead_tokens : ℕ
header_overhead_tokens = 36

abbrev pub kv_align_tokens : ℕ
kv_align_tokens = 256

-- `_effective_knowledge_len`
unfoldable pub effective_knowledge_len : ℕ → ℕ
effective_knowledge_len n = n / kv_align_tokens * kv_align_tokens

whole_blocks :
    (n : ℕ)
    → (n / kv_align_tokens * kv_align_tokens ≤ n)
      × (n < n / kv_align_tokens * kv_align_tokens + kv_align_tokens)
      × (n / kv_align_tokens * kv_align_tokens % kv_align_tokens ≡ 0)
whole_blocks n = (omega arith, omega arith, omega arith)

module _ {R : Type 0} ⦃f : Floats R⦄ where
  -- `int(x * 1000)` of seconds
  abbrev pub to_ms : R → ℕ
  to_ms x = f.trunc (f.mul x (f.of_ℕ 1000))

  abbrev pub zero_s : R
  zero_s = f.of_ℕ 0

  -- `_KV_GB_PER_TOKEN`
  abbrev pub kv_gb_per_token : R
  kv_gb_per_token = f.div (f.of_ℕ 381) (f.of_ℕ 10_000_000)

module _ {R : Type 0} ⦃f : Floats R⦄ (p : Predictors R) where
  -- The branch of `_predict_prefill_service_s` for a task whose text goes into the prompt.
  text_service : ProxyTask R → R × ServicePrediction
  text_service t =
      let total_len = max 1 (t.prompt_len + t.knowledge_len + header_overhead_tokens) in
      let text_prefill_s = float_max zero_s (p.prefill total_len) in
      (
        text_prefill_s,
        record {
          text_prefill_ms = to_ms text_prefill_s;
          redis_kv_load_ms = 0;
          residual_prefill_ms = 0;
          total_tokens = total_len;
          reused_tokens = 0;
          residual_tokens = total_len;
        },
      )

  -- The branch for a task whose knowledge is loaded as key-value cache, in whole blocks.
  kvcache_service : ProxyTask R → R × ServicePrediction
  unfolding effective_knowledge_len
  kvcache_service t =
      let effective = effective_knowledge_len t.knowledge_len in
      let residual_tokens =
        max 1 (t.prompt_len + (t.knowledge_len - effective) + header_overhead_tokens) in
      let redis_kv_load_ms = p.redis_pull_ms (f.mul (f.of_ℕ effective) kv_gb_per_token) in
      let residual_prefill_s = float_max zero_s (p.prefill residual_tokens) in
      (
        float_max zero_s (f.add (f.div redis_kv_load_ms (f.of_ℕ 1000)) residual_prefill_s),
        record {
          text_prefill_ms = 0;
          redis_kv_load_ms = f.trunc redis_kv_load_ms;
          residual_prefill_ms = to_ms residual_prefill_s;
          total_tokens = t.prompt_len + t.knowledge_len + header_overhead_tokens;
          reused_tokens = effective;
          residual_tokens = residual_tokens;
        },
      )

  -- `_predict_prefill_service_s`, with the entries that it writes into the trace.
  unfoldable pub predict_prefill_service : ProxyTask R → R × ServicePrediction
  unfolding text_service kvcache_service
  predict_prefill_service t =
      if text_eq (injection_mode t) (codes "kvcache") then kvcache_service t else text_service t

  -- `_estimate_request_length`
  unfoldable pub estimate_request_length : ProxyTask R → ℕ
  estimate_request_length t = max 1 (t.prompt_len + t.knowledge_len + header_overhead_tokens)

  -- `_predict_decode_total_s`: the tail is one token, and a predictor that raises gives nothing.
  unfoldable pub predict_decode_total : ProxyTask R → R
  unfolding estimate_request_length
  predict_decode_total t =
      if text_eq (lower t.predict_stage) (codes "prefill")
      then elim (p.tpot (estimate_request_length t)) [
        | none ↦ zero_s
        | some per_token ↦ f.mul (float_max zero_s per_token) (f.of_ℕ 1)
      ]
      else zero_s

  -- What is loaded as cache is whole blocks, never more than the knowledge, and short of it by
  -- less than a block; with what is left it is all the tokens; and a text task reuses nothing and
  -- computes as many tokens as its request is estimated to have.
  pub predict-tokens :
      (t : ProxyTask R)
      → let tokens = (predict_prefill_service t).1 in
        (tokens.residual_tokens + tokens.reused_tokens ≡ estimate_request_length t)
        × (tokens.total_tokens ≡ estimate_request_length t)
        × (tokens.reused_tokens ≤ t.knowledge_len)
        × (tokens.reused_tokens % kv_align_tokens ≡ 0)
        × (if text_eq (injection_mode t) (codes "kvcache")
            then t.knowledge_len < tokens.reused_tokens + kv_align_tokens
            else tokens.reused_tokens ≡ 0)
  unfolding predict_prefill_service text_service kvcache_service estimate_request_length
      effective_knowledge_len
  predict-tokens t = elim (Bool-cases (text_eq (injection_mode t) (codes "kvcache"))) [
    | inl e ↦ rw e (
      omega (arith, whole_blocks t.knowledge_len),
      omega (arith, whole_blocks t.knowledge_len),
      omega (arith, whole_blocks t.knowledge_len),
      (whole_blocks t.knowledge_len).2,
      omega (arith, whole_blocks t.knowledge_len),
    )
    | inr e ↦ rw e (omega arith, omega arith, omega arith, refl, refl)
  ]
