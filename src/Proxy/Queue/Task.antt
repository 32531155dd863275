-- ===== src/Proxy/Queue/Task.antt =====
-- proxy/queue/task.py: what the queues carry, as far as they read or write it. `trace` is a free-form
-- dict in the code; each key that is modelled is a field here. Times of the timeline are floats of
-- seconds; what the clock gives in whole milliseconds is a number.
use cache_route.Common.{ℕ, Bool, Option, or_default, [], ◌∷◌}
use cache_route.Common.Text.{Text, codes, strip, lower}

-- The `predict_*` entries that the prefill prediction writes.
pub record ServicePrediction : Type 0 where
  pub text_prefill_ms : ℕ
  pub redis_kv_load_ms : ℕ
  pub residual_prefill_ms : ℕ
  pub total_tokens : ℕ
  pub reused_tokens : ℕ
  pub residual_tokens : ℕ

-- The `pred_*` fields and the entries beside them that a reservation writes.
pub record Prediction (R : Type 0) : Type 0 where
  pub slot_idx : ℕ
  pub slot_ready_s : R
  pub forward_start_s : R
  pub prefill_start_s : R
  pub first_token_s : R
  pub decode_s : R
  pub forward_end_s : R
  pub service_s : R
  pub service : ServicePrediction
  pub queue_wait_ms : ℕ
  pub cold_start_extra_ms : ℕ
  pub total_ms : ℕ
  pub recompute_generation : ℕ

-- The `ready_release_*` entries and those beside them that a release writes.
pub record ReleaseTrace : Type 0 where
  pub release_seq : ℕ
  pub bypass : Bool
  pub blocked_seq : Option ℕ
  pub prepared_buffer_size : ℕ
  pub ready_enqueue_ms : ℕ
  pub actual_prepare_total_ms : ℕ
  pub prepare_buffer_wait_ms : Option ℕ

pub record ProxyTask (R : Type 0) : Type 0 where
  pub request_id : Option ℕ
  pub prompt_len : ℕ
  pub knowledge_len : ℕ
  pub injection_type : Option Text
  pub predict_stage : Text
  pub prepare_seq : ℕ
  pub proxy_enqueue_ms : Option ℕ
  pub prepare_self_done_ms : Option ℕ
  pub know_prepare_ms : ℕ
  pub reservation_seq : Option ℕ
  pub has_seen_first_token : Bool
  pub released : Option ReleaseTrace
  pub predicted : Option (Prediction R)

-- `x or "text"`
abbrev pub or_text : Text → Text
or_text [] = codes "text"
or_text (c ∷ s) = c ∷ s

module _ {R : Type 0} where
  -- `str(getattr(service, "Injection_type", "text") or "text").strip().lower()`
  unfoldable pub injection_mode : ProxyTask R → Text
  injection_mode t = lower (strip (or_text (or_default t.injection_type (codes "text"))))
