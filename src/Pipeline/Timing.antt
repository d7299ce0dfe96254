-- ===== src/Pipeline/Timing.antt =====
-- When a rank makes its calls: the counts of its messages at the call it waits in.
use megatron_lm.Pipeline.{
  received_backward, sent_backward, backward, forward, received_forward, sent_forward,
  communications,
}
use megatron_lm.Prelude.{
  suc, drop, length, ◌∷◌, zero, refl, [], arith, ◌∙◌, ◌<◌, ap, ◌+◌, ◌≡◌, List, ℕ,
}
use megatron_lm.Schedules.{
  run_finalize_model_grads_func, run_grad_sync_func, send_backward_recv_forward,
  send_forward_recv_backward, send_backward, recv_backward, send_forward, recv_forward, Event,
  Config,
}
use megatron_lm.Schedules.Messages.{ByTime, Timed}

-- The counts of messages are those of another list.
abbrev Counts : List Event → List Event → Type 0
Counts es ds =
    (sent_forward ds ≡ sent_forward es)
    × (received_forward ds ≡ received_forward es)
    × (sent_backward ds ≡ sent_backward es)
    × (received_backward ds ≡ received_backward es)

more : {a b : ℕ} → a ≡ b → a + 1 ≡ b + 1
more h = ap (λ n. n + 1) h

communications-Counts : (es : List Event) → Counts es (communications es)
unfolding communications
communications-Counts [] = (refl, refl, refl, refl)
communications-Counts (forward _ _ _ ∷ es) = communications-Counts es
communications-Counts (backward _ _ _ _ ∷ es) = communications-Counts es
communications-Counts (run_grad_sync_func ∷ es) = communications-Counts es
communications-Counts (run_finalize_model_grads_func ∷ es) = communications-Counts es
communications-Counts (recv_forward _ ∷ es) =
    let (a, b, c, d) = communications-Counts es in (a, more b, c, d)
communications-Counts (send_forward _ ∷ es) =
    let (a, b, c, d) = communications-Counts es in (more a, b, c, d)
communications-Counts (recv_backward _ ∷ es) =
    let (a, b, c, d) = communications-Counts es in (a, b, c, more d)
communications-Counts (send_backward _ ∷ es) =
    let (a, b, c, d) = communications-Counts es in (a, b, more c, d)
communications-Counts (send_forward_recv_backward _ _ ∷ es) =
    let (a, b, c, d) = communications-Counts es in (more a, b, c, more d)
communications-Counts (send_backward_recv_forward _ _ ∷ es) =
    let (a, b, c, d) = communications-Counts es in (a, more b, more c, d)

module _ (c : Config) where
  -- Each call of the list happens at a time.
  abbrev pub AllTimed : List Event → Type 0
  AllTimed [] = Unit
  AllTimed (e ∷ es) = ((t : ℕ) × ByTime c t (e ∷ es)) × AllTimed es

  ByTime-Counts : (t : ℕ) (es ds : List Event) → Counts es ds → ByTime c t es → ByTime c t ds
  ByTime-Counts t es ds (a, b, p, q) h = record {
    sent_forward_eq = a ∙ h.sent_forward_eq;
    received_forward_eq = b ∙ h.received_forward_eq;
    sent_backward_eq = p ∙ h.sent_backward_eq;
    received_backward_eq = q ∙ h.received_backward_eq;
  }

  keep :
      (e : Event) (es : List Event)
      → Counts (e ∷ es) (e ∷ communications es)
      → ((t : ℕ) × ByTime c t (e ∷ es))
      → AllTimed (communications es)
      → AllTimed (e ∷ communications es)
  keep e es same (t, h) others =
      ((t, ByTime-Counts t (e ∷ es) (e ∷ communications es) same h), others)

  pub communications-AllTimed : (es : List Event) → Timed c es → AllTimed (communications es)
  unfolding communications
  communications-AllTimed [] h = tt
  communications-AllTimed (forward _ _ _ ∷ es) h = communications-AllTimed es h
  communications-AllTimed (backward _ _ _ _ ∷ es) h = communications-AllTimed es h
  communications-AllTimed (run_grad_sync_func ∷ es) h = communications-AllTimed es h
  communications-AllTimed (run_finalize_model_grads_func ∷ es) h = communications-AllTimed es h
  communications-AllTimed (recv_forward m ∷ es) h =
      keep (recv_forward m) es (communications-Counts (recv_forward m ∷ es)) h.0
        (communications-AllTimed es h.1)
  communications-AllTimed (send_forward m ∷ es) h =
      keep (send_forward m) es (communications-Counts (send_forward m ∷ es)) h.0
        (communications-AllTimed es h.1)
  communications-AllTimed (recv_backward m ∷ es) h =
      keep (recv_backward m) es (communications-Counts (recv_backward m ∷ es)) h.0
        (communications-AllTimed es h.1)
  communications-AllTimed (send_backward m ∷ es) h =
      keep (send_backward m) es (communications-Counts (send_backward m ∷ es)) h.0
        (communications-AllTimed es h.1)
  communications-AllTimed (send_forward_recv_backward m g ∷ es) h =
      keep (send_forward_recv_backward m g) es
        (communications-Counts (send_forward_recv_backward m g ∷ es)) h.0
        (communications-AllTimed es h.1)
  communications-AllTimed (send_backward_recv_forward g m ∷ es) h =
      keep (send_backward_recv_forward g m) es
        (communications-Counts (send_backward_recv_forward g m ∷ es)) h.0
        (communications-AllTimed es h.1)

  -- A suffix that is not empty begins with a timed call.
  pub drop-ByTime :
      (k : ℕ) (es : List Event) → k < length es → AllTimed es → (t : ℕ) × ByTime c t (drop k es)
  drop-ByTime k [] low h = absurd (omega arith)
  drop-ByTime zero (e ∷ es) low h = h.0
  drop-ByTime (suc k) (e ∷ es) low h = drop-ByTime k es (omega arith) h.1

  -- The counts of a whole run.
  pub record IsWhole (es : List Event) : Type 0 where
    pub sent_forward_eq : sent_forward es ≡ c.num_microbatches
    pub received_forward_eq : received_forward es ≡ c.num_microbatches
    pub sent_backward_eq : sent_backward es ≡ c.num_microbatches
    pub received_backward_eq : received_backward es ≡ c.num_microbatches

  pub communications-IsWhole : (es : List Event) → IsWhole es → IsWhole (communications es)
  communications-IsWhole es h =
      let (a, b, p, q) = communications-Counts es in
      record {
        sent_forward_eq = a ∙ h.sent_forward_eq;
        received_forward_eq = b ∙ h.received_forward_eq;
        sent_backward_eq = p ∙ h.sent_backward_eq;
        received_backward_eq = q ∙ h.received_backward_eq;
      }
