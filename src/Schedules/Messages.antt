-- ===== src/Schedules/Messages.antt =====
-- What the log of a run says: the passes, the microbatches in flight, and the messages.
use megatron_lm.Prelude.{
  min, ◌/◌, ◌*◌, ℕ, zero, suc, ◌+◌, ◌-◌, ◌≤◌, ◌≡◌, Bool, Option, List, [], ◌∷◌,
}
use megatron_lm.Schedules.{
  recv_forward, send_forward, recv_backward, send_backward, send_forward_recv_backward,
  send_backward_recv_forward, run_grad_sync_func, run_finalize_model_grads_func, Config, Event,
  forward, backward,
}

-- Each `forward_step`: its microbatch and its input tensor.
abbrev pub forwards : List Event → List (ℕ × Option ℕ)
forwards [] = []
forwards (forward m x _ ∷ es) = (m, x) ∷ forwards es
forwards (_ ∷ es) = forwards es

-- Each `backward_step`: its input tensor, output tensor and gradient, and whether it synchronises.
abbrev pub backwards : List Event → List (Option ℕ × ℕ × ℕ × Bool)
backwards [] = []
backwards (backward x y g sync ∷ es) = (x, y, g, sync) ∷ backwards es
backwards (_ ∷ es) = backwards es

-- The number of microbatches whose activations are kept.
abbrev pub in_flight : List Event → ℕ
in_flight [] = 0
in_flight (forward _ _ _ ∷ es) = in_flight es + 1
in_flight (backward _ _ _ _ ∷ es) = in_flight es - 1
in_flight (_ ∷ es) = in_flight es

-- At each moment of the log, at most `m` microbatches are in flight.
abbrev pub Bounded : ℕ → List Event → Type 0
Bounded m [] = Unit
Bounded m (e ∷ es) = (in_flight (e ∷ es) ≤ m) × Bounded m es

-- How often each kind of message has been sent and received.
abbrev pub sent_forward : List Event → ℕ
sent_forward [] = 0
sent_forward (send_forward _ ∷ es) = sent_forward es + 1
sent_forward (send_forward_recv_backward _ _ ∷ es) = sent_forward es + 1
sent_forward (_ ∷ es) = sent_forward es

abbrev pub received_forward : List Event → ℕ
received_forward [] = 0
received_forward (recv_forward _ ∷ es) = received_forward es + 1
received_forward (send_backward_recv_forward _ _ ∷ es) = received_forward es + 1
received_forward (_ ∷ es) = received_forward es

abbrev pub sent_backward : List Event → ℕ
sent_backward [] = 0
sent_backward (send_backward _ ∷ es) = sent_backward es + 1
sent_backward (send_backward_recv_forward _ _ ∷ es) = sent_backward es + 1
sent_backward (_ ∷ es) = sent_backward es

abbrev pub received_backward : List Event → ℕ
received_backward [] = 0
received_backward (recv_backward _ ∷ es) = received_backward es + 1
received_backward (send_forward_recv_backward _ _ ∷ es) = received_backward es + 1
received_backward (_ ∷ es) = received_backward es

-- `f (n - 1), ..., f 0`
abbrev pub descending {ℓ} : {A : Type ℓ} → (ℕ → A) → ℕ → List A
descending f zero = []
descending f (suc n) = f n ∷ descending f n

module _ (c : Config) where
  -- The last stage is the busiest: microbatch m runs forward on it at time 2 m after the first, and
  -- backward right after. Going back from there, each message has a time at which both its ends
  -- can take part in it; `by_time t` says how many messages of each kind have a time up to `t`.
  pub record ByTime (t : ℕ) (es : List Event) : Type 0 where
    pub sent_forward_eq : sent_forward es ≡ min c.num_microbatches ((t + 1 - c.rank) / 2)
    pub received_forward_eq : received_forward es ≡ min c.num_microbatches ((t + 2 - c.rank) / 2)
    pub sent_backward_eq :
        sent_backward es
        ≡ min c.num_microbatches ((t + 2 - (2 * c.pipeline_model_parallel_world_size - c.rank)) / 2)
    pub received_backward_eq :
        received_backward es
        ≡ min c.num_microbatches ((t + 3 - (2 * c.pipeline_model_parallel_world_size - c.rank)) / 2)

  -- The call of each message happens at a time.
  abbrev pub Timed : List Event → Type 0
  Timed [] = Unit
  Timed (forward _ _ _ ∷ es) = Timed es
  Timed (backward _ _ _ _ ∷ es) = Timed es
  Timed (run_grad_sync_func ∷ es) = Timed es
  Timed (run_finalize_model_grads_func ∷ es) = Timed es
  Timed (e ∷ es) = ((t : ℕ) × ByTime t (e ∷ es)) × Timed es
