-- ===== src/P2p/Calls.antt =====
-- The calls that the schedules make, on one stage, and what each leaves out at an end of the
-- pipeline. A call returns what it received, and the calls of `torch.distributed` that it made.
use megatron_lm.Prelude.{
  not, some, false, [], ◌>>=◌, none, true, ok, if◌then◌else◌, List, Bool, Result, Option,
}
use megatron_lm.P2p.{
  is_pipeline_first_stage, is_pipeline_last_stage, Call, communicate, Empty, Communicated, Config,
  Stage, Side, Shape,
}

module _ {T : Type 0} (size : T → Shape) (received : Side → Shape) (stage : Stage)
    (config : Config) where
  -- Nothing is received and nothing posted.
  abbrev nothing : Result (Option Empty × List (Call T))
  nothing = ok (none, [])

  abbrev keep_prev : Communicated T → Result (Option Empty × List (Call T))
  keep_prev done = ok (done.tensor_recv_prev, done.log)

  abbrev keep_next : Communicated T → Result (Option Empty × List (Call T))
  keep_next done = ok (done.tensor_recv_next, done.log)

  pub recv_forward : Option Shape → Result (Option Empty × List (Call T))
  recv_forward tensor_shape =
      if is_pipeline_first_stage stage
      then nothing
      else (communicate size received stage config none none true false tensor_shape true
          >>= keep_prev)

  pub recv_backward : Option Shape → Result (Option Empty × List (Call T))
  recv_backward tensor_shape =
      if is_pipeline_last_stage stage
      then nothing
      else (communicate size received stage config none none false true tensor_shape true
          >>= keep_next)

  pub send_forward : T → Result (List (Call T))
  send_forward output_tensor =
      if is_pipeline_last_stage stage
      then ok []
      else (communicate size received stage config (some output_tensor) none false false none true
          >>= λ done. ok done.log)

  -- The gradient is `None` for an input tensor that is.
  pub send_backward : Option T → Result (List (Call T))
  send_backward input_tensor_grad =
      if is_pipeline_first_stage stage
      then ok []
      else (communicate size received stage config none input_tensor_grad false false none true
          >>= λ done. ok done.log)

  pub send_forward_recv_backward : T → Option Shape → Result (Option Empty × List (Call T))
  send_forward_recv_backward output_tensor tensor_shape =
      if is_pipeline_last_stage stage
      then nothing
      else (communicate size received stage config (some output_tensor) none false true tensor_shape
            true
          >>= keep_next)

  pub send_backward_recv_forward : Option T → Option Shape → Result (Option Empty × List (Call T))
  send_backward_recv_forward input_tensor_grad tensor_shape =
      if is_pipeline_first_stage stage
      then nothing
      else (communicate size received stage config none input_tensor_grad true false tensor_shape
            true
          >>= keep_prev)

  -- With `overlap_p2p_comm` the requests are returned too.
  pub send_forward_recv_forward : Option T → Bool → Option Shape → Bool → Result (Communicated T)
  send_forward_recv_forward output_tensor recv_prev tensor_shape overlap_p2p_comm =
      communicate size received stage config output_tensor none recv_prev false tensor_shape
        (not overlap_p2p_comm)

  pub send_backward_recv_backward : Option T → Bool → Option Shape → Bool → Result (Communicated T)
  send_backward_recv_backward input_tensor_grad recv_next tensor_shape overlap_p2p_comm =
      communicate size received stage config none input_tensor_grad false recv_next tensor_shape
        (not overlap_p2p_comm)

  pub send_forward_backward_recv_forward_backward :
      Option T
      → Option T
      → Bool
      → Bool
      → Option Shape
      → Result (Option Empty × Option Empty × List (Call T))
  send_forward_backward_recv_forward_backward output_tensor input_tensor_grad recv_prev recv_next
        tensor_shape =
      communicate size received stage config output_tensor input_tensor_grad recv_prev recv_next
        tensor_shape true
      >>= λ done. ok (done.tensor_recv_prev, done.tensor_recv_next, done.log)
