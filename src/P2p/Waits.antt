-- ===== src/P2p/Waits.antt =====
-- The requests that the calls of `_communicate` make and those that they wait for, and the calls
-- that each way to post the requests begins with (p2p_communication.py).
use mathlib.Core.List.{append-nil, append_assoc}
use megatron_lm.Prelude.{
  suc, ltb→le, some, arith, lt→ltb, false, true, Bool, Option, sym, ◌∙◌, refl, length, [], ap, ok,
  ltb, map, if◌then◌else◌, ◌≡◌, ◌++◌, List, Result, ◌∷◌,
}
use megatron_lm.P2p.{
  Communicated, ring_exchange_wrapper, Buffer, Message, synchronize, ring_exchange, request,
  batch_isend_irecv, wait, Op, Call,
}

module _ {T : Type 0} where
  -- The requests that the calls make, and those that they wait for.
  pub requests_of : List (Call T) → List (Op T)
  requests_of [] = []
  requests_of (batch_isend_irecv ops ∷ calls) = ops ++ requests_of calls
  requests_of (request op ∷ calls) = op ∷ requests_of calls
  requests_of (_ ∷ calls) = requests_of calls

  pub waits_of : List (Call T) → List (Op T)
  waits_of [] = []
  waits_of (wait op ∷ calls) = op ∷ waits_of calls
  waits_of (_ ∷ calls) = waits_of calls

  pub requests_of-append :
      (xs ys : List (Call T)) → requests_of (xs ++ ys) ≡ requests_of xs ++ requests_of ys
  unfolding requests_of
  requests_of-append [] ys = refl
  requests_of-append (batch_isend_irecv ops ∷ xs) ys =
      ap (λ r. ops ++ r) (requests_of-append xs ys)
      ∙ sym (append_assoc ops (requests_of xs) (requests_of ys))
  requests_of-append (request op ∷ xs) ys = ap (λ r. op ∷ r) (requests_of-append xs ys)
  requests_of-append (wait op ∷ xs) ys = requests_of-append xs ys
  requests_of-append (synchronize ∷ xs) ys = requests_of-append xs ys
  requests_of-append (ring_exchange _ _ _ _ ∷ xs) ys = requests_of-append xs ys

  pub waits_of-append : (xs ys : List (Call T)) → waits_of (xs ++ ys) ≡ waits_of xs ++ waits_of ys
  unfolding waits_of
  waits_of-append [] ys = refl
  waits_of-append (batch_isend_irecv ops ∷ xs) ys = waits_of-append xs ys
  waits_of-append (request op ∷ xs) ys = waits_of-append xs ys
  waits_of-append (wait op ∷ xs) ys = ap (λ r. op ∷ r) (waits_of-append xs ys)
  waits_of-append (synchronize ∷ xs) ys = waits_of-append xs ys
  waits_of-append (ring_exchange _ _ _ _ ∷ xs) ys = waits_of-append xs ys

  pub requests_of-request : (ops : List (Op T)) → requests_of (map request ops) ≡ ops
  unfolding requests_of
  requests_of-request [] = refl
  requests_of-request (op ∷ ops) = ap (λ r. op ∷ r) (requests_of-request ops)

  pub waits_of-request : (ops : List (Op T)) → waits_of (map request ops) ≡ []
  unfolding waits_of
  waits_of-request [] = refl
  waits_of-request (op ∷ ops) = waits_of-request ops

  requests_of-wait : (ops : List (Op T)) → requests_of (map wait ops) ≡ []
  unfolding requests_of
  requests_of-wait [] = refl
  requests_of-wait (op ∷ ops) = requests_of-wait ops

  waits_of-wait : (ops : List (Op T)) → waits_of (map wait ops) ≡ ops
  unfolding waits_of
  waits_of-wait [] = refl
  waits_of-wait (op ∷ ops) = ap (λ r. op ∷ r) (waits_of-wait ops)

  -- The requests are those that the calls have made, and none has been waited for.
  abbrev pub Started : Result (List (Op T) × List (Call T)) → Type 0
  Started r =
      (reqs : List (Op T)) × (log : List (Call T)) × (r ≡ ok (reqs, log))
      × (requests_of log ≡ reqs)
      × (waits_of log ≡ [])

  -- The one call of a batch that is not empty.
  abbrev pub batch_call : Bool → List (Op T) → List (Call T)
  batch_call some_op ops = if some_op then batch_isend_irecv ops ∷ [] else []

  pub batch_call-Started :
      (some_op : Bool) (ops : List (Op T))
      → ltb 0 (length ops) ≡ some_op
      → (requests_of (batch_call some_op ops) ≡ ops) × (waits_of (batch_call some_op ops) ≡ [])
  unfolding requests_of waits_of
  batch_call-Started true ops h = (append-nil ops, refl)
  batch_call-Started false [] h = (refl, refl)
  batch_call-Started false (op ∷ ops) h = absurd (omega (arith, ltb→le 0 (suc (length ops)) h))

  pub ring_exchange-Started :
      (sp : Option (Message T)) (rp : Option Buffer) (sn : Option (Message T)) (rn : Option Buffer)
      → Started (ring_exchange_wrapper sp rp sn rn)
  unfolding ring_exchange_wrapper requests_of waits_of
  ring_exchange-Started sp rp sn rn = ([], ring_exchange sp rp sn rn ∷ [], refl, refl, refl)

  -- What comes after the requests.
  abbrev pub last_calls : Bool → Bool → List (Op T) → List (Call T)
  last_calls waits sync reqs =
      (if waits then map wait reqs else []) ++ (if sync then synchronize ∷ [] else [])

  pub requests_of-last_calls :
      (waits sync : Bool) (reqs : List (Op T)) → requests_of (last_calls waits sync reqs) ≡ []
  unfolding requests_of
  requests_of-last_calls false false reqs = refl
  requests_of-last_calls false true reqs = refl
  requests_of-last_calls true false reqs = rw append-nil (requests_of-wait reqs)
  requests_of-last_calls true true reqs =
      requests_of-append (map wait reqs) (synchronize ∷ []) ∙ rw append-nil (requests_of-wait reqs)

  pub waits_of-last_calls :
      (waits sync : Bool) (reqs : List (Op T))
      → waits_of (last_calls waits sync reqs) ≡ (if waits then reqs else [])
  unfolding waits_of
  waits_of-last_calls false false reqs = refl
  waits_of-last_calls false true reqs = refl
  waits_of-last_calls true false reqs = rw append-nil (waits_of-wait reqs)
  waits_of-last_calls true true reqs =
      waits_of-append (map wait reqs) (synchronize ∷ []) ∙ rw append-nil (waits_of-wait reqs)

  -- No request is lost: it is waited for, or it is returned.
  pub record Kept (wait_on_reqs : Bool) (r : Communicated T) : Type 0 where
    pub waited : wait_on_reqs ≡ true → waits_of r.log ≡ requests_of r.log
    pub returned : wait_on_reqs ≡ false → r.reqs ≡ some (requests_of r.log)

  pub none_left : (reqs : List (Op T)) → (if ltb 0 (length reqs) then reqs else []) ≡ reqs
  none_left [] = refl
  none_left (op ∷ reqs) = rw (lt→ltb 0 (suc (length reqs)) (omega arith)) refl
