-- ===== src/Loader/Ramp/Full.antt =====
-- add_loading_clients: the gradual increase comes to its end, where a request rate loads the clients.
use curl_loader.Base.{
  ℕ, zero, suc, ◌+◌, ◌≤◌, ◌<◌, ◌≡◌, ◌≢◌, refl, ap, ◌⊎◌, inr, Bool, true, false, arith, Run, ok,
  out_of_fuel, ◌>>=◌, leb, ◌==◌, if◌then◌else◌, Yields, yields, Yields-branch, Yields-bind,
}
use curl_loader.Context.{BatchContext}
use curl_loader.Loader.Ramp.{clients_to_add, count_added, add_loading_clients}
use curl_loader.Loader.Step.{Outside, World}

-- A call that goes on counts at least one more client and no more than there are; one that ends has
-- nothing to count and takes the flag of the gradual increase back.
abbrev pub IsStep : BatchContext → Bool → BatchContext → Type 0
IsStep bctx true bctx' =
    (bctx.clients_current_sched_num < bctx'.clients_current_sched_num)
    × (bctx'.clients_current_sched_num ≤ bctx.client_num_max)
IsStep bctx false bctx' =
    (bctx.client_num_max ≤ bctx.clients_current_sched_num)
    × (bctx'.clients_current_sched_num ≡ bctx.clients_current_sched_num)
    × (bctx'.do_client_num_gradual_increase ≡ false)

-- Only these two fields of the batch change.
abbrev pub IsRamped : World → Bool × World → Type 0
IsRamped w (going, w') =
    IsStep w.batch going w'.batch
    × (w' ≡ record w {
      batch = record (w.batch) {
        clients_current_sched_num = w'.batch.clients_current_sched_num;
        do_client_num_gradual_increase = w'.batch.do_client_num_gradual_increase;
      };
    })

count_added-IsStep :
    (bctx : BatchContext)
    → bctx.client_num_start ≤ bctx.client_num_max
    → (bctx.clients_current_sched_num ≡ 0) ⊎ (0 < bctx.clients_rampup_inc)
    → bctx.clients_current_sched_num < bctx.client_num_max
    → IsStep bctx true (count_added bctx (clients_to_add bctx))
unfolding clients_to_add count_added
count_added-IsStep bctx start gradual room = (ground arith, ground arith)

count_added-frame :
    (bctx : BatchContext) (added : ℕ)
    → let bctx' = count_added bctx added in
      bctx' ≡ record bctx {
        clients_current_sched_num = bctx'.clients_current_sched_num;
        do_client_num_gradual_increase = bctx'.do_client_num_gradual_increase;
      }
unfolding count_added
count_added-frame bctx added = ground arith

module _ (env : Outside) where
  -- For a batch with a request rate and with client_num_start no larger than client_num_max, whose
  -- increase is not stopped, and which is either at its first call or has a gradual increase,
  -- add_loading_clients ends, whatever the curl calls answer. It gives 0 and has counted at least
  -- one more scheduled client, never more than client_num_max, or it gives -1 because no client was
  -- left to be scheduled, and then counts none and takes do_client_num_gradual_increase back.
  -- Nothing but these two fields of the batch changes.
  pub add_loading_clients_bound :
      (now_time : ℕ) (w : World)
      → w.batch.client_num_start ≤ w.batch.client_num_max
      → (w.batch.clients_current_sched_num ≡ 0) ⊎ (0 < w.batch.clients_rampup_inc)
      → w.batch.req_rate ≢ 0
      → w.batch.stop_client_num_gradual_increase ≡ false
      → Yields (IsRamped w) (add_loading_clients env now_time w)
  unfolding add_loading_clients
  add_loading_clients_bound now_time w start gradual rate goes =
      Yields-branch w.batch.stop_client_num_gradual_increase (λ e. absurd (ground (arith, e, goes)))
        λ _.
          Yields-branch (leb w.batch.client_num_max w.batch.clients_current_sched_num)
            (λ e. yields ((ground (arith, e), refl, refl), refl))
            λ e.
              Yields-branch (w.batch.req_rate == 0) (λ f. absurd (ground (arith, f, rate)))
                (λ _. yields (
                  count_added-IsStep w.batch start gradual (ground (arith, e)),
                  ap (λ b. record w { batch = b })
                      (count_added-frame w.batch (clients_to_add w.batch)),
                ))

  -- The calls of add_loading_clients by its periodic timer, until one gives -1
  abbrev pub ramp_up : (ℕ → ℕ) → ℕ → World → Run World
  ramp_up now_time zero w = out_of_fuel
  ramp_up now_time (suc n) w = add_loading_clients env (now_time n) w >>= λ (going, w').
      let rest = ramp_up now_time n w' in if going then rest else ok w'

  -- For a batch with a request rate and a gradual increase that is not stopped, with
  -- client_num_start and the scheduled clients not above client_num_max, repeated calls of
  -- add_loading_clients come to the one that gives -1, at most one call more than there are clients
  -- to be scheduled: client_num_max clients are scheduled then, and do_client_num_gradual_increase
  -- is false.
  pub ramp_up-IsFull :
      (now_time : ℕ → ℕ) (n : ℕ) (w : World)
      → w.batch.client_num_start ≤ w.batch.client_num_max
      → 0 < w.batch.clients_rampup_inc
      → w.batch.req_rate ≢ 0
      → w.batch.stop_client_num_gradual_increase ≡ false
      → w.batch.clients_current_sched_num ≤ w.batch.client_num_max
      → w.batch.client_num_max < w.batch.clients_current_sched_num + n
      → Yields
          (λ w'.
            (w'.batch.clients_current_sched_num ≡ w.batch.client_num_max)
            × (w'.batch.do_client_num_gradual_increase ≡ false))
          (ramp_up now_time n w)
  ramp_up-IsFull now_time zero w start gradual rate goes below enough =
      absurd (omega (arith, enough))
  ramp_up-IsFull now_time (suc n) w start gradual rate goes below enough =
      Yields-bind (add_loading_clients_bound (now_time n) w start (inr gradual) rate goes) λ r s.
        next r s λ w' within start' gradual' rate' goes' more.
          ramp_up-IsFull now_time n w' start' gradual' rate' goes' within more
    where
      next :
          (r : Bool × World)
          → IsRamped w r
          → ((w' : World)
              → w'.batch.clients_current_sched_num ≤ w'.batch.client_num_max
              → w'.batch.client_num_start ≤ w'.batch.client_num_max
              → 0 < w'.batch.clients_rampup_inc
              → w'.batch.req_rate ≢ 0
              → w'.batch.stop_client_num_gradual_increase ≡ false
              → w'.batch.client_num_max < w'.batch.clients_current_sched_num + n
              → Yields
                  (λ w2.
                    (w2.batch.clients_current_sched_num ≡ w'.batch.client_num_max)
                    × (w2.batch.do_client_num_gradual_increase ≡ false))
                  (ramp_up now_time n w'))
          → Yields
              (λ w'.
                (w'.batch.clients_current_sched_num ≡ w.batch.client_num_max)
                × (w'.batch.do_client_num_gradual_increase ≡ false))
              (if r.0 then ramp_up now_time n r.1 else ok r.1)
      next (true, w') ((more, within), same) rest =
          let num : w'.batch.client_num_max ≡ w.batch.client_num_max =
            ap (λ (v : World). v.batch.client_num_max) same in
          rw (← num) (
            rest w' (rw num within)
              (rw (ap (λ (v : World). v.batch.client_num_start) same, num) start)
              (rw (ap (λ (v : World). v.batch.clients_rampup_inc) same) gradual)
              (rw (ap (λ (v : World). v.batch.req_rate) same) rate)
              (rw (ap (λ (v : World). v.batch.stop_client_num_gradual_increase) same) goes)
              (omega (arith, num, more, enough)))
      next (false, w') ((full, kept, flag), same) rest =
          yields (omega (arith, full, kept, below), flag)
