-- ===== src/Loader/Step.antt =====
-- loader_fsm.c: load_next_step and what it calls, with the handlers of the client timers.
use curl_loader.Base.{
  ℕ, ◌+◌, ◌-◌, ◌%◌, ◌^◌, Bool, true, false, ◌&&◌, ◌||◌, not, Option, none, some, Run, ok, ◌>>=◌,
  leb, ◌==◌, if◌then◌else◌, update,
}
use curl_loader.Statistics.{CState, op_stat_update, op_stat_call_init_count_inc}
use curl_loader.Context.{
  UrlContext, ClientContext, BatchContext, current_url_completion_timeout,
  current_url_sleeping_timeout,
}
use curl_loader.TimerQueue.{TimerQueue, Rval, failed, code, tq_schedule_timer, tq_cancel_timer}
use curl_loader.Loader.{advance_cycle_num, fetching_first_cycling_url, pick_loop}

-- The code around loader_fsm.c: the set-up of curl handles (setup_curl_handle_init, init_client_url_post_data
-- and response_logfiles_set, which say whether they succeed), the answers of curl_multi_add_handle and
-- curl_multi_remove_handle, the random numbers, and the options of the command line. `probs` are the results
-- of get_prob in one call of load_urls_state, and `fuel` bounds its loop.
pub record Outside : Type 0 where
  pub setup_curl_handle_init : ClientContext → UrlContext → Bool
  pub init_client_url_post_data : ClientContext → UrlContext → Bool
  pub response_logfiles_set : ClientContext → UrlContext → Bool
  pub multi_add_handle : ClientContext → Bool
  pub multi_remove_handle : ClientContext → Bool
  pub probs : ℕ → ℕ
  pub fuel : ℕ
  pub scaled : ℕ → ℕ
  pub error_recovery_client : Bool

-- One batch: its context, the clients of its cctx_array, and its waiting queue.
pub record World : Type 0 where
  pub batch : BatchContext
  pub clients : ℕ → ClientContext
  pub waiting_queue : TimerQueue

-- The address of the timer node of a client, which is the first field of its context.
abbrev pub timer_of : ℕ → ℕ
timer_of c = c + 1

-- The numbers of handle_cctx_sleeping_timer and handle_cctx_url_completion_timer.
abbrev pub sleeping_timer : ℕ
sleeping_timer = 1

abbrev pub completion_timer : ℕ
completion_timer = 2

abbrev pub set_client : World → ℕ → ClientContext → World
set_client w c cctx = record w { clients = update w.clients c cctx }

-- The numbers behind the enumeration cstate, and the results 0 and -1.
abbrev pub cstate_value : CState → Rval
cstate_value CState.cstate_error = failed
cstate_value CState.cstate_init = code 0
cstate_value CState.cstate_urls = code 1
cstate_value CState.cstate_finished_ok = code 2

abbrev pub rval_of : Bool → Rval
rval_of b = if b then code 0 else failed

-- The state of loading, the time to wait, and the contexts.
abbrev pub Loaded : Type 0
Loaded = CState × ℕ × BatchContext × ClientContext

module _ (env : Outside) where
  -- The result -1 is `cstate_error`, which has this value.
  unfoldable pub setup_url : BatchContext → ClientContext → CState × ClientContext
  setup_url bctx cctx =
      let url = bctx.url_ctx_array cctx.url_curr_index in
      let done =
        if url.url_use_current
        then env.init_client_url_post_data cctx url
          && (not url.log_resp || env.response_logfiles_set cctx url)
        else env.setup_curl_handle_init cctx url in
      if done
      then (CState.cstate_urls, record cctx { client_state = CState.cstate_urls })
      else (CState.cstate_error, cctx)

  -- The branch of load_urls_state for a client in another state.
  unfoldable pub first_url : BatchContext → ClientContext → ℕ → Loaded
  unfolding setup_url
  first_url bctx cctx wait_msec =
      let (state, cctx') = setup_url bctx (record cctx { url_curr_index = 0 }) in
      (state, wait_msec, bctx, cctx')

  -- The branch of load_urls_state for a client in CSTATE_URLS. The result of setup_url is not looked at.
  unfoldable pub following_url : BatchContext → ClientContext → Run Loaded
  unfolding setup_url
  following_url bctx cctx =
      let wait_msec =
        current_url_sleeping_timeout env.scaled (bctx.url_ctx_array cctx.url_curr_index) in
      pick_loop env.probs env.fuel 0 bctx cctx >>= λ (picked, bctx', cctx'). elim picked [
        | none ↦ ok (
          CState.cstate_finished_ok,
          wait_msec,
          bctx',
          record cctx' { client_state = CState.cstate_finished_ok },
        )
        | some index ↦
            let cctx2 =
              if (bctx'.url_ctx_array index).fresh_connect && not (wait_msec == 0)
              then cctx'
              else (setup_url bctx' cctx').1 in
            ok (cctx2.client_state, wait_msec, bctx', cctx2)
      ]

  unfoldable pub load_urls_state : BatchContext → ClientContext → ℕ → Run Loaded
  unfolding first_url following_url
  load_urls_state bctx cctx wait_msec = elim cctx.client_state [
    | CState.cstate_urls ↦ following_url bctx cctx
    | _ ↦ ok (first_url bctx cctx wait_msec)
  ]

  unfoldable pub load_init_state : BatchContext → ClientContext → Run Loaded
  unfolding load_urls_state
  load_init_state bctx cctx = load_urls_state bctx cctx 0

  -- The entry CSTATE_URLS of the table is load_init_state, since the table begins with the state -1.
  unfoldable pub load_error_state : BatchContext → ClientContext → Run Loaded
  unfolding load_init_state
  load_error_state bctx cctx =
      let advanced = advance_cycle_num cctx in
      let fail : ClientContext → Loaded = λ cctx'.
        (CState.cstate_error, 0, bctx, record cctx' { client_state = CState.cstate_error }) in
      if not env.error_recovery_client
      then ok (fail cctx)
      else if not (bctx.cycles_num == 0) && leb bctx.cycles_num advanced.cycle_num
      then ok (fail advanced)
      else load_init_state bctx advanced

  -- load_state_func_table
  unfoldable pub load_state : BatchContext → ClientContext → Run Loaded
  unfolding load_error_state load_init_state load_urls_state
  load_state bctx cctx = elim cctx.client_state [
    | CState.cstate_error ↦ load_error_state bctx cctx
    | CState.cstate_init ↦ load_init_state bctx cctx
    | CState.cstate_urls ↦ load_urls_state bctx cctx 0
    | CState.cstate_finished_ok ↦ ok (CState.cstate_finished_ok, 0, bctx, cctx)
  ]

  -- `true` is the result 0.
  unfoldable pub client_remove_from_load : World → ℕ → Bool × World
  client_remove_from_load w c =
      let bctx = w.batch in
      if env.multi_remove_handle (w.clients c)
      then (
        true,
        record w { batch = record bctx { active_clients_count = bctx.active_clients_count - 1 } },
      )
      else (false, w)

  -- The one-shot timer of a client.
  unfoldable pub schedule_client : World → ℕ → ℕ → ℕ → Run (Option ℕ × World)
  schedule_client w c func time =
      let tn = record (w.waiting_queue.timers (timer_of c)) {
        next_timer = time;
        period = 0;
        func_timer = func;
      } in
      let queue = record (w.waiting_queue) {
        timers = update w.waiting_queue.timers (timer_of c) tn;
      } in
      tq_schedule_timer queue (timer_of c) >>= λ (id, queue').
      ok (id, record w { waiting_queue = queue' })

  -- Once the handle is in the multi-handle: the completion timer, and the count of active clients.
  unfoldable pub activate : World → ℕ → ℕ → Run (Bool × World)
  unfolding schedule_client
  activate w c now_time =
      let cctx = w.clients c in
      let timeout =
        current_url_completion_timeout env.scaled (w.batch.url_ctx_array cctx.url_curr_index) in
      let counted : World → World = λ w'. record w' {
        batch = record (w'.batch) { active_clients_count = w'.batch.active_clients_count + 1 };
      } in
      let timed =
        schedule_client w c completion_timer ((now_time + timeout) % 2 ^ 64) >>= λ (id, w').
        let w2 = set_client w' c (record (w'.clients c) { tid_url_completion = id }) in
        elim id as (λ _. Run (Bool × World)) [
          | none ↦ ok (false, w2)
          | some _ ↦ ok (true, counted w2)
        ] in
      if timeout == 0 then ok (true, counted w) else timed

  unfoldable pub client_add_to_load : World → ℕ → ℕ → Run (Bool × World)
  unfolding activate
  client_add_to_load w c now_time =
      let cctx = w.clients c in
      let w' = set_client w c (record cctx {
        preload_state = cctx.client_state;
        preload_url_curr_index = cctx.url_curr_index;
        req_sent_timestamp = now_time;
      }) in
      let added = activate w' c now_time in
      if env.multi_add_handle (w'.clients c) then added else ok (false, w')

  -- `if (cctx->tid_url_completion != -1)` of load_next_step.
  unfoldable pub cancel_completion : World → ℕ → Run World
  cancel_completion w c = elim (w.clients c).tid_url_completion [
    | none ↦ ok w
    | some tid ↦ tq_cancel_timer w.waiting_queue (some tid) >>= λ (done, queue). ok (
        set_client (record w { waiting_queue = queue }) c
          (record (w.clients c) { tid_url_completion = none }))
  ]

  -- From the update of the operational statistics to the end of load_next_step. `before` is the state of
  -- the client before the load. The results are the return value and `*sched_now`. A new handle is given.
  unfoldable pub after_load : World → ℕ → ℕ → CState → CState → ℕ → Run (CState × Bool × World)
  unfolding client_add_to_load schedule_client
  after_load w c now_time before rval_load wait =
      let cctx = w.clients c in
      let seen : CState = elim before [
        | CState.cstate_error ↦ CState.cstate_error
        | _ ↦ rval_load
      ] in
      op_stat_update w.batch.op_delta seen cctx.preload_state cctx.url_curr_index
        cctx.preload_url_curr_index
      >>= λ op_delta.
          let op_delta' =
            if fetching_first_cycling_url w.batch cctx
            then op_stat_call_init_count_inc op_delta
            else op_delta in
          let w1 = record w { batch = record (w.batch) { op_delta = op_delta' } } in
          let add : Run (CState × Bool × World) =
            client_add_to_load w1 c now_time >>= λ (added, w2).
            ok (if added then rval_load else CState.cstate_error, added, w2) in
          let sleep : Run (CState × Bool × World) =
            schedule_client w1 c sleeping_timer ((now_time + wait) % 2 ^ 64) >>= λ (id, w2).
            let w3 = set_client w2 c (record (w2.clients c) { tid_sleeping = id }) in
            elim id [
              | none ↦ ok (CState.cstate_error, false, w3)
              | some _ ↦ ok (
                rval_load,
                false,
                record w3 {
                  batch = record (w3.batch) {
                    sleeping_clients_count = w3.batch.sleeping_clients_count + 1;
                  };
                },
              )
            ] in
          let end_with : Bool → Run (CState × Bool × World) =
            λ handle. ok (rval_load, false, set_client w1 c (record cctx { handle = handle })) in
          elim rval_load [
            | CState.cstate_error ↦ end_with true
            | CState.cstate_finished_ok ↦ end_with false
            | _ ↦ if wait == 0 then add else sleep
          ]

  -- The load itself, or the end of the run time.
  unfoldable pub load_or_finish : BatchContext → ClientContext → ℕ → Run Loaded
  unfolding load_state
  load_or_finish bctx cctx now_time =
      let load = load_state bctx cctx in
      if not (bctx.run_time == 0)
        && leb bctx.run_time ((now_time + 2 ^ 64 - bctx.start_time) % 2 ^ 64)
      then ok (CState.cstate_finished_ok, 0, record bctx { requests_completed = true }, cctx)
      else load

  unfoldable pub load_next_step : World → ℕ → ℕ → Run (CState × Bool × World)
  unfolding cancel_completion client_remove_from_load load_or_finish after_load
  load_next_step w c now_time = cancel_completion w c >>= λ w1.
      let cctx = w1.clients c in
      let (removed, w2) : Bool × World = elim cctx.client_state as (λ _. Bool × World) [
        | CState.cstate_init ↦ (true, w1)
        | _ ↦ client_remove_from_load w1 c
      ] in
      let step : Run (CState × Bool × World) =
        load_or_finish w2.batch cctx now_time >>= λ (rval_load, wait, bctx, cctx').
        after_load (record (set_client w2 c cctx') { batch = bctx }) c now_time cctx.client_state
          rval_load wait in
      if removed then step else ok (CState.cstate_error, false, w2)
