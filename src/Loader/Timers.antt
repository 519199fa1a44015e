-- ===== src/Loader/Timers.antt =====
-- loader_fsm.c: the handlers of the two timers of a client.
use curl_loader.Base.{ℕ, ◌-◌, none, Run, ok, ◌>>=◌, ◌==◌, if◌then◌else◌}
use curl_loader.Statistics.{CState, op_stat_timeouted}
use curl_loader.Context.{stat_url_timeout_err_inc}
use curl_loader.TimerQueue.{Rval}
use curl_loader.Loader.{put_free_client}
use curl_loader.Loader.Step.{
  Outside, World, set_client, setup_url, client_add_to_load, load_next_step, cstate_value, rval_of,
}

module _ (env : Outside) where
  unfoldable pub handle_cctx_sleeping_timer : World → ℕ → ℕ → Run (Rval × World)
  unfolding setup_url client_add_to_load
  handle_cctx_sleeping_timer w c now_time =
      let bctx = record (w.batch) { sleeping_clients_count = w.batch.sleeping_clients_count - 1 } in
      let cctx = w.clients c in
      let cctx' =
        if (bctx.url_ctx_array cctx.url_curr_index).fresh_connect
        then (setup_url env bctx cctx).1
        else cctx in
      client_add_to_load env (record (set_client w c cctx') { batch = bctx }) c now_time
      >>= λ (added, w'). ok (rval_of added, w')

  unfoldable pub handle_cctx_url_completion_timer : World → ℕ → ℕ → Run (Rval × World)
  unfolding load_next_step
  handle_cctx_url_completion_timer w c now_time =
      op_stat_timeouted w.batch.op_delta (w.clients c).url_curr_index >>= λ op_delta.
      let (cctx, bctx) =
        stat_url_timeout_err_inc (record (w.clients c) { tid_url_completion = none })
          (record (w.batch) { op_delta = op_delta }) in
      let w1 = record (set_client w c (record cctx { client_state = CState.cstate_error })) {
        batch = bctx;
      } in
      let put : Run (Rval × World) = put_free_client bctx c >>= λ (done, bctx').
      ok (rval_of done, record w1 { batch = bctx' }) in
      let step : Run (Rval × World) =
        load_next_step env w1 c now_time >>= λ (rval, now, w2). ok (cstate_value rval, w2) in
      if bctx.req_rate == 0 then step else put
