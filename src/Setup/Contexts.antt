-- ===== src/Setup/Contexts.antt =====
-- loader.c and loader_smooth.c: the contexts of the clients before loading, and a transfer that is over.
use curl_loader.Base.{ℕ, zero, suc, Bool, true, none, Run, ok, ◌>>=◌, ◌==◌, if◌then◌else◌, update}
use curl_loader.Statistics.{CState}
use curl_loader.Context.{ClientContext}
use curl_loader.Loader.{put_free_client}
use curl_loader.Loader.Step.{World, Outside, set_client, load_next_step}

-- The clients below `n`. Their names and files are not in the contexts here.
unfoldable pub init_client_contexts : ℕ → (ℕ → ClientContext) → ℕ → ClientContext
init_client_contexts zero clients = clients
init_client_contexts (suc n) clients =
    let before = init_client_contexts n clients in
    update before n (record (before n) {
      cycle_num = 0;
      tid_sleeping = none;
      tid_url_completion = none;
      url_curr_index = 0;
    })

-- What mperform_smooth does with the message of curl that the transfer of client `c` is over, `failed`
-- being whether it has an error. `false` is the result -1, with which the loop ends.
unfoldable pub transfer_done : Outside → World → ℕ → Bool → ℕ → Run (Bool × World)
transfer_done env w c failed now_time =
    let cctx = w.clients c in
    let w1 =
      if failed then set_client w c (record cctx { client_state = CState.cstate_error }) else w in
    let put : Run (Bool × World) =
      put_free_client w1.batch c >>= λ (done, bctx). ok (done, record w1 { batch = bctx }) in
    let step : Run (Bool × World) =
      load_next_step env w1 c now_time >>= λ (rval, now, w2). ok (true, w2) in
    if w1.batch.req_rate == 0 then step else put
