-- ===== src/Loader/Ramp.antt =====
-- loader_fsm.c: which clients are scheduled, by add_loading_clients, by the request rate, and by the timers.
use curl_loader.Base.{
  ℕ, zero, suc, ◌+◌, ◌-◌, ◌≤◌, ◌<◌, ◌≡◌, ◌⊎◌, Bool, true, false, not, ◌&&◌, arith, Option, none,
  some, Run, ok, fault, out_of_fuel, ◌>>=◌, ltb, leb, ◌==◌, if◌then◌else◌, min,
}
use curl_loader.Statistics.{CState}
use curl_loader.Context.{BatchContext}
use curl_loader.TimerQueue.{
  TimerQueue, Handler, failed, code, tq_empty, tq_time_to_nearest_timer, tq_dispatch_nearest_timer,
}
use curl_loader.Loader.{get_free_client, clients_of_invocation}
use curl_loader.Loader.Step.{World, Outside, load_next_step}
pub mod Full

-- The number of clients that add_loading_clients schedules.
unfoldable pub clients_to_add : BatchContext → ℕ
clients_to_add bctx =
    if (bctx.clients_current_sched_num == 0) && not (bctx.client_num_start == 0)
    then bctx.client_num_start
    else if bctx.clients_rampup_inc == 0
    then bctx.client_num_max
    else min bctx.clients_rampup_inc (bctx.client_num_max - bctx.clients_current_sched_num)

-- The counters at the end of add_loading_clients.
unfoldable pub count_added : BatchContext → ℕ → BatchContext
count_added bctx added =
    let sched = bctx.clients_current_sched_num + added in
    let counted = record bctx { clients_current_sched_num = sched } in
    if not (bctx.clients_rampup_inc == 0) && ltb sched bctx.client_num_max
    then record counted { do_client_num_gradual_increase = true }
    else counted

module _ (env : Outside) (now_time : ℕ) where
  -- The for loop of orderly_sched_clients, from the client `j` on; `left` clients are to be scheduled. The
  -- array of clients has client_num_max entries.
  unfoldable pub sched_from : ℕ → World → ℕ → Run (Bool × World)
  sched_from zero w j = ok (true, w)
  sched_from (suc left) w j = do
    (rval, now, w') ←
        if ltb j w.batch.client_num_max then load_next_step env w j now_time else fault
    let rest = sched_from left w' (j + 1)
    elim rval [ CState.cstate_error ↦ ok (false, w') | _ ↦ rest ]

  unfoldable pub orderly_sched_clients : World → ℕ → Run (Bool × World)
  unfolding sched_from
  orderly_sched_clients w clients_to_sched =
      sched_from clients_to_sched w w.batch.clients_current_sched_num

  -- `true` is the result 0, and `false` the result -1, which stops the timer.
  unfoldable pub add_loading_clients : World → Run (Bool × World)
  unfolding orderly_sched_clients
  add_loading_clients w =
      let bctx = w.batch in
      let add = clients_to_add bctx in
      let finish : World → Run (Bool × World) =
        λ w'. ok (true, record w' { batch = count_added w'.batch add }) in
      let schedule : Run (Bool × World) = do
        (done, w') ← orderly_sched_clients w add
        if done then finish w' else ok (false, w')
      in if bctx.stop_client_num_gradual_increase
        then ok (true, w)
        else if leb bctx.client_num_max bctx.clients_current_sched_num
        then ok (false, record w { batch = record bctx { do_client_num_gradual_increase = false } })
        else if bctx.req_rate == 0
        then schedule
        else finish w

  unfoldable pub add_loading_clients_num : World → ℕ → Run (Bool × World)
  unfolding orderly_sched_clients
  add_loading_clients_num w add_number =
      let bctx = w.batch in
      let add = min add_number (bctx.client_num_max - bctx.clients_current_sched_num) in
      let finish : World → Run (Bool × World) = λ w'. ok (
        true,
        record w' {
          batch = record (w'.batch) {
            clients_current_sched_num = w'.batch.clients_current_sched_num + add;
          };
        },
      ) in
      let schedule : Run (Bool × World) = do
        (done, w') ← orderly_sched_clients w add
        if done then finish w' else ok (false, w')
      in if add_number == 0
        then ok (false, w)
        else if leb bctx.client_num_max bctx.clients_current_sched_num
        then ok (false, w)
        else if bctx.req_rate == 0
        then schedule
        else finish w

  -- The for loop of req_rate_sched_clients. The result of load_next_step is not looked at.
  unfoldable pub sched_free : ℕ → World → Run (Bool × World)
  sched_free zero w = ok (true, w)
  sched_free (suc left) w =
      let (client, bctx) = get_free_client w.batch in
      let taken = record w { batch = bctx } in
      elim client [
        | none ↦ ok (false, taken)
        | some c ↦ load_next_step env taken c now_time >>= λ (rval, now, w'). sched_free left w'
      ]

  unfoldable pub req_rate_sched_clients : World → Run (Bool × World)
  unfolding sched_free
  req_rate_sched_clients w =
      let (clients_to_sched, bctx) = clients_of_invocation w.batch in
      sched_free clients_to_sched (record w { batch = bctx })

-- The while loop of dispatch_expired_timers. `none` is the result -1. Handlers may add timers that have
-- expired already, so the loop has no bound of its own.
unfoldable pub dispatch_expired_timers :
    ℕ → Handler → TimerQueue → ℕ → ℕ → Run (Option ℕ × TimerQueue)
dispatch_expired_timers zero handle q now_time count = out_of_fuel
dispatch_expired_timers (suc fuel) handle q now_time count =
    let dispatch : Run (Option ℕ × TimerQueue) = do
      (rval, q') ← tq_dispatch_nearest_timer handle q now_time
      let rest = dispatch_expired_timers fuel handle q' now_time (count + 1)
      elim rval [ failed ↦ ok (none, q') | code n ↦ rest ]
    in let next : Run (Option ℕ × TimerQueue) = do
      time_nearest ← tq_time_to_nearest_timer q
      if leb time_nearest now_time then dispatch else ok (some count, q)
      in if tq_empty q then ok (some count, q) else next
