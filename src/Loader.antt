-- ===== src/Loader.antt =====
-- loader_fsm.c: the states of a client, the gradual increase of clients, and the fixed request rate.
use curl_loader.Base.{
  ℕ, zero, suc, ◌+◌, ◌-◌, ◌/◌, ◌%◌, ◌^◌, Bool, true, false, ◌&&◌, ◌||◌, not, Option, none, some,
  Run, ok, fault, out_of_fuel, ◌>>=◌, within, ltb, leb, ◌==◌, if◌then◌else◌, update, min,
}
use curl_loader.Statistics.{CState, op_stat_update, op_stat_call_init_count_inc, op_stat_timeouted}
use curl_loader.Context.{
  UrlContext, ClientContext, BatchContext, current_url_completion_timeout,
  current_url_sleeping_timeout, stat_url_timeout_err_inc,
}
use curl_loader.TimerQueue.{
  TimerNode, TimerQueue, Handler, tq_schedule_timer, tq_cancel_timer, tq_empty,
  tq_time_to_nearest_timer, tq_dispatch_nearest_timer,
}
pub mod Cycle
pub mod Clients
pub mod Step
pub mod Timers
pub mod Ramp
pub mod Following
pub mod Lifetime
pub mod Periodic

unfoldable pub advance_cycle_num : ClientContext → ClientContext
advance_cycle_num cctx = record cctx { cycle_num = cctx.cycle_num + 1 }

unfoldable pub fetching_first_cycling_url : BatchContext → ClientContext → Bool
fetching_first_cycling_url bctx cctx = cctx.url_curr_index == bctx.first_cycling_url

-- The next index, or `none` for -1, which leaves the index of the client.
abbrev pub next_url : ClientContext → ℕ → Option ℕ × ClientContext
next_url cctx index = (some index, record cctx { url_curr_index = index })

-- `urls_num` is positive.
unfoldable pub pick_up_next_url :
    BatchContext → ClientContext → Option ℕ × BatchContext × ClientContext
unfolding advance_cycle_num
pick_up_next_url bctx cctx =
    let index = cctx.url_curr_index in
    let at_end = index == bctx.urls_num - 1 in
    let (onward, moved) = next_url cctx (index + 1) in
    let advanced = advance_cycle_num cctx in
    let (onward', moved') = next_url advanced (index + 1) in
    let (again, restarted) = next_url advanced bctx.first_cycling_url in
    let completed = record bctx { cycling_completed = true } in
    if bctx.cycling_completed
    then (if at_end then (none, bctx, cctx) else (onward, bctx, moved))
    else if ltb index bctx.last_cycling_url
    then (onward, bctx, moved)
    else if index == bctx.last_cycling_url
    then (if not (bctx.cycles_num == 0) && advanced.cycle_num == bctx.cycles_num
        then (if at_end then (none, completed, advanced) else (onward', completed, moved'))
        else (again, bctx, restarted))
    else (none, bctx, cctx)

-- The write to url_fetch_decision [url_curr_index]
unfoldable pub cache_decision : ClientContext → (ℕ → Option Bool) → Bool → ClientContext
cache_decision cctx decisions drawn = record cctx {
  url_fetch_decision = some (update decisions cctx.url_curr_index (some drawn));
}

-- `prob` is the result of get_prob. The entry -1 of the array is asked for twice, once as the condition of
-- the branch and once in it.
unfoldable pub fetching_decision : ℕ → ClientContext → UrlContext → Bool × ClientContext
fetching_decision prob cctx url =
    let drawn = leb prob url.fetch_probability in
    if url.fetch_probability == 0 then (true, cctx) else elim cctx.url_fetch_decision [
      | none ↦ (drawn, cctx)
      | some decisions ↦ elim (decisions cctx.url_curr_index) [
        | none ↦ (drawn, cctx)
        | some _ ↦ elim (decisions cctx.url_curr_index) [
          | none ↦ (drawn, cache_decision cctx decisions drawn)
          | some cached ↦ (cached, cctx)
        ]
      ]
    ]

-- The do-while loop of load_urls_state: `probs n` is what get_prob gives in round n, if it is called
-- there. `none` says that there is no url any more.
unfoldable pub pick_loop :
    (ℕ → ℕ) → ℕ → ℕ → BatchContext → ClientContext → Run (Option ℕ × BatchContext × ClientContext)
unfolding pick_up_next_url fetching_decision
pick_loop probs zero n bctx cctx = out_of_fuel
pick_loop probs (suc fuel) n bctx cctx =
    let (picked, bctx', cctx') = pick_up_next_url bctx cctx in
    elim picked [
      | none ↦ ok (none, bctx', cctx')
      | some index ↦
          let (fetch, cctx2) = fetching_decision (probs n) cctx' (bctx'.url_ctx_array index) in
          let rest = pick_loop probs fuel (n + 1) bctx' cctx2 in
          if fetch then ok (some index, bctx', cctx2) else rest
    ]

-- put_free_client, for the client at `cctx` of cctx_array. `true` is the result 0.
unfoldable pub put_free_client : BatchContext → ℕ → Run (Bool × BatchContext)
put_free_client bctx cctx =
    let free_client_no = cctx + 1 in
    let put = record bctx {
      free_clients = update bctx.free_clients bctx.free_clients_count free_client_no;
      free_clients_count = bctx.free_clients_count + 1;
    } in
    if leb bctx.client_num_max bctx.free_clients_count
    then ok (false, bctx)
    else if ltb bctx.client_num_max free_client_no
    then ok (false, bctx)
    else if not (bctx.free_clients bctx.free_clients_count == 0)
    then ok (false, bctx)
    else ok (true, put)

-- The index in cctx_array of the client taken, or `none` for the result -1.
unfoldable pub get_free_client : BatchContext → Option ℕ × BatchContext
get_free_client bctx =
    let count = bctx.free_clients_count - 1 in
    let free_client_no = bctx.free_clients count in
    let taken = record bctx { free_clients_count = count } in
    if bctx.free_clients_count == 0
    then (none, bctx)
    else if free_client_no == 0
    then (none, taken)
    else (
      some (free_client_no - 1),
      record taken { free_clients = update bctx.free_clients count 0 },
    )

-- req_rate_timer_invs_per_sec
abbrev pub req_rate_timer_invs_per_sec : ℕ
req_rate_timer_invs_per_sec = 5

-- The number of clients that an invocation of the request rate timer schedules, and the batch with its
-- invocations counted.
unfoldable pub clients_of_invocation : BatchContext → ℕ × BatchContext
clients_of_invocation bctx =
    let invocation = bctx.req_rate_timer_invocation % req_rate_timer_invs_per_sec in
    let share = bctx.req_rate / req_rate_timer_invs_per_sec in
    let remainder = bctx.req_rate % req_rate_timer_invs_per_sec in
    let clients_to_sched = if ltb invocation remainder then share + 1 else share in
    let busy = bctx.client_num_max - bctx.free_clients_count in
    (
      if ltb bctx.clients_current_sched_num bctx.client_num_max
          then min clients_to_sched (bctx.clients_current_sched_num - busy)
          else clients_to_sched,
      record bctx { req_rate_timer_invocation = invocation + 1 },
    )

unfoldable pub pending_active_and_waiting_clients_num : Bool → BatchContext → ℕ
pending_active_and_waiting_clients_num waiting_queue bctx =
    let total =
      if waiting_queue
      then bctx.active_clients_count + bctx.sleeping_clients_count
      else bctx.active_clients_count in
    if not (bctx.req_rate == 0) && (bctx.cycling_completed || bctx.requests_completed)
    then 0
    else if not (total == 0)
    then total
    else if not (bctx.req_rate == 0) && not (bctx.clients_current_sched_num == 0)
    then 1
    else 0

unfoldable pub pending_active_and_waiting_clients_num_stat : Bool → BatchContext → ℕ
unfolding pending_active_and_waiting_clients_num
pending_active_and_waiting_clients_num_stat waiting_queue bctx =
    if bctx.req_rate == 0
    then pending_active_and_waiting_clients_num waiting_queue bctx
    else bctx.client_num_max - bctx.free_clients_count
