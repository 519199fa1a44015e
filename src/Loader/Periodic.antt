-- ===== src/Loader/Periodic.antt =====
-- loader_fsm.c: the waiting queue of a batch, and its periodic timers.
use curl_loader.Base.{
  ℕ, ◌+◌, ◌-◌, ◌%◌, ◌^◌, ◌/◌, Bool, true, false, ◌&&◌, ◌||◌, not, Option, none, some, List, [], ◌∷◌,
  Run, ok, ◌>>=◌, ◌==◌, if◌then◌else◌, update,
}
use curl_loader.Memory.{Machine, cl_calloc}
use curl_loader.Context.{BatchContext}
use curl_loader.Heap.{Heap}
use curl_loader.Heap.Operations.{zero_heap}
use curl_loader.TimerQueue.{
  TimerQueue, Rval, code, tq_init, tq_schedule_timer, tq_cancel_timer, set_timer_id,
}
use curl_loader.Loader.{req_rate_timer_invs_per_sec}
use curl_loader.Loader.Step.{Outside, World, rval_of}
use curl_loader.Loader.Ramp.{add_loading_clients, add_loading_clients_num, req_rate_sched_clients}
pub mod Cancel
pub mod Fresh

-- The size of the struct heap, in bytes.
abbrev pub heap_struct_size : ℕ
heap_struct_size = 88

-- The waiting queue, `none` for -1. After a failure of tq_init its struct is given back, which nothing
-- reads.
unfoldable pub alloc_init_timer_waiting_queue : ℕ → Machine → ℕ → Option Heap × Machine
alloc_init_timer_waiting_queue pagesize m size =
    let (tq, m1) = cl_calloc m 1 heap_struct_size in
    let (ready, m2, q) = tq_init pagesize m1 zero_heap size 10 size in
    elim tq [ none ↦ (none, m1) | some _ ↦ if ready then (some q, m2) else (none, m2) ]

-- The addresses of the timer nodes in the context of a batch.
pub record PeriodicTimers : Type 0 where
  pub logfile_timer_node : ℕ
  pub clients_num_inc_timer_node : ℕ
  pub screen_input_timer_node : ℕ
  pub req_rate_timer_node : ℕ

-- LOGFILE_TEST_TIMER_PERIOD, in msec
abbrev pub logfile_timer_msec : ℕ
logfile_timer_msec = 10000

-- req_rate_timer_fudge
abbrev pub req_rate_timer_fudge : ℕ
req_rate_timer_fudge = 20

-- The next shot, the period and the handler of a node are set, and it is scheduled; `false` is -1.
unfoldable pub schedule_periodic : TimerQueue → ℕ → ℕ → ℕ → ℕ → Run (Bool × TimerQueue)
schedule_periodic q node next_timer period func_timer =
    let tnode = record (q.timers node) {
      next_timer = next_timer;
      period = period;
      func_timer = func_timer;
    } in
    tq_schedule_timer (record q { timers = update q.timers node tnode }) node >>= λ (id, q').
    elim id [ none ↦ ok (false, q') | some k ↦ ok (true, q') ]

abbrev pub schedule_in : World → ℕ → ℕ → ℕ → ℕ → Run (Bool × World)
schedule_in w node next_timer period func_timer =
    schedule_periodic w.waiting_queue node next_timer period func_timer >>= λ (done, q).
    ok (done, record w { waiting_queue = q })

-- The batch as loading begins. Its last_measure is not in the context here.
abbrev pub started : BatchContext → ℕ → BatchContext
started bctx now_time = record bctx {
  start_time = now_time;
  active_clients_count = 0;
  sleeping_clients_count = 0;
}

module _ (env : Outside) (nodes : PeriodicTimers) (now_time : ℕ) where
  -- `false` is the result -1. The handlers have the numbers 3 to 6, for the logfile, the screen input,
  -- the gradual increase and the request rate.
  unfoldable pub init_timers_and_add_initial_clients_to_load : World → Run (Bool × World)
  unfolding schedule_periodic add_loading_clients
  init_timers_and_add_initial_clients_to_load w = do
    (logfile, w1) ←
        schedule_in w nodes.logfile_timer_node ((now_time + logfile_timer_msec) % 2 ^ 64)
          logfile_timer_msec 3
    (screen, w2) ←
        if logfile
        then schedule_in w1 nodes.screen_input_timer_node ((now_time + 3000) % 2 ^ 64) 1000 4
        else ok (false, w1)
    (added, w3) ←
        if screen
        then add_loading_clients env now_time (record w2 { batch = started w2.batch now_time })
        else ok (false, w2)
    (inc, w4) ←
        if added && w3.batch.do_client_num_gradual_increase
        then schedule_in w3 nodes.clients_num_inc_timer_node ((now_time + 1000) % 2 ^ 64) 1000 5
        else ok (added, w3)
    if inc && not (w4.batch.req_rate == 0)
        then schedule_in w4 nodes.req_rate_timer_node ((now_time + 1000) % 2 ^ 64)
            (1000 / req_rate_timer_invs_per_sec - req_rate_timer_fudge) 6
        else ok (inc, w4)

-- A node whose timer_id is not -1 is cancelled, and gets the timer_id -1. The result of tq_cancel_timer
-- is not looked at.
unfoldable pub cancel_periodic : TimerQueue → ℕ → Run TimerQueue
cancel_periodic q node = elim (q.timers node).timer_id [
  | none ↦ ok q
  | some timer_id ↦
      tq_cancel_timer q (some timer_id) >>= λ (done, q'). ok (set_timer_id q' node none)
]

unfoldable pub cancel_nodes : List ℕ → TimerQueue → Run TimerQueue
unfolding cancel_periodic
cancel_nodes [] q = ok q
cancel_nodes (node ∷ nodes) q = cancel_periodic q node >>= λ q'. cancel_nodes nodes q'

-- The nodes in the order in which they are cancelled.
abbrev pub periodic_nodes : PeriodicTimers → List ℕ
periodic_nodes nodes =
    nodes.logfile_timer_node ∷ nodes.clients_num_inc_timer_node ∷ nodes.screen_input_timer_node
    ∷ nodes.req_rate_timer_node ∷ []

-- The four blocks of the code are alike, and here a loop over the nodes.
unfoldable pub cancel_periodic_timers : PeriodicTimers → TimerQueue → Run TimerQueue
unfolding cancel_nodes
cancel_periodic_timers nodes q = cancel_nodes (periodic_nodes nodes) q

unfoldable pub handle_gradual_increase_clients_num_timer : Outside → World → ℕ → Run (Rval × World)
unfolding add_loading_clients
handle_gradual_increase_clients_num_timer env w now_time =
    add_loading_clients env now_time w >>= λ (done, w'). ok (rval_of done, w')

-- The result of req_rate_sched_clients is not looked at.
unfoldable pub handle_req_rate_timer : Outside → World → ℕ → Run (Rval × World)
unfolding req_rate_sched_clients
handle_req_rate_timer env w now_time =
    req_rate_sched_clients env now_time w >>= λ (done, w'). ok (code 0, w')

-- `rewound` is whether rewind_logfile_above_maxsize succeeds, which looks at the file alone.
abbrev pub handle_logfile_rewinding_timer : Bool → Rval
handle_logfile_rewinding_timer rewound = rval_of rewound

-- The keys of the user: `m` stops the gradual increase, `a` lets it go on, `+` adds a client, and `*`
-- ten. The result of add_loading_clients_num is not looked at.
unfoldable pub on_keybord_input : Outside → ℕ → World → ℕ → Run World
unfolding add_loading_clients_num
on_keybord_input env key w now_time =
    let stop : Bool → World =
      λ b. record w { batch = record (w.batch) { stop_client_num_gradual_increase = b } } in
    let add : ℕ → Run World =
      λ n. add_loading_clients_num env now_time w n >>= λ (done, w'). ok w' in
    if key == b'm' || key == b'M'
    then ok (stop true)
    else if key == b'a' || key == b'A'
    then ok (stop false)
    else if key == b'+'
    then add 1
    else if key == b'*'
    then add 10
    else ok w

-- `key` is what getch gives, `none` for -1.
unfoldable pub screen_test_keyboard_input : Outside → Option ℕ → World → ℕ → Run World
unfolding on_keybord_input
screen_test_keyboard_input env key w now_time = elim key [
  | none ↦ ok w
  | some k ↦ on_keybord_input env k w now_time
]

unfoldable pub handle_screen_input_timer : Outside → Option ℕ → World → ℕ → Run (Rval × World)
unfolding screen_test_keyboard_input
handle_screen_input_timer env key w now_time =
    screen_test_keyboard_input env key w now_time >>= λ w'. ok (code 0, w')
