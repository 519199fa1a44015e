-- ===== src/Statistics/Snapshot.antt =====
-- statistics.c: the counters of the threads are collected at a snapshot, and the totals advance.
use curl_loader.Base.{
  ℕ, zero, suc, ◌-◌, ◌/◌, Run, ok, ◌>>=◌, within, ltb, ◌==◌, if◌then◌else◌, update,
}
use curl_loader.Statistics.{
  StatPoint, OpStatPoint, stat_point_add, stat_point_reset, op_stat_point_add, op_stat_point_reset,
}
use curl_loader.Setup.Subbatches.{batches_max_num}
pub mod Counters
pub mod Sums

-- The points of a batch, and the time of its last snapshot.
pub record BatchStatistics : Type 0 where
  pub op_delta : OpStatPoint
  pub op_total : OpStatPoint
  pub http_delta : StatPoint
  pub https_delta : StatPoint
  pub http_total : StatPoint
  pub https_total : StatPoint
  pub last_measure : ℕ

abbrev pub BatchArray : Type 0
BatchArray = ℕ → BatchStatistics

-- The operations of batch `i` are added to those of the first one, and set to 0.
abbrev pub collect_operations : BatchArray → ℕ → BatchArray
collect_operations bctx i =
    let main = record (bctx 0) {
      op_delta = op_stat_point_add (bctx 0).op_delta (bctx i).op_delta;
    } in
    let other = record (bctx i) { op_delta = op_stat_point_reset (bctx i).op_delta } in
    update (update bctx 0 main) i other

-- The counters of batch `i` likewise.
abbrev pub collect_counters : BatchArray → ℕ → BatchArray
collect_counters bctx i =
    let main = record (bctx 0) {
      http_delta = stat_point_add (bctx 0).http_delta (bctx i).http_delta;
      https_delta = stat_point_add (bctx 0).https_delta (bctx i).https_delta;
    } in
    let other = record (bctx i) {
      http_delta = stat_point_reset (bctx i).http_delta;
      https_delta = stat_point_reset (bctx i).https_delta;
    } in
    update (update bctx 0 main) i other

-- The loop over the batches 1 to `threads_subbatches_num`, the last of which is behind the sub-batches.
unfoldable pub collect : (BatchArray → ℕ → BatchArray) → ℕ → BatchArray → Run BatchArray
collect one zero bctx = ok bctx
collect one (suc i) bctx =
    collect one i bctx >>= λ bctx'. within (ltb (suc i) batches_max_num) (one bctx' (suc i))

-- The first batch once its operations are in the total.
abbrev pub advance_operations : BatchStatistics → BatchStatistics
advance_operations b = record b {
  op_total = op_stat_point_add b.op_total b.op_delta;
  op_delta = op_stat_point_reset b.op_delta;
}

abbrev pub advance_counters : BatchStatistics → ℕ → BatchStatistics
advance_counters b now_time = record b {
  http_total = stat_point_add b.http_total b.http_delta;
  https_total = stat_point_add b.https_total b.https_delta;
  http_delta = stat_point_reset b.http_delta;
  https_delta = stat_point_reset b.https_delta;
  last_measure = now_time;
}

-- The calls that print are left out, and the end of the program after a stop.
unfoldable pub dump_snapshot_interval_and_advance_total_statistics :
    ℕ → BatchArray → ℕ → Run BatchArray
unfolding collect
dump_snapshot_interval_and_advance_total_statistics threads_subbatches_num bctx now_time = do
  b1 ← collect collect_operations threads_subbatches_num bctx
  b2 ← collect collect_counters threads_subbatches_num (update b1 0 (advance_operations (b1 0)))
  ok (update b2 0 (advance_counters (b2 0) now_time))

-- Without the calls that print. `now` is the time at the end, and `start_time` that of the first batch;
-- a run of less than a second ends before the operations are collected.
unfoldable pub dump_final_statistics : ℕ → BatchArray → ℕ → ℕ → Run BatchArray
unfolding collect
dump_final_statistics threads_subbatches_num bctx start_time now = do
  b1 ← collect collect_counters threads_subbatches_num bctx
  let b2 = update b1 0 (record (b1 0) {
    http_total = stat_point_add (b1 0).http_total (b1 0).http_delta;
    https_total = stat_point_add (b1 0).https_total (b1 0).https_delta;
  })
  let finish : Run BatchArray = do
    b3 ← collect collect_operations threads_subbatches_num b2
    ok (
        update b3 0
          (record (b3 0) { op_total = op_stat_point_add (b3 0).op_total (b3 0).op_delta }))
  if (now - start_time) / 1000 == 0 then ok b2 else finish
