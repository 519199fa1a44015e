-- ===== src/Tests/Counting.antt =====
-- The statistics of two sub-batches at a snapshot.
use curl_loader.Base.{◌+◌, arith, Yields}
use curl_loader.Statistics.Snapshot.{
  BatchArray, dump_snapshot_interval_and_advance_total_statistics,
}
use curl_loader.Statistics.Snapshot.Counters.{resp_2xx, http}
use curl_loader.Statistics.Snapshot.Sums.{
  IsAdvanced, dump_snapshot_interval_and_advance_total_statistics-IsAdvanced,
}
use curl_loader.Config.Cycling.{no_stat, no_op_stat}

-- Batch `i` has counted `i + 1` responses, and the total is 40.
abbrev test_batches : BatchArray
test_batches i = record {
  op_delta = no_op_stat;
  op_total = no_op_stat;
  http_delta = record no_stat { resp_2xx = i + 1 };
  https_delta = no_stat;
  http_total = record no_stat { resp_2xx = 40 };
  https_total = no_stat;
  last_measure = 0;
}

dump_snapshot_interval_and_advance_total_statistics-IsAdvanced_example :
    Yields
      (IsAdvanced http resp_2xx 2 test_batches)
      (dump_snapshot_interval_and_advance_total_statistics 2 test_batches 3000)
dump_snapshot_interval_and_advance_total_statistics-IsAdvanced_example =
    dump_snapshot_interval_and_advance_total_statistics-IsAdvanced http resp_2xx 2 3000
      (omega arith) test_batches
