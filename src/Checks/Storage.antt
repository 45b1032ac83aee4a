-- ===== src/Checks/Storage.antt =====
-- A sink with room for one snapshot.
use inference_fabric_autopil.Prelude.{arith, true, false, List, [], ◌∷◌}
use inference_fabric_autopil.Prelude.Int.{pos}
use inference_fabric_autopil.Float.Sample.{Num}
use inference_fabric_autopil.Storage.Sink.{Sink, new_sink, drain_sink}
use inference_fabric_autopil.Storage.Sink.Close.{IsDrained, drain_sink_lem}
use inference_fabric_autopil.Storage.Sink.Order.{
  SinkOp, writes, takes, sink_run, written_by, IsAccounted, run-new_sink-IsAccounted,
}
use inference_fabric_autopil.Checks.Data.{busy_at}

abbrev sink_ops : List (SinkOp Num)
sink_ops =
    writes (busy_at 0)
    ∷ writes (busy_at 15)
    ∷ takes (λ x. true)
    ∷ writes (busy_at 30)
    ∷ takes (λ x. false)
    ∷ []

run-new_sink-IsAccounted_example :
    IsAccounted (written_by sink_ops) (sink_run ([], new_sink (pos 1)) sink_ops)
run-new_sink-IsAccounted_example = run-new_sink-IsAccounted (pos 1) sink_ops

abbrev full : Sink Num
full = record {
  capacity = 2;
  waiting = busy_at 0 ∷ busy_at 15 ∷ [];
  dropped = 0;
  failed = 0;
  written = 0;
}

drain_sink_lem_example : IsDrained full 2 (drain_sink (λ x. true) 2 full)
drain_sink_lem_example = drain_sink_lem (λ x. true) 2 full (omega arith)
