-- ===== src/Checks/Telemetry.antt =====
-- The store on the snapshots of a busy workload.
use inference_fabric_autopil.Prelude.{
  ◌≡◌, refl, none, some, List, [], ◌∷◌, ◌++◌, ◌↔◌, Elem, if◌then◌else◌, get_last?,
}
use inference_fabric_autopil.Prelude.Int.{pos, ◌-ℤ◌}
use inference_fabric_autopil.Prelude.Texts.{codes, text_eq}
use inference_fabric_autopil.Prelude.Sort.{IsSorted}
use inference_fabric_autopil.Float.Sample.{Num, sample, sample_text}
use inference_fabric_autopil.Telemetry.Metric.{JsonNumber, unmarshal_json}
use inference_fabric_autopil.Telemetry.Snapshot.{Snapshot, key}
use inference_fabric_autopil.Telemetry.Store.{
  Store, new_store, with_retention, add, history, prune, is_stale, latest, by_key,
}
use inference_fabric_autopil.Telemetry.Store.Retention.{
  IsValid, Op, run, adds, prunes, run-new_store-IsValid,
}
use inference_fabric_autopil.Telemetry.Store.Queries.{kept, history-add, history-prune, latest_lem}
use inference_fabric_autopil.Checks.Data.{busy_at, at_second, measured}

-- Numbers are read as decimal digits; none is written.
abbrev digits : JsonNumber Num
digits = record { encode = λ v. none; decode = sample_text.parse_float }

number_read : unmarshal_json digits (codes "7") ≡ some (measured 7)
unfolding unmarshal_json text_eq
number_read = refl

word_refused : unmarshal_json digits (codes "up") ≡ none
unfolding unmarshal_json text_eq
word_refused = refl

abbrev samples : List (Op Num)
samples =
    adds (at_second 0) (busy_at 0)
    ∷ adds (at_second 30) (busy_at 30)
    ∷ adds (at_second 60) (busy_at 60)
    ∷ prunes (at_second 70)
    ∷ []

-- A store for two samples of at most a minute.
abbrev start : Store Num
start = with_retention (pos 2) (at_second 60) new_store

run-new_store-IsValid_example :
    IsValid (run (with_retention (pos 2) (at_second 60) new_store) samples)
run-new_store-IsValid_example = run-new_store-IsValid (pos 2) (at_second 60) samples

ran-IsValid : IsValid (run start samples)
ran-IsValid = run-new_store-IsValid (pos 2) (at_second 60) samples

history-add_example : history (add start (at_second 60) (busy_at 60)).0 (codes "ml/chat") ≡ (
    if text_eq (codes "ml/chat") (key (busy_at 60))
    then kept start (at_second 60) (history start (codes "ml/chat") ++ busy_at 60 ∷ [])
    else history start (codes "ml/chat"))
history-add_example = history-add start (at_second 60) (busy_at 60) (codes "ml/chat")

stale_dropped : history (prune (run start samples) (at_second 200)).0 (codes "ml/chat") ≡ (
    if is_stale
      (at_second 200 -ℤ (run start samples).max_age)
      (history (run start samples) (codes "ml/chat"))
    then []
    else history (run start samples) (codes "ml/chat"))
stale_dropped = history-prune (run start samples) (at_second 200) (codes "ml/chat") ran-IsValid

latest_lem_example :
    IsSorted by_key (latest (run start samples))
    × (Elem (busy_at 60) (latest (run start samples))
        ↔ (get_last? (history (run start samples) (key (busy_at 60))) ≡ some (busy_at 60)))
latest_lem_example = latest_lem (run start samples) (busy_at 60) ran-IsValid
