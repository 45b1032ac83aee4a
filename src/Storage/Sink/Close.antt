-- ===== src/Storage/Sink/Close.antt =====
-- The drain of `Close`.
use inference_fabric_autopil.Prelude.{
  ℕ, zero, suc, ◌+◌, ◌≤◌, ◌≡◌, refl, ap, ◌∙◌, inl, inr, Bool, List, [], ◌∷◌, List-cases, length,
  Bool-cases, arith,
}
use inference_fabric_autopil.Telemetry.Snapshot.{Snapshot}
use inference_fabric_autopil.Storage.Sink.{Sink, insert_one, take_one, drain_sink}

module _ {A : Type 0} where
  -- Nothing waits, and the counts of inserted and failed snapshots together went up by `n`.
  abbrev pub IsDrained : Sink A → ℕ → Sink A → Type 0
  IsDrained s n t =
      (t.waiting ≡ []) × (t.written + t.failed ≡ s.written + s.failed + n) × (t.dropped ≡ s.dropped)

  take_one-nil : (exec : Snapshot A → Bool) (s : Sink A) → s.waiting ≡ [] → (take_one exec s).1 ≡ s
  unfolding take_one
  take_one-nil exec s e = rw e refl

  take_one-cons :
      (exec : Snapshot A → Bool) (s : Sink A) (x : Snapshot A) (xs : List (Snapshot A))
      → s.waiting ≡ x ∷ xs
      → ((take_one exec s).1.waiting ≡ xs)
        × ((take_one exec s).1.written + (take_one exec s).1.failed ≡ suc (s.written + s.failed))
        × ((take_one exec s).1.dropped ≡ s.dropped)
  unfolding take_one insert_one
  take_one-cons exec s x xs e = elim (Bool-cases (exec x)) [
    | inl ok ↦ rw (e, take_one, ok) (refl, omega arith, refl)
    | inr bad ↦ rw (e, take_one, bad) (refl, omega arith, refl)
  ]

  -- With fuel for every snapshot that waits, the drain ends with nothing waiting and each of them
  -- counted as inserted or as failed; it drops none.
  pub drain_sink_lem :
      (exec : Snapshot A → Bool) (fuel : ℕ) (s : Sink A)
      → length s.waiting ≤ fuel
      → IsDrained s (length s.waiting) (drain_sink exec fuel s)
  unfolding drain_sink
  drain_sink_lem exec zero s h = elim (List-cases s.waiting) [
    | inl e ↦ (e, rw e (omega arith), refl)
    | inr (x, xs, e) ↦ absurd (let h' : suc (length xs) ≤ 0 = rw e at h in omega arith)
  ]
  drain_sink_lem exec (suc fuel) s h = elim (List-cases s.waiting) [
    | inl e ↦
        rw (take_one-nil exec s e, drain_sink) (drain_sink_lem exec fuel s (rw e (omega arith)))
    | inr (x, xs, e) ↦
        let (rest, counted, same) = take_one-cons exec s x xs e in
        let len : length s.waiting ≡ suc (length xs) = ap length e in
        let len' : length (take_one exec s).1.waiting ≡ length xs = ap length rest in
        let (done, all_counted, none_lost) =
          drain_sink_lem exec fuel (take_one exec s).1 (omega arith) in
        (done, omega arith, none_lost ∙ same)
  ]
