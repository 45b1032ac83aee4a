-- ===== src/Storage/Sink/Order.antt =====
-- The sink neither loses nor reorders what it does not count as dropped.
use inference_fabric_autopil.Prelude.{
  append-nil, suc, ◌+◌, ◌≤◌, ◌≡◌, refl, sym, ap, ◌∙◌, ◌⊎◌, inl, inr, Bool, List, [], ◌∷◌, ◌++◌,
  List-cases, ltb, length, length-append, Bool-cases, arith,
}
use inference_fabric_autopil.Prelude.Int.{ℤ}
use inference_fabric_autopil.Telemetry.Snapshot.{Snapshot}
use inference_fabric_autopil.Storage.Sink.{Sink, new_sink, write, insert_one, take_one}

-- The store writes a snapshot, or the goroutine takes one.
pub data SinkOp (A : Type 0) : Type 0 where
  writes : Snapshot A → SinkOp A
  takes : (Snapshot A → Bool) → SinkOp A

module _ {A : Type 0} where
  -- The snapshots taken so far, in order, and the sink.
  unfoldable pub sink_step : List (Snapshot A) × Sink A → SinkOp A → List (Snapshot A) × Sink A
  unfolding write take_one
  sink_step (taken, s) (writes x) = (taken, write x s)
  sink_step (taken, s) (takes exec) = let (xs, s') = take_one exec s in (taken ++ xs, s')

  unfoldable pub sink_run :
      List (Snapshot A) × Sink A → List (SinkOp A) → List (Snapshot A) × Sink A
  unfolding sink_step
  sink_run c [] = c
  sink_run c (op ∷ ops) = sink_run (sink_step c op) ops

  -- What was written, in order.
  unfoldable pub written_by : List (SinkOp A) → List (Snapshot A)
  written_by [] = []
  written_by (writes x ∷ ops) = x ∷ written_by ops
  written_by (takes exec ∷ ops) = written_by ops

  -- The counts add up, and either something was dropped or `all` is what was taken and waits.
  pub record IsAccounted (all : List (Snapshot A)) (c : List (Snapshot A) × Sink A) : Type 0 where
    pub bounded : length c.1.waiting ≤ c.1.capacity
    pub counted : c.1.written + c.1.failed + c.1.dropped + length c.1.waiting ≡ length all
    pub taken : length c.0 ≡ c.1.written + c.1.failed
    pub ordered : (1 ≤ c.1.dropped) ⊎ (c.0 ++ c.1.waiting ≡ all)

  append_assoc : (xs ys zs : List (Snapshot A)) → (xs ++ ys) ++ zs ≡ xs ++ (ys ++ zs)
  append_assoc [] ys zs = refl
  append_assoc (x ∷ xs) ys zs = ap (λ l. x ∷ l) (append_assoc xs ys zs)

  write-IsAccounted :
      (all : List (Snapshot A)) (taken : List (Snapshot A)) (s : Sink A) (x : Snapshot A)
      → IsAccounted all (taken, s)
      → IsAccounted (all ++ x ∷ []) (taken, write x s)
  unfolding write
  write-IsAccounted all taken s x v = elim (Bool-cases (ltb (length s.waiting) s.capacity)) [
    | inl room ↦ rw room (record {
      bounded = rw (length-append s.waiting (x ∷ [])) (ground arith);
      counted =
          rw (length-append s.waiting (x ∷ []), length-append all (x ∷ []))
            (let n = v.counted in omega arith);
      taken = v.taken;
      ordered = more v.ordered;
    })
    | inr full ↦ rw full (record {
      bounded = v.bounded;
      counted = rw (length-append all (x ∷ [])) (let n = v.counted in omega arith);
      taken = v.taken;
      ordered = inl (omega arith);
    })
  ]
    where
      more :
          (1 ≤ s.dropped) ⊎ (taken ++ s.waiting ≡ all)
          → (1 ≤ s.dropped) ⊎ (taken ++ (s.waiting ++ x ∷ []) ≡ all ++ x ∷ [])
      more (inl lost) = inl lost
      more (inr same) =
          inr (sym (append_assoc taken s.waiting (x ∷ [])) ∙ ap (λ l. l ++ x ∷ []) same)

  -- One more was taken and counted.
  moved-IsAccounted :
      (all taken : List (Snapshot A)) (s t : Sink A) (x : Snapshot A) (xs : List (Snapshot A))
      → s.waiting ≡ x ∷ xs
      → (t.waiting ≡ xs) × (t.capacity ≡ s.capacity) × (t.dropped ≡ s.dropped)
      → t.written + t.failed ≡ suc (s.written + s.failed)
      → IsAccounted all (taken, s)
      → IsAccounted all (taken ++ x ∷ [], t)
  moved-IsAccounted all taken s t x xs e (w, c, d) n v =
      let len : length s.waiting ≡ suc (length xs) = ap length e in
      let len' : length t.waiting ≡ length xs = ap length w in
      record {
        bounded = let b = v.bounded in omega arith;
        counted = let k = v.counted in omega arith;
        taken = rw (length-append taken (x ∷ [])) (let k = v.taken in omega arith);
        ordered = kept v.ordered;
      }
    where
      kept :
          (1 ≤ s.dropped) ⊎ (taken ++ s.waiting ≡ all)
          → (1 ≤ t.dropped) ⊎ ((taken ++ x ∷ []) ++ t.waiting ≡ all)
      kept (inl lost) = inl (omega arith)
      kept (inr same) =
          inr (rw (append_assoc taken (x ∷ []) t.waiting, w) (ap (λ l. taken ++ l) (sym e) ∙ same))

  take_one-IsAccounted :
      (all taken : List (Snapshot A)) (s : Sink A) (exec : Snapshot A → Bool)
      → IsAccounted all (taken, s)
      → IsAccounted all (taken ++ (take_one exec s).0, (take_one exec s).1)
  unfolding take_one insert_one
  take_one-IsAccounted all taken s exec v = elim (List-cases s.waiting) [
    | inl e ↦ rw (e, take_one) (rw (append-nil taken) v)
    | inr (x, xs, e) ↦ elim (Bool-cases (exec x)) [
      | inl ok ↦
          rw (e, take_one, ok)
            (moved-IsAccounted all taken s _ x xs e (refl, refl, refl) (omega arith) v)
      | inr bad ↦
          rw (e, take_one, bad)
            (moved-IsAccounted all taken s _ x xs e (refl, refl, refl) (omega arith) v)
    ]
  ]

  sink_run-IsAccounted :
      (all : List (Snapshot A)) (c : List (Snapshot A) × Sink A) (ops : List (SinkOp A))
      → IsAccounted all c
      → IsAccounted (all ++ written_by ops) (sink_run c ops)
  unfolding sink_run sink_step written_by
  sink_run-IsAccounted all c [] v = rw (append-nil all) v
  sink_run-IsAccounted all (taken, s) (writes x ∷ ops) v =
      rw (sym (append_assoc all (x ∷ []) (written_by ops))) (
        sink_run-IsAccounted (all ++ x ∷ []) (taken, write x s) ops
          (write-IsAccounted all taken s x v))
  sink_run-IsAccounted all (taken, s) (takes exec ∷ ops) v =
      sink_run-IsAccounted all (sink_step (taken, s) (takes exec)) ops
        (take_one-IsAccounted all taken s exec v)

  -- After any sequence of writes and inserts on a new sink, whatever the database answers: the
  -- queue is within its capacity, every snapshot written is counted as inserted, failed or dropped
  -- or still waits, and unless some were dropped, what was handed to the database and then what
  -- waits are the snapshots written, in their order.
  pub run-new_sink-IsAccounted :
      (queue_size : ℤ) (ops : List (SinkOp A))
      → IsAccounted (written_by ops) (sink_run ([], new_sink queue_size) ops)
  unfolding new_sink
  run-new_sink-IsAccounted queue_size ops =
      sink_run-IsAccounted [] ([], new_sink queue_size) ops
        (record { bounded = omega arith; counted = refl; taken = refl; ordered = inr refl })
