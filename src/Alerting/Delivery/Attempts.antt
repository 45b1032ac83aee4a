-- ===== src/Alerting/Delivery/Attempts.antt =====
-- The outcome of one delivery, and of the drain.
use inference_fabric_autopil.Prelude.{
  ℕ, zero, suc, ◌+◌, ◌≤◌, Bool, true, false, ◌≡◌, refl, ◌⊎◌, inl, inr, none, some, List, [], ◌∷◌,
  leb, ltb, ◌==◌, ◌&&◌, ◌||◌, not, Bool-cases, arith, List-cases, ap, if◌then◌else◌, length,
}
use inference_fabric_autopil.Alerting.Payload.{Payload}
use inference_fabric_autopil.Alerting.Sender.{Sender}
use inference_fabric_autopil.Alerting.Delivery.{
  Exchange, answered, unreachable, unsendable, post_once, retryable, attempt_from, deliver, serve,
  drain, count_sent, count_failed,
}

-- The endpoint took the payload: a status from 200 to 299.
abbrev pub is_accepted : Exchange → Bool
is_accepted (answered code) = leb 200 code && ltb code 300
is_accepted unreachable = false
is_accepted unsendable = false

-- The failure may pass: no answer came, or its status is 429 or at least 500.
abbrev pub may_pass : Exchange → Bool
may_pass (answered code) = code == 429 || leb 500 code
may_pass unreachable = true
may_pass unsendable = false

-- Whether `postOnce` finds no error, and whether its error is tried again.
post_once-lem :
    (x : Exchange)
    → (elim (post_once x) [ none ↦ true | some e ↦ false ] ≡ is_accepted x)
      × (elim (post_once x) [ none ↦ false | some e ↦ retryable e ] ≡ may_pass x)
unfolding post_once retryable
post_once-lem (answered code) = (ground arith, ground arith)
post_once-lem unreachable = (refl, refl)
post_once-lem unsendable = (refl, refl)

may_pass-refused : (x : Exchange) → may_pass x ≡ true → is_accepted x ≡ false
may_pass-refused (answered code) h = ground arith
may_pass-refused unreachable h = refl
may_pass-refused unsendable h = refl

module _ {A : Type 0} where
  -- The result of `deliver`, read off the two exchanges.
  deliver-eq :
      (net : ℕ → Exchange) (s : Sender A)
      → deliver net s ≡ (
        if may_pass (net 1) then 2 else 1,
        if is_accepted (net 1)
            then count_sent s
            else if may_pass (net 1)
            then if is_accepted (net 2) then count_sent s else count_failed s
            else count_failed s,
      )
  unfolding deliver attempt_from
  deliver-eq net s = ground (arith, post_once-lem (net 1), post_once-lem (net 2))

  -- `deliver` posts the payload once or twice, and twice only if the first post failed in a way that
  -- may pass: no answer, or status 429 or at least 500. The payload is counted as sent if the last
  -- post was accepted, with a status from 200 to 299, and as failed if it was not; in that case there
  -- were two posts, or the failure of the only post was one that does not pass. Nothing else of the
  -- sender changes.
  pub deliver_lem :
      (net : ℕ → Exchange) (s : Sender A)
      → let (posts, after) = deliver net s in
        (1 ≤ posts)
        × (posts ≤ 2)
        × ((posts == 1 || may_pass (net 1)) ≡ true)
        × (after ≡ (if is_accepted (net posts) then count_sent s else count_failed s))
        × ((is_accepted (net posts) || posts == 2 || not (may_pass (net posts))) ≡ true)
  deliver_lem net s = elim (Bool-cases (may_pass (net 1))) [
    | inl again ↦
        let refused = may_pass-refused (net 1) again in
        rw (deliver-eq net s, again, refused)
          (omega arith, omega arith, ground arith, refl, ground arith)
    | inr once ↦ rw (deliver-eq net s, once) (omega arith, omega arith, refl, refl, ground arith)
  ]

  pub deliver-accounted :
      (net : ℕ → Exchange) (s : Sender A)
      → (deliver net s).1.sent + (deliver net s).1.failed ≡ suc (s.sent + s.failed)
  deliver-accounted net s = rw (deliver-eq net s) (ground arith)

  pub deliver-counts :
      (net : ℕ → Exchange) (s : Sender A)
      → ((deliver net s).1 ≡ count_sent s) ⊎ ((deliver net s).1 ≡ count_failed s)
  deliver-counts net s = rw (deliver-eq net s) (ground arith)

  deliver-queue : (net : ℕ → Exchange) (s : Sender A) → (deliver net s).1.queue ≡ s.queue
  deliver-queue net s = rw (deliver-eq net s) (ground arith)

  serve-nil : (net : Payload A → ℕ → Exchange) (s : Sender A) → s.queue ≡ [] → (serve net s).1 ≡ s
  unfolding serve
  serve-nil net s h = rw h refl

  serve-cons :
      (net : Payload A → ℕ → Exchange) (s : Sender A) (p : Payload A) (ps : List (Payload A))
      → s.queue ≡ p ∷ ps
      → ((serve net s).1.queue ≡ ps)
        × ((serve net s).1.sent + (serve net s).1.failed ≡ suc (s.sent + s.failed))
  unfolding serve
  serve-cons net s p ps h =
      rw (h, serve)
        (
          deliver-queue (net p) (record s { queue = ps }),
          deliver-accounted (net p) (record s { queue = ps }),
        )

  -- With fuel for every payload in the queue, the drain of `Close` ends with an empty queue and
  -- every payload that was in it counted as sent or as failed.
  pub drain_lem :
      (net : Payload A → ℕ → Exchange) (fuel : ℕ) (s : Sender A)
      → length s.queue ≤ fuel
      → ((drain net fuel s).queue ≡ [])
        × ((drain net fuel s).sent + (drain net fuel s).failed ≡ s.sent + s.failed + length s.queue)
  unfolding drain
  drain_lem net zero s h = elim (List-cases s.queue) [
    | inl e ↦ (e, rw e (omega arith))
    | inr (p, ps, e) ↦ absurd (let h' : suc (length ps) ≤ 0 = rw e at h in omega arith)
  ]
  drain_lem net (suc fuel) s h = elim (List-cases s.queue) [
    | inl e ↦
        let (done, all_counted) = drain_lem net fuel s (rw e (omega arith)) in
        rw (serve-nil net s e, drain) (done, all_counted)
    | inr (p, ps, e) ↦
        let (rest, counted) = serve-cons net s p ps e in
        let h' : length ps ≤ fuel =
          let e' : length s.queue ≡ suc (length ps) = ap length e in omega arith in
        let (done, all_counted) = drain_lem net fuel (serve net s).1 (rw rest h') in
        (
          done,
          let r : length (serve net s).1.queue ≡ length ps = ap length rest in
              let e' : length s.queue ≡ suc (length ps) = ap length e in omega arith,
        )
  ]
