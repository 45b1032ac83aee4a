-- ===== src/Kubernetes/Restarts.antt =====
-- The restart count of a workload.
use inference_fabric_autopil.Prelude.{ℕ, ◌+◌, ◌<◌, ◌≡◌, some, List, [], ◌∷◌, All, arith}
use inference_fabric_autopil.Prelude.Int.{ℤ, pos, pos_part, neg_part, ◌+ℤ◌}
use inference_fabric_autopil.Kubernetes.{
  Caches, Deployment, Pod, to_int32, add_counts, add_pods, restarts_for,
}

-- The exact sum of counts.
abbrev pub count_sum : List ℤ → ℕ
count_sum [] = 0
count_sum (n ∷ ns) = pos_part n + count_sum ns

abbrev pub sum_pods : List Pod → ℕ
sum_pods [] = 0
sum_pods (p ∷ ps) = count_sum p.restart_counts + sum_pods ps

-- No count of the pods is negative.
abbrev pub IsCounted : List Pod → Type 0
IsCounted ps = All (λ p. All (λ n. neg_part n ≡ 0) p.restart_counts) ps

-- The wrap-around of a step is undone by the last one.
to_int32-add :
    (a : ℕ) (n : ℤ)
    → neg_part n ≡ 0
    → to_int32 (to_int32 (pos a) +ℤ n) ≡ to_int32 (pos (a + pos_part n))
unfolding to_int32 ◌+ℤ◌
to_int32-add a n h = ground arith

add_counts_lem :
    (ns : List ℤ) (a : ℕ)
    → All (λ n. neg_part n ≡ 0) ns
    → add_counts ns (to_int32 (pos a)) ≡ to_int32 (pos (a + count_sum ns))
unfolding add_counts
add_counts_lem [] a h = ground arith
add_counts_lem (n ∷ ns) a h =
    rw (to_int32-add a n h.0, add_counts_lem ns (a + pos_part n) h.1) (ground arith)

add_pods_lem :
    (ps : List Pod) (a : ℕ)
    → IsCounted ps
    → add_pods ps (to_int32 (pos a)) ≡ to_int32 (pos (a + sum_pods ps))
unfolding add_pods
add_pods_lem [] a h = ground arith
add_pods_lem (p ∷ ps) a h =
    rw (add_counts_lem p.restart_counts a h.0, add_pods_lem ps (a + count_sum p.restart_counts) h.1)
      (ground arith)

-- Below 2^31 there is no wrap-around.
to_int32-small : (a : ℕ) → a < 2_147_483_648 → to_int32 (pos a) ≡ pos a
unfolding to_int32
to_int32-small a h = ground arith

module _ {L S : Type 0} (c : Caches L S) where
  -- Where the pods of a deployment can be listed and no container has a negative count, the restart
  -- count of the deployment is the sum over all containers of all pods, reduced to 32 bits once.
  pub restarts_for_lem :
      (d : Deployment L) (l : L) (s : S) (ps : List Pod)
      → d.selector ≡ some l
      → c.as_selector l ≡ some s
      → c.pods d.namespace s ≡ some ps
      → IsCounted ps
      → restarts_for c d ≡ to_int32 (pos (sum_pods ps))
  unfolding restarts_for to_int32
  restarts_for_lem d l s ps hd hl hs h = ground (arith, add_pods_lem ps 0 h)
