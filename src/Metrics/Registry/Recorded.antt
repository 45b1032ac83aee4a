-- ===== src/Metrics/Registry/Recorded.antt =====
-- What the registry holds after a sequence of records: its counters count the calls.
use inference_fabric_autopil.Prelude.{
  ℕ, suc, ◌+◌, ◌≡◌, refl, ◌&&◌, List, [], ◌∷◌, arith, length, if◌then◌else◌, Bool-cases, inl, inr,
}
use inference_fabric_autopil.Prelude.Int.{ℤ}
use inference_fabric_autopil.Prelude.Texts.{Text, text_eq, text_eq_iff}
use inference_fabric_autopil.Prelude.Maps.{Map, insert, lookup-insert}
use inference_fabric_autopil.Float.{Float64}
use inference_fabric_autopil.Metrics.Registry.{
  TargetStats, TargetEntry, Registry, no_stats, is_target, scrape_change, failure_change,
  change_stats, record_scrape, record_scrape_error, record_analysis, count_at, count_severities,
}

-- How often a severity stands in the list.
abbrev pub occurrences : Text → List Text → ℕ
occurrences k [] = 0
occurrences k (s ∷ ss) = (if text_eq k s then 1 else 0) + occurrences k ss

count_at-insert :
    (k s : Text) (n : ℕ) (m : Map ℕ)
    → count_at k (insert s n m) ≡ (if text_eq k s then n else count_at k m)
unfolding count_at
count_at-insert k s n m = ground (arith, lookup-insert s k n m)

count_at-count_severities :
    (k : Text) (ss : List Text) (m : Map ℕ)
    → count_at k (count_severities ss m) ≡ occurrences k ss + count_at k m
unfolding count_severities
count_at-count_severities k [] m = ground arith
count_at-count_severities k (s ∷ ss) m = ground (
  arith,
  text_eq_iff k s,
  count_at-insert k s (suc (count_at s m)) m,
  count_at-count_severities k ss (insert s (suc (count_at s m)) m),
)

-- What the collector reports.
pub data ScrapeEvent : Type 0 where
  scraped : Text → Text → ℤ → ℕ → ℤ → ScrapeEvent
  failed : Text → Text → ScrapeEvent

abbrev pub scrapes_of : Text → Text → List ScrapeEvent → ℕ
scrapes_of w rt [] = 0
scrapes_of w rt (scraped w' rt' took missing now ∷ es) =
    (if text_eq w w' && text_eq rt rt' then 1 else 0) + scrapes_of w rt es
scrapes_of w rt (failed w' rt' ∷ es) = scrapes_of w rt es

abbrev pub failures_of : Text → Text → List ScrapeEvent → ℕ
failures_of w rt [] = 0
failures_of w rt (scraped w' rt' took missing now ∷ es) = failures_of w rt es
failures_of w rt (failed w' rt' ∷ es) =
    (if text_eq w w' && text_eq rt rt' then 1 else 0) + failures_of w rt es

-- The first event counts by itself.
counts-cons :
    (w rt : Text) (e : ScrapeEvent) (es : List ScrapeEvent)
    → (scrapes_of w rt (e ∷ es) ≡ scrapes_of w rt (e ∷ []) + scrapes_of w rt es)
      × (failures_of w rt (e ∷ es) ≡ failures_of w rt (e ∷ []) + failures_of w rt es)
counts-cons w rt (scraped w' rt' took missing now) es = (omega arith, omega arith)
counts-cons w rt (failed w' rt') es = (omega arith, omega arith)

module _ {A : Type 0} ⦃F : Float64 A⦄ where
  -- The counters of a target, those of a new one where it has none.
  abbrev pub stats_of : Text → Text → List (TargetEntry A) → TargetStats A
  stats_of workload runtime [] = no_stats
  stats_of workload runtime (e ∷ es) =
      if is_target workload runtime e then e.stats else stats_of workload runtime es

  abbrev pub record_event : ScrapeEvent → Registry A → Registry A
  record_event (scraped w rt took missing now) r = record_scrape w rt took missing now r
  record_event (failed w rt) r = record_scrape_error w rt r

  -- The registry after the events, the first one first.
  abbrev pub after : List ScrapeEvent → Registry A → Registry A
  after [] r = r
  after (e ∷ es) r = after es (record_event e r)

  -- A change reaches the target with the key and no other.
  stats_of-change_stats :
      (w rt w' rt' : Text) (change : TargetStats A → TargetStats A) (es : List (TargetEntry A))
      → stats_of w rt (change_stats w' rt' change es)
        ≡ (if text_eq w w' && text_eq rt rt' then change (stats_of w rt es) else stats_of w rt es)
  unfolding change_stats
  stats_of-change_stats w rt w' rt' change [] = ground (arith, text_eq_iff w w', text_eq_iff rt rt')
  stats_of-change_stats w rt w' rt' change (e ∷ es) = ground (
    arith,
    text_eq_iff w w',
    text_eq_iff rt rt',
    text_eq_iff w e.workload,
    text_eq_iff rt e.runtime,
    text_eq_iff w' e.workload,
    text_eq_iff rt' e.runtime,
    stats_of-change_stats w rt w' rt' change es,
  )

  -- What an event adds to the counters of a target.
  stats_of-record_event :
      (w rt : Text) (e : ScrapeEvent) (r : Registry A)
      → ((stats_of w rt (record_event e r).targets).scrapes
          ≡ scrapes_of w rt (e ∷ []) + (stats_of w rt r.targets).scrapes)
        × ((stats_of w rt (record_event e r).targets).errors
            ≡ failures_of w rt (e ∷ []) + (stats_of w rt r.targets).errors)
  unfolding record_scrape record_scrape_error
  stats_of-record_event w rt (scraped w' rt' took missing now) r =
      let d = scrape_change took missing now in
      rw (stats_of-change_stats w rt w' rt' d r.targets)
        (elim (Bool-cases (text_eq w w' && text_eq rt rt')) [
          | inl t ↦ rw t (ground arith, ground arith)
          | inr f ↦ rw f (ground arith, ground arith)
        ])
  stats_of-record_event w rt (failed w' rt') r =
      rw (stats_of-change_stats w rt w' rt' failure_change r.targets)
        (elim (Bool-cases (text_eq w w' && text_eq rt rt')) [
          | inl t ↦ rw t (ground arith, ground arith)
          | inr f ↦ rw f (ground arith, ground arith)
        ])

  -- The counters of a target grow by the number of its successful scrapes and of its failed ones,
  -- whatever other targets are recorded in between.
  pub stats_of-after :
      (w rt : Text) (es : List ScrapeEvent) (r : Registry A)
      → ((stats_of w rt (after es r).targets).scrapes
          ≡ scrapes_of w rt es + (stats_of w rt r.targets).scrapes)
        × ((stats_of w rt (after es r).targets).errors
            ≡ failures_of w rt es + (stats_of w rt r.targets).errors)
  stats_of-after w rt [] r = (ground arith, ground arith)
  stats_of-after w rt (e ∷ es) r =
      let s = stats_of-record_event w rt e r in
      let rest = stats_of-after w rt es (record_event e r) in
      let c = counts-cons w rt e es in (omega arith, omega arith)

  -- A run of the rules adds to the counter of each severity how often it occurs among the findings,
  -- and the gauge of active findings is their number.
  pub record_analysis-counts :
      (k : Text) (severities : List Text) (r : Registry A)
      → (count_at k (record_analysis severities r).by_severity
          ≡ occurrences k severities + count_at k r.by_severity)
        × ((record_analysis severities r).active ≡ length severities)
  unfolding record_analysis
  record_analysis-counts k severities r =
      (count_at-count_severities k severities r.by_severity, refl)
