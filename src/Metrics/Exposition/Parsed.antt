-- ===== src/Metrics/Exposition/Parsed.antt =====
-- The exposition of the targets, read back by the parser of internal/promtext.
use Prim.Native.String.{String}
use inference_fabric_autopil.Prelude.{
  ℕ, ◌≡◌, refl, Bool, true, false, not, some, List, [], ◌∷◌, ◌++◌, map, All, arith, if◌then◌else◌,
  append-nil,
}
use inference_fabric_autopil.Prelude.Texts.{Text, codes, has_prefix, text_eq}
use inference_fabric_autopil.Prelude.Maps.{lookup}
use inference_fabric_autopil.Float.{FloatText}
use inference_fabric_autopil.Promtext.Words.{is_space, is_empty, trim_left, trim_right, trim_space}
use inference_fabric_autopil.Promtext.Labels.{Labels}
use inference_fabric_autopil.Promtext.Labels.Printed.{print_quoted}
use inference_fabric_autopil.Promtext.Sample.{
  Sample, parse_value, parse_sample, valid_metric_name, is_letter,
}
use inference_fabric_autopil.Promtext.Sample.Printed.{is_number, print_sample}
use inference_fabric_autopil.Promtext.Sample.RoundTrip.{parse_sample-print_sample}
use inference_fabric_autopil.Promtext.Families.Lines.{is_data, line_sample, line_samples}
use inference_fabric_autopil.Metrics.Registry.{TargetEntry}
use inference_fabric_autopil.Metrics.Exposition.{esc, fam, target_line, target_family}

esc-append : (v rest : Text) → esc v ++ 34 ∷ rest ≡ print_quoted v rest
unfolding esc
esc-append [] rest = refl
esc-append (c ∷ v) rest = ground (arith, esc-append v rest)

module _ {A : Type 0} where
  abbrev target_labels : TargetEntry A → Labels
  target_labels e = (codes "workload", e.workload) ∷ (codes "runtime", e.runtime) ∷ []

  -- A line of a target is the line that exporters print.
  target_line-print_sample :
      (name : Text) (e : TargetEntry A) (value : Text)
      → target_line name e value ≡ print_sample name (target_labels e) value []
  unfolding target_line
  target_line-print_sample name e value =
      rw
        (
          esc-append e.workload (codes ",runtime=\"" ++ (esc e.runtime ++ (codes "\"} " ++ value))),
          esc-append e.runtime (codes "} " ++ value),
          append-nil value,
        )
        refl

-- The text is not empty and its last byte is no space.
abbrev ends_well : Text → Bool
ends_well [] = false
ends_well (c ∷ s) = if is_empty s then not (is_space c) else ends_well s

ends_well-append : (s t : Text) → ends_well t ≡ true → ends_well (s ++ t) ≡ true
ends_well-append [] t h = h
ends_well-append (c ∷ []) [] h = cc
ends_well-append (c ∷ []) (d ∷ t) h = h
ends_well-append (c ∷ d ∷ s) t h = ends_well-append (d ∷ s) t h

trim_right-ends_well : (s : Text) → ends_well s ≡ true → trim_right s ≡ s
unfolding trim_right
trim_right-ends_well [] h = cc
trim_right-ends_well (c ∷ []) h = ground arith
trim_right-ends_well (c ∷ d ∷ s) h = rw (trim_right-ends_well (d ∷ s) h) refl

is_number-ends_well : (v : Text) → is_number v ≡ true → ends_well v ≡ true
is_number-ends_well [] h = cc
is_number-ends_well (c ∷ []) h = ground arith
is_number-ends_well (c ∷ d ∷ v) h = is_number-ends_well (d ∷ v) (ground arith)

trim_space-ends_well :
    (c : ℕ) (s : Text) → is_space c ≡ false → ends_well (c ∷ s) ≡ true → trim_space (c ∷ s) ≡ c ∷ s
unfolding trim_space trim_left
trim_space-ends_well c s n h = rw n (trim_right-ends_well (c ∷ s) h)

-- A line that begins with '#', trimmed or not, holds no sample.
is_data-comment : (s : Text) → is_data (trim_space (35 ∷ s)) ≡ false
unfolding trim_space trim_left trim_right is_space has_prefix
is_data-comment s = ground arith

-- A line that begins with a metric name and ends well is trimmed and holds data.
name_line :
    (name rest : Text)
    → valid_metric_name name ≡ true
    → ends_well rest ≡ true
    → (trim_space (name ++ rest) ≡ name ++ rest) × (is_data (name ++ rest) ≡ true)
unfolding valid_metric_name is_letter has_prefix is_space
name_line [] rest h e = cc
name_line (c ∷ s) rest h e = (
  trim_space-ends_well c (s ++ rest) (ground arith) (ends_well-append (c ∷ s) rest e),
  ground arith,
)

module _ {A : Type 0} where
  target_line-ends_well :
      (e : TargetEntry A) (value : Text)
      → is_number value ≡ true
      → ends_well (
          codes "{workload=\""
          ++ (esc e.workload
              ++ (codes "\",runtime=\"" ++ (esc e.runtime ++ (codes "\"} " ++ value)))))
        ≡ true
  target_line-ends_well e value n =
      let t4 = codes "\"} " ++ value in
      let t3 = esc e.runtime ++ t4 in
      let t2 = codes "\",runtime=\"" ++ t3 in
      ends_well-append (codes "{workload=\"") (esc e.workload ++ t2) (
        ends_well-append (esc e.workload) t2 (
          ends_well-append (codes "\",runtime=\"") t3 (
            ends_well-append (esc e.runtime) t4
              (ends_well-append (codes "\"} ") value (is_number-ends_well value n)))))

  target_line-IsData :
      (name : Text) (e : TargetEntry A) (value : Text)
      → valid_metric_name name ≡ true
      → is_number value ≡ true
      → (trim_space (target_line name e value) ≡ target_line name e value)
        × (is_data (target_line name e value) ≡ true)
  unfolding target_line
  target_line-IsData name e value h n =
      name_line name
        (codes "{workload=\""
          ++ (esc e.workload
              ++ (codes "\",runtime=\"" ++ (esc e.runtime ++ (codes "\"} " ++ value)))))
        h (target_line-ends_well e value n)

  module _ {B : Type 0} ⦃T : FloatText B⦄ where
    -- The series of a target with a value.
    abbrev pub target_sample : Text → TargetEntry A → B → Sample B
    target_sample name e x = record {
      name = name;
      labels = (codes "workload", e.workload) ∷ (codes "runtime", e.runtime) ∷ [];
      value = x;
    }

    parse_sample-target_line :
        (name : Text) (e : TargetEntry A) (value : Text) (x : B)
        → valid_metric_name name ≡ true
        → is_number value ≡ true
        → parse_value value ≡ some x
        → parse_sample (target_line name e value) ≡ some (target_sample name e x)
    unfolding is_space lookup text_eq
    parse_sample-target_line name e value x h n p = rw (target_line-print_sample name e value) (
        parse_sample-print_sample name (target_labels e) value [] x h (refl, (refl, tt))
          (refl, (refl, tt)) n refl p)

    line_sample-target_line :
        (name : Text) (e : TargetEntry A) (value : Text) (x : B)
        → valid_metric_name name ≡ true
        → is_number value ≡ true
        → parse_value value ≡ some x
        → line_sample (trim_space (target_line name e value)) ≡ target_sample name e x ∷ []
    line_sample-target_line name e value x h n p =
        let d = target_line-IsData name e value h n in
        rw (d.0, d.1, parse_sample-target_line name e value x h n p) refl

    line_samples-map :
        (name : Text) (value : TargetEntry A → Text) (read : TargetEntry A → B)
        (es : List (TargetEntry A))
        → valid_metric_name name ≡ true
        → All (λ e. (is_number (value e) ≡ true) × (parse_value (value e) ≡ some (read e))) es
        → line_samples (map (λ e. target_line name e (value e)) es)
          ≡ map (λ e. target_sample name e (read e)) es
    line_samples-map name value read [] h a = refl
    line_samples-map name value read (e ∷ es) h a =
        rw
          (
            line_sample-target_line name e (value e) (read e) h a.0.0 a.0.1,
            line_samples-map name value read es h a.1,
          )
          refl

    -- The lines that `Write` prints for a family with a valid name, when the parser reads them, are
    -- one sample for each target, with the target's workload and runtime as labels, whatever bytes
    -- these have, and the value of the number printed.
    pub line_samples-target_family :
        (name : Text) (help typ : String) (value : TargetEntry A → Text) (read : TargetEntry A → B)
        (es : List (TargetEntry A))
        → valid_metric_name name ≡ true
        → All (λ e. (is_number (value e) ≡ true) × (parse_value (value e) ≡ some (read e))) es
        → line_samples (target_family name help typ value es)
          ≡ map (λ e. target_sample name e (read e)) es
    unfolding target_family fam
    line_samples-target_family name help typ value read es h a =
        rw (is_data-comment (codes " HELP " ++ name ++ codes " " ++ codes help)) (
          rw (is_data-comment (codes " TYPE " ++ name ++ codes " " ++ codes typ))
            (line_samples-map name value read es h a))
