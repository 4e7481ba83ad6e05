-- ===== src/Reconcile/Plan.antt =====
-- conversion/reconcile/reconcile.go, `Reconcile`: one planning root over both partitions, and the
-- fingerprint of its inventory (fingerprint.go).
use dorganizer.Prelude.{
  ℕ, zero, suc, ◌+◌, ◌/◌, ◌%◌, Bool, true, false, ◌&&◌, ◌||◌, not, List, [], ◌∷◌, ◌++◌, none, some,
  Bytes, bytes_beq, bytes_ltb, codes, if◌then◌else◌, is_nil, is_some, ltb, length, map, filter_b,
  has_prefix,
}
use dorganizer.Prelude.Int.{ℤ, pos, negsuc}
use dorganizer.Prelude.Sorting.{sort_by}
use dorganizer.GoPath.{slash, trim_prefix, trim_suffix}
use dorganizer.Reconcile.Types.{
  Partition, matched, unmatched, AudioEntry, available_sources, ConversionMode, Policy, profile_for,
}
use dorganizer.Reconcile.Outcome.{Status, status_ok, status_blocked, ComponentOutcome}
use dorganizer.Reconcile.Grouping.{Runtime, Component, audio_entries, partition_text}
use dorganizer.Reconcile.Grouping.Components.{build_components}
use dorganizer.Reconcile.Classifier.{Classifier, classify, PolicyError, TagRuntime, validate_policy}
use dorganizer.Reconcile.Lenient.Component.{lenient_component, count_unmet}
use dorganizer.Reconcile.Strict.Component.{reconcile_component}

-- `%d` of an int64, which has at most 19 digits.
unfoldable pub decimal_digits : ℕ → ℕ → Bytes
decimal_digits zero n = []
decimal_digits (suc fuel) n =
    let front = decimal_digits fuel (n / 10) in
    if ltb n 10 then (b'0' + n) ∷ [] else front ++ (b'0' + n % 10) ∷ []

unfoldable pub decimal : ℤ → Bytes
unfolding decimal_digits
decimal (pos n) = decimal_digits 20 n
decimal (negsuc n) = b'-' ∷ decimal_digits 20 (suc n)

-- One line of the digest, `"%s\x00%d\x00%d\n"`.
abbrev fingerprint_line : AudioEntry → Bytes
fingerprint_line e = e.path_posix ++ (0 ∷ decimal e.size ++ (0 ∷ decimal e.mtime ++ b'\n' ∷ []))

unfoldable pub fingerprint_text : List AudioEntry → Bytes
fingerprint_text [] = []
fingerprint_text (e ∷ es) = fingerprint_line e ++ fingerprint_text es

unfoldable pub inventory_fingerprint : Runtime → List AudioEntry → Bytes × ℕ
unfolding fingerprint_text
inventory_fingerprint rt entries = (
  rt.sha256_hex (fingerprint_text (sort_by (λ a b. bytes_ltb a.path_posix b.path_posix) entries)),
  length entries,
)

pub data SummaryReason : Type 0 where
  partial_plan all_blocked unmet_targets actionable no_match : SummaryReason

pub record StepSummary : Type 0 where
  pub component_count : ℕ
  pub blocked_count : ℕ
  pub operation_count : ℕ
  pub error_count : ℕ
  pub unmet_targets : ℕ
  pub summary_reason : SummaryReason

-- The counters before the loop over the outcomes, and one round of it.
pub record Counts : Type 0 where
  pub operation_count : ℕ
  pub blocked_count : ℕ
  pub error_count : ℕ
  pub unmet_targets : ℕ

abbrev pub is_blocked : Status → Bool
is_blocked status_blocked = true
is_blocked status_ok = false

unfoldable pub count_outcome : Counts → ComponentOutcome → Counts
count_outcome s c =
    let bump = if is_blocked c.status then 1 else 0 in
    record {
      operation_count = s.operation_count + length c.operations;
      blocked_count = s.blocked_count + bump;
      error_count = s.error_count + bump;
      unmet_targets = s.unmet_targets + count_unmet c.variants;
    }

unfoldable pub count_outcomes : Counts → List ComponentOutcome → Counts
unfolding count_outcome
count_outcomes s [] = s
count_outcomes s (c ∷ cs) = count_outcomes (count_outcome s c) cs

unfoldable pub summary_reason_of : Counts → SummaryReason
summary_reason_of s =
    if ltb 0 s.blocked_count && ltb 0 s.operation_count
    then partial_plan
    else if ltb 0 s.blocked_count
    then all_blocked
    else if ltb 0 s.unmet_targets
    then unmet_targets
    else if ltb 0 s.operation_count
    then actionable
    else no_match

abbrev pub no_counts : Counts
no_counts = record { operation_count = 0; blocked_count = 0; error_count = 0; unmet_targets = 0 }

unfoldable pub summarize : List ComponentOutcome → StepSummary
unfolding count_outcomes summary_reason_of
summarize outcomes =
    let s = count_outcomes no_counts outcomes in
    record {
      component_count = length outcomes;
      blocked_count = s.blocked_count;
      operation_count = s.operation_count;
      error_count = s.error_count;
      unmet_targets = s.unmet_targets;
      summary_reason = summary_reason_of s;
    }

pub record ReconcileInput : Type 0 where
  pub root_path : Bytes
  pub entries : List AudioEntry
  pub policy : Policy
  pub classifier : Classifier

pub record ReconcileResult : Type 0 where
  pub digest : Bytes
  pub count : ℕ
  pub components : List ComponentOutcome
  pub summary : StepSummary

pub data ReconcileError : Type 0 where
  bad_policy : PolicyError → ReconcileError
  unresolved_classifier no_root : ReconcileError

pub data Result : Type 0 where
  planned : ReconcileResult → Result
  refused : ReconcileError → Result

abbrev pub is_available : ConversionMode → Bool
is_available available_sources = true
is_available _ = false

abbrev pub is_partition : Partition → Partition → Bool
is_partition matched matched = true
is_partition unmatched unmatched = true
is_partition _ _ = false

-- The entries below the root that the classifier puts into one partition.
unfoldable pub entries_of : Classifier → Bytes → Partition → List AudioEntry → List AudioEntry
entries_of classifier root partition audio =
    let below = root ++ slash ∷ [] in
    filter_b
      (λ e.
        has_prefix e.path_posix below
        && is_partition (classify classifier (trim_prefix e.path_posix below)) partition)
      audio

unfoldable pub plan_component :
    Runtime → Policy → Bytes → List Bytes → Partition → Component → ComponentOutcome
plan_component rt policy root occupied partition c =
    if is_available policy.mode
    then lenient_component rt root partition (profile_for policy partition) c occupied
    else reconcile_component rt root partition (profile_for policy partition) c occupied

unfoldable pub outcome_less : ComponentOutcome → ComponentOutcome → Bool
outcome_less a b =
    if not (bytes_beq (partition_text a.partition) (partition_text b.partition))
    then bytes_ltb (partition_text a.partition) (partition_text b.partition)
    else bytes_ltb a.component_id b.component_id

-- Both partitions, each with the components of its entries.
unfoldable pub plan_root : Runtime → ReconcileInput → Bytes → List ComponentOutcome
unfolding entries_of plan_component
plan_root rt input root =
    let audio = audio_entries rt input.entries in
    let occupied = map (λ e. e.path_posix) input.entries in
    let part : Partition → List ComponentOutcome = λ q.
      map (plan_component rt input.policy root occupied q)
        (build_components rt (entries_of input.classifier root q audio)) in
    part matched ++ part unmatched

unfoldable pub reconcile : TagRuntime → Runtime → Bool → ReconcileInput → Result
unfolding plan_root outcome_less summarize inventory_fingerprint
reconcile tags rt matched_first input =
    let root = trim_suffix input.root_path (slash ∷ []) in
    elim (validate_policy tags matched_first input.policy) [
      | some e ↦ refused (bad_policy e)
      | none ↦
          if not (is_some input.classifier.matcher)
          then refused unresolved_classifier
          else if is_nil root || bytes_beq root (codes ".")
          then refused no_root
          else let (digest, count) = inventory_fingerprint rt (audio_entries rt input.entries) in
            let outcomes = sort_by outcome_less (plan_root rt input root) in
            planned (record {
              digest = digest;
              count = count;
              components = outcomes;
              summary = summarize outcomes;
            })
    ]
