-- ===== src/Journal/Validate.antt =====
-- internal/history/decision.go. The validators of k8s.io/apimachinery and strings.TrimSpace are
-- parameters.
use hpa_plus.Prelude.{
  ℤ, pos, ltb_ℤ, ◌==ℤ◌, String, Bool, true, false, not, ◌&&◌, ◌||◌, List, [], ◌∷◌, Option, none,
  some, same_text,
}
use hpa_plus.Api.Types.{TimestampedSample}
use hpa_plus.Journal.Types.{TargetRef, ScaleDecision}

pub record Validators : Type 0 where
  -- `strings.TrimSpace(value) == ""`
  pub is_blank : String → Bool
  -- `len(IsValidPathSegmentName(name)) == 0`
  pub is_path_segment : String → Bool
  -- schema.ParseGroupVersion: the group and the version
  pub parse_group_version : String → Option (String × String)
  pub is_dns1035_label : String → Bool
  pub is_dns1123_subdomain : String → Bool

-- A recommendation is dated, not after the decision, and not negative.
unfoldable pub valid_recommendation : ℤ → TimestampedSample → Bool
valid_recommendation decided r = elim r.time [
  | none ↦ false
  | some t ↦ not (t ==ℤ pos 0) && not (ltb_ℤ decided t) && not (ltb_ℤ r.replicas (pos 0))
]

unfoldable pub valid_recommendations : ℤ → List TimestampedSample → Bool
valid_recommendations decided [] = true
valid_recommendations decided (r ∷ rest) =
    valid_recommendation decided r && valid_recommendations decided rest

unfoldable pub valid_counts : ScaleDecision → Bool
valid_counts d =
    not (ltb_ℤ d.previous_desired (pos 0))
    && not (ltb_ℤ d.desired (pos 0))
    && not (ltb_ℤ d.observed (pos 0))
    && not (d.desired ==ℤ d.previous_desired)

module _ (v : Validators) where
  unfoldable pub any_blank : List String → Bool
  any_blank [] = false
  any_blank (value ∷ rest) = v.is_blank value || any_blank rest

  unfoldable pub valid_identity : ScaleDecision → Bool
  valid_identity d = not (
      any_blank (
        d.id ∷ d.owner_uid ∷ d.target_uid ∷ d.resource_version ∷ d.target.kind ∷ d.target.name
        ∷ []))

  unfoldable pub valid_api_version : String → Bool
  valid_api_version text = same_text text "" || elim (v.parse_group_version text) [
    | none ↦ false
    | some (group, version) ↦
        v.is_dns1035_label version && (same_text group "" || v.is_dns1123_subdomain group)
  ]

  unfoldable pub valid_target : TargetRef → Bool
  valid_target t =
      v.is_path_segment t.name && v.is_path_segment t.kind && valid_api_version t.api_version

  -- ValidateDecision, of a decision that is there.
  unfoldable pub validate_decision : ScaleDecision → Bool
  validate_decision d =
      valid_identity d
      && valid_counts d
      && valid_target d.target
      && not (d.time ==ℤ pos 0)
      && valid_recommendations d.time d.scale_up_recommendations
      && valid_recommendations d.time d.scale_down_recommendations

  -- ValidateDecisionAt.
  unfoldable pub validate_decision_at : ScaleDecision → ℤ → Bool
  validate_decision_at d now = validate_decision d && not (ltb_ℤ now d.time)
