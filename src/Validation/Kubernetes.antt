-- ===== src/Validation/Kubernetes.antt =====
-- internal/validation/nested.go: hooks, target references, metrics and scaling rules.
use hpa_plus.Prelude.{
  ℤ, pos, ltb_ℤ, leb_ℤ, leb, ◌==◌, same_text, String, Bool, true, false, not, ◌&&◌, ◌||◌, List, [],
  ◌∷◌, map, Option, none, some, ok, err, require, ◌>>◌, length,
}
use hpa_plus.Api.Types.{HpaScalingPolicy, HpaScalingRules, HpaBehavior, SelectPolicy, PolicyType}
use hpa_plus.Journal.Types.{TargetRef}
use hpa_plus.Validation.Types.{
  HookDefinition, HttpHook, MetricTarget, MetricIdentifier, MetricSpec, TargetType, resource_source,
  pods_source, object_source, external_source, value_target, average_target, utilization_target,
  HpaPlusSpec,
}
use hpa_plus.Validation.Checks.{
  Verdict, all_of, for_each, is_given, if_given, every, count_true, one_of, valid_duration,
  millisecond, Externals, Url,
}

unfoldable pub valid_url : Url → Bool
valid_url u =
    not (same_text u.hostname "")
    && one_of u.scheme ("http" ∷ "https" ∷ [])
    && same_text u.fragment ""
    && not u.has_user

abbrev pub http_methods : List String
http_methods =
    "GET" ∷ "HEAD" ∷ "POST" ∷ "PUT" ∷ "DELETE" ∷ "CONNECT" ∷ "OPTIONS" ∷ "TRACE" ∷ "PATCH" ∷ []

abbrev pub is_known_policy : PolicyType → Bool
is_known_policy (PolicyType.other s) = false
is_known_policy _ = true

abbrev pub is_known_select : SelectPolicy → Bool
is_known_select (SelectPolicy.other s) = false
is_known_select _ = true

unfoldable pub valid_policy_rule : HpaScalingPolicy → Bool
valid_policy_rule p =
    is_known_policy p.kind
    && ltb_ℤ (pos 0) p.value
    && leb_ℤ (pos 1) p.period_seconds
    && leb_ℤ p.period_seconds (pos 1800)

abbrev pub valid_window : ℤ → Bool
valid_window w = leb_ℤ (pos 0) w && leb_ℤ w (pos 3600)

-- Policies that are nil are left to the defaults; an empty list is refused.
abbrev pub valid_policies : List HpaScalingPolicy → Bool
valid_policies ps = not (length ps == 0)

unfoldable pub validate_rules : Option HpaScalingRules → Verdict
validate_rules none = ok tt
validate_rules (some rules) = all_of (
    (
      if_given valid_window rules.stabilization_window_seconds,
      "stabilizationWindowSeconds must be in [0, 3600]",
    )
    ∷ (if_given is_known_select rules.select_policy, "selectPolicy must be Max, Min, or Disabled")
    ∷ (if_given valid_policies rules.policies, "policies must contain at least one policy")
    ∷ (if_given (every valid_policy_rule) rules.policies, "scaling policy requires Pods/Percent")
    ∷ [])

-- The target type that is allowed, with a positive value of its own kind.
unfoldable pub has_positive : MetricTarget → TargetType → Bool
has_positive t value_target = is_given t.value && if_given (ltb_ℤ (pos 0)) t.value
has_positive t average_target = is_given t.average_value && if_given (ltb_ℤ (pos 0)) t.average_value
has_positive t utilization_target =
    is_given t.average_utilization && if_given (ltb_ℤ (pos 0)) t.average_utilization
has_positive t (TargetType.other_target s) = false

abbrev pub same_target_type : TargetType → TargetType → Bool
same_target_type value_target value_target = true
same_target_type average_target average_target = true
same_target_type utilization_target utilization_target = true
same_target_type (TargetType.other_target s) (TargetType.other_target t) = same_text s t
same_target_type _ _ = false

unfoldable pub valid_target_type : MetricTarget → List TargetType → Bool
valid_target_type t [] = false
valid_target_type t (kind ∷ rest) =
    (same_target_type t.kind kind && has_positive t kind) || valid_target_type t rest

unfoldable pub check_target : MetricTarget → List TargetType → Verdict
check_target t allowed = all_of (
    (
      count_true (is_given t.value ∷ is_given t.average_value ∷ is_given t.average_utilization ∷ [])
          == 1,
      "exactly one metric target value is required",
    )
    ∷ (valid_target_type t allowed, "metric target type must match its source")
    ∷ [])

module _ (x : Externals) where
  unfoldable pub check_http : HttpHook → Verdict
  check_http h = all_of (
      (
        is_given (x.parse_url h.url) && if_given valid_url (x.parse_url h.url),
        "hook URL must be an absolute HTTP(S) URL",
      )
      ∷ (one_of h.method http_methods, "unsupported hook HTTP method")
      ∷ (
        one_of h.parameter_mode ("query" ∷ "body" ∷ []),
        "hook parameterMode must be query or body",
      )
      ∷ (not (length h.success_codes == 0), "hook successCodes must not be empty")
      ∷ (
        every (λ code. leb_ℤ (pos 100) code && leb_ℤ code (pos 599)) h.success_codes,
        "hook successCodes must be between 100 and 599",
      )
      ∷ (
        every (λ h. x.is_header_name h.0 && x.is_header_value h.1) h.headers,
        "hook headers contain an invalid name or value",
      )
      ∷ [])

  unfoldable pub validate_hook : HookDefinition → Verdict
  validate_hook hook = elim hook.http [
    | none ↦ err "runtimeTuningFetchHook requires type http and an HTTP configuration"
    | some h ↦
        all_of (
          (same_text hook.kind "http", "runtimeTuningFetchHook requires type http")
          ∷ (valid_duration hook.timeout millisecond (pos 1), "hook timeout must be positive")
          ∷ [])
        >> check_http h
  ]

  unfoldable pub valid_group_version : String → Bool
  valid_group_version text = elim (x.parse_group_version text) [
    | none ↦ false
    | some (group, version) ↦
        not (same_text version "")
        && x.is_dns1035_label version
        && (same_text group "" || x.is_dns1123_subdomain group)
  ]

  unfoldable pub validate_reference : TargetRef → Verdict
  validate_reference ref = all_of (
      (
        not (x.is_blank ref.name)
            && not (x.is_blank ref.kind)
            && x.is_path_segment ref.name
            && x.is_path_segment ref.kind,
        "target reference requires valid non-empty name and kind",
      )
      ∷ (
        same_text ref.api_version "" || valid_group_version ref.api_version,
        "invalid target apiVersion",
      )
      ∷ [])

  unfoldable pub check_identifier : MetricIdentifier → Verdict
  check_identifier id = all_of (
      (not (x.is_blank id.name) && x.is_path_segment id.name, "invalid metric name")
      ∷ (x.is_selector id.selector, "invalid metric selector")
      ∷ [])

  unfoldable pub check_source : MetricSpec → Verdict
  check_source m = elim m.kind [
    | resource_source ↦ elim m.resource [
      | none ↦ err "unsupported or mismatched metric source type"
      | some r ↦
          require (x.is_qualified_name r.name) "invalid resource metric name"
          >> check_target r.target (utilization_target ∷ average_target ∷ [])
    ]
    | pods_source ↦ elim m.pods [
      | none ↦ err "unsupported or mismatched metric source type"
      | some r ↦ check_identifier r.metric >> check_target r.target (average_target ∷ [])
    ]
    | object_source ↦ elim m.object [
      | none ↦ err "unsupported or mismatched metric source type"
      | some r ↦
          validate_reference r.described_object
          >> check_identifier r.metric
          >> check_target r.target (value_target ∷ average_target ∷ [])
    ]
    | external_source ↦ elim m.external [
      | none ↦ err "unsupported or mismatched metric source type"
      | some r ↦
          check_identifier r.metric >> check_target r.target (value_target ∷ average_target ∷ [])
    ]
    | _ ↦ err "unsupported or mismatched metric source type"
  ]

  unfoldable pub validate_metric : MetricSpec → Verdict
  validate_metric m =
      require
        (count_true (
            is_given m.resource
            ∷ m.has_container_resource
            ∷ is_given m.pods
            ∷ is_given m.object
            ∷ is_given m.external
            ∷ [])
          == 1)
        "exactly one metric source is required"
      >> check_source m

  abbrev pub is_cpu : MetricSpec → Bool
  is_cpu m = elim m.resource [ none ↦ false | some r ↦ same_text r.name "cpu" ]

  unfoldable pub check_behavior : Option HpaBehavior → Verdict
  check_behavior none = ok tt
  check_behavior (some b) = validate_rules b.scale_up >> validate_rules b.scale_down

  unfoldable pub validate_kubernetes_spec : {F : Type 0} → HpaPlusSpec F → Verdict
  validate_kubernetes_spec spec =
      validate_reference spec.scale_target_ref
      >> require (not (length spec.metrics == 0)) "at least one metric is required"
      >> for_each validate_metric spec.metrics
      >> require (leb (count_true (map is_cpu spec.metrics)) 1) "only one CPU resource metric"
      >> check_behavior spec.behavior
