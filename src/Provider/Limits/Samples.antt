-- ===== src/Provider/Limits/Samples.antt =====
-- The default limits, and limits that a caller sets.
use mission_control_edge.Common.{◌≡◌, refl, some, [], ◌∷◌, ok, err, first_error}
use mission_control_edge.Common.Int.{negsuc}
use mission_control_edge.Protocol.Error.{plain}
use mission_control_edge.Provider.Limits.{
  Limits, outside, validate_limits, with_limits, apply_from, apply_options, default_limits,
  test_limits,
}
use mission_control_edge.Provider.Limits.Bounds.{
  Bounded, validate_limits-ok-Bounded, apply_options-Bounded,
}

test_limits_apply : apply_options (some (with_limits test_limits) ∷ []) ≡ ok test_limits
unfolding apply_options apply_from with_limits validate_limits first_error outside
test_limits_apply = refl

abbrev negative_queue : Limits
negative_queue = record test_limits { max_outbound_queue = negsuc 0 }

negative_queue_refused :
    validate_limits negative_queue ≡ err (plain "maximum outbound queue is invalid")
unfolding validate_limits first_error outside
negative_queue_refused = refl

default_limits_valid : validate_limits default_limits ≡ ok tt
unfolding validate_limits first_error outside
default_limits_valid = refl

validate_limits-ok-Bounded_example : Bounded default_limits
validate_limits-ok-Bounded_example =
    (validate_limits-ok-Bounded default_limits).0 default_limits_valid

apply_options-Bounded_example : Bounded test_limits
apply_options-Bounded_example =
    apply_options-Bounded (some (with_limits test_limits) ∷ []) test_limits_apply
