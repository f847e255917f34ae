-- ===== src/Governance/Thresholds.antt =====
-- contracts/syneswap_proposal/src/threshold.rs: the validation of thresholds.
use synergistic_juno_contrac.Base.{Result, ok, ◌>>◌, reject_if, ◌==◌}
use synergistic_juno_contrac.Governance.{
  Decimals, PercentageThreshold, majority, percent, Threshold, absolute_percentage,
  threshold_quorum, absolute_count, Error, generic,
}

module _ {D : Type 0} (decimals : Decimals D) where
  unfoldable pub validate_percentage : PercentageThreshold D → Result Error (Unit {0})
  validate_percentage majority = ok tt
  validate_percentage (percent p) =
      reject_if (decimals.is_zero p) generic >> reject_if (decimals.above_one p) generic

  unfoldable pub validate_quorum : PercentageThreshold D → Result Error (Unit {0})
  validate_quorum majority = ok tt
  validate_quorum (percent p) = reject_if (decimals.above_one p) generic

  -- `Threshold::validate`
  unfoldable pub validate_threshold : Threshold D → Result Error (Unit {0})
  validate_threshold (absolute_percentage percentage) = validate_percentage percentage
  validate_threshold (threshold_quorum threshold quorum) =
      validate_percentage threshold >> validate_quorum quorum
  validate_threshold (absolute_count threshold) = reject_if (threshold == 0) generic
