-- ===== src/Gauge/Administration.antt =====
-- contracts/synergistic_wynd_gauge/src/contract.rs: `update_gauge` and `stop_gauge`.
use synergistic_juno_contrac.Base.{
  ℕ, Bool, true, not, Option, none, some, ltb, ◌==◌, if◌then◌else◌, Result, ok, err, ◌>>=◌, ◌>>◌,
  ok_or, ensure,
}
use synergistic_juno_contrac.Base.Dict.{lookup}
use synergistic_juno_contrac.Gauge.{
  Error, not_found, unauthorized, epoch_size_too_short, min_percent_selected_too_big,
  max_options_selected_too_small, max_available_percent_too_big, Decimals, State,
}
use synergistic_juno_contrac.Gauge.Epochs.{save_gauge}

-- A field that may be given, with its test.
abbrev pub replace_number : Option ℕ → ℕ → ℕ → Error → Result Error ℕ
replace_number none least old e = ok old
replace_number (some new) least old e = if ltb least new then ok new else err e

module _ {D : Type 0} (decimals : Decimals D) where
  -- `x < Decimal::one()`
  abbrev pub below_one : D → Bool
  below_one x = not (decimals.at_most decimals.one x)

  abbrev pub replace_percent : Option D → Option D → Error → Result Error (Option D)
  replace_percent none old e = ok old
  replace_percent (some new) old e =
      if decimals.is_zero new then ok none else if below_one new then ok (some new) else err e

  unfoldable pub update_gauge :
      ℕ
      → ℕ
      → Option ℕ
      → Option ℕ
      → Option D
      → Option ℕ
      → Option D
      → State D
      → Result Error (State D)
  update_gauge sender gauge_id epoch_size epoch_pending_size min_percent max_options max_available
        s =
      do
        ensure (sender == s.config.owner) unauthorized
        g ← ok_or (lookup gauge_id s.gauges) not_found
        epoch ← replace_number epoch_size 60 g.epoch epoch_size_too_short
        pending ← replace_number epoch_pending_size 60 g.epoch_pending_size epoch_size_too_short
        least ← replace_percent min_percent g.min_percent_selected min_percent_selected_too_big
        most ← replace_number max_options 0 g.max_options_selected max_options_selected_too_small
        cap ← replace_percent max_available g.max_available_percentage max_available_percent_too_big
        ok (
            save_gauge gauge_id
              (record g {
                epoch = epoch;
                epoch_pending_size = pending;
                min_percent_selected = least;
                max_options_selected = most;
                max_available_percentage = cap;
              })
              s)

module _ {D : Type 0} where
  unfoldable pub stop_gauge : ℕ → ℕ → State D → Result Error (State D)
  stop_gauge sender gauge_id s = do
    ensure (sender == s.config.owner) unauthorized
    g ← ok_or (lookup gauge_id s.gauges) not_found
    ok (save_gauge gauge_id (record g { is_stopped = true }) s)
