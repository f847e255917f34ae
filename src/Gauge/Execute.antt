-- ===== src/Gauge/Execute.antt =====
-- contracts/synergistic_wynd_gauge: the messages of src/msg.rs and their dispatch in src/contract.rs.
use synergistic_juno_contrac.Base.{ℕ, Bool, false, Option, List, [], Result, ok, ◌>>=◌}
use synergistic_juno_contrac.Gauge.{Error, Decimals, Vote, State}
use synergistic_juno_contrac.Gauge.Epochs
use synergistic_juno_contrac.Gauge.Epochs.{Querier, PlaceVotes}
use synergistic_juno_contrac.Gauge.Options.{GaugeConfig, create_gauge, add_option, remove_option}
use synergistic_juno_contrac.Gauge.Administration.{update_gauge, stop_gauge}
use synergistic_juno_contrac.Gauge.Placing.{MemberDiff, Diff}
use synergistic_juno_contrac.Gauge.Votes.{place_votes, member_changed}

pub data ExecuteMsg (D : Type 0) : Type 0 where
  member_changed_hook : List MemberDiff → ExecuteMsg D
  create : GaugeConfig → ExecuteMsg D
  update : ℕ → Option ℕ → Option ℕ → Option D → Option ℕ → Option D → ExecuteMsg D
  stop : ℕ → ExecuteMsg D
  add remove : ℕ → ℕ → ExecuteMsg D
  place : ℕ → Option (List (Vote D)) → ExecuteMsg D
  execute_gauge : ℕ → ExecuteMsg D

module _ {D Duration : Type 0} (decimals : Decimals D) (name_lt : ℕ → ℕ → Bool)
    (order : Diff → Diff) (querier : Querier D Duration) where
  -- A handler that sends no message.
  abbrev pub silent : Result Error (State D) → Result Error (State D × List (PlaceVotes D))
  silent r = r >>= λ s. ok (s, [])

  -- The entry point `execute`, at a time and from a sender.
  unfoldable pub execute :
      ℕ → ℕ → ExecuteMsg D → State D → Result Error (State D × List (PlaceVotes D))
  execute now sender (member_changed_hook diffs) s =
      silent (member_changed decimals name_lt querier sender diffs s)
  execute now sender (create options) s = silent (create_gauge name_lt querier sender options s)
  execute now sender (update gauge_id size pending least most cap) s =
      silent (update_gauge decimals sender gauge_id size pending least most cap s)
  execute now sender (stop gauge_id) s = silent (stop_gauge sender gauge_id s)
  execute now sender (add gauge_id option) s =
      silent (add_option name_lt querier sender gauge_id option false s)
  execute now sender (remove gauge_id option) s = silent (remove_option sender gauge_id option s)
  execute now sender (place gauge_id votes) s =
      silent (place_votes decimals name_lt order querier now sender gauge_id votes s)
  execute now sender (execute_gauge gauge_id) s = Epochs.execute decimals querier now gauge_id s
