-- ===== src/Gauge/Progress/Handlers.antt =====
-- Every handler of contracts/synergistic_wynd_gauge/src/contract.rs makes progress.
use synergistic_juno_contrac.Base.{
  ℕ, ◌+◌, Bool, true, ◌≡◌, refl, ◌∙◌, ap, subst, Option, none, some, List, arith, get_or, is_some,
  ltb, ◌==◌, Bool-cases, inl, inr, Result, ok, ◌>>=◌, ok_or, ensure, reject_if, Result-cases,
  Returns, returns, raises, step, follow, branch,
}
use synergistic_juno_contrac.Base.Checked.{add64, add128, add_within}
use synergistic_juno_contrac.Base.Dict.{lookup, insert, lookup-insert}
use synergistic_juno_contrac.Gauge.{
  Error, std, not_found, aborted, unauthorized, gauge_stopped, gauge_no_pending, gauge_resetting,
  gauge_missing, gauge_pending, gauge_cannot_create, Decimals, Gauge, Vote, VoteHistory, State,
}
use synergistic_juno_contrac.Gauge.Selection.{is_pending, is_resetting, selected_set, weigh}
use synergistic_juno_contrac.Gauge.Administration.{update_gauge, stop_gauge}
use synergistic_juno_contrac.Gauge.Votes.{begin_epoch, place_votes}
use synergistic_juno_contrac.Gauge.Placing.{Diff}
use synergistic_juno_contrac.Gauge.Options.{
  GaugeConfig, new_gauge, fetch_last_id, attach_gauge, create_gauge,
}
use synergistic_juno_contrac.Gauge.Progress.Unchanged.{add_options-Same, store_votes-Same}
use synergistic_juno_contrac.Gauge.Epochs
use synergistic_juno_contrac.Gauge.Epochs.{
  Querier, GaugeResponse, save_gauge, history_of, update_epoch,
}
use synergistic_juno_contrac.Gauge.Progress.{
  Valid, Progress, Progress-refl, Progress-trans, Same, Same-Progress, Evolves, save_gauge-Progress,
}

added : (n : ℕ) {m : ℕ} → ok_or {E = Error} (add128 n 1) aborted ≡ ok m → m ≡ n + 1
unfolding add_within
added n e = ground arith

epoch_of : (o : Option ℕ) {n : ℕ} → ok_or {E = Error} o aborted ≡ ok n → o ≡ some n
epoch_of none e = absurd (cc)
epoch_of (some m) e = cc

module _ {D : Type 0} where
  abbrev pub Progress1 : {A : Type 0} → State D → A × State D → Type 0
  Progress1 s (_, s') = Progress s s'

  abbrev pub Progress0 : {A : Type 0} → State D → State D × A → Type 0
  Progress0 s (s', _) = Progress s s'

  found_at : (o : Option (Gauge D)) (g : Gauge D) (e : Error) → ok_or o e ≡ ok g → o ≡ some g
  found_at none g e h = absurd (cc)
  found_at (some f) g e h = cc

  kept : (g : Gauge D) → Evolves g g
  kept g stopped = (stopped, refl)

  unchanged : (g : Gauge D) (s : State D) → Valid s → Returns {E = Error} (Progress1 s) (ok (g, s))
  unchanged g s v = returns (Progress-refl s v)

  pub then_unchanged :
      (s t : State D) {r : Result Error (State D)}
      → Progress s t
      → Returns (Same t) r
      → Returns (Progress s) r
  then_unchanged s t p (returns {a = u} q) =
      returns (Progress-trans s t u p (Same-Progress t u p.valid q))
  then_unchanged s t p raises = raises

  saved :
      (id : ℕ) (g g' : Gauge D) (s : State D)
      → Valid s
      → ok_or {E = Error} (lookup id s.gauges) not_found ≡ ok g
      → g'.is_stopped ≡ g.is_stopped
      → g'.last_executed_set ≡ g.last_executed_set
      → Returns {E = Error} (Progress s) (ok (save_gauge id g' s))
  saved id g g' s v e same_stop same_set = returns (
      save_gauge-Progress id g g' s v (found_at (lookup id s.gauges) g _ e)
        λ stopped. (same_stop ∙ stopped, same_set))

  -- The state in which the entry of an epoch is added.
  abbrev add_entry : ℕ → ℕ → ℕ → VoteHistory D → State D → State D
  add_entry id n m h s = record s {
    vote_history = insert id (insert n h (history_of id s)) s.vote_history;
    last_epoch = insert id m s.last_epoch;
  }

  same_id :
      (id j : ℕ) (s : State D)
      → (id == j) ≡ true
      → (e : ℕ) → lookup e (history_of id s) ≡ lookup e (history_of j s)
  same_id id j s h e = let same : id ≡ j = ground arith in rw same refl

  recorded_at :
      (id n e : ℕ) (s : State D)
      → Valid s
      → lookup id s.last_epoch ≡ some n
      → is_some (lookup e (history_of id s)) ≡ ltb e n
  recorded_at id n e s v l =
      subst (λ o. is_some (lookup e (history_of id s)) ≡ ltb e (get_or o 0)) l (v.recorded id e)

  add_entry-Progress :
      (id n : ℕ) (h : VoteHistory D) (g : Gauge D) (s : State D)
      → Valid s
      → lookup id s.gauges ≡ some g
      → lookup id s.last_epoch ≡ some n
      → Progress s (add_entry id n (n + 1) h s)
  add_entry-Progress id n h g s v e l = record {
    valid = record {
      no_gauge = v.no_gauge;
      no_epoch = λ j le.
          ground (arith, v.no_gauge j le, v.no_epoch j le, lookup-insert id j (n + 1) s.last_epoch);
      recorded = λ j i. elim (Bool-cases (id == j)) [
        | inl here ↦
            rw
              (
                lookup-insert id j (n + 1) s.last_epoch,
                lookup-insert id j (insert n h (history_of id s)) s.vote_history,
                here,
                lookup-insert n i h (history_of id s),
              )
              (ground (arith, recorded_at id n i s v l))
        | inr there ↦
            rw
              (
                lookup-insert id j (n + 1) s.last_epoch,
                lookup-insert id j (insert n h (history_of id s)) s.vote_history,
                there,
              )
              (v.recorded j i)
      ];
    };
    gauges = λ j f e. (f, e, λ stopped. (stopped, refl));
    history = λ j i k listed. elim (Bool-cases (id == j)) [
      | inl here ↦
          rw
            (
              lookup-insert id j (insert n h (history_of id s)) s.vote_history,
              here,
              lookup-insert n i h (history_of id s),
            )
            (ground (arith, recorded_at id n i s v l, same_id id j s here i))
      | inr there ↦
          rw (lookup-insert id j (insert n h (history_of id s)) s.vote_history, there) listed
    ];
  }

  update_epoch-Progress :
      (id next : ℕ) (g g' : Gauge D) (votes : List (Vote D)) (b : Bool) (s : State D)
      → Valid s
      → lookup id s.gauges ≡ some g
      → Evolves g g'
      → Returns (Progress1 s) (update_epoch id g' next votes b s)
  unfolding update_epoch
  update_epoch-Progress id next g g' votes b s v e k =
      step (ok_or (lookup id s.last_epoch) aborted) λ n n_eq.
        step (ok_or (add128 n 1) aborted) λ m m_eq.
          let entry : VoteHistory D = record {
            epoch = g'.epoch;
            next_epoch = g'.next_epoch;
            votes = votes;
            executed = b;
          } in
          let moved : Gauge D = record g' { next_epoch = next } in
          let p = add_entry-Progress id n entry g s v e (epoch_of (lookup id s.last_epoch) n_eq) in
          rw (added n m_eq) (
            returns (
              Progress-trans s (add_entry id n (n + 1) entry s) _ p
                (save_gauge-Progress id g moved (add_entry id n (n + 1) entry s) p.valid e k)))

  pub stop_gauge-Progress :
      (sender id : ℕ) (s : State D) → Valid s → Returns (Progress s) (stop_gauge sender id s)
  unfolding stop_gauge
  stop_gauge-Progress sender id s v = step (ensure (sender == s.config.owner) unauthorized) λ _ _.
      step (ok_or (lookup id s.gauges) not_found) λ g e. returns (
        save_gauge-Progress id g (record g { is_stopped = true }) s v
          (found_at (lookup id s.gauges) g _ e) λ stopped. (refl, refl))

  pub update_gauge-Progress :
      (decimals : Decimals D) (sender id : ℕ) (size pending : Option ℕ) (least : Option D)
      (most : Option ℕ) (cap : Option D) (s : State D)
      → Valid s
      → Returns (Progress s) (update_gauge decimals sender id size pending least most cap s)
  unfolding update_gauge
  update_gauge-Progress decimals sender id size pending least most cap s v =
      search (step, saved) depth 14

  begin_epoch-Progress :
      (decimals : Decimals D) (now id next : ℕ) (g : Gauge D) (s : State D)
      → Valid s
      → lookup id s.gauges ≡ some g
      → Returns (Progress1 s) (begin_epoch decimals now id next g s)
  unfolding begin_epoch
  begin_epoch-Progress decimals now id next g s v e =
      search (branch, step, unchanged, update_epoch-Progress, kept) depth 8

  pub execute-Progress :
      {Duration : Type 0} (decimals : Decimals D) (querier : Querier D Duration) (now id : ℕ)
      (s : State D)
      → Valid s
      → Returns (Progress0 s) (Epochs.execute decimals querier now id s)
  unfolding Epochs.execute
  execute-Progress decimals querier now id s v = step (ok_or (lookup id s.gauges) not_found) λ g e.
      step (reject_if g.is_stopped (gauge_stopped id)) λ _ running.
        step (ok_or (querier.wynd_gauge_by_id s.config.wynd_gauge g.wynd_gauge_id) aborted) λ w _.
          step (ok_or (is_pending now w.next_epoch g) aborted) λ pending _.
            step (ensure pending (gauge_no_pending id)) λ _ _.
              step (reject_if (is_resetting g) (gauge_resetting id)) λ _ _.
                step (selected_set decimals id s) λ set _.
                  step (ok_or (weigh decimals set) aborted) λ votes _.
                    let shown : Gauge D = record g { last_executed_set = some set } in
                    let p =
                      save_gauge-Progress id g shown s v (found_at (lookup id s.gauges) g _ e)
                        λ stopped. absurd (ground arith) in
                    follow
                      (update_epoch-Progress id w.next_epoch shown shown votes true
                        (save_gauge id shown s) p.valid
                        (ground (arith, lookup-insert id id shown s.gauges)) (kept shown))
                      λ (g', s') q. returns (Progress-trans s (save_gauge id shown s) s' p q)

module _ {D Duration : Type 0} (name_lt : ℕ → ℕ → Bool) (querier : Querier D Duration) where
  -- The state with a new gauge, before its options are added.
  abbrev with_gauge : ℕ → Gauge D → State D → State D
  with_gauge n g s = record s {
    gauges = insert n g s.gauges;
    last_id = some (n + 1);
    last_epoch = insert n 0 s.last_epoch;
  }

  with_gauge-Progress :
      (g : Gauge D) (s : State D) → Valid s → Progress s (with_gauge (get_or s.last_id 0) g s)
  with_gauge-Progress g s v =
      let n = get_or s.last_id 0 in
      record {
        valid = record {
          no_gauge = λ j le. ground (arith, v.no_gauge j, lookup-insert n j g s.gauges);
          no_epoch = λ j le. ground (arith, v.no_epoch j, lookup-insert n j 0 s.last_epoch);
          recorded = λ j i.
              rw (v.recorded j i) (ground (arith, v.no_epoch n, lookup-insert n j 0 s.last_epoch));
        };
        gauges = λ j h e. (
          h,
          ground (arith, v.no_gauge n, lookup-insert n j g s.gauges),
          λ stopped. (stopped, refl),
        );
        history = λ j i h k. k;
      }

  added64 : (n : ℕ) {m : ℕ} → ok_or {E = Error} (add64 n 1) aborted ≡ ok m → m ≡ n + 1
  unfolding add_within
  added64 n e = ground arith

  -- The identifier that `fetch_last_id` gives, and the state that it leaves.
  fetched :
      (s : State D) {A : Type 0} {P : A → Type 0} (f : ℕ × State D → Result Error A)
      → Returns P (f (get_or s.last_id 0, record s { last_id = some (get_or s.last_id 0 + 1) }))
      → Returns P (fetch_last_id s >>= f)
  unfolding fetch_last_id
  fetched s f q = elim (Result-cases (ok_or {E = Error} (add64 (get_or s.last_id 0) 1) aborted)) [
    | inl (m, e) ↦ rw (e, added64 (get_or s.last_id 0) e) q
    | inr (x, e) ↦ rw e raises
  ]

  pub attach_gauge-Progress :
      (options : GaugeConfig) (s : State D)
      → Valid s
      → Returns (Progress s) (attach_gauge name_lt querier options s)
  unfolding attach_gauge fetch_last_id
  attach_gauge-Progress options s v =
      step (ok_or (querier.wynd_gauge_by_id s.config.wynd_gauge options.wynd_gauge_id) aborted)
        λ w _. step (reject_if w.is_stopped (gauge_cannot_create options.wynd_gauge_id)) λ _ _.
          step (ok_or (querier.addr_validate w.adapter) std) λ adapter _. fetched s _ (
            step (ok_or (querier.all_options w.adapter) std) λ os _.
              follow (add_options-Same name_lt querier adapter (get_or s.last_id 0) os _) λ s2 same.
                let gauge : Gauge D = new_gauge options adapter w in
                let p = with_gauge-Progress gauge s v in
                returns (
                  Progress-trans s (with_gauge (get_or s.last_id 0) gauge s) _ p (
                    Same-Progress (with_gauge (get_or s.last_id 0) gauge s) _ p.valid (record {
                      same_gauges = same.same_gauges;
                      same_id = same.same_id;
                      same_epoch = ap (insert (get_or s.last_id 0) 0) same.same_epoch;
                      same_history = same.same_history;
                      same_config = same.same_config;
                    }))))

  pub create_gauge-Progress :
      (sender : ℕ) (options : GaugeConfig) (s : State D)
      → Valid s
      → Returns (Progress s) (create_gauge name_lt querier sender options s)
  unfolding create_gauge
  create_gauge-Progress sender options s v = search (step, attach_gauge-Progress) depth 6

module _ {D Duration : Type 0} (decimals : Decimals D) (name_lt : ℕ → ℕ → Bool)
    (order : Diff → Diff) (querier : Querier D Duration) where
  pub place_votes-Progress :
      (now sender id : ℕ) (placed : Option (List (Vote D))) (s : State D)
      → Valid s
      → Returns (Progress s) (place_votes decimals name_lt order querier now sender id placed s)
  unfolding place_votes
  place_votes-Progress now sender id placed s v =
      step (ok_or (lookup id s.gauges) (gauge_missing id)) λ g e.
        step (ok_or (querier.wynd_gauge_by_id s.config.wynd_gauge g.wynd_gauge_id) aborted) λ w _.
          step (ok_or (is_pending now w.next_epoch g) aborted) λ pending _.
            step (reject_if pending (gauge_pending id)) λ _ _.
              follow
                (begin_epoch-Progress decimals now id w.next_epoch g s v
                  (found_at (lookup id s.gauges) g _ e))
                λ (g1, s1) p. search (step, then_unchanged, store_votes-Same) depth 12
