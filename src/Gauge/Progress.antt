-- ===== src/Gauge/Progress.antt =====
-- How the gauges and the history of contracts/synergistic_wynd_gauge change: new gauges are new, the
-- history only grows, and a stopped gauge is never executed again.
pub mod Unchanged
pub mod Handlers
use synergistic_juno_contrac.Base.{
  ℕ, ◌+◌, ◌≤◌, Bool, true, false, ◌≡◌, refl, sym, ◌∙◌, ap, subst, Option, none, some, List, [], ◌∷◌,
  arith, get_or, is_some, ltb, ◌==◌, if◌then◌else◌, Bool-cases, inl, inr,
}
use synergistic_juno_contrac.Base.Dict.{Dict, lookup, insert, lookup-insert}
use synergistic_juno_contrac.Gauge.{Gauge, VoteHistory, State}
use synergistic_juno_contrac.Gauge.Epochs.{save_gauge, history_of}

module _ {D : Type 0} where
  -- The number of epochs that a gauge has been through: `gauge_version`, 0 for an unknown gauge.
  abbrev pub version : ℕ → State D → ℕ
  version g s = get_or (lookup g s.last_epoch) 0

  -- No gauge has an identifier that is still to be given, and the history of a gauge has exactly
  -- the epochs below its version.
  pub record Valid (s : State D) : Type 0 where
    pub no_gauge : (g : ℕ) → get_or s.last_id 0 ≤ g → lookup g s.gauges ≡ none
    pub no_epoch : (g : ℕ) → get_or s.last_id 0 ≤ g → lookup g s.last_epoch ≡ none
    pub recorded : (g e : ℕ) → is_some (lookup e (history_of g s)) ≡ ltb e (version g s)

  -- A gauge changes, but if it is stopped it stays stopped and its last executed set stays.
  abbrev pub Evolves : Gauge D → Gauge D → Type 0
  Evolves g g' =
      g.is_stopped ≡ true → (g'.is_stopped ≡ true) × (g'.last_executed_set ≡ g.last_executed_set)

  -- From one state to a later one: every gauge is still there, every entry of the history too.
  pub record Progress (s s' : State D) : Type 0 where
    pub valid : Valid s'
    pub gauges :
        (id : ℕ) (g : Gauge D)
        → lookup id s.gauges ≡ some g
        → (g' : Gauge D) × (lookup id s'.gauges ≡ some g') × Evolves g g'
    pub history :
        (id e : ℕ) (h : VoteHistory D)
        → lookup e (history_of id s) ≡ some h
        → lookup e (history_of id s') ≡ some h

  pub Progress-refl : (s : State D) → Valid s → Progress s s
  Progress-refl s v = record {
    valid = v;
    gauges = λ id g e. (g, e, λ stopped. (stopped, refl));
    history = λ id e h k. k;
  }

  pub Progress-trans : (s t u : State D) → Progress s t → Progress t u → Progress s u
  Progress-trans s t u p q = record {
    valid = q.valid;
    gauges = λ id g e.
        let (g1, e1, k1) = p.gauges id g e in
        let (g2, e2, k2) = q.gauges id g1 e1 in
        (g2, e2, λ stopped. ((k2 (k1 stopped).0).0, (k2 (k1 stopped).0).1 ∙ (k1 stopped).1));
    history = λ id e h k. q.history id e h (p.history id e h k);
  }

  -- A state that differs in votes and tallies only.
  pub record Same (s s' : State D) : Type 0 where
    pub same_gauges : s'.gauges ≡ s.gauges
    pub same_id : s'.last_id ≡ s.last_id
    pub same_epoch : s'.last_epoch ≡ s.last_epoch
    pub same_history : s'.vote_history ≡ s.vote_history
    pub same_config : s'.config ≡ s.config

  pub Same-Progress : (s s' : State D) → Valid s → Same s s' → Progress s s'
  Same-Progress s s' v same = record {
    valid = record {
      no_gauge = λ g le. rw (same.same_gauges) (v.no_gauge g (rw (sym same.same_id) le));
      no_epoch = λ g le. rw (same.same_epoch) (v.no_epoch g (rw (sym same.same_id) le));
      recorded = λ g e. rw (same.same_history, same.same_epoch) (v.recorded g e);
    };
    gauges = λ id g e. (g, ap (lookup id) same.same_gauges ∙ e, λ stopped. (stopped, refl));
    history = λ id e h k. rw (same.same_history) k;
  }

  pub save_gauge-Progress :
      (id : ℕ) (g g' : Gauge D) (s : State D)
      → Valid s
      → lookup id s.gauges ≡ some g
      → Evolves g g'
      → Progress s (save_gauge id g' s)
  save_gauge-Progress id g g' s v e k = record {
    valid = record {
      no_gauge = λ j le. ground (arith, v.no_gauge j le, lookup-insert id j g' s.gauges);
      no_epoch = v.no_epoch;
      recorded = v.recorded;
    };
    gauges = λ j h f. elim (Bool-cases (id == j)) [
      | inl here ↦
          let same_id : id ≡ j = ground arith in
          let same : g ≡ h = ground (arith, e, f) in
          (g', ground (arith, lookup-insert id j g' s.gauges), subst (λ x. Evolves x g') same k)
      | inr there ↦ (h, ground (arith, lookup-insert id j g' s.gauges), λ stopped. (stopped, refl))
    ];
    history = λ id e h k. k;
  }
