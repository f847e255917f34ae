-- ===== src/Controllers/Claims.antt =====
-- packages/controllers/src/claim.rs: the claims of one account on tokens that are released later.
-- `E` and `B` are the expirations of cw_utils and the blocks, with the test `is_expired`.
use synergistic_juno_contrac.Base.{
  ℕ, ◌+◌, ◌≡◌, ◌≢◌, refl, Bool, false, Option, none, some, List, [], ◌∷◌, ◌++◌, ltb, ◌==◌,
  if◌then◌else◌, get_or, arith,
}
use synergistic_juno_contrac.Base.Checked.{◌>>=◌, add128, add_within}

pub record Claim (E : Type 0) : Type 0 where
  pub amount : ℕ
  pub release_at : E

-- `Map<&Addr, Vec<Claim>>`
abbrev pub Claims : Type 0 → Type 0
Claims E = ℕ → Option (List (Claim E))

abbrev pub claims_of : {E : Type 0} → Claims E → ℕ → List (Claim E)
claims_of m addr = get_or (m addr) []

abbrev pub save : {E : Type 0} → Claims E → ℕ → List (Claim E) → Claims E
save m addr claims a = if addr == a then some claims else m a

-- `create_claim`
unfoldable pub create_claim : {E : Type 0} → Claims E → ℕ → ℕ → E → Claims E
create_claim m addr amount release_at =
    save m addr (claims_of m addr ++ record { amount = amount; release_at = release_at } ∷ [])

module _ {E B : Type 0} (is_expired : E → B → Bool) where
  -- The test `to_send + c.amount > limit` against an optional cap; the sum may panic.
  unfoldable pub over_cap : Option ℕ → ℕ → ℕ → Option Bool
  over_cap none to_send amount = some false
  over_cap (some limit) to_send amount = do sum ← add128 to_send amount; some (ltb limit sum)

  -- The closure of `partition`, over all claims: what is sent so far, and the claims that wait.
  unfoldable pub partition : B → Option ℕ → ℕ → List (Claim E) → Option (ℕ × List (Claim E))
  unfolding over_cap
  partition block cap to_send [] = some (to_send, [])
  partition block cap to_send (c ∷ claims) =
      let kept = (do
        (sent, waiting) ← partition block cap to_send claims
        some (sent, c ∷ waiting)) in
      let paid = (do sum ← add128 to_send c.amount; partition block cap sum claims) in
      if is_expired c.release_at block
      then (do over ← over_cap cap to_send c.amount; if over then kept else paid)
      else kept

  -- `claim_tokens`: the amount to send, and the map with what waits.
  unfoldable pub claim_tokens : B → ℕ → Option ℕ → Claims E → Option (ℕ × Claims E)
  unfolding partition
  claim_tokens block addr cap m = do
    (sent, waiting) ← partition block cap 0 (claims_of m addr)
    some (sent, save m addr waiting)

  -- The sum of the claims.
  unfoldable pub claimed : List (Claim E) → ℕ
  claimed [] = 0
  claimed (c ∷ claims) = c.amount + claimed claims

  -- The claims that are not mature at the block, in their order.
  unfoldable pub immature : B → List (Claim E) → List (Claim E)
  immature block [] = []
  immature block (c ∷ claims) =
      let rest = immature block claims in if is_expired c.release_at block then rest else c ∷ rest

  -- If the loop returns, `P` holds of the amount and of the claims that wait.
  abbrev Then : (ℕ → List (Claim E) → Type 0) → Option (ℕ × List (Claim E)) → Type 0
  Then P none = Unit
  Then P (some (sent, waiting)) = P sent waiting

  partition_conserves :
      (block : B) (cap : Option ℕ) (to_send : ℕ) (claims : List (Claim E))
      → Then
          (λ sent waiting. sent + claimed waiting ≡ to_send + claimed claims)
          (partition block cap to_send claims)
  unfolding partition claimed add_within
  partition_conserves block cap to_send [] = refl
  partition_conserves block cap to_send (c ∷ claims) = ground (
    arith,
    partition_conserves block cap to_send claims,
    partition_conserves block cap (to_send + c.amount) claims,
  )

  partition_keeps_immature :
      (block : B) (cap : Option ℕ) (to_send : ℕ) (claims : List (Claim E))
      → Then
          (λ sent waiting. immature block waiting ≡ immature block claims)
          (partition block cap to_send claims)
  unfolding partition immature add_within
  partition_keeps_immature block cap to_send [] = refl
  partition_keeps_immature block cap to_send (c ∷ claims) = ground (
    arith,
    partition_keeps_immature block cap to_send claims,
    partition_keeps_immature block cap (to_send + c.amount) claims,
  )

  -- When `claim_tokens` returns, the amount and the claims that still wait add up to the claims
  -- before; every claim that is not mature still waits, in its order; and the claims of another
  -- account do not change.
  pub claim_tokens_conserves :
      (block : B) (addr other : ℕ) (cap : Option ℕ) (m m' : Claims E) (sent : ℕ)
      → other ≢ addr
      → claim_tokens block addr cap m ≡ some (sent, m')
      → (sent + claimed (claims_of m' addr) ≡ claimed (claims_of m addr))
        × (immature block (claims_of m' addr) ≡ immature block (claims_of m addr))
        × (m' other ≡ m other)
  unfolding claim_tokens
  claim_tokens_conserves block addr other cap m m' sent ne h =
      let a = partition_conserves block cap 0 (claims_of m addr) in
      let b = partition_keeps_immature block cap 0 (claims_of m addr) in
      (ground arith, ground arith, ground arith)
