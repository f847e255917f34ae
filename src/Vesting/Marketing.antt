-- ===== src/Vesting/Marketing.antt =====
-- contracts/cw20-vesting/src/contract.rs: the marketing data and the logo.
use synergistic_juno_contrac.Base.{
  ℕ, Bool, true, false, Option, none, some, [], ◌∷◌, ◌==◌, leb, ◌&&◌, ◌||◌, if◌then◌else◌, Result,
  ok, ◌>>=◌, ◌>>◌, ensure, ok_or,
}
use synergistic_juno_contrac.Vesting.{
  Text, Addr, Chain, State, MarketingInfo, Logo, url, svg, png, LogoInfo, link, embedded, Error,
  Outcome, unauthorized,
}
use synergistic_juno_contrac.Vesting.Allowances.{validate_addr}
use synergistic_juno_contrac.Vesting.LogoChecks.{verify_logo}

-- `char::is_whitespace`
unfoldable pub is_whitespace : ℕ → Bool
is_whitespace c =
    (leb 9 c && leb c 13)
    || c == 32
    || c == 0x85
    || c == 0xa0
    || c == 0x1680
    || (leb 0x2000 c && leb c 0x200a)
    || c == 0x2028
    || c == 0x2029
    || c == 0x202f
    || c == 0x205f
    || c == 0x3000

-- `text.trim().is_empty()`
unfoldable pub is_blank : Text → Bool
unfolding is_whitespace
is_blank [] = true
is_blank (c ∷ text) = is_whitespace c && is_blank text

-- One `match` of `execute_update_marketing`: a blank text clears the field, none leaves it.
unfoldable pub update_field : Option Text → Option Text → Option Text
update_field none old = old
update_field (some text) old = if is_blank text then none else some text

abbrev pub is_none {ℓ} : {A : Type ℓ} → Option A → Bool
is_none none = true
is_none (some _) = false

-- `Logo` to `LogoInfo`
abbrev pub logo_info_of : Logo → LogoInfo
logo_info_of (url text) = link text
logo_info_of (svg _) = embedded
logo_info_of (png _) = embedded

-- Marketing data with nothing in it is removed.
unfoldable pub keep_marketing : MarketingInfo → Option MarketingInfo
keep_marketing m =
    if is_none m.project && is_none m.description && is_none m.marketing && is_none m.logo_info
    then none
    else some m

module _ {E : Type 0} (chain : Chain E) where
  unfoldable pub update_marketing_addr : Option Text → Option Addr → Result Error (Option Addr)
  unfolding validate_addr
  update_marketing_addr none old = ok old
  update_marketing_addr (some text) old =
      if is_blank text then ok none else (do addr ← validate_addr chain text; ok (some addr))

  -- The marketing data, if the sender is the account that may change it.
  unfoldable pub load_marketing : Addr → State E → Result Error MarketingInfo
  load_marketing sender s = do
    m ← ok_or s.marketing_info unauthorized
    holder ← ok_or m.marketing unauthorized
    ensure (holder == sender) unauthorized
    ok m

  unfoldable pub execute_update_marketing :
      Addr → Option Text → Option Text → Option Text → State E → Outcome E
  unfolding load_marketing update_marketing_addr update_field keep_marketing
  execute_update_marketing sender project description marketing s = do
    m ← load_marketing sender s
    addr ← update_marketing_addr marketing m.marketing
    ok (
      record s {
        marketing_info = keep_marketing (record m {
          project = update_field project m.project;
          description = update_field description m.description;
          marketing = addr;
        });
      },
      [],
    )

  -- The logo is checked before the sender.
  unfoldable pub execute_upload_logo : Addr → Logo → State E → Outcome E
  execute_upload_logo sender logo s = do
    m ← ok_or s.marketing_info unauthorized
    verify_logo logo
    holder ← ok_or m.marketing unauthorized
    ensure (holder == sender) unauthorized
    ok (
      record s {
        logo = some logo;
        marketing_info = some (record m { logo_info = some (logo_info_of logo) });
      },
      [],
    )
