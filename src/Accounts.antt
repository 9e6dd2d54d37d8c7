-- ===== src/Accounts.antt =====
-- The accounts of src/py000_nautilus/models.py, `RiskConfig` of config.py, and how an account is
-- chosen by its position: `select_source_account` of economics.py, `_select_source`,
-- `_select_hedge` and `maker_hedge_bounds_allow` of maker_economics.py.
pub mod Sorted
pub mod Choice
use arbi_nautilus.Base.{
  Bool, true, false, ◌&&◌, ℤ, neg, leb_ℤ, String, Option, none, some, List, [], ◌∷◌, ◌++◌, find,
  if◌then◌else◌, Result, ok, err, value_error,
}
use arbi_nautilus.Models.{SourceDirection, long, short}
use arbi_nautilus.Maker.{account_allows}

pub record SourceAccount : Type 0 where
  pub account_id : String
  pub client_id : Option String
  pub position_ounces : ℤ
  pub max_long_ounces : ℤ
  pub max_short_ounces : ℤ
  pub base_margin_level : ℤ

pub record HedgeAccount : Type 0 where
  pub position_ounces : ℤ
  pub max_long_ounces : ℤ
  pub max_short_ounces : ℤ

pub record MakerAccount : Type 0 where
  pub account_id : String
  pub client_id : Option String
  pub position_ounces : ℤ
  pub max_long_ounces : ℤ
  pub max_short_ounces : ℤ

pub record RiskConfig : Type 0 where
  pub source_max_abs : ℤ
  pub hedge_max_abs : ℤ
  pub source_min_keep_abs : ℤ
  pub hedge_min_keep_abs : ℤ
  pub only_long : Bool

module _ {A : Type 0} where
  -- `sorted(accounts, key=...)`: equal keys keep their order.
  unfoldable pub insert_by : (A → ℤ) → A → List A → List A
  insert_by key a [] = a ∷ []
  insert_by key a (b ∷ bs) = if leb_ℤ (key a) (key b) then a ∷ b ∷ bs else b ∷ insert_by key a bs

  unfoldable pub sorted : (A → ℤ) → List A → List A
  unfolding insert_by
  sorted key [] = []
  sorted key (a ∷ xs) = insert_by key a (sorted key xs)

  -- `reversed(ordered)`
  unfoldable pub reversed : List A → List A
  reversed [] = []
  reversed (a ∷ xs) = reversed xs ++ a ∷ []

  -- `ordered[-1]`, after a first element.
  abbrev last_of : A → List A → A
  last_of a [] = a
  last_of a (b ∷ bs) = last_of b bs

-- `ordered[0]` for a long, `ordered[-1]` for a short.
abbrev pub pick : SourceDirection → List SourceAccount → Result SourceAccount
pick direction [] = err value_error
pick direction (a ∷ xs) = ok (elim direction [ long ↦ a | short ↦ last_of a xs ])

unfoldable pub select_source_account : List SourceAccount → SourceDirection → Result SourceAccount
unfolding sorted
select_source_account accounts direction = pick direction (sorted (λ a. a.position_ounces) accounts)

-- The account test of `_select_source`.
abbrev pub source_allows : SourceDirection → ℤ → RiskConfig → SourceAccount → Bool
source_allows direction quantity risk a =
    account_allows a.position_ounces (elim direction [ long ↦ quantity | short ↦ neg quantity ])
      (elim direction [ long ↦ a.max_long_ounces | short ↦ a.max_short_ounces ]) risk.source_max_abs
      risk.source_min_keep_abs risk.only_long

-- `_select_source`
unfoldable pub select_source :
    List SourceAccount → SourceDirection → ℤ → RiskConfig → Option SourceAccount
unfolding sorted reversed
select_source accounts direction quantity risk =
    let ordered = sorted (λ a. a.position_ounces) accounts in
    find (source_allows direction quantity risk)
      (elim direction [ long ↦ ordered | short ↦ reversed ordered ])

-- The account test of `_select_hedge`, the other way.
abbrev pub hedge_allows : SourceDirection → ℤ → RiskConfig → MakerAccount → Bool
hedge_allows direction quantity risk a =
    account_allows a.position_ounces (elim direction [ long ↦ neg quantity | short ↦ quantity ])
      (elim direction [ long ↦ a.max_short_ounces | short ↦ a.max_long_ounces ]) risk.hedge_max_abs
      risk.hedge_min_keep_abs risk.only_long

-- `_select_hedge`: `reverse=True` keeps the order of equal keys, so it is a sort by the negated key.
unfoldable pub select_hedge :
    List MakerAccount → SourceDirection → ℤ → RiskConfig → Option MakerAccount
unfolding sorted reversed
select_hedge accounts direction quantity risk =
    let ordered = sorted (λ a. neg a.position_ounces) accounts in
    find (hedge_allows direction quantity risk)
      (elim direction [ long ↦ ordered | short ↦ reversed ordered ])

-- `maker_hedge_bounds_allow`
unfoldable pub maker_hedge_bounds_allow : MakerAccount → RiskConfig → ℤ → ℤ → Bool
maker_hedge_bounds_allow a risk buy sell =
    account_allows a.position_ounces buy a.max_long_ounces risk.hedge_max_abs
      risk.hedge_min_keep_abs risk.only_long
    && account_allows a.position_ounces (neg sell) a.max_short_ounces risk.hedge_max_abs
        risk.hedge_min_keep_abs risk.only_long
