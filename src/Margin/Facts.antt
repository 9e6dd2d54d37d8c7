-- ===== src/Margin/Facts.antt =====
-- The facts of an account event, and how src/py000_nautilus/margin.py reads them: `_account_info`,
-- `_object`, `_decimal`, `_fresh` and `_fresh_ask`.
use arbi_nautilus.Base.{
  Bool, false, not, ◌&&◌, ◌||◌, ℤ, pos, neg, ◌-ℤ◌, leb_ℤ, String, Option, none, some, ◌==◌,
  string_eq, option_eq, if◌then◌else◌, Result, ok, err, value_error, key_error,
}
use arbi_nautilus.Base.Raises.{◌>>◌, unless}
use arbi_nautilus.Margin.{CapacityContext}

-- A Python object of an event's `info`.
mutual
  pub data Fact : Type 0 where
    absent : Fact
    flag : Bool → Fact
    whole : ℤ → Fact
    text : String → Fact
    decimal : ℤ → Fact
    object : Facts → Fact
    other : Fact

  pub data Facts : Type 0 where
    no_facts : Facts
    fact : String → Fact → Facts → Facts

-- `facts[name]`
abbrev pub at_key : String → Facts → Result Fact
at_key name no_facts = err key_error
at_key name (fact key value facts) = if key == name then ok value else at_key name facts

-- `_object`
abbrev pub object_of : Fact → Result Facts
object_of (object facts) = ok facts
object_of _ = err value_error

abbrev pub is_true : Fact → Bool
is_true (flag b) = b
is_true _ = false

abbrev pub is_text : String → Fact → Bool
is_text s (text t) = t == s
is_text s _ = false

-- `_decimal`
abbrev pub decimal_value : CapacityContext → Fact → Result ℤ
decimal_value c (text t) = c.decimal_of t
decimal_value c (decimal n) = ok n
decimal_value c _ = err value_error

-- `_fresh`
unfoldable pub is_fresh : Fact → ℤ → ℤ → ℤ → Bool
is_fresh (whole observed) now max_age max_future =
    leb_ℤ (pos 0) observed
    && (leb_ℤ (pos 0) now
        && (leb_ℤ (pos 0) max_age
            && (leb_ℤ (neg max_future) (now -ℤ observed) && leb_ℤ (now -ℤ observed) max_age)))
is_fresh _ now max_age max_future = false

-- `_fresh_ask`
unfoldable pub fresh_ask : ℤ → ℤ → ℤ → ℤ → Bool → Result ℤ
unfolding is_fresh
fresh_ask ask ts_ns now max_age actionable = do
  unless (not actionable || (not (is_fresh (whole ts_ns) now max_age (pos 0)) || leb_ℤ ask (pos 0)))
      value_error
  ok ask

-- What the code reads of an `AccountState`.
pub record AccountEvent : Type 0 where
  pub event_account_id : String
  pub is_margin : Bool
  pub base_currency : Option String
  pub info : Fact

-- `_account_info`
unfoldable pub account_info : Option AccountEvent → String → Bool → String → Result Facts
account_info none account_id client_ready currency = err value_error
account_info (some event) account_id client_ready currency = do
  unless
      (not client_ready
        || (not (event.event_account_id == account_id)
            || (not event.is_margin || not (event.base_currency == some currency))))
      value_error
  object_of event.info
