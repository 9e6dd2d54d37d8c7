-- ===== src/Projection/Hedge/Write.antt =====
-- The write of `project_hedge_fills` in src/py000_nautilus/hedge_projection.py, for the single store of the
-- Taker: the store is stopped and takes the missing fills in one step, or everything is taken back.
use arbi_nautilus.Base.{
  ℕ, String, List, [], ◌∷◌, length, some, if◌then◌else◌, ok, err, value_error, Action, pure, ◌>>=◌,
  ◌>>◌,
}
use arbi_nautilus.Durability.{DiskCalls}
use arbi_nautilus.Models.Checks.{is_empty}
use arbi_nautilus.Store.{Store, Platform, update_state, persist, transaction}
use arbi_nautilus.Store.HedgeFill.{HedgeFill, apply_fill}
use arbi_nautilus.Projection.{VenueOrder, Owners}
use arbi_nautilus.Projection.Source.Write.{stop}
use arbi_nautilus.Projection.Hedge.Scan.{check_hedge_projection}

-- The loop over the missing fills.
unfoldable pub take_hedges : Platform → String → List HedgeFill → Action Store (Unit {0})
take_hedges platform reason [] = pure tt
take_hedges platform reason (f ∷ fills) = do
  apply_fill platform f (some reason)
  take_hedges platform reason fills

abbrev pub take_missing : Platform → String → List HedgeFill → Action Store ℕ
take_missing platform reason fills = do
  update_state (stop reason)
  take_hedges platform reason fills
  pure (length fills)

unfoldable pub write_hedges : Platform → DiskCalls → String → List HedgeFill → Action Store ℕ
write_hedges platform disk reason [] = pure 0
write_hedges platform disk reason (f ∷ fills) =
    transaction (do count ← take_missing platform reason (f ∷ fills); persist disk; pure count)

-- `project_hedge_fills` of a `JsonStateStore`.
unfoldable pub project_hedge_fills :
    Platform → DiskCalls → Owners → String → List VenueOrder → Action Store ℕ
project_hedge_fills platform disk owners reason orders s =
    if is_empty reason
    then (err value_error, s)
    else elim (check_hedge_projection owners s.state orders) [
      | err e ↦ (err e, s)
      | ok missing ↦ write_hedges platform disk reason missing s
    ]
