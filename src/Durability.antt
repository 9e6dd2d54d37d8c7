-- ===== src/Durability.antt =====
-- src/py000_nautilus/durability.py: publish a complete temporary file and sync its directory. What
-- each call of the operating system does is an argument: `true` where it succeeds.
use arbi_nautilus.Base.{
  ◌≡◌, ◌↔◌, ◌⊎◌, Bool, true, false, arith, if◌then◌else◌, Result, ok, err, sync_error, io_error,
}

pub record DiskCalls : Type 0 where
  -- `os.name == "posix"`
  pub posix : Bool
  -- the directory, the parent folder and the temporary file up to its `fsync`
  pub writes : Bool
  pub opens : Bool
  pub publishes : Bool
  pub syncs : Bool
  pub closes : Bool

-- The `try` with the `finally` that closes the directory, then the test of the close error.
unfoldable pub publish_and_sync_parent : DiskCalls → Result (Unit {0}) × Bool
publish_and_sync_parent calls =
    if calls.posix
    then (if calls.opens
        then (if calls.publishes
            then (if calls.syncs
                then (if calls.closes then (ok tt, true) else (err sync_error, true))
                else (err sync_error, true))
            else (err io_error, false))
        else (err io_error, false))
    else if calls.publishes
    then (ok tt, true)
    else (err io_error, false)

-- `_persist_payload`: the result, and whether the destination now holds the payload.
unfoldable pub persist_payload : DiskCalls → Result (Unit {0}) × Bool
unfolding publish_and_sync_parent
persist_payload calls =
    if calls.writes then publish_and_sync_parent calls else (err io_error, false)

pub payload_cases :
    (calls : DiskCalls)
    → (persist_payload calls ≡ (ok tt, true))
      ⊎ ((persist_payload calls ≡ (err sync_error, true))
          ⊎ (persist_payload calls ≡ (err io_error, false)))
unfolding persist_payload
payload_cases calls = ground arith

-- A write raises the plain I/O error exactly when the destination does not hold the payload, and
-- where it holds the payload, the publishing call succeeded.
pub published_iff :
    (calls : DiskCalls)
    → (((persist_payload calls).0 ≡ err io_error) ↔ ((persist_payload calls).1 ≡ false))
      × ((persist_payload calls).1 ≡ true → calls.publishes ≡ true)
unfolding persist_payload
published_iff calls = ground arith
