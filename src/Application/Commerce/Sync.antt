-- ===== src/Application/Commerce/Sync.antt =====
-- `sync_listing`, and the first part of `sync_shipment`, of packages/application/commerce.py.
use saup.Base.{ℕ, Bool, true, false, not, ◌==◌, any, find?, if◌then◌else◌, ◌&&◌}
use saup.Domain.Errors.{
  Result, ok, err, integration, manual_external_shipment_confirmation_required,
  manual_external_listing_confirmation_required,
}
use saup.Store.Db.{Db, Env}
use saup.Store.Keys.{price_sync_failed}
use saup.Store.Rows.{
  system, DesiredState, active, paused, RemoteState, remote_active, remote_paused, unconfirmed,
  Shipment, AuditEvent, Event, local_listing_created, listing_sync_confirmed,
}
use saup.Store.Monad.{M, pure, gets, when, raise_when, commit, ◌>>=◌, ◌>>◌}
use saup.Store.Tables.{fetch, find_order, find_listing, update_listing}
use saup.Application.Common.{audit, review, lock_treasury}
use saup.Application.OrderRules.{pause_listing}
use saup.Application.Commerce.Intake.{was_imported}
use saup.Application.Commerce.Shipping.{shipment_synced}

abbrev is_local_event : Event → Bool
is_local_event local_listing_created = true
is_local_event _ = false

unfoldable pub was_made_locally : ℕ → Db → Bool
was_made_locally i db =
    any (λ (a : AuditEvent). a.entity_id == i && is_local_event a.event) db.audits

-- Whether the marketplace is to be called: not for a revision that is out of date.
unfoldable pub is_current : ℕ → ℕ → M Bool
is_current i revision = do
  listing ← fetch (find_listing i)
  if not (listing.sync_revision == revision) then pure false else (do
    made_here ← gets (was_made_locally i)
    raise_when made_here (integration manual_external_listing_confirmation_required false false)
    pure true)

abbrev is_paused : DesiredState → Bool
is_paused paused = true
is_paused active = false

-- After the marketplace's exception: the listing is paused, if it still has the revision.
unfoldable pub listing_failed : Env → ℕ → ℕ → M (Unit {0})
listing_failed env i revision = do
  lock_treasury
  listing ← fetch (find_listing i)
  when (listing.sync_revision == revision) (do
    update_listing i (λ l. record l { remote_state = unconfirmed })
    when (not (is_paused listing.desired_state)) (pause_listing env i))
  review env price_sync_failed i

abbrev remote_of : Bool → RemoteState
remote_of true = remote_active
remote_of false = remote_paused

-- After the marketplace has taken the listing's state.
unfoldable pub listing_confirmed : ℕ → ℕ → Bool → M (Unit {0})
listing_confirmed i revision is_live = do
  lock_treasury
  listing ← fetch (find_listing i)
  when (listing.sync_revision == revision) (do
    update_listing i (λ l. record l { remote_state = remote_of is_live })
    audit listing_sync_confirmed i system)

-- The exception of the marketplace is raised again when the failure was committed.
unfoldable pub after_listing_call :
    Env → ℕ → ℕ → Bool → Result (Unit {0}) → Db → Result (Unit {0}) × Db
after_listing_call env i revision is_live (ok tt) db =
    commit (listing_confirmed i revision is_live) db
after_listing_call env i revision is_live (err (integration code retryable uncertain)) db =
    let (failed, after) = commit (listing_failed env i revision) db in
    (elim failed [ ok tt ↦ err (integration code retryable uncertain) | err e ↦ err e ], after)
after_listing_call env i revision is_live (err e) db = (err e, db)

unfoldable pub sync_listing : Env → ℕ → ℕ → Bool → Result (Unit {0}) → Db → Result (Unit {0}) × Db
sync_listing env i revision is_live answer db = elim (is_current i revision db) [
  | err e ↦ (err e, db)
  | ok (false, same) ↦ (ok tt, db)
  | ok (true, same) ↦ after_listing_call env i revision is_live answer db
]

-- The shipment of an imported order is confirmed by hand.
unfoldable pub check_sync : ℕ → M (Unit {0})
check_sync i = do
  row ← fetch (λ db. find? (λ (x : Shipment). x.id == i) db.shipments)
  order ← fetch (find_order row.order_id)
  imported ← gets (was_imported order.id)
  raise_when imported (integration manual_external_shipment_confirmation_required false false)

unfoldable pub sync_shipment : ℕ → Result (Unit {0}) → Db → Result (Unit {0}) × Db
sync_shipment i answer db = elim (check_sync i db) [
  | err e ↦ (err e, db)
  | ok (checked, same) ↦ elim answer [
    | err e ↦ (err e, db)
    | ok done ↦ commit (shipment_synced i) db
  ]
]
