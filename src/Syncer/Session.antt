-- ===== src/Syncer/Session.antt =====
-- The end of cmd/edgehub/app/app.go's start, which starts and stops the syncers by the health of the
-- backends, with `StartSyncer` and `StopSyncer` of pkg/syncer/syncer.go.
use ote_stack.Prelude.{
  ap, ◌∙◌, map, String, Bool, true, false, List, [], ◌∷◌, Option, none, some, Result, ok, err,
  handler_failed, ◌≡◌, refl,
}
use ote_stack.Maps.{Map}
use ote_stack.Message.{Bytes}
use ote_stack.Storage.{Objects, update}
use ote_stack.Syncer.{SyncObject, Store, refresh_storage}

-- `ctx.StopChan`
pub data StopChan : Type 0 where
  unset open_chan closed_chan : StopChan

-- `SyncContext`: the channel, whether the informer factories are set, and the storage.
pub record SyncContext : Type 0 where
  pub stop_chan : StopChan
  pub has_factories : Bool
  pub store : Store

-- What the apiserver does when the syncers start: the indexers once all have synced, and none where
-- a syncer cannot start, or does not sync in time.
abbrev pub Start : Type 0
Start = Option (Map (Map SyncObject))

-- With the remote side an update leaves the caches to the informers.
update-cache :
    (objects : Objects SyncObject) (disk : Bool) (t key : String) (bytes : Bytes) (s : Store)
    → s.remote_enable ≡ true
    → (update objects disk t key bytes s).1.cache ≡ s.cache
unfolding update
update-cache objects true t key bytes s h = rw h refl
update-cache objects false t key bytes s h = rw h refl

module _ (disk : Bool) where
  -- `StartSyncer` after the context is set
  started : Start → SyncContext → Result (Unit {0}) × SyncContext
  started none ctx = (err handler_failed, ctx)
  started (some indexers) ctx =
      (ok tt, record ctx { store = refresh_storage disk indexers ctx.store })

  -- `StartSyncer`, with a client and a storage
  unfoldable pub start_syncer : Start → SyncContext → Result (Unit {0}) × SyncContext
  unfolding started
  start_syncer start ctx =
      started start (record ctx { stop_chan = open_chan; has_factories = true })

  -- A channel that is nil or closed cannot be closed.
  stopped : StopChan → SyncContext → Result (Unit {0}) × SyncContext
  stopped unset ctx = (err handler_failed, ctx)
  stopped closed_chan ctx = (err handler_failed, ctx)
  stopped open_chan ctx = (ok tt, record ctx { stop_chan = closed_chan; has_factories = false })

  -- `StopSyncer`
  unfoldable pub stop_syncer : SyncContext → Result (Unit {0}) × SyncContext
  unfolding stopped
  stop_syncer ctx = stopped ctx.stop_chan ctx

  abbrev with_remote : Bool → SyncContext → SyncContext
  with_remote b ctx = record ctx { store = record (ctx.store) { remote_enable = b } }

  after_start : Result (Unit {0}) × SyncContext → SyncContext
  unfolding stop_syncer
  after_start (ok _, ctx) = ctx
  after_start (err _, ctx) = (stop_syncer ctx).1

  after_stop : Result (Unit {0}) × SyncContext → SyncContext
  after_stop (ok _, ctx) = with_remote false ctx
  after_stop (err _, ctx) = ctx

  -- One turn of the loop in `startEdgehub`, for a change of the backends' health.
  unfoldable pub on_health : Bool → Start → SyncContext → SyncContext
  unfolding after_start after_stop start_syncer
  on_health true start ctx = after_start (start_syncer start (with_remote true ctx))
  on_health false start ctx = after_stop (stop_syncer ctx)

  -- Changes of the health, each with what the apiserver does at a start.
  abbrev pub on_healths : List (Bool × Start) → SyncContext → SyncContext
  on_healths [] ctx = ctx
  on_healths ((healthy, start) ∷ rest) ctx = on_healths rest (on_health healthy start ctx)

  abbrev losses : List Start → List (Bool × Start)
  losses starts = map (λ start. (false, start)) starts

  stop_syncer-closed :
      (ctx : SyncContext)
      → ctx.stop_chan ≡ closed_chan
      → stop_syncer ctx ≡ (err handler_failed, ctx)
  unfolding stop_syncer stopped
  stop_syncer-closed ctx h = ap (λ c. stopped c ctx) h

  -- Nothing happens at a loss once the channel is closed.
  losses-closed :
      (starts : List Start) (ctx : SyncContext)
      → ctx.stop_chan ≡ closed_chan
      → on_healths (losses starts) ctx ≡ ctx
  unfolding on_health stop_syncer after_stop
  losses-closed [] ctx h = refl
  losses-closed (start ∷ starts) ctx h =
      ap (on_healths (losses starts)) (ap after_stop (stop_syncer-closed ctx h))
      ∙ losses-closed starts ctx h

  -- A start that fails leaves the storage with the remote side, and no later loss of the backends
  -- changes that: what is written locally from then on never comes into the caches.
  pub failed_start-remote :
      (ctx : SyncContext) (starts : List Start) (objects : Objects SyncObject)
      (obj_type key : String) (bytes : Bytes)
      → let ctx' = on_healths ((true, none) ∷ losses starts) ctx in
        (ctx'.store.remote_enable ≡ true)
        × ((update objects disk obj_type key bytes ctx'.store).1.cache ≡ ctx'.store.cache)
  unfolding on_health
  failed_start-remote ctx starts objects obj_type key bytes =
      let failed = on_health true none ctx in
      let still = losses-closed starts failed refl in
      (
        ap (λ (c : SyncContext). c.store.remote_enable) still,
        update-cache objects disk obj_type key bytes
            (on_healths ((true, none) ∷ losses starts) ctx).store
            (ap (λ (c : SyncContext). c.store.remote_enable) still),
      )
