-- ===== src/Hub/Session.antt =====
-- pkg/server/handler/watcher.go: a watch, over chunks or a websocket. The storage and the subscriber,
-- which others change meanwhile, are arguments at each moment that the watch uses them; so is what
-- comes from its channel.
use ote_stack.Prelude.{
  String, ◌≡◌, Bool, Option, none, some, List, [], ◌∷◌, ◌++◌, Result, ok, if◌then◌else◌, ◌==◌,
  eq_iff, eq_refl, arith, Option-cases, inl, inr,
}
use ote_stack.Maps.{lookup, insert, erase, lookup-insert, lookup-erase}
use ote_stack.Message.{Bytes}
use ote_stack.Syncer.{SyncObject, WatchEvent, added, Subscriber, Store, add_watcher, delete_watcher}
use ote_stack.Hub.Resource.{ResourceKind, Fields, get_init_watch_event, check_is_need_to_watch}

-- The parameters of a watch, and its channel.
pub record Watch (Channel : Type 0) : Type 0 where
  pub watched_kind : ResourceKind
  pub selected : String
  pub in_namespace : String
  pub with_name : String
  pub channel : Channel

-- What a turn of the loop finds: an event, which a websocket may fail to take, or the end of the
-- connection, which only the watch over chunks is told of.
pub data Turn : Type 0 where
  event_sent event_refused : WatchEvent → Turn
  hung_up : Turn

module _ (fields : Fields SyncObject) (marshal : WatchEvent → Option Bytes) where
  -- An event whose JSON form cannot be made is left out.
  line : WatchEvent → List Bytes → List Bytes
  line event later = elim (marshal event) [ none ↦ later | some data' ↦ data' ∷ later ]

  -- The loop over the initial events
  unfoldable pub initial_lines : List SyncObject → List Bytes
  unfolding line
  initial_lines [] = []
  initial_lines (o ∷ objects) = line (record { action = added; object = o }) (initial_lines objects)

  module _ {Channel : Type 0} (w : Watch Channel) where
    -- Does the loop write the event?
    abbrev pub needed : WatchEvent → Bool
    needed event =
        check_is_need_to_watch fields w.watched_kind.obj_type w.selected w.in_namespace w.with_name
          event.object

    -- The loop of `doChunkWatch`, whose writes are not checked.
    unfoldable pub chunk_lines : List Turn → List Bytes
    unfolding line
    chunk_lines [] = []
    chunk_lines (hung_up ∷ turns) = []
    chunk_lines (event_sent event ∷ turns) =
        let later = chunk_lines turns in if needed event then line event later else later
    chunk_lines (event_refused event ∷ turns) =
        let later = chunk_lines turns in if needed event then line event later else later

    -- The loop of `doWebsocketWatch`, up to the first send that fails; the lines that are tried.
    unfoldable pub websocket_lines : List Turn → List Bytes
    unfolding line
    websocket_lines [] = []
    websocket_lines (hung_up ∷ turns) = websocket_lines turns
    websocket_lines (event_sent event ∷ turns) =
        let later = websocket_lines turns in if needed event then line event later else later
    websocket_lines (event_refused event ∷ turns) =
        let later = websocket_lines turns in
        if needed event
        then elim (marshal event) [ none ↦ later | some data' ↦ data' ∷ [] ]
        else later

    -- `doChunkWatch`, with a writer that can flush: the lines, the subscriber after `Add`, and after
    -- `Delete`.
    unfoldable pub do_chunk_watch :
        String
        → Store
        → Subscriber Channel
        → List Turn
        → Subscriber Channel
        → List Bytes × Result (Subscriber Channel) × Subscriber Channel
    unfolding initial_lines chunk_lines
    do_chunk_watch unique_id s at_add turns at_delete =
        let t = w.watched_kind.obj_type in
        (
          initial_lines
                (get_init_watch_event fields w.watched_kind w.selected w.in_namespace w.with_name s)
              ++ chunk_lines turns,
          add_watcher t unique_id w.channel at_add,
          delete_watcher t unique_id at_delete,
        )

    -- `doWebsocketWatch`; the key is the decimal form of the time in seconds.
    unfoldable pub do_websocket_watch :
        String
        → Subscriber Channel
        → Store
        → List Turn
        → Subscriber Channel
        → List Bytes × Result (Subscriber Channel) × Subscriber Channel
    unfolding initial_lines websocket_lines
    do_websocket_watch seconds at_add s turns at_delete =
        let t = w.watched_kind.obj_type in
        (
          initial_lines
                (get_init_watch_event fields w.watched_kind w.selected w.in_namespace w.with_name s)
              ++ websocket_lines turns,
          add_watcher t seconds w.channel at_add,
          delete_watcher t seconds at_delete,
        )

module _ {Channel : Type 0} where
  -- The channel that is registered for a resource under a key.
  abbrev pub registered : String → String → Subscriber Channel → Option Channel
  registered t key subscriber = elim (lookup t subscriber) [
    | none ↦ none
    | some watchers ↦ lookup key watchers
  ]

  registered-delete_watcher :
      (t key other : String) (subscriber : Subscriber Channel)
      → registered t other (delete_watcher t key subscriber)
        ≡ (if key == other then none else registered t other subscriber)
  unfolding delete_watcher
  registered-delete_watcher t key other subscriber = elim (Option-cases (lookup t subscriber)) [
    | inl e ↦ ground (arith, e)
    | inr (watchers, e) ↦ ground (
      arith,
      e,
      lookup-insert t t (erase key watchers) subscriber,
      lookup-erase key other watchers,
      eq_refl t,
    )
  ]

  -- A registered channel stays when another is added under whatever key.
  registered-add_watcher :
      (t key other : String) (c a : Channel) (subscriber later : Subscriber Channel)
      → registered t other subscriber ≡ some a
      → add_watcher t key c subscriber ≡ ok later
      → registered t other later ≡ some a
  unfolding add_watcher
  registered-add_watcher t key other c a subscriber later there done =
      elim (Option-cases (lookup t subscriber)) [
        | inl e ↦ absurd (ground (arith, e, there))
        | inr (watchers, e) ↦ elim (Option-cases (lookup key watchers)) [
          | inl e' ↦ ground (
            arith,
            e,
            e',
            there,
            done,
            lookup-insert t t (insert key c watchers) subscriber,
            lookup-insert key other c watchers,
            eq_refl t,
            eq_iff key other,
          )
          | inr (old, e') ↦ ground (arith, e, e', there, done)
        ]
      ]

module _ (fields : Fields SyncObject) (marshal : WatchEvent → Option Bytes) {Channel : Type 0} where
  -- While a watch is registered, a websocket watch of the same resource begins, and ends with nothing
  -- done between by others: the first is still registered if its key is another, as of another
  -- second, and not if both began in the same second.
  pub second_websocket_watch :
      (w : Watch Channel) (first seconds : String) (a : Channel) (s : Store) (turns : List Turn)
      (subscriber later : Subscriber Channel)
      → registered w.watched_kind.obj_type first subscriber ≡ some a
      → (do_websocket_watch fields marshal w seconds subscriber s turns later).1 ≡ ok later
      → registered w.watched_kind.obj_type first
          (do_websocket_watch fields marshal w seconds subscriber s turns later).2
        ≡ (if seconds == first then none else some a)
  unfolding do_websocket_watch
  second_websocket_watch w first seconds a s turns subscriber later there done =
      let kept =
        registered-add_watcher w.watched_kind.obj_type seconds first w.channel a subscriber later
          there done in
      ground (arith, kept, registered-delete_watcher w.watched_kind.obj_type seconds first later)
