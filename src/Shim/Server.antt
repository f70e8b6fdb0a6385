-- ===== src/Shim/Server.antt =====
-- pkg/clustershim/shimserver.go: the server beside the apiserver of a cluster, with one cluster
-- controller at a time. Whether an upgrade or a write succeeds is a parameter.
use ote_stack.Prelude.{
  refl, Option-cases, inl, inr, ℕ, String, Bool, true, false, Option, none, some, List, [], ◌∷◌,
  Result, ok, err, nil_dereference, ◌≡◌, ap, ◌∙◌, arith,
}
use ote_stack.Maps.{Map}
use ote_stack.Message.{Bytes, MessageHead, ClusterMessage}
use ote_stack.Wire.{Wire}
use ote_stack.Shim.{TaskHandler, Did, shim_do}
use ote_stack.Shim.Client.{message_of}

-- `ShimServer`, with what has gone to `isConnected` and been written to each connection so far, the
-- newest first. A connection is a number.
pub record ShimServer (S : Type 0) : Type 0 where
  pub ccclient : Option ℕ
  pub cluster_name : String
  pub is_connected : List Bool
  pub written : List (ℕ × Bytes)
  pub state : S

-- `NewShimServer`
abbrev pub new_shim_server : {S : Type 0} → S → ShimServer S
new_shim_server s = record {
  ccclient = none;
  cluster_name = "";
  is_connected = [];
  written = [];
  state = s;
}

-- What `do` answers.
pub data Connected : Type 0 where
  already_connected upgrade_failed accepted : Connected

answer : Wire → Option (MessageHead × Bytes) → Option Bytes
answer wire none = none
answer wire (some r) = wire.message.marshal (message_of r)

module _ {S : Type 0} where
  -- `do`, with the start of `connected`
  unfoldable pub accept : String → Option ℕ → ShimServer S → Connected × ShimServer S
  accept name upgrade s = elim s.ccclient [
    | some conn ↦ (already_connected, s)
    | none ↦ elim upgrade [
      | none ↦ (upgrade_failed, record s { cluster_name = name })
      | some conn ↦ (
        accepted,
        record s {
          ccclient = some conn;
          cluster_name = name;
          is_connected = true ∷ s.is_connected;
        },
      )
    ]
  ]

  -- The end of `connected`, when the connection has failed.
  unfoldable pub disconnected : ShimServer S → ShimServer S
  disconnected s = elim s.ccclient [
    | none ↦ s
    | some conn ↦ record s { ccclient = none; is_connected = false ∷ s.is_connected }
  ]

  -- `WriteMessage`, which logs its errors
  unfoldable pub write : Bool → Bytes → ShimServer S → ShimServer S
  write up b s = elim s.ccclient [
    | none ↦ s
    | some conn ↦ (elim up [ true ↦ record s { written = (conn, b) ∷ s.written } | false ↦ s ])
  ]

  -- The connection and what was told of it stay.
  abbrev pub Keeps : ShimServer S → ShimServer S → Type 0
  Keeps s s' = (s'.ccclient ≡ s.ccclient) × (s'.is_connected ≡ s.is_connected)

  module _ (wire : Wire) where
    -- A turn of `writeMessage`, for a message of `sendChan`
    unfoldable pub write_message : Bool → ClusterMessage → ShimServer S → ShimServer S
    unfolding write
    write_message up msg s = elim (wire.message.marshal msg) [ none ↦ s | some b ↦ write up b s ]

    replied : Bool → Did S → ShimServer S → ShimServer S
    unfolding write answer
    replied up did s =
        let s' : ShimServer S = record s { state = did.state } in
        elim (answer wire did.response.0) [ none ↦ s' | some b ↦ write up b s' ]

    -- `handleReadMessage`; a message without a head panics.
    unfoldable pub handle_read_message :
        ℕ → Map (TaskHandler S) → Bool → Bytes → ShimServer S → Result (Unit {0}) × ShimServer S
    unfolding replied
    handle_read_message now handlers up b s = elim (wire.message.unmarshal b) [
      | none ↦ (ok tt, s)
      | some msg ↦ elim msg.head [
        | none ↦ (err nil_dereference, s)
        | some head ↦ (ok tt, replied up (shim_do wire now handlers head msg.body s.state) s)
      ]
    ]

    -- The response of a request goes to the connection.
    pub handle_read_message_replied :
        (now : ℕ) (handlers : Map (TaskHandler S)) (b b' task : Bytes) (head : MessageHead)
        (r : MessageHead × Bytes) (conn : ℕ) (s : ShimServer S)
        → let did = shim_do wire now handlers head task s.state in
          wire.message.unmarshal b ≡ some (record { head = some head; body = task })
          → s.ccclient ≡ some conn
          → did.response.0 ≡ some r
          → wire.message.marshal (message_of r) ≡ some b'
          → handle_read_message now handlers true b s
            ≡ (ok tt, record s { written = (conn, b') ∷ s.written; state = did.state })
    unfolding handle_read_message replied write answer
    handle_read_message_replied now handlers b b' task head r conn s read up said wrote =
        let did = shim_do wire now handlers head task s.state in
        let answered : answer wire did.response.0 ≡ some b' = ap (answer wire) said ∙ wrote in
        rw (read, handle_read_message) (rw (answered, replied) (ground (arith, up)))

    write-Keeps : (up : Bool) (b : Bytes) (s : ShimServer S) → Keeps s (write up b s)
    unfolding write
    write-Keeps up b s = (ground arith, ground arith)

    pub write_message-Keeps :
        (up : Bool) (msg : ClusterMessage) (s : ShimServer S) → Keeps s (write_message up msg s)
    unfolding write_message
    write_message-Keeps up msg s = elim (Option-cases (wire.message.marshal msg)) [
      | inl e ↦ rw (e, write_message) (refl, refl)
      | inr (b, e) ↦ rw (e, write_message) (write-Keeps up b s)
    ]

    replied-Keeps : (up : Bool) (did : Did S) (s : ShimServer S) → Keeps s (replied up did s)
    unfolding replied
    replied-Keeps up did s = elim (Option-cases (answer wire did.response.0)) [
      | inl e ↦ rw (e, replied) (refl, refl)
      | inr (b, e) ↦ rw (e, replied) (write-Keeps up b (record s { state = did.state }))
    ]

    pub handle_read_message-Keeps :
        (now : ℕ) (handlers : Map (TaskHandler S)) (up : Bool) (b : Bytes) (s : ShimServer S)
        → Keeps s (handle_read_message now handlers up b s).1
    unfolding handle_read_message
    handle_read_message-Keeps now handlers up b s = elim (Option-cases (wire.message.unmarshal b)) [
      | inl e ↦ rw (e, handle_read_message) (refl, refl)
      | inr (msg, e) ↦ elim (Option-cases msg.head) [
        | inl e' ↦ rw (e, handle_read_message) (rw e' (refl, refl))
        | inr (head, e') ↦
            rw (e, handle_read_message)
              (rw (e', handle_read_message)
                (replied-Keeps up (shim_do wire now handlers head msg.body s.state) s))
      ]
    ]
