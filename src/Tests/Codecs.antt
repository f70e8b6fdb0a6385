-- ===== src/Tests/Codecs.antt =====
-- A codec that knows one value, for each of the messages.
use mathlib.Core.HLevel.{Discrete}
use native.Mathlib.Decide.{ℕ_discrete}
use ote_stack.Prelude.{
  ◌≢◌, String, ◌≡◌, refl, ap, sym, Option, none, some, arith, eq_iff, ◌==◌, Bool-cases, inl, inr,
  ◌∷◌, [], if◌then◌else◌, nat_eq,
}
use ote_stack.Message.{
  Bytes, Codec, RoundTrips, ClusterMessage, ClusterRegistry, ControllerTaskResponse,
}
use ote_stack.Maps.{Map}
use ote_stack.Wire.{Wire}

pub String_discrete : Discrete String
String_discrete a b = elim (Bool-cases (a == b)) [
  | inl e ↦ yes ((eq_iff a b).0 e)
  | inr e ↦ no (λ p. ground (arith, eq_iff a b))
]

pub message_discrete : Discrete ClusterMessage
message_discrete = hlevel (ℕ_discrete, String_discrete)

pub registry_discrete : Discrete ClusterRegistry
registry_discrete = hlevel (ℕ_discrete, String_discrete)

pub subtree_discrete : Discrete (Map String)
subtree_discrete = hlevel (ℕ_discrete, String_discrete)

pub response_discrete : Discrete ControllerTaskResponse
response_discrete = hlevel (ℕ_discrete, String_discrete)

some_eq : {A : Type 0} {x y : A} → some x ≡ some y → x ≡ y
some_eq e = cc

module _ {A : Type 0} (same : Discrete A) (value : A) (bytes : Bytes) where
  abbrev pub written : {a : A} → Dec (a ≡ value) → Option Bytes
  written (yes p) = some bytes
  written (no p) = none

  -- It writes the one value as the bytes, and reads any bytes as the one value.
  abbrev pub only : Codec A
  only = record { marshal = λ a. written (same a value); unmarshal = λ b. some value }

  pub only-marshal : only.marshal value ≡ some bytes
  only-marshal = go (same value value)
    where
      go : (d : Dec (value ≡ value)) → written d ≡ some bytes
      go (yes p) = refl
      go (no p) = absurd (p refl)

  pub only-RoundTrips : RoundTrips only
  only-RoundTrips = record { read_back = λ a b e. go a b (same a value) e }
    where
      go : (a : A) (b : Bytes) (d : Dec (a ≡ value)) → written d ≡ some b → some value ≡ some a
      go a b (yes p) e = ap some (sym p)
      go a b (no p) e = cc

module _ {A : Type 0} (same : Discrete A) (other value : A) where
  -- It writes the value as the byte 2 and the other one as the byte 1, and reads them so.
  abbrev pub either_of : Bytes → Option A
  either_of [] = some value
  either_of (x ∷ xs) = if nat_eq x 1 then some other else some value

  abbrev pub bytes_of : {a : A} → Dec (a ≡ value) → Dec (a ≡ other) → Option Bytes
  bytes_of (yes p) d = some (2 ∷ [])
  bytes_of (no p) (yes q) = some (1 ∷ [])
  bytes_of (no p) (no q) = none

  abbrev pub two : Codec A
  two = record { marshal = λ a. bytes_of (same a value) (same a other); unmarshal = either_of }

  pub two-marshal : two.marshal value ≡ some (2 ∷ [])
  two-marshal = go (same value value) (same value other)
    where
      go : (d : Dec (value ≡ value)) (e : Dec (value ≡ other)) → bytes_of d e ≡ some (2 ∷ [])
      go (yes p) e = refl
      go (no p) e = absurd (p refl)

  pub two-marshal_other : other ≢ value → two.marshal other ≡ some (1 ∷ [])
  two-marshal_other ne = go (same other value) (same other other)
    where
      go : (d : Dec (other ≡ value)) (e : Dec (other ≡ other)) → bytes_of d e ≡ some (1 ∷ [])
      go (yes p) e = absurd (ne p)
      go (no p) (yes q) = refl
      go (no p) (no q) = absurd (q refl)

  pub two-RoundTrips : RoundTrips two
  two-RoundTrips = record { read_back = λ a b e. go a b (same a value) (same a other) e }
    where
      go :
          (a : A) (b : Bytes) (d : Dec (a ≡ value)) (d' : Dec (a ≡ other))
          → bytes_of d d' ≡ some b
          → either_of b ≡ some a
      go a b (yes p) d' e = rw (sym (some_eq e)) (ap some (sym p))
      go a b (no p) (yes q) e = rw (sym (some_eq e)) (ap some (sym q))
      go a b (no p) (no q) e = cc

-- A codec that writes and reads nothing.
abbrev pub mute : {A : Type 0} → Codec A
mute = record { marshal = λ a. none; unmarshal = λ b. none }

-- A codec that reads any bytes as the one value.
abbrev pub reads : {A : Type 0} → A → Codec A
reads value = record { marshal = λ a. some (9 ∷ []); unmarshal = λ b. some value }

abbrev pub mute_wire : Wire
mute_wire = record {
  message = mute;
  task = mute;
  multi_task = mute;
  response = mute;
  registry = mute;
  neighbors = mute;
  subtree = mute;
}
