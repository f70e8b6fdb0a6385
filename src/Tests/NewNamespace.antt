-- ===== src/Tests/NewNamespace.antt =====
-- The namespace `team`, sent by the root of the routing table.
use mathlib.Core.HLevel.{Discrete}
use native.Mathlib.Decide.{ℕ_discrete}
use ote_stack.Prelude.{String, ◌≡◌, refl, Bool, ◌||◌, some, [], ◌∷◌, ok, ◌==◌}
use ote_stack.Message.{Codec, ControllerTask, ClusterMessage, controller_task_message_written}
use ote_stack.Namespaces.{
  OteNamespace, ote_namespace, namespace_task, namespace_head, send_namespace_to_cluster,
  namespace_bodies, serialize_namespace_object,
}
use ote_stack.Tests.Codecs.{reads, only, only-marshal, String_discrete}

task_discrete : Discrete ControllerTask
task_discrete = hlevel (ℕ_discrete, String_discrete)

abbrev json : Codec OteNamespace
json = reads (ote_namespace "team")

abbrev task : Codec ControllerTask
task = only task_discrete (namespace_task (9 ∷ [])) (5 ∷ [])

abbrev msg : ClusterMessage
msg = record { head = some namespace_head; body = 5 ∷ [] }

-- An empty pattern matches every name, another one itself.
abbrev matches : String → String → Bool
matches p name = (p == "") || (p == name)

sent : send_namespace_to_cluster json task "team" ≡ ok msg
unfolding send_namespace_to_cluster serialize_namespace_object
sent =
    controller_task_message_written task (namespace_task (9 ∷ [])) (5 ∷ [])
      (only-marshal task_discrete (namespace_task (9 ∷ [])) (5 ∷ []))

-- The namespaces for a new cluster
bodies : namespace_bodies json ("team" ∷ "default" ∷ []) ≡ (9 ∷ []) ∷ (9 ∷ []) ∷ []
unfolding namespace_bodies serialize_namespace_object
bodies = refl
