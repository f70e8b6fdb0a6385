-- ===== src/Tests/Parents.antt =====
-- An edge cluster that has lost the parent `p:1`, with the neighbors `q:1` and `r:1`, of which only the
-- second can be reached.
use ote_stack.Prelude.{ℕ, String, ◌≡◌, refl, Bool, true, List, [], ◌∷◌, ◌==◌, arith}
use ote_stack.Maps.{Map, lookup}
use ote_stack.EdgeTunnel.{
  EdgeTunnel, new_edge_tunnel, find, reconnect, Dialled, failed, redirected, clear,
}
use ote_stack.EdgeTunnel.Blacklist.{Sound}
use ote_stack.EdgeTunnel.Found.{attempts, reconnect_connects}

abbrev tunnel : EdgeTunnel
tunnel = record (new_edge_tunnel "s:1") { origin_cloud_addr = "p:1" }

abbrev neighbors : Map String
neighbors = ("q", "q:1") ∷ ("r", "r:1") ∷ []

abbrev reaches : String → Bool
reaches addr = addr == "r:1"

abbrev times : List ℕ
times = 1 ∷ 2 ∷ 3 ∷ 4 ∷ []

reconnect_connects_example : (reconnect (attempts reaches neighbors times tunnel) tunnel).0 ≡ true
unfolding find lookup
reconnect_connects_example =
    reconnect_connects reaches neighbors "r:1" refl refl refl times tunnel refl (ground arith)

abbrev answers : List Dialled
answers = failed neighbors 1 ∷ failed neighbors 2 ∷ redirected "t:1" ∷ failed neighbors 3 ∷ []

clear-Sound : Sound clear
unfolding lookup
clear-Sound = record { once = refl; same = λ a. refl }
