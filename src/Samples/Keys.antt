-- ===== src/Samples/Keys.antt =====
-- The theorems on the key-value service applied at concrete inputs.
use learn_nestjs.Redis
use learn_nestjs.Common.{◌≡◌, refl, false, none, [], ◌∷◌}
use learn_nestjs.Common.Text.{Text, codes}
use learn_nestjs.Redis.Driver.{text}
use learn_nestjs.Redis.{Service, flush_prefix}
use learn_nestjs.Redis.Flush.{flush_prefix_exact}
use learn_nestjs.Samples.Servers.{small_client}
use learn_nestjs.Samples.Models.{runs}

-- Two sessions and a presence, in memory.
abbrev fallen_back : Service (small_client {J = Text})
fallen_back = record {
  connected = false;
  memory = (codes "s:1", text (codes "x")) ∷ (codes "p:1", text (codes "y")) ∷ [];
  remote = [];
}

flush_prefix_exact_example :
    Redis.get small_client (codes "s:1") (flush_prefix small_client (codes "s:") fallen_back) ≡ none
unfolding runs
flush_prefix_exact_example =
    flush_prefix_exact small_client (codes "s:") (codes "s:1") fallen_back refl
