-- ===== src/Mitre/Tests.antt =====
-- The techniques of some events.
use ganglion_oob.Prelude.{[], ◌∷◌, ◌≡◌, refl}
use ganglion_oob.Prelude.Dict.{lookup}
use ganglion_oob.Mitre.{technique_ids}

web_shell : technique_ids "process" "web_server_spawned_shell" ≡ "T1505.003" ∷ "T1059" ∷ []
unfolding technique_ids lookup
web_shell = refl

-- A reason of the second map decides for any event type but process.
by_reason : technique_ids "network" "kerberoast" ≡ "T1558.003" ∷ []
unfolding technique_ids lookup
by_reason = refl

-- Persistence with no known reason maps to nothing.
no_reason : technique_ids "persistence" "" ≡ []
unfolding technique_ids lookup
no_reason = refl
