-- ===== src/Shared/Limiter/Examples.antt =====
-- A run of internal/shared/limiter/limiter.go over buckets that are never filled again, and the theorem at it.
use summer_project.Prelude.{ℕ, zero, suc, ◌*◌, ◌≡◌, refl, Bool, true, false, List, [], ◌∷◌}
use summer_project.Prelude.Int.{ℤ, pos, ◌-ℤ◌}
use summer_project.Prelude.Maps.{lookup, insert, delete}
use summer_project.Shared.Limiter.{Event, request, cleanup, evict_each, answers}

-- Two tokens.
abbrev burst : ℕ
burst = 2

abbrev take_token : ℤ → ℕ → ℕ × Bool
take_token now zero = (0, false)
take_token now (suc n) = (n, true)

abbrev ask : ℕ → Event
ask n = request (pos n) (pos n) "10.0.0.1"

-- Another address asks in between; the cleanup after two hours forgets both.
abbrev busy : List Event
busy =
    ask 1
    ∷ request (pos 2) (pos 2) "10.0.0.2"
    ∷ ask 3
    ∷ ask 4
    ∷ cleanup (pos (7200 * 1_000_000_000))
    ∷ ask (7201 * 1_000_000_000)
    ∷ []

busy_test : answers burst take_token "10.0.0.1" busy [] ≡ true ∷ true ∷ false ∷ true ∷ []
unfolding answers evict_each lookup insert delete ◌-ℤ◌
busy_test = refl
