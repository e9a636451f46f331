-- ===== src/Shared/Limiter/Isolation.antt =====
-- internal/shared/limiter/limiter.go: the clients do not disturb each other.
use summer_project.Prelude.{List, String, map}
use summer_project.Prelude.Maps.{Map}
use summer_project.Shared.Limiter.{IpClient}

names : {L : Type 0} → Map (IpClient L) → List String
names = map (λ (ip, c). ip)
