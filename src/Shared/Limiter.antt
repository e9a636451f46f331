-- ===== src/Shared/Limiter.antt =====
-- internal/shared/limiter/limiter.go: the token buckets of the clients, by their address. The bucket itself is
-- golang.org/x/time/rate, an argument: a type with a fresh bucket and with Allow. The limiter of a client is
-- a pointer; a request finds it and asks it in one step here. Reading the address off a request and writing
-- the reply are left out.
pub mod Isolation
mod Examples
use summer_project.Prelude.{
  ℕ, ◌*◌, Bool, true, false, if◌then◌else◌, Option, none, some, List, [], ◌∷◌, String, map,
}
use summer_project.Prelude.Int.{ℤ, pos, ◌-ℤ◌, ltb_ℤ}
use summer_project.Prelude.Text.{str_eq}
use summer_project.Prelude.Maps.{Map, lookup, insert, delete}

pub record IpClient (L : Type 0) : Type 0 where
  pub limiter : L
  pub last_seen : ℤ

-- One hour, in nanoseconds.
abbrev pub idle_time : ℤ
idle_time = pos (3600 * 1_000_000_000)

-- What happens to the limiter: a request, with the clock as it is found and as it is asked, and a turn of the
-- cleanup.
pub data Event : Type 0 where
  request : ℤ → ℤ → String → Event
  cleanup : ℤ → Event

module _ {L : Type 0} where
  abbrev pub is_stale : ℤ → IpClient L → Bool
  is_stale now c = ltb_ℤ idle_time (now -ℤ c.last_seen)

  abbrev pub dropped : ℤ → String → Option (IpClient L) → Map (IpClient L) → Map (IpClient L)
  dropped now ip none clients = clients
  dropped now ip (some c) clients = if is_stale now c then delete ip clients else clients

  abbrev pub evict_one : ℤ → String → Map (IpClient L) → Map (IpClient L)
  evict_one now ip clients = dropped now ip (lookup ip clients) clients

  -- The range over the map, which meets each address.
  unfoldable pub evict_each : ℤ → List String → Map (IpClient L) → Map (IpClient L)
  evict_each now [] clients = clients
  evict_each now (ip ∷ ips) clients = evict_each now ips (evict_one now ip clients)

  abbrev pub evict : ℤ → Map (IpClient L) → Map (IpClient L)
  evict now clients = evict_each now (map (λ (ip, c). ip) clients) clients

  -- What a turn of the cleanup leaves of one client.
  abbrev pub fresh_only : ℤ → Option (IpClient L) → Option (IpClient L)
  fresh_only now none = none
  fresh_only now (some c) = if is_stale now c then none else some c

module _ {L : Type 0} (fresh : L) (allow : ℤ → L → L × Bool) where
  abbrev pub found : ℤ → Option (IpClient L) → IpClient L
  found seen none = record { limiter = fresh; last_seen = seen }
  found seen (some c) = record { limiter = c.limiter; last_seen = seen }

  abbrev pub get_limiter : ℤ → String → Map (IpClient L) → IpClient L
  get_limiter seen ip clients = found seen (lookup ip clients)

  abbrev pub asked : ℤ → IpClient L → IpClient L × Bool
  asked now c =
      let (limiter, allowed) = allow now c.limiter in
      (record { limiter = limiter; last_seen = c.last_seen }, allowed)

  abbrev pub limit : ℤ → ℤ → String → Map (IpClient L) → Map (IpClient L) × Bool
  limit seen now ip clients =
      let (c, allowed) = asked now (get_limiter seen ip clients) in (insert ip c clients, allowed)

  -- What the requests of one address are answered in a run, in their order.
  unfoldable pub answers : String → List Event → Map (IpClient L) → List Bool
  answers ip [] clients = []
  answers ip (cleanup now ∷ events) clients = answers ip events (evict now clients)
  answers ip (request seen now other ∷ events) clients =
      let (next, allowed) = limit seen now other clients in
      let rest = answers ip events next in if str_eq other ip then allowed ∷ rest else rest

  -- An address that has the limiter to itself: its client, if it has one, and its own requests.
  unfoldable pub alone : String → List Event → Option (IpClient L) → List Bool
  alone ip [] mine = []
  alone ip (cleanup now ∷ events) mine = alone ip events (fresh_only now mine)
  alone ip (request seen now other ∷ events) mine =
      let (c, allowed) = asked now (found seen mine) in
      let later = alone ip events (some c) in
      let skipped = alone ip events mine in if str_eq other ip then allowed ∷ later else skipped
