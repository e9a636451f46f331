-- ===== src/Services/Inventory.antt =====
-- services/inventory-service: the models, the in-memory repository and the service over it. Times are
-- arguments; metrics, logs and spans are left out. The cache holds items: a value that was written
-- as JSON is read back as it was. Whether Redis answers is an argument of each call that asks it.
pub mod Stock
pub mod Requests
pub mod Effects
pub mod Caching
mod Examples
use summer_project.Prelude.{
  ℕ, Bool, true, false, if◌then◌else◌, Option, none, some, List, [], ◌∷◌, String,
}
use summer_project.Prelude.Int.{ℤ, pos, ◌+ℤ◌, ◌-ℤ◌, ltb_ℤ, leb_ℤ}
use summer_project.Prelude.Text.{str_eq, sprint, show_ℤ}
use summer_project.Prelude.Maps.{Map, lookup, insert, delete}
use summer_project.Shared.AppErrors.{
  AppError, Result, ok, err, with_message, inventory_item_not_found, inventory_unavailable,
  inventory_validation,
}

pub record InventoryItem : Type 0 where
  pub item_id : String
  pub name : String
  pub quantity : ℤ
  pub reserved : ℤ
  pub updated_at : ℤ

abbrev pub Repository : Type 0
Repository = Map InventoryItem

abbrev seeded : ℤ → String → String → ℤ → String × InventoryItem
seeded now id name quantity = (
  id,
  record { item_id = id; name = name; quantity = quantity; reserved = pos 0; updated_at = now },
)

unfoldable pub new_repository : ℤ → Repository
new_repository now =
    seeded now "SKU-001" "Laptop Pro 15\"" (pos 50)
    ∷ seeded now "SKU-002" "Wireless Mouse" (pos 200)
    ∷ seeded now "SKU-003" "USB-C Hub 7-Port" (pos 120)
    ∷ seeded now "SKU-004" "Mechanical Keyboard TKL" (pos 75)
    ∷ seeded now "SKU-005" "4K Monitor 27\"" (pos 30)
    ∷ []

abbrev pub missing : String → AppError
missing id = with_message inventory_item_not_found (sprint ("inventory item not found: " ∷ id ∷ []))

abbrev found : String → Option InventoryItem → Result InventoryItem
found id none = err (missing id)
found id (some item) = ok item

unfoldable pub get : Repository → String → Result InventoryItem
get r id = found id (lookup id r)

abbrev pub available : InventoryItem → ℤ
available item = item.quantity -ℤ item.reserved

abbrev pub insufficient : String → ℤ → InventoryItem → AppError
insufficient id quantity item = with_message inventory_unavailable (
    sprint (
      "insufficient stock for "
      ∷ id
      ∷ ": requested "
      ∷ show_ℤ quantity
      ∷ ", available "
      ∷ show_ℤ (available item)
      ∷ []))

reserve_found : ℤ → Repository → String → ℤ → Option InventoryItem → Repository × Option AppError
reserve_found now r id quantity none = (r, some (missing id))
reserve_found now r id quantity (some item) =
    if ltb_ℤ (available item) quantity then (r, some (insufficient id quantity item)) else (
      insert id (record item { reserved = item.reserved +ℤ quantity; updated_at = now }) r,
      none,
    )

-- The repository after the call, and the error if it is refused.
unfoldable pub reserve : ℤ → Repository → String → ℤ → Repository × Option AppError
unfolding reserve_found
reserve now r id quantity = reserve_found now r id quantity (lookup id r)

-- No more is released than is reserved.
abbrev pub releasable : ℤ → InventoryItem → ℤ
releasable quantity item = if ltb_ℤ item.reserved quantity then item.reserved else quantity

release_found : ℤ → Repository → String → ℤ → Option InventoryItem → Repository × Option AppError
release_found now r id quantity none = (r, some (missing id))
release_found now r id quantity (some item) = (
  insert id (record item { reserved = item.reserved -ℤ releasable quantity item; updated_at = now })
      r,
  none,
)

unfoldable pub release : ℤ → Repository → String → ℤ → Repository × Option AppError
unfolding release_found
release now r id quantity = release_found now r id quantity (lookup id r)

-- The state of the service: its repository, and what Redis holds for it.
pub record Service : Type 0 where
  pub repo : Repository
  pub cache : Map InventoryItem

-- ReserveRequest and ReleaseRequest.
pub record Request : Type 0 where
  pub item_id : String
  pub quantity : ℤ
  pub order_id : String

-- ReserveResponse and ReleaseResponse: the quantity that was asked for, and what is available then.
pub record Response : Type 0 where
  pub item_id : String
  pub order_id : String
  pub moved_qty : ℤ
  pub available_qty : ℤ
  pub at : ℤ

abbrev pub cache_key : String → String
cache_key id = sprint ("cache:inventory:" ∷ id ∷ [])

-- A read of Redis: nothing if it does not answer.
abbrev cached : Bool → String → Map InventoryItem → Option InventoryItem
cached up id cache = if up then lookup (cache_key id) cache else none

abbrev write_back : Bool → String → InventoryItem → Map InventoryItem → Map InventoryItem
write_back up id item cache = if up then insert (cache_key id) item cache else cache

abbrev invalidate : Bool → String → Map InventoryItem → Map InventoryItem
invalidate up id cache = if up then delete (cache_key id) cache else cache

-- What follows the read of the repository: its answer is written to what Redis holds by then.
pub read_repo : Bool → Service → String → Result InventoryItem → Service × Result InventoryItem
read_repo up s id (err e) = (s, err e)
read_repo up s id (ok item) = (record s { cache = write_back up id item s.cache }, ok item)

read_cached : Bool → Service → String → Option InventoryItem → Service × Result InventoryItem
unfolding read_repo
read_cached up s id (some item) = (s, ok item)
read_cached up s id none = read_repo up s id (get s.repo id)

-- The call as it runs when no other call of the service comes between: the source asks Redis, then the
-- repository under its lock, and then writes to Redis, and holds nothing over the three. `get_up` and
-- `set_up` tell whether Redis answers the read and the write.
pub get_item : Bool → Bool → Service → String → Service × Result InventoryItem
unfolding read_cached
get_item get_up set_up s id =
    if str_eq id ""
    then (s, err (with_message inventory_validation "item_id is required"))
    else read_cached set_up s id (cached get_up id s.cache)

-- The tests that both requests share, with the text for a quantity that is not positive.
abbrev pub validate : Request → String → Option AppError
validate q bad_quantity =
    if str_eq q.item_id ""
    then some (with_message inventory_validation "item_id is required")
    else if str_eq q.order_id ""
    then some (with_message inventory_validation "order_id is required")
    else if leb_ℤ q.quantity (pos 0)
    then some (with_message inventory_validation bad_quantity)
    else none

-- After the repository's answer: the item is read again for the response, and the cache invalidated.
respond : ℤ → Bool → Service → Request → Result InventoryItem → Service × Result Response
respond now up s q (err e) = (s, err e)
respond now up s q (ok item) = (
  record s { cache = invalidate up q.item_id s.cache },
  ok (record {
    item_id = q.item_id;
    order_id = q.order_id;
    moved_qty = q.quantity;
    available_qty = available item;
    at = now;
  }),
)

after_move : ℤ → Bool → Service → Request → Repository × Option AppError → Service × Result Response
unfolding respond
after_move now up s q (r, some e) = (record s { repo = r }, err e)
after_move now up s q (r, none) = respond now up (record s { repo = r }) q (get r q.item_id)

checked :
    ℤ
    → Bool
    → Service
    → Request
    → Option AppError
    → Repository × Option AppError
    → Service × Result Response
unfolding after_move
checked now up s q (some e) moved = (s, err e)
checked now up s q none moved = after_move now up s q moved

unfoldable pub reserve_stock : ℤ → Bool → Service → Request → Service × Result Response
unfolding checked
reserve_stock now up s q =
    checked now up s q
      (validate q (sprint ("quantity must be positive, got " ∷ show_ℤ q.quantity ∷ [])))
      (reserve now s.repo q.item_id q.quantity)

unfoldable pub release_stock : ℤ → Bool → Service → Request → Service × Result Response
unfolding checked
release_stock now up s q =
    checked now up s q (validate q "quantity must be positive")
      (release now s.repo q.item_id q.quantity)
