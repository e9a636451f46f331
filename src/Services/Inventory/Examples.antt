-- ===== src/Services/Inventory/Examples.antt =====
-- A repository of two items under a few requests, and the theorems at it.
use summer_project.Prelude.{◌≡◌, refl, true, Option, none, some, List, [], ◌∷◌, arith}
use summer_project.Prelude.Int.{ℤ, pos, ◌+ℤ◌, ◌-ℤ◌}
use summer_project.Prelude.Maps.{lookup, insert, delete}
use summer_project.Shared.AppErrors.{Result, ok, err}
use summer_project.Services.Inventory.{
  InventoryItem, Repository, Service, Request, get, reserve, release, get_item, reserve_stock,
  release_stock, read_repo,
}
use summer_project.Services.Inventory.Stock.{IsStocked, reserved_of, release-reserve}
use summer_project.Services.Inventory.Requests.{
  Call, gets, reserves, releases, expires, step, run, run-IsStocked,
}
use summer_project.Services.Inventory.Caching.{run-get_item}

abbrev laptop : InventoryItem
laptop = record {
  item_id = "SKU-001";
  name = "Laptop";
  quantity = pos 5;
  reserved = pos 2;
  updated_at = pos 0;
}

abbrev mouse : InventoryItem
mouse = record {
  item_id = "SKU-002";
  name = "Mouse";
  quantity = pos 9;
  reserved = pos 0;
  updated_at = pos 0;
}

abbrev two_items : Repository
two_items = ("SKU-001", laptop) ∷ ("SKU-002", mouse) ∷ []

release-reserve_example :
    reserved_of (
      lookup "SKU-001"
        (release (pos 2) (reserve (pos 1) two_items "SKU-001" (pos 3)).0 "SKU-001" (pos 3)).0)
    ≡ some (pos 2)
unfolding lookup ◌-ℤ◌
release-reserve_example =
    release-reserve (pos 1) (pos 2) two_items "SKU-001" (pos 3) laptop refl (omega arith)
      (omega arith) "SKU-001"

abbrev asks : ℤ → Request
asks n = record { item_id = "SKU-001"; order_id = "ord_1"; quantity = n }

-- The second reservation is refused, and the last release asks for more than is reserved.
abbrev calls : List Call
calls =
    gets true true "SKU-001"
    ∷ reserves (pos 1) true (asks (pos 3))
    ∷ gets true true "SKU-001"
    ∷ reserves (pos 2) true (asks (pos 1))
    ∷ expires "cache:inventory:SKU-002"
    ∷ releases (pos 3) true (asks (pos 9))
    ∷ []

abbrev service : Service
service = record { repo = two_items; cache = [] }

run_test : reserved_of (lookup "SKU-001" (run service calls).repo) ≡ some (pos 0)
unfolding run step reserve_stock release_stock reserve release lookup ◌-ℤ◌ ◌+ℤ◌ insert get_item get
    delete
run_test = refl

two_items-IsStocked : IsStocked two_items
unfolding lookup
two_items-IsStocked id item e = ground arith

run-IsStocked_example : IsStocked (run service calls).repo
run-IsStocked_example = run-IsStocked service calls two_items-IsStocked

run-get_item_example :
    (get_item true true (run service calls) "SKU-001").1 ≡ get (run service calls).repo "SKU-001"
run-get_item_example =
    run-get_item true true two_items calls "SKU-001" (tt, (refl, (tt, (refl, (tt, (refl, tt))))))
      refl

-- A read that overlaps with a reservation: it writes the item as it was before, which the next read of
-- the service is answered with.
abbrev stale : Service
stale =
    (read_repo true (reserve_stock (pos 1) true service (asks (pos 3))).0 "SKU-001"
      (get two_items "SKU-001")).0

abbrev reserved_in : Result InventoryItem → Option ℤ
reserved_in (ok item) = some item.reserved
reserved_in (err e) = none

stale_test :
    (reserved_in (get_item true true stale "SKU-001").1 ≡ some (pos 2))
    × (reserved_in (get stale.repo "SKU-001") ≡ some (pos 5))
unfolding read_repo reserve_stock reserve lookup ◌-ℤ◌ ◌+ℤ◌ insert get_item get delete
stale_test = (refl, refl)
