-- ===== src/Services/Inventory/Requests.antt =====
-- Stock is never oversold, whatever requests come to the service.
use summer_project.Prelude.{
  Bool, ◌≡◌, refl, ◌⊎◌, inl, inr, Option, none, some, List, [], ◌∷◌, String, arith, Bool-cases,
}
use summer_project.Prelude.Int.{ℤ, pos, ◌<ℤ◌}
use summer_project.Prelude.Text.{str_eq}
use summer_project.Prelude.Maps.{delete}
use summer_project.Shared.AppErrors.{AppError, Result, ok, err}
use summer_project.Services.Inventory.{
  InventoryItem, Repository, get, Service, Request, get_item, reserve_stock, release_stock,
  validate, checked, after_move, respond, read_repo, read_cached,
}
use summer_project.Services.Inventory.Stock.{IsStocked, reserve-IsStocked, release-IsStocked}

-- A request to the service, with whether Redis answers it; an entry of the cache may expire.
pub data Call : Type 0 where
  gets : Bool → Bool → String → Call
  reserves : ℤ → Bool → Request → Call
  releases : ℤ → Bool → Request → Call
  expires : String → Call

unfoldable pub step : Service → Call → Service
step s (gets get_up set_up id) = (get_item get_up set_up s id).0
step s (reserves now up q) = (reserve_stock now up s q).0
step s (releases now up q) = (release_stock now up s q).0
step s (expires key) = record s { cache = delete key s.cache }

unfoldable pub run : Service → List Call → Service
unfolding step
run s [] = s
run s (c ∷ cs) = run (step s c) cs

validate_positive : (q : Request) (text : String) → validate q text ≡ none → pos 0 <ℤ q.quantity
validate_positive q text h = ground arith

respond_repo :
    (now : ℤ) (up : Bool) (s : Service) (q : Request) (a : Result InventoryItem)
    → (respond now up s q a).0.repo ≡ s.repo
unfolding respond
respond_repo now up s q (ok item) = refl
respond_repo now up s q (err e) = refl

after_move_repo :
    (now : ℤ) (up : Bool) (s : Service) (q : Request) (moved : Repository × Option AppError)
    → (after_move now up s q moved).0.repo ≡ moved.0
unfolding after_move
after_move_repo now up s q (r, some e) = refl
after_move_repo now up s q (r, none) =
    respond_repo now up (record s { repo = r }) q (get r q.item_id)

-- A request changes the repository as its move does, and only if it is valid.
checked_repo :
    (now : ℤ) (up : Bool) (s : Service) (q : Request) (problem : Option AppError)
    (moved : Repository × Option AppError)
    → ((checked now up s q problem moved).0.repo ≡ s.repo)
      ⊎ ((problem ≡ none) × ((checked now up s q problem moved).0.repo ≡ moved.0))
unfolding checked
checked_repo now up s q (some e) moved = inl refl
checked_repo now up s q none moved = inr (refl, after_move_repo now up s q moved)

IsStocked-checked :
    (now : ℤ) (up : Bool) (s : Service) (q : Request) (text : String)
    (moved : Repository × Option AppError)
    → IsStocked s.repo
    → (pos 0 <ℤ q.quantity → IsStocked moved.0)
    → IsStocked (checked now up s q (validate q text) moved).0.repo
IsStocked-checked now up s q text moved v w =
    elim (checked_repo now up s q (validate q text) moved) [
      | inl e ↦ rw e v
      | inr (valid, e) ↦ rw e (w (validate_positive q text valid))
    ]

read_repo_repo :
    (up : Bool) (s : Service) (id : String) (a : Result InventoryItem)
    → (read_repo up s id a).0.repo ≡ s.repo
unfolding read_repo
read_repo_repo up s id (ok item) = refl
read_repo_repo up s id (err e) = refl

read_cached_repo :
    (up : Bool) (s : Service) (id : String) (a : Option InventoryItem)
    → (read_cached up s id a).0.repo ≡ s.repo
unfolding read_cached
read_cached_repo up s id (some item) = refl
read_cached_repo up s id none = read_repo_repo up s id (get s.repo id)

get_item_repo :
    (get_up set_up : Bool) (s : Service) (id : String)
    → (get_item get_up set_up s id).0.repo ≡ s.repo
unfolding get_item
get_item_repo get_up set_up s id = elim (Bool-cases (str_eq id "")) [
  | inl empty ↦ rw empty refl
  | inr named ↦ rw named (read_cached_repo set_up s id _)
]

step-IsStocked : (s : Service) (c : Call) → IsStocked s.repo → IsStocked (step s c).repo
unfolding step reserve_stock release_stock
step-IsStocked s (gets get_up set_up id) v = rw (get_item_repo get_up set_up s id) v
step-IsStocked s (reserves now up q) v =
    IsStocked-checked now up s q _ _ v (λ p. reserve-IsStocked now s.repo q.item_id q.quantity p v)
step-IsStocked s (releases now up q) v =
    IsStocked-checked now up s q _ _ v (λ p. release-IsStocked now s.repo q.item_id q.quantity p v)
step-IsStocked s (expires key) v = v

-- Whatever requests come, valid or not, with Redis there or not, a stocked repository stays stocked:
-- no item is ever reserved beyond its quantity, or below nothing.
pub run-IsStocked : (s : Service) (cs : List Call) → IsStocked s.repo → IsStocked (run s cs).repo
unfolding run
run-IsStocked s [] v = v
run-IsStocked s (c ∷ cs) v = run-IsStocked (step s c) cs (step-IsStocked s c v)
