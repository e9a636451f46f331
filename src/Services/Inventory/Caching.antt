-- ===== src/Services/Inventory/Caching.antt =====
-- The cache never answers with an item that the repository no longer holds, if Redis takes each
-- invalidation, and calls do not overlap.
use summer_project.Prelude.{
  Bool, true, false, ◌≡◌, refl, ◌∙◌, inl, inr, Option, none, some, List, [], ◌∷◌, String, arith,
  Bool-cases, Option-cases, All,
}
use summer_project.Prelude.Int.{ℤ, ltb_ℤ}
use summer_project.Prelude.Text.{str_eq, eq_iff, append_cancel_left}
use summer_project.Prelude.Maps.{
  lookup, insert, delete, lookup-insert, lookup-insert_self, lookup-delete,
}
use summer_project.Shared.AppErrors.{AppError, Result, ok, err}
use summer_project.Services.Inventory.{
  InventoryItem, Repository, get, found, available, reserve, reserve_found, release, release_found,
  Service, Request, cache_key, cached, get_item, reserve_stock, release_stock, checked, after_move,
  respond, read_repo, read_cached,
}
use summer_project.Services.Inventory.Requests.{Call, gets, reserves, releases, expires, step, run}

abbrev pub IsCoherent : Service → Type 0
IsCoherent s =
    (id : String) (item : InventoryItem)
    → lookup (cache_key id) s.cache ≡ some item
    → lookup id s.repo ≡ some item

cache_key_inj : (a b : String) → cache_key a ≡ cache_key b → a ≡ b
cache_key_inj a b e = append_cancel_left "cache:inventory:" a b e

-- A move of stock leaves the other items alone; if it is refused it leaves all alone, and else its
-- item is there afterwards.
record Moves (r : Repository) (id : String) (moved : Repository × Option AppError) : Type 0 where
  others : (other : String) → str_eq id other ≡ false → lookup other moved.0 ≡ lookup other r
  refused : (e : AppError) → moved.1 ≡ some e → moved.0 ≡ r
  present : moved.1 ≡ none → (item : InventoryItem) × (lookup id moved.0 ≡ some item)

insert-Moves :
    (r : Repository) (id : String) (item : InventoryItem) → Moves r id (insert id item r, none)
insert-Moves r id item = record {
  others = λ other differ. rw (lookup-insert, differ) refl;
  refused = λ e h. cc;
  present = λ _. (item, lookup-insert_self id item r);
}

unmoved : (r : Repository) (id : String) (e : AppError) → Moves r id (r, some e)
unmoved r id e = record { others = λ other _. refl; refused = λ _ _. refl; present = λ h. cc }

reserve-Moves :
    (now : ℤ) (r : Repository) (id : String) (quantity : ℤ) → Moves r id (reserve now r id quantity)
unfolding reserve
reserve-Moves now r id quantity = elim (Option-cases (lookup id r)) [
  | inl e ↦ rw (e, reserve_found) (unmoved r id _)
  | inr (item, e) ↦ elim (Bool-cases (ltb_ℤ (available item) quantity)) [
    | inl short ↦ rw (e, reserve_found, short) (unmoved r id _)
    | inr enough ↦ rw (e, reserve_found, enough) (insert-Moves r id _)
  ]
]

release-Moves :
    (now : ℤ) (r : Repository) (id : String) (quantity : ℤ) → Moves r id (release now r id quantity)
unfolding release
release-Moves now r id quantity = elim (Option-cases (lookup id r)) [
  | inl e ↦ rw (e, release_found) (unmoved r id _)
  | inr (item, e) ↦ rw (e, release_found) (insert-Moves r id _)
]

delete-IsCoherent :
    (s : Service) (key : String)
    → IsCoherent s
    → IsCoherent (record s { cache = delete key s.cache })
delete-IsCoherent s key v id item e = elim (Bool-cases (str_eq key (cache_key id))) [
  | inl same ↦ cc (rw (lookup-delete, same) at e)
  | inr differ ↦ v id item (rw (lookup-delete, differ) at e)
]

insert-IsCoherent :
    (s : Service) (id : String) (item : InventoryItem)
    → lookup id s.repo ≡ some item
    → IsCoherent s
    → IsCoherent (record s { cache = insert (cache_key id) item s.cache })
insert-IsCoherent s id item held v other found e =
    elim (Bool-cases (str_eq (cache_key id) (cache_key other))) [
      | inl same ↦
          let it = cache_key_inj id other ((eq_iff _ _).0 same) in
          rw (← it) (held ∙ (rw (lookup-insert, same) at e))
      | inr differ ↦ v other found (rw (lookup-insert, differ) at e)
    ]

moved-IsCoherent :
    (s : Service) (id : String) (r : Repository)
    → Moves s.repo id (r, none)
    → IsCoherent s
    → IsCoherent (record { repo = r; cache = delete (cache_key id) s.cache })
moved-IsCoherent s id r m v other found e =
    elim (Bool-cases (str_eq (cache_key id) (cache_key other))) [
      | inl same ↦ cc (rw (lookup-delete, same) at e)
      | inr differ ↦
          m.others other (ground (arith, eq_iff id other, eq_iff (cache_key id) (cache_key other)))
          ∙ v other found (rw (lookup-delete, differ) at e)
    ]

checked-IsCoherent :
    (now : ℤ) (s : Service) (q : Request) (problem : Option AppError)
    (moved : Repository × Option AppError)
    → Moves s.repo q.item_id moved
    → IsCoherent s
    → IsCoherent (checked now true s q problem moved).0
unfolding checked after_move respond get
checked-IsCoherent now s q (some e) moved m v = v
checked-IsCoherent now s q none (r, some e) m v = rw (m.refused e refl) v
checked-IsCoherent now s q none (r, none) m v =
    let there = m.present refl in rw (there.1, respond) (moved-IsCoherent s q.item_id r m v)

read_repo-IsCoherent :
    (up : Bool) (s : Service) (id : String)
    → IsCoherent s
    → IsCoherent (read_repo up s id (get s.repo id)).0
unfolding get read_repo
read_repo-IsCoherent up s id v = elim (Option-cases (lookup id s.repo)) [
  | inl e ↦ rw (e, read_repo) v
  | inr (item, e) ↦ elim (Bool-cases up) [
    | inl answers ↦ rw (e, read_repo, answers) (insert-IsCoherent s id item e v)
    | inr silent ↦ rw (e, read_repo, silent) v
  ]
]

read_cached-IsCoherent :
    (up : Bool) (s : Service) (id : String) (a : Option InventoryItem)
    → IsCoherent s
    → IsCoherent (read_cached up s id a).0
unfolding read_cached
read_cached-IsCoherent up s id (some item) v = v
read_cached-IsCoherent up s id none v = read_repo-IsCoherent up s id v

get_item-IsCoherent :
    (get_up set_up : Bool) (s : Service) (id : String)
    → IsCoherent s
    → IsCoherent (get_item get_up set_up s id).0
unfolding get_item
get_item-IsCoherent get_up set_up s id v = elim (Bool-cases (str_eq id "")) [
  | inl empty ↦ rw empty v
  | inr named ↦ rw named (read_cached-IsCoherent set_up s id _ v)
]

-- Redis answers when an invalidation is due.
abbrev pub Invalidates : Call → Type 0
Invalidates (reserves now up q) = up ≡ true
Invalidates (releases now up q) = up ≡ true
Invalidates (gets get_up set_up id) = Unit
Invalidates (expires key) = Unit

step-IsCoherent : (s : Service) (c : Call) → Invalidates c → IsCoherent s → IsCoherent (step s c)
unfolding step reserve_stock release_stock
step-IsCoherent s (gets get_up set_up id) h v = get_item-IsCoherent get_up set_up s id v
step-IsCoherent s (reserves now up q) h v =
    rw h (checked-IsCoherent now s q _ _ (reserve-Moves now s.repo q.item_id q.quantity) v)
step-IsCoherent s (releases now up q) h v =
    rw h (checked-IsCoherent now s q _ _ (release-Moves now s.repo q.item_id q.quantity) v)
step-IsCoherent s (expires key) h v = delete-IsCoherent s key v

run-IsCoherent :
    (s : Service) (cs : List Call) → All Invalidates cs → IsCoherent s → IsCoherent (run s cs)
unfolding run
run-IsCoherent s [] h v = v
run-IsCoherent s (c ∷ cs) h v = run-IsCoherent (step s c) cs h.1 (step-IsCoherent s c h.0 v)

read_repo_answer :
    (up : Bool) (s : Service) (id : String) (a : Result InventoryItem) → (read_repo up s id a).1 ≡ a
unfolding read_repo
read_repo_answer up s id (ok item) = refl
read_repo_answer up s id (err e) = refl

read_cached_answer :
    (up : Bool) (s : Service) (id : String) (a : Option InventoryItem)
    → ((item : InventoryItem) → a ≡ some item → lookup id s.repo ≡ some item)
    → (read_cached up s id a).1 ≡ get s.repo id
unfolding read_cached get
read_cached_answer up s id (some item) h = rw (h item refl) refl
read_cached_answer up s id none h = read_repo_answer up s id (get s.repo id)

cached_held :
    (up : Bool) (s : Service) (id : String)
    → IsCoherent s
    → (item : InventoryItem) → cached up id s.cache ≡ some item
    → lookup id s.repo ≡ some item
cached_held true s id v item e = v id item e
cached_held false s id v item e = cc

get_item_coherent :
    (get_up set_up : Bool) (s : Service) (id : String)
    → IsCoherent s
    → str_eq id "" ≡ false
    → (get_item get_up set_up s id).1 ≡ get s.repo id
unfolding get_item
get_item_coherent get_up set_up s id v named =
    rw named (read_cached_answer set_up s id _ (cached_held get_up s id v))

empty-IsCoherent : (repo : Repository) → IsCoherent (record { repo = repo; cache = [] })
unfolding lookup
empty-IsCoherent repo id item e = cc

-- A service that starts with an empty cache answers a read of a named item with what its repository
-- holds, whether or not Redis answers the read, after any run of requests each of which ends before the
-- next begins and whose invalidations Redis took.
pub run-get_item :
    (get_up set_up : Bool) (repo : Repository) (cs : List Call) (id : String)
    → All Invalidates cs
    → str_eq id "" ≡ false
    → let s = run (record { repo = repo; cache = [] }) cs in
      (get_item get_up set_up s id).1 ≡ get s.repo id
run-get_item get_up set_up repo cs id h named =
    get_item_coherent get_up set_up _ id (run-IsCoherent _ cs h (empty-IsCoherent repo)) named
