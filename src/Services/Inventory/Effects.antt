-- ===== src/Services/Inventory/Effects.antt =====
-- What the service's requests do to what is reserved.
use summer_project.Prelude.{
  Bool, false, if◌then◌else◌, ◌≡◌, refl, ◌∙◌, ap, ◌⊎◌, inl, inr, ◌≢◌, Option, none, some, [], ◌∷◌,
  String, arith, Bool-cases, Option-cases,
}
use summer_project.Prelude.Int.{ℤ, pos, ◌+ℤ◌, ◌-ℤ◌, ◌≤ℤ◌, ltb_ℤ, int_laws}
use summer_project.Prelude.Text.{str_eq, eq_iff, eq_refl, sprint, show_ℤ}
use summer_project.Prelude.Maps.{lookup, insert, lookup-insert, lookup-insert_self}
use summer_project.Shared.AppErrors.{AppError, Result, ok, err}
use summer_project.Services.Inventory.{
  InventoryItem, Repository, get, missing, reserve, reserve_found, release, release_found, Service,
  Request, Response, reserve_stock, release_stock, validate, checked, after_move, respond,
}
use summer_project.Services.Inventory.Stock.{reserved_of, reserve_effect}

abbrev pub raised : ℤ → Option ℤ → Option ℤ
raised n none = none
raised n (some z) = some (z +ℤ n)

abbrev pub share : String → String → ℤ → ℤ
share id other quantity = if str_eq id other then quantity else pos 0

abbrev pub bad_quantity : Request → String
bad_quantity q = sprint ("quantity must be positive, got " ∷ show_ℤ q.quantity ∷ [])

-- A valid request that is granted moves its quantity of its item, which is there, and no other.
pub record Granted (s : Service) (q : Request) (result : Service × Result Response) : Type 0 where
  pub item : InventoryItem
  pub there : lookup q.item_id s.repo ≡ some item
  pub valid : validate q (bad_quantity q) ≡ none
  pub response : Response
  pub answer : result.1 ≡ ok response
  pub reserves :
      (other : String)
      → reserved_of (lookup other result.0.repo)
        ≡ raised (share q.item_id other q.quantity) (reserved_of (lookup other s.repo))

-- A request that is refused changes nothing; its error has another status than 200.
pub record Denied (s : Service) (result : Service × Result Response) : Type 0 where
  pub error : AppError
  pub answer : result.1 ≡ err error
  pub status : error.http_status ≢ 200
  pub unchanged : result.0.repo ≡ s.repo

validate_status :
    (q : Request) (text : String) (e : AppError) → validate q text ≡ some e → e.http_status ≢ 200
validate_status q text e h = ground arith

pub unraised : (o : Option ℤ) → o ≡ raised (pos 0) o
unraised none = refl
unraised (some z) = ap some (omega int_laws)

share_effect :
    (id other : String) (quantity : ℤ) (r : Repository) (item : InventoryItem)
    → lookup id r ≡ some item
    → (if str_eq id other then some (item.reserved +ℤ quantity) else reserved_of (lookup other r))
      ≡ raised (share id other quantity) (reserved_of (lookup other r))
share_effect id other quantity r item e = elim (Bool-cases (str_eq id other)) [
  | inl same ↦ rw (same, ← (eq_iff id other).0 same, e) refl
  | inr differ ↦ rw differ (unraised (reserved_of (lookup other r)))
]

-- A move that was made is answered, with the repository as the move left it.
moved_answer :
    (now : ℤ) (up : Bool) (s : Service) (q : Request) (moved : Repository × Option AppError)
    (item : InventoryItem)
    → moved.1 ≡ none
    → lookup q.item_id moved.0 ≡ some item
    → let result = checked now up s q none moved in
      ((response : Response) × (result.1 ≡ ok response)) × (result.0.repo ≡ moved.0)
unfolding checked after_move get
moved_answer now up s q (r, none) item e there = rw (there, respond) ((_, refl), refl)
moved_answer now up s q (r, some problem) item e there = cc

pub present :
    (z : ℤ) (o : Option InventoryItem)
    → reserved_of o ≡ some z
    → (item : InventoryItem) × (o ≡ some item) × (item.reserved ≡ z)
present z (some item) h = (item, refl, ground arith)
present z none h = cc

invalid_Denied :
    (now : ℤ) (up : Bool) (s : Service) (q : Request) (moved : Repository × Option AppError)
    (e : AppError)
    → e.http_status ≢ 200
    → Denied s (checked now up s q (some e) moved)
unfolding checked
invalid_Denied now up s q moved e other = record {
  error = e;
  answer = refl;
  status = other;
  unchanged = refl;
}

refused_Denied :
    (now : ℤ) (up : Bool) (s : Service) (q : Request) (e : AppError)
    → e.http_status ≢ 200
    → Denied s (checked now up s q none (s.repo, some e))
unfolding checked after_move
refused_Denied now up s q e other = record {
  error = e;
  answer = refl;
  status = other;
  unchanged = refl;
}

reserve_absent :
    (now : ℤ) (r : Repository) (id : String) (quantity : ℤ)
    → lookup id r ≡ none
    → reserve now r id quantity ≡ (r, some (missing id))
unfolding reserve
reserve_absent now r id quantity e = rw (e, reserve_found) refl

reserve_stock_moved :
    (now : ℤ) (up : Bool) (s : Service) (q : Request) (item : InventoryItem)
    → lookup q.item_id s.repo ≡ some item
    → validate q (bad_quantity q) ≡ none
    → let result = checked now up s q none (reserve now s.repo q.item_id q.quantity) in
      Granted s q result ⊎ Denied s result
reserve_stock_moved now up s q item e valid =
    elim (reserve_effect now s.repo q.item_id q.quantity item e) [
      | inl (enough, accepted, effect) ↦
          let moved = reserve now s.repo q.item_id q.quantity in
          let held =
            present (item.reserved +ℤ q.quantity) (lookup q.item_id moved.0)
              (effect q.item_id ∙ rw (eq_refl q.item_id) refl) in
          let done = moved_answer now up s q moved held.0 accepted held.1 in
          inl (record {
            item = item;
            there = e;
            valid = valid;
            response = done.0.0;
            answer = done.0.1;
            reserves = λ other.
                rw done.1 (effect other ∙ share_effect q.item_id other q.quantity s.repo item e);
          })
      | inr (short, refused) ↦ rw refused (inr (refused_Denied now up s q _ (λ h. omega arith)))
    ]

-- Every reservation is granted or denied, and the two are told apart by the answer.
pub reserve_stock_effect :
    (now : ℤ) (up : Bool) (s : Service) (q : Request)
    → let result = reserve_stock now up s q in Granted s q result ⊎ Denied s result
unfolding reserve_stock
reserve_stock_effect now up s q = elim (Option-cases (validate q (bad_quantity q))) [
  | inr (e, invalid) ↦ rw invalid (
      inr (
        invalid_Denied now up s q (reserve now s.repo q.item_id q.quantity) e
          (validate_status q (bad_quantity q) e invalid)))
  | inl valid ↦ elim (Option-cases (lookup q.item_id s.repo)) [
    | inl absent ↦
        rw (valid, reserve_absent now s.repo q.item_id q.quantity absent)
          (inr (refused_Denied now up s q _ (λ h. omega arith)))
    | inr (item, e) ↦ rw valid (reserve_stock_moved now up s q item e valid)
  ]
]

not_short : (a b : ℤ) → b ≤ℤ a → ltb_ℤ a b ≡ false
not_short a b h = ground arith

release_held :
    (now : ℤ) (r : Repository) (id : String) (quantity : ℤ) (item : InventoryItem)
    → lookup id r ≡ some item
    → quantity ≤ℤ item.reserved
    → release now r id quantity
      ≡ (insert id (record item { reserved = item.reserved -ℤ quantity; updated_at = now }) r, none)
unfolding release
release_held now r id quantity item e enough =
    rw (e, release_found, not_short item.reserved quantity enough) refl

released_effect :
    (now : ℤ) (up : Bool) (s : Service) (q : Request) (item new : InventoryItem)
    → new.reserved ≡ item.reserved -ℤ q.quantity
    → let result = checked now up s q none (insert q.item_id new s.repo, none) in
      (other : String)
      → reserved_of (lookup other result.0.repo) ≡ (
          if str_eq q.item_id other
          then some (item.reserved -ℤ q.quantity)
          else reserved_of (lookup other s.repo))
released_effect now up s q item new e other =
    let done =
      moved_answer now up s q (insert q.item_id new s.repo, none) new refl
        (lookup-insert_self q.item_id new s.repo) in
    rw done.1 (rw lookup-insert (ground arith))

-- A valid release of no more than is reserved takes its quantity off its item, and of no other.
pub release_stock_effect :
    (now : ℤ) (up : Bool) (s : Service) (q : Request) (item : InventoryItem)
    → validate q "quantity must be positive" ≡ none
    → lookup q.item_id s.repo ≡ some item
    → q.quantity ≤ℤ item.reserved
    → (other : String)
    → reserved_of (lookup other (release_stock now up s q).0.repo) ≡ (
        if str_eq q.item_id other
        then some (item.reserved -ℤ q.quantity)
        else reserved_of (lookup other s.repo))
unfolding release_stock
release_stock_effect now up s q item valid e enough other =
    rw (valid, release_held now s.repo q.item_id q.quantity item e enough)
      (released_effect now up s q item _ refl other)
