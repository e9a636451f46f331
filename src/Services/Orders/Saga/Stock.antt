-- ===== src/Services/Orders/Saga/Stock.antt =====
-- The saga on the model of the inventory service, as its handlers answer it: what it reserves, and
-- what its compensation gives back. What the payment service answers is any function of its request.
use summer_project.Prelude.{
  Bool, false, ◌≡◌, refl, ap, Option, none, some, List, [], ◌∷◌, ◌++◌, String, arith, All,
}
use summer_project.Prelude.Int.{ℤ, pos, ◌+ℤ◌, ◌-ℤ◌, ◌≤ℤ◌, ◌<ℤ◌, int_laws, +ℤ_parts}
use summer_project.Prelude.Text.{str_eq, eq_refl}
use summer_project.Prelude.Maps.{lookup}
use summer_project.Shared.AppErrors.{Result, ok, err}
use summer_project.Services.Inventory.{
  InventoryItem, Request, reserve_stock, release_stock, validate,
}
use summer_project.Services.Inventory as Inventory
use summer_project.Services.Inventory.Stock.{reserved_of}
use summer_project.Services.Inventory.Effects.{raised, share}
use summer_project.Services.Orders.{OrderItem}
use summer_project.Services.Orders.Remote.{Reply, answered, PaymentReply, Remote}

-- What the handlers of the inventory service write: 200, or the status of the error.
unfoldable pub reply_of : {A : Type 0} → Result A → Reply
reply_of (ok a) = answered (pos 200)
reply_of (err e) = answered (pos e.http_status)

abbrev pub request_for : String → OrderItem → Request
request_for order_id i = record { item_id = i.item_id; quantity = i.quantity; order_id = order_id }

-- `clock` is the inventory's time of every call, `up` whether its Redis answers.
unfoldable pub inventory_remote :
    ℤ → Bool → (String → ℤ → String → PaymentReply) → Remote Inventory.Service
unfolding reply_of
inventory_remote clock up pays = record {
  reserve_call = λ s id i.
      let result = reserve_stock clock up s (request_for id i) in (result.0, reply_of result.1);
  release_call = λ s id i.
      let result = release_stock clock up s (request_for id i) in (result.0, reply_of result.1);
  pay_call = λ s id amount currency. (s, pays id amount currency);
}

-- How much of an item is in a list of order items.
unfoldable pub amount : String → List OrderItem → ℤ
amount id [] = pos 0
amount id (i ∷ rest) = share i.item_id id i.quantity +ℤ amount id rest

abbrev pub reserved_at : Inventory.Service → String → Option ℤ
reserved_at s id = reserved_of (lookup id s.repo)

-- An order item that a valid request of the order can name, and that was in the stock from the start.
pub record Held (base : String → Option ℤ) (order_id : String) (i : OrderItem) : Type 0 where
  pub level : ℤ
  pub in_stock : base i.item_id ≡ some level
  pub valid : validate (request_for order_id i) "quantity must be positive" ≡ none
  pub positive : pos 0 <ℤ i.quantity

abbrev pub Base : (String → Option ℤ) → Type 0
Base base = (id : String) (z : ℤ) → base id ≡ some z → pos 0 ≤ℤ z

-- The stock has what it had at the base, and the items of the list reserved on top.
abbrev pub Holds : (String → Option ℤ) → List OrderItem → Inventory.Service → Type 0
Holds base held s = (id : String) → reserved_at s id ≡ raised (amount id held) (base id)

pub amount_nonneg :
    (base : String → Option ℤ) (order_id id : String) (held : List OrderItem)
    → All (Held base order_id) held
    → pos 0 ≤ℤ amount id held
unfolding amount
amount_nonneg base order_id id [] v = ground arith
amount_nonneg base order_id id (i ∷ rest) v = ground (
  arith,
  amount_nonneg base order_id id rest v.1,
  v.0.positive,
  +ℤ_parts (share i.item_id id i.quantity) (amount id rest),
)

pub amount-append :
    (id : String) (xs : List OrderItem) (i : OrderItem)
    → amount id (xs ++ i ∷ []) ≡ amount id xs +ℤ share i.item_id id i.quantity
unfolding amount
amount-append id [] i = omega int_laws
amount-append id (x ∷ xs) i = rw (amount-append id xs i) (omega int_laws)

pub amount_self :
    (i : OrderItem) (held : List OrderItem)
    → amount i.item_id (i ∷ held) ≡ i.quantity +ℤ amount i.item_id held
unfolding amount
amount_self i held = rw (eq_refl i.item_id) refl

pub raised_other :
    (i : OrderItem) (held : List OrderItem) (id : String) (o : Option ℤ)
    → str_eq i.item_id id ≡ false
    → raised (amount id (i ∷ held)) o ≡ raised (amount id held) o
unfolding amount
raised_other i held id none differ = refl
raised_other i held id (some z) differ = rw differ (ap some (omega int_laws))

pub enough_held : (q a level r : ℤ) → r ≡ level +ℤ (q +ℤ a) → pos 0 ≤ℤ level → pos 0 ≤ℤ a → q ≤ℤ r
enough_held q a level r e l h = rw e (omega int_laws)

pub lowered : (q a level r : ℤ) → r ≡ level +ℤ (q +ℤ a) → r -ℤ q ≡ level +ℤ a
lowered q a level r e = rw e (omega int_laws)

pub raised_twice : (a b c : ℤ) (o : Option ℤ) → c ≡ a +ℤ b → raised b (raised a o) ≡ raised c o
raised_twice a b c none h = refl
raised_twice a b c (some z) h = ap some (rw h (omega int_laws))

pub valid_either :
    (q : Request) (a b : String)
    → validate q a ≡ none
    → (validate q b ≡ none) × (pos 0 <ℤ q.quantity)
valid_either q a b h = ground arith

pub level_of :
    (n : ℤ) (o : Option ℤ) (z : ℤ)
    → some z ≡ raised n o
    → (level : ℤ) × (o ≡ some level) × (z ≡ level +ℤ n)
level_of n (some level) z h = (level, refl, ground arith)
level_of n none z h = cc
