-- ===== src/Services/Orders/Totals.antt =====
-- The total of an order is exact as long as it fits in an int64.
use summer_project.Prelude.{
  ℕ, suc, ◌+◌, ◌*◌, ◌^◌, ◌<◌, ◌≡◌, refl, ◌∙◌, ap, Option, none, some, List, [], ◌∷◌, arith, All,
}
use summer_project.Prelude.Int64.{wrap_small}
use summer_project.Prelude.Int.{ℤ, pos, negsuc, ◌+ℤ◌, ◌*ℤ◌, ◌≤ℤ◌, ◌<ℤ◌, pos_part, int_laws}
use summer_project.Shared.AppErrors.{AppError}
use summer_project.Services.Orders.{
  OrderItem, CreateOrderRequest, calculate_total, add_items, items_problem, item_problem, or_else,
  validate_create_request,
}

-- What a valid item has: a positive quantity and a price that is not negative.
abbrev pub Sellable : OrderItem → Type 0
Sellable i = (pos 0 <ℤ i.quantity) × (pos 0 ≤ℤ i.unit_price)

-- The sum of the products as a number, with no bound.
unfoldable pub exact_total : List OrderItem → ℕ
exact_total [] = 0
exact_total (i ∷ rest) = pos_part i.quantity * pos_part i.unit_price + exact_total rest

nonneg_product : (a b : ℤ) → pos 0 ≤ℤ a → pos 0 ≤ℤ b → a *ℤ b ≡ pos (pos_part a * pos_part b)
unfolding ◌*ℤ◌
nonneg_product (pos a) (pos b) h k = ground arith
nonneg_product (negsuc a) b h k = ground arith
nonneg_product (pos a) (negsuc b) h k = ground arith

product_exact :
    (i : OrderItem)
    → Sellable i
    → i.quantity *ℤ i.unit_price ≡ pos (pos_part i.quantity * pos_part i.unit_price)
product_exact i h = nonneg_product i.quantity i.unit_price (ground (arith, h)) h.1

or_else-none : (a b : Option AppError) → or_else a b ≡ none → (a ≡ none) × (b ≡ none)
unfolding or_else
or_else-none none b h = (refl, h)
or_else-none (some e) b h = cc

items_problem-none :
    (n : ℕ) (items : List OrderItem) → items_problem n items ≡ none → All Sellable items
unfolding items_problem
items_problem-none n [] h = tt
items_problem-none n (i ∷ rest) h =
    let both = or_else-none (item_problem n i) (items_problem (suc n) rest) h in
    (ground (arith, both.0), items_problem-none (suc n) rest both.1)

sum_exact : (a b : ℕ) → pos a +ℤ pos b ≡ pos (a + b)
sum_exact a b = omega int_laws

add_items_exact :
    (t : ℕ) (items : List OrderItem)
    → All Sellable items
    → t + exact_total items < 2 ^ 63
    → add_items (pos t) items ≡ pos (t + exact_total items)
unfolding add_items exact_total
add_items_exact t [] v h = ap pos (omega arith)
add_items_exact t (i ∷ rest) v h =
    let p = pos_part i.quantity * pos_part i.unit_price in
    rw
      (
        product_exact i v.0,
        wrap_small p (omega (arith, h)),
        sum_exact t p,
        wrap_small (t + p) (omega (arith, h)),
      )
      (add_items_exact (t + p) rest v.1 (omega (arith, h)) ∙ ap pos (omega arith))

-- The total of a valid request, whose exact value is below 2^63, is that value.
pub calculate_total_exact :
    (q : CreateOrderRequest)
    → validate_create_request q ≡ none
    → exact_total q.items < 2 ^ 63
    → calculate_total q.items ≡ pos (exact_total q.items)
unfolding calculate_total validate_create_request
calculate_total_exact q valid h =
    add_items_exact 0 q.items (items_problem-none 0 q.items (ground (arith, valid)))
      (omega (arith, h))
    ∙ ap pos (omega arith)
