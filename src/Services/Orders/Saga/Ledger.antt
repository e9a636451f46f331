-- ===== src/Services/Orders/Saga/Ledger.antt =====
-- What the loops of the saga do to the stock of the inventory service.
use summer_project.Prelude.{
  ℕ, Bool, false, ◌≡◌, refl, sym, ◌∙◌, ap, inl, inr, ◌≢◌, Option, none, some, List, [], ◌∷◌, ◌++◌,
  String, arith, Bool-cases, All, All-append,
}
use summer_project.Prelude.Int.{ℤ, pos, ◌+ℤ◌, eqb_ℤ}
use summer_project.Prelude.Text.{str_eq, eq_iff, sprint, show_ℤ}
use summer_project.Prelude.Maps.{lookup}
use summer_project.Shared.AppErrors.{AppError}
use summer_project.Services.Inventory.{
  InventoryItem, Request, reserve_stock, release_stock, validate,
}
use summer_project.Services.Inventory as Inventory
use summer_project.Services.Inventory.Effects.{
  raised, share, Granted, Denied, reserve_stock_effect, release_stock_effect, present, unraised,
}
use summer_project.Services.Orders.{OrderItem}
use summer_project.Services.Orders.Saga.{Reserved, reserve_items, go_on, release_reserved_items}
use summer_project.Services.Orders.Remote.{answered, PaymentReply, Remote, reserve_failure}
use mathlib.Core.List.{append_assoc, append-nil}
use summer_project.Services.Orders.Saga.Stock.{
  reply_of, request_for, inventory_remote, amount, reserved_at, Held, Base, Holds, amount_nonneg,
  amount-append, amount_self, raised_other, enough_held, lowered, raised_twice, valid_either,
  level_of,
}

module _ (clock : ℤ) (up : Bool) (pays : String → ℤ → String → PaymentReply)
    (base : String → Option ℤ) (order_id : String) where
  abbrev R : Remote Inventory.Service
  R = inventory_remote clock up pays

  -- How the reservations of the saga went on the stock.
  pub record Stocked (before todo : List OrderItem) (got : Reserved R) : Type 0 where
    pub each : All (Held base order_id) got.held
    pub holds : Holds base got.held got.after
    pub all : got.stopped ≡ none → got.held ≡ before ++ todo

  Granted-Held :
      (s : Inventory.Service) (held : List OrderItem) (i : OrderItem)
      → Holds base held s
      → Granted s (request_for order_id i) (reserve_stock clock up s (request_for order_id i))
      → Held base order_id i
  Granted-Held s held i h g =
      let ok_then = valid_either (request_for order_id i) _ "quantity must be positive" g.valid in
      let at =
        level_of (amount i.item_id held) (base i.item_id) g.item.reserved
          ((rw g.there refl) ∙ h i.item_id) in
      record { level = at.0; in_stock = at.1; valid = ok_then.0; positive = ok_then.1 }

  Granted-Holds :
      (s : Inventory.Service) (held : List OrderItem) (i : OrderItem)
      → Holds base held s
      → Granted s (request_for order_id i) (reserve_stock clock up s (request_for order_id i))
      → Holds base (held ++ i ∷ []) (reserve_stock clock up s (request_for order_id i)).0
  Granted-Holds s held i h g id =
      g.reserves id
      ∙ ap (raised (share i.item_id id i.quantity)) (h id)
      ∙ raised_twice (amount id held) (share i.item_id id i.quantity) _ (base id)
          (amount-append id held i)

  refused_text : OrderItem → ℕ → String
  refused_text i status = sprint (
      "inventory reservation failed for item "
      ∷ i.item_id
      ∷ " (HTTP "
      ∷ show_ℤ (pos status)
      ∷ ")"
      ∷ [])

  not_200 : (n : ℕ) → n ≢ 200 → eqb_ℤ (pos n) (pos 200) ≡ false
  not_200 n h = ground arith

  refused_reply :
      (i : OrderItem) (e : AppError)
      → e.http_status ≢ 200
      → (reason : String) × (reserve_failure i (answered (pos e.http_status)) ≡ some reason)
  unfolding refused_text
  refused_reply i e other =
      (refused_text i e.http_status, rw (not_200 e.http_status other, refused_text) refl)

  Granted-reply :
      (s : Inventory.Service) (i : OrderItem)
      → Granted s (request_for order_id i) (reserve_stock clock up s (request_for order_id i))
      → reserve_failure i (R.reserve_call s order_id i).1 ≡ none
  unfolding inventory_remote reply_of
  Granted-reply s i g = rw (g.answer, reply_of) refl

  Denied-reply :
      (s : Inventory.Service) (i : OrderItem)
      → Denied s (reserve_stock clock up s (request_for order_id i))
      → (reason : String) × (reserve_failure i (R.reserve_call s order_id i).1 ≡ some reason)
  unfolding inventory_remote reply_of
  Denied-reply s i d = rw (d.answer, reply_of) (refused_reply i d.error d.status)

  step-Stocked :
      (before : List OrderItem) (i : OrderItem) (rest : List OrderItem) (got : Reserved R)
      → Stocked (before ++ i ∷ []) rest got
      → Stocked before (i ∷ rest) got
  step-Stocked before i rest got v = record {
    each = v.each;
    holds = v.holds;
    all = λ e. v.all e ∙ append_assoc before (i ∷ []) rest;
  }

  pub reserve_items-Stocked :
      (s : Inventory.Service) (before todo : List OrderItem)
      → All (Held base order_id) before
      → Holds base before s
      → let got = reserve_items R order_id s before todo in Stocked before todo got
  unfolding reserve_items inventory_remote reply_of
  reserve_items-Stocked s before [] v h = record {
    each = v;
    holds = h;
    all = λ _. sym (append-nil before);
  }
  reserve_items-Stocked s before (i ∷ rest) v h =
      elim (reserve_stock_effect clock up s (request_for order_id i)) [
        | inl g ↦
            rw (Granted-reply s i g, go_on)
              (step-Stocked before i rest _ (
                reserve_items-Stocked (R.reserve_call s order_id i).0 (before ++ i ∷ []) rest
                  (All-append _ before (i ∷ []) v (Granted-Held s before i h g, tt))
                  (Granted-Holds s before i h g)))
        | inr d ↦
            let told = Denied-reply s i d in
            rw (told.1, go_on)
              (record { each = v; holds = λ id. rw d.unchanged (h id); all = λ e. cc })
      ]

  released-Holds :
      (s : Inventory.Service) (i : OrderItem) (held : List OrderItem)
      → Base base
      → All (Held base order_id) (i ∷ held)
      → Holds base (i ∷ held) s
      → Holds base held (R.release_call s order_id i).0
  unfolding inventory_remote amount
  released-Holds s i held b v h id =
      let (item, there, level) =
        present (v.0.level +ℤ (i.quantity +ℤ amount i.item_id held)) (lookup i.item_id s.repo)
          (h i.item_id ∙ rw (v.0.in_stock, amount_self i held) refl) in
      release_stock_effect clock up s (request_for order_id i) item v.0.valid there
        (enough_held i.quantity (amount i.item_id held) v.0.level item.reserved level
          (b i.item_id v.0.level v.0.in_stock) (amount_nonneg base order_id i.item_id held v.1))
        id
      ∙ elim (Bool-cases (str_eq i.item_id id)) [
        | inl same ↦
            rw (same, ← (eq_iff i.item_id id).0 same, v.0.in_stock)
              (ap some (lowered i.quantity (amount i.item_id held) v.0.level item.reserved level))
        | inr differ ↦ rw differ (h id ∙ raised_other i held id (base id) differ)
      ]

  pub release_reserved_items-Holds :
      (s : Inventory.Service) (held : List OrderItem)
      → Base base
      → All (Held base order_id) held
      → Holds base held s
      → (id : String) → reserved_at (release_reserved_items R order_id s held) id ≡ base id
  unfolding release_reserved_items amount
  release_reserved_items-Holds s [] b v h id = h id ∙ sym (unraised (base id))
  release_reserved_items-Holds s (i ∷ held) b v h id =
      release_reserved_items-Holds (R.release_call s order_id i).0 held b v.1
        (released-Holds s i held b v h) id
