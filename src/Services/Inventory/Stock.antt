-- ===== src/Services/Inventory/Stock.antt =====
-- Stock is never oversold, whatever requests come.
use summer_project.Prelude.{
  false, if◌then◌else◌, ◌≡◌, refl, ap, ◌⊎◌, inl, inr, Option, none, some, String, arith, Bool-cases,
  Option-cases,
}
use summer_project.Prelude.Int.{ℤ, pos, ◌+ℤ◌, ◌-ℤ◌, ◌≤ℤ◌, ◌<ℤ◌, ltb_ℤ, int_laws, +ℤ_parts, -ℤ_parts}
use summer_project.Prelude.Text.{str_eq, eq_iff}
use summer_project.Prelude.Maps.{lookup, insert, lookup-insert, lookup-insert_self}
use summer_project.Services.Inventory.{
  InventoryItem, Repository, available, insufficient, reserve, reserve_found, release,
  release_found, releasable,
}

abbrev pub InRange : InventoryItem → Type 0
InRange item = (pos 0 ≤ℤ item.reserved) × (item.reserved ≤ℤ item.quantity)

-- Of every item no less than nothing and no more than its quantity is reserved.
abbrev pub IsStocked : Repository → Type 0
IsStocked r = (id : String) (item : InventoryItem) → lookup id r ≡ some item → InRange item

insert-IsStocked :
    (r : Repository) (id : String) (item : InventoryItem)
    → InRange item
    → IsStocked r
    → IsStocked (insert id item r)
insert-IsStocked r id item fits v other held e = elim (Bool-cases (str_eq id other)) [
  | inl same ↦ ground (arith, rw (lookup-insert, same) at e)
  | inr differ ↦ v other held (rw (lookup-insert, differ) at e)
]

pub reserve-IsStocked :
    (now : ℤ) (r : Repository) (id : String) (quantity : ℤ)
    → pos 0 <ℤ quantity
    → IsStocked r
    → IsStocked (reserve now r id quantity).0
unfolding reserve
reserve-IsStocked now r id quantity p v = elim (Option-cases (lookup id r)) [
  | inl e ↦ rw (e, reserve_found) v
  | inr (item, e) ↦ elim (Bool-cases (ltb_ℤ (available item) quantity)) [
    | inl short ↦ rw (e, reserve_found, short) v
    | inr enough ↦
        rw (e, reserve_found, enough)
          (insert-IsStocked r id _
            (ground (
              arith,
              v id item e,
              +ℤ_parts item.reserved quantity,
              -ℤ_parts item.quantity item.reserved,
            ))
            v)
  ]
]

pub release-IsStocked :
    (now : ℤ) (r : Repository) (id : String) (quantity : ℤ)
    → pos 0 <ℤ quantity
    → IsStocked r
    → IsStocked (release now r id quantity).0
unfolding release
release-IsStocked now r id quantity p v = elim (Option-cases (lookup id r)) [
  | inl e ↦ rw (e, release_found) v
  | inr (item, e) ↦
      rw (e, release_found)
        (insert-IsStocked r id _
          (ground (arith, v id item e, -ℤ_parts item.reserved (releasable quantity item))) v)
]

-- What a reservation does to what is reserved of any item.
abbrev pub reserved_of : Option InventoryItem → Option ℤ
reserved_of none = none
reserved_of (some item) = some item.reserved

-- A reservation succeeds exactly if the item is there and as many are available; then as many more of
-- it are reserved, and nothing of any other item changes. Else the repository is as it was.
pub reserve_effect :
    (now : ℤ) (r : Repository) (id : String) (quantity : ℤ) (item : InventoryItem)
    → lookup id r ≡ some item
    → let result = reserve now r id quantity in
      ((quantity ≤ℤ available item)
        × (result.1 ≡ none)
        × ((other : String)
            → reserved_of (lookup other result.0) ≡ (
                if str_eq id other
                then some (item.reserved +ℤ quantity)
                else reserved_of (lookup other r))))
      ⊎ ((available item <ℤ quantity) × (result ≡ (r, some (insufficient id quantity item))))
unfolding reserve
reserve_effect now r id quantity item e = elim (Bool-cases (ltb_ℤ (available item) quantity)) [
  | inl short ↦ rw (e, reserve_found, short) (inr (ground arith, refl))
  | inr enough ↦
      rw (e, reserve_found, enough)
        (inl (ground arith, refl, (λ other. rw lookup-insert (ground arith))))
]

enough_false : (a b : ℤ) → b ≤ℤ a → ltb_ℤ a b ≡ false
enough_false a b h = ground arith

restored : (a q : ℤ) → pos 0 ≤ℤ a → a +ℤ q -ℤ (if ltb_ℤ (a +ℤ q) q then a +ℤ q else q) ≡ a
restored a q h = rw (enough_false (a +ℤ q) q (omega (arith, +ℤ_parts a q))) (omega int_laws)

-- Releasing what was reserved gives back what was reserved before, of every item.
pub release-reserve :
    (now later : ℤ) (r : Repository) (id : String) (quantity : ℤ) (item : InventoryItem)
    → lookup id r ≡ some item
    → pos 0 ≤ℤ item.reserved
    → quantity ≤ℤ available item
    → (other : String)
    → reserved_of (lookup other (release later (reserve now r id quantity).0 id quantity).0)
      ≡ reserved_of (lookup other r)
unfolding reserve release
release-reserve now later r id quantity item e p enough other =
    rw (e, reserve_found, enough_false (available item) quantity enough)
      (rw (lookup-insert_self, release_found)
        (rw lookup-insert (
          rw lookup-insert (elim (Bool-cases (str_eq id other)) [
            | inl same ↦ rw same (
                let it = (eq_iff id other).0 same in
                rw (← it, e) (ap some (restored item.reserved quantity p)))
            | inr differ ↦ rw differ refl
          ]))))
