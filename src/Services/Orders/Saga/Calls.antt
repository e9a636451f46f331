-- ===== src/Services/Orders/Saga/Calls.antt =====
-- The remote calls that the saga's loops make, in their order.
use summer_project.Prelude.{
  ◌≡◌, refl, sym, ◌∙◌, ap, inl, inr, Option, none, some, List, [], ◌∷◌, ◌++◌, map, String, arith,
  Option-cases,
}
use summer_project.Prelude.Int.{ℤ, pos, eq_of_parts}
use summer_project.Services.Orders.{OrderItem}
use summer_project.Services.Orders.Saga.{Reserved, reserve_items, go_on, release_reserved_items}
use summer_project.Services.Orders.Remote.{
  Reply, broken, answered, PaymentReply, Remote, reserve_failure,
}
use mathlib.Core.List.{append_assoc, append-nil}

-- A call of a remote service, and what it answered where the saga reads that.
pub data Event : Type 0 where
  asked : OrderItem → Reply → Event
  released : OrderItem → Event
  paid : ℤ → String → PaymentReply → Event

-- The same services, with a record of the calls.
unfoldable pub recorded : {S : Type 0} → Remote S → Remote (S × List Event)
recorded R = record {
  reserve_call = λ (s, t) id i.
      let result = R.reserve_call s id i in ((result.0, t ++ asked i result.1 ∷ []), result.1);
  release_call = λ (s, t) id i.
      let result = R.release_call s id i in ((result.0, t ++ released i ∷ []), result.1);
  pay_call = λ (s, t) id amount currency.
      let result = R.pay_call s id amount currency in
      ((result.0, t ++ paid amount currency result.1 ∷ []), result.1);
}

abbrev pub accepted : OrderItem → Event
accepted i = asked i (answered (pos 200))

success_reply : (i : OrderItem) (r : Reply) → reserve_failure i r ≡ none → r ≡ answered (pos 200)
success_reply i (broken e) h = cc
success_reply i (answered status) h = ap answered (eq_of_parts status (pos 200) (ground arith))

-- How a run of reservations over `todo` went, that began with the calls t: those before `left` were
-- accepted and are held, and the first of `left` was refused, if any is left.
pub data Ending : List OrderItem → List Event → Option String → Type 0 where
  complete : Ending [] [] none
  refused :
      (i : OrderItem) (left : List OrderItem) (r : Reply) (reason : String)
      → reserve_failure i r ≡ some reason
      → Ending (i ∷ left) (asked i r ∷ []) (some reason)

pub record Reservations {S : Type 0} (R : Remote S) (t : List Event) (before todo : List OrderItem)
    (got : Reserved (recorded R)) : Type 0 where
  pub taken : List OrderItem
  pub left : List OrderItem
  pub last : List Event
  pub split : todo ≡ taken ++ left
  pub holds : got.held ≡ before ++ taken
  pub calls : got.after.1 ≡ t ++ (map accepted taken ++ last)
  pub ending : Ending left last got.stopped

module _ {S : Type 0} (R : Remote S) where
  accept_one :
      (t : List Event) (before : List OrderItem) (i : OrderItem) (rest : List OrderItem)
      (got : Reserved (recorded R))
      → Reservations R (t ++ accepted i ∷ []) (before ++ i ∷ []) rest got
      → Reservations R t before (i ∷ rest) got
  accept_one t before i rest got v = record {
    taken = i ∷ v.taken;
    left = v.left;
    last = v.last;
    split = ap (λ l. i ∷ l) v.split;
    holds = v.holds ∙ append_assoc before (i ∷ []) v.taken;
    calls = v.calls ∙ append_assoc t (accepted i ∷ []) (map accepted v.taken ++ v.last);
    ending = v.ending;
  }

  pub reserve_items-Reservations :
      (id : String) (s : S) (t : List Event) (before todo : List OrderItem)
      → Reservations R t before todo (reserve_items (recorded R) id (s, t) before todo)
  unfolding reserve_items recorded
  reserve_items-Reservations id s t before [] = record {
    taken = [];
    left = [];
    last = [];
    split = refl;
    holds = sym (append-nil before);
    calls = sym (append-nil t);
    ending = complete;
  }
  reserve_items-Reservations id s t before (i ∷ rest) =
      let result = R.reserve_call s id i in
      elim (Option-cases (reserve_failure i result.1)) [
        | inl e ↦
            rw (success_reply i result.1 e, go_on)
              (accept_one t before i rest _ (
                reserve_items-Reservations id result.0 (t ++ accepted i ∷ []) (before ++ i ∷ [])
                  rest))
        | inr (reason, e) ↦
            rw (e, go_on)
              (record {
                taken = [];
                left = i ∷ rest;
                last = asked i result.1 ∷ [];
                split = refl;
                holds = sym (append-nil before);
                calls = refl;
                ending = refused i rest result.1 reason e;
              })
      ]

  pub release_reserved_items_calls :
      (id : String) (s : S) (t : List Event) (held : List OrderItem)
      → (release_reserved_items (recorded R) id (s, t) held).1 ≡ t ++ map released held
  unfolding release_reserved_items recorded
  release_reserved_items_calls id s t [] = sym (append-nil t)
  release_reserved_items_calls id s t (i ∷ held) =
      release_reserved_items_calls id (R.release_call s id i).0 (t ++ released i ∷ []) held
      ∙ append_assoc t (released i ∷ []) (map released held)
