-- ===== src/Voyages/Orders/Laws.antt =====
-- Series of calls of api/v1/standing_orders.py by several users.
use mathlib.Core.Path.{subst}
use grand_line.Common.{
  ℕ, String, ◌≡◌, refl, ap, sym, ◌∙◌, false, not, ◌==◌, Option, none, some, List, [], ◌∷◌, ◌++◌,
  inl, inr, if◌then◌else◌, arith, Bool-cases, keep, ==_refl,
}
use grand_line.Voyages.Orders.{
  StandingOrder, OrderFields, OrderResult, is_order, create_order, find_order, order_found,
  get_order, list_for_user, set_fields, replace_order, update_named, update_found, update_order,
  delete_found, delete_order,
}

-- A call of a user; a new order gets the user as its owner.
pub data OrderCall (J : Type 0) : Type 0 where
  create : StandingOrder J → OrderCall J
  get : ℕ → OrderCall J
  list : OrderCall J
  update : ℕ → OrderFields J → OrderCall J
  delete : ℕ → OrderCall J

pub data OrderAnswer (J : Type 0) : Type 0 where
  created : StandingOrder J → OrderAnswer J
  row : OrderResult (StandingOrder J) → OrderAnswer J
  rows : List (StandingOrder J) → OrderAnswer J
  removed : OrderResult Unit → OrderAnswer J

module _ {J : Type 0} where
  abbrev pub owned_by : ℕ → StandingOrder J → StandingOrder J
  owned_by user o = record o { owner = user }

  unfoldable pub order_call :
      ℕ → OrderCall J → List (StandingOrder J) → OrderAnswer J × List (StandingOrder J)
  unfolding create_order get_order list_for_user update_order delete_order
  order_call user (create o) orders =
      (created (owned_by user o), create_order (owned_by user o) orders)
  order_call user (get id) orders = (row (get_order id user orders), orders)
  order_call user list orders = (rows (list_for_user user orders), orders)
  order_call user (update id f) orders =
      let (r, orders') = update_order id user f orders in (row r, orders')
  order_call user (delete id) orders =
      let (r, orders') = delete_order id user orders in (removed r, orders')

  -- A series of calls of any users: the answers that one user gets.
  unfoldable pub order_answers :
      ℕ → List (ℕ × OrderCall J) → List (StandingOrder J) → List (OrderAnswer J)
  unfolding order_call
  order_answers me [] orders = []
  order_answers me ((user, c) ∷ cs) orders =
      let (a, orders') = order_call user c orders in
      let rest = order_answers me cs orders' in if user == me then a ∷ rest else rest

  abbrev pub own_order_calls : ℕ → List (ℕ × OrderCall J) → List (ℕ × OrderCall J)
  own_order_calls me [] = []
  own_order_calls me ((user, c) ∷ cs) =
      let rest = own_order_calls me cs in if user == me then (user, c) ∷ rest else rest

  abbrev pub own_orders : ℕ → List (StandingOrder J) → List (StandingOrder J)
  own_orders me orders = keep (λ (o : StandingOrder J). o.owner == me) orders

  own_orders-append :
      (me : ℕ) (os : List (StandingOrder J)) (o : StandingOrder J)
      → own_orders me (os ++ o ∷ [])
        ≡ (if o.owner == me then own_orders me os ++ o ∷ [] else own_orders me os)
  own_orders-append me [] o = refl
  own_orders-append me (p ∷ os) o = ground (arith, own_orders-append me os o)

  own_orders-own :
      (me : ℕ) (os : List (StandingOrder J)) → own_orders me (own_orders me os) ≡ own_orders me os
  own_orders-own me [] = refl
  own_orders-own me (o ∷ os) = ground (arith, own_orders-own me os)

  find_order-own :
      (id me : ℕ) (os : List (StandingOrder J))
      → find_order id me (own_orders me os) ≡ find_order id me os
  find_order-own id me [] = refl
  find_order-own id me (o ∷ os) = ground (arith, find_order-own id me os)

  find_order-owner :
      (id user : ℕ) (os : List (StandingOrder J)) (o : StandingOrder J)
      → find_order id user os ≡ some o
      → o.owner ≡ user
  find_order-owner id user [] o h = cc
  find_order-owner id user (p ∷ os) o h = ground (arith, find_order-owner id user os o)

  replace_order-own :
      (id user me : ℕ) (new : StandingOrder J) (os : List (StandingOrder J))
      → new.owner ≡ user
      → own_orders me (replace_order id user new os)
        ≡ (if user == me then replace_order id me new (own_orders me os) else own_orders me os)
  replace_order-own id user me new [] h = ground arith
  replace_order-own id user me new (o ∷ os) h =
      ground (arith, replace_order-own id user me new os h)

  keep-own :
      (id user me : ℕ) (os : List (StandingOrder J))
      → own_orders me (keep (λ p. not (is_order id user p)) os) ≡ (
          if user == me
          then keep (λ p. not (is_order id me p)) (own_orders me os)
          else own_orders me os)
  keep-own id user me [] = ground arith
  keep-own id user me (o ∷ os) = ground (arith, keep-own id user me os)

  -- A call of one user against the orders of another, or of the same: what it answers, and what it
  -- leaves of the orders.
  abbrev IsOwn :
      ℕ → ℕ → List (StandingOrder J) → List (StandingOrder J) → List (StandingOrder J) → Type 0
  IsOwn user me orders after own_after =
      own_orders me after ≡ (if user == me then own_after else own_orders me orders)

  update_named-IsOwn :
      (id user me : ℕ) (f : OrderFields J) (name : Option (Option String)) (o : StandingOrder J)
      (orders : List (StandingOrder J))
      → o.owner ≡ user
      → IsOwn user me orders
          (update_named id user f name o orders).1
          (update_named id me f name o (own_orders me orders)).1
  update_named-IsOwn id user me f none o orders h =
      replace_order-own id user me (set_fields f o.name o) orders h
  update_named-IsOwn id user me f (some none) o orders h = ground arith
  update_named-IsOwn id user me f (some (some name)) o orders h =
      replace_order-own id user me (set_fields f name o) orders h

  update_found-IsOwn :
      (id user me : ℕ) (f : OrderFields J) (r : Option (StandingOrder J))
      (orders : List (StandingOrder J))
      → find_order id user orders ≡ r
      → IsOwn user me orders
          (update_found id user f (order_found r) orders).1
          (update_found id me f (order_found r) (own_orders me orders)).1
  update_found-IsOwn id user me f none orders h = ground arith
  update_found-IsOwn id user me f (some o) orders h =
      update_named-IsOwn id user me f f.set_name o orders (find_order-owner id user orders o h)

  delete_found-IsOwn :
      (id user me : ℕ) (r : Option (StandingOrder J)) (orders : List (StandingOrder J))
      → IsOwn user me orders
          (delete_found id user (order_found r) orders).1
          (delete_found id me (order_found r) (own_orders me orders)).1
  delete_found-IsOwn id user me none orders = ground arith
  delete_found-IsOwn id user me (some o) orders = keep-own id user me orders

  update_named-answer :
      (id user : ℕ) (f : OrderFields J) (name : Option (Option String)) (o : StandingOrder J)
      (orders orders' : List (StandingOrder J))
      → (update_named id user f name o orders).0 ≡ (update_named id user f name o orders').0
  update_named-answer id user f none o orders orders' = refl
  update_named-answer id user f (some none) o orders orders' = refl
  update_named-answer id user f (some (some name)) o orders orders' = refl

  update_found-answer :
      (id user : ℕ) (f : OrderFields J) (r : Option (StandingOrder J))
      (orders orders' : List (StandingOrder J))
      → (update_found id user f (order_found r) orders).0
        ≡ (update_found id user f (order_found r) orders').0
  update_found-answer id user f none orders orders' = refl
  update_found-answer id user f (some o) orders orders' =
      update_named-answer id user f f.set_name o orders orders'

  delete_found-answer :
      (id user : ℕ) (r : Option (StandingOrder J)) (orders orders' : List (StandingOrder J))
      → (delete_found id user (order_found r) orders).0
        ≡ (delete_found id user (order_found r) orders').0
  delete_found-answer id user none orders orders' = refl
  delete_found-answer id user (some o) orders orders' = refl

  -- The calls of another user leave a user's orders.
  order_call-other :
      (user me : ℕ) (c : OrderCall J) (orders : List (StandingOrder J))
      → (user == me) ≡ false
      → own_orders me (order_call user c orders).1 ≡ own_orders me orders
  unfolding order_call create_order get_order list_for_user update_order delete_order
  order_call-other user me (create o) orders h =
      own_orders-append me orders (owned_by user o) ∙ rw h refl
  order_call-other user me (get id) orders h = refl
  order_call-other user me list orders h = refl
  order_call-other user me (update id f) orders h =
      update_found-IsOwn id user me f (find_order id user orders) orders refl ∙ rw h refl
  order_call-other user me (delete id) orders h =
      delete_found-IsOwn id user me (find_order id user orders) orders ∙ rw h refl

  -- A user's own call does to the user's orders what it does to a table of these alone.
  order_call-own :
      (me : ℕ) (c : OrderCall J) (orders : List (StandingOrder J))
      → ((order_call me c orders).0 ≡ (order_call me c (own_orders me orders)).0)
        × (own_orders me (order_call me c orders).1 ≡ (order_call me c (own_orders me orders)).1)
  unfolding order_call create_order get_order list_for_user update_order delete_order
  order_call-own me (create o) orders =
      (refl, own_orders-append me orders (owned_by me o) ∙ rw (==_refl me) refl)
  order_call-own me (get id) orders = (rw (find_order-own id me orders) refl, refl)
  order_call-own me list orders = (rw (own_orders-own me orders) refl, refl)
  order_call-own me (update id f) orders = (
    ap row (
        update_found-answer id me f (find_order id me orders) orders (own_orders me orders)
        ∙ ap (λ r. (update_found id me f (order_found r) (own_orders me orders)).0)
            (sym (find_order-own id me orders))),
    update_found-IsOwn id me me f (find_order id me orders) orders refl
        ∙ rw (==_refl me) (
            ap (λ r. (update_found id me f (order_found r) (own_orders me orders)).1)
              (sym (find_order-own id me orders))),
  )
  order_call-own me (delete id) orders = (
    ap removed (
        delete_found-answer id me (find_order id me orders) orders (own_orders me orders)
        ∙ ap (λ r. (delete_found id me (order_found r) (own_orders me orders)).0)
            (sym (find_order-own id me orders))),
    delete_found-IsOwn id me me (find_order id me orders) orders
        ∙ rw (==_refl me) (
            ap (λ r. (delete_found id me (order_found r) (own_orders me orders)).1)
              (sym (find_order-own id me orders))),
  )

  -- In every series of calls each user gets the answers that the own calls alone get from a table of
  -- the own orders alone: no user reads, changes or deletes an order of another.
  pub order_answers-own :
      (me : ℕ) (cs : List (ℕ × OrderCall J)) (orders : List (StandingOrder J))
      → order_answers me cs orders ≡ order_answers me (own_order_calls me cs) (own_orders me orders)
  unfolding order_answers
  order_answers-own me [] orders = refl
  order_answers-own me ((user, c) ∷ cs) orders =
      let ih = order_answers-own me cs (order_call user c orders).1 in
      elim (Bool-cases (user == me)) [
        | inl h ↦
            let same : user ≡ me = ground arith in
            let (answer, left) = order_call-own user c orders in
            let left' : own_orders me (order_call user c orders).1
                ≡ (order_call user c (own_orders me orders)).1 =
              subst
                (λ k.
                  own_orders k (order_call user c orders).1
                  ≡ (order_call user c (own_orders k orders)).1)
                same left in
            let answer' : (order_call user c orders).0
                ≡ (order_call user c (own_orders me orders)).0 =
              subst
                (λ k. (order_call user c orders).0 ≡ (order_call user c (own_orders k orders)).0)
                same answer in
            rw (h, h, ih, left', answer') refl
        | inr h ↦ rw (h, ih, order_call-other user me c orders h) refl
      ]
