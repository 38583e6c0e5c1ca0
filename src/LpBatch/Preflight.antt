-- ===== src/LpBatch/Preflight.antt =====
-- flex/data/lp_states.py: what `_preflight_lp_transactions` lets through, and that a batch it refuses
-- writes nothing.
use cometa_backend.Base.{
  ℕ, ◌≡◌, sym, ap, ◌≢◌, ◌⊎◌, inl, inr, true, false, Bool-cases, none, Option-cases, List, [], ◌∷◌,
  ◌++◌, ◌==◌, ==_iff, arith, All,
}
use cometa_backend.Base.Exec.{ok, err, Result-cases}
use cometa_backend.Base.Text.{Text, text_lt, text_lt_trans, text_lt_irrefl}
use cometa_backend.LpStore.{LpTransaction, World, same_event}
use cometa_backend.LpBatch.{
  BatchError, foreign_round, find_id, canonicalize, order_key, insert_by_order, sorted_by_order,
  preflight, update_lp_states_with_transactions,
}

-- A transaction of the list.
abbrev pub IsIn : LpTransaction → List LpTransaction → Type 0
IsIn t [] = ⊥
IsIn t (x ∷ xs) = (t ≡ x) ⊎ IsIn t xs

-- In order: no key is below the one before.
abbrev pub IsSorted : List LpTransaction → Type 0
IsSorted [] = Unit
IsSorted (x ∷ []) = Unit
IsSorted (x ∷ y ∷ xs) = (text_lt (order_key y) (order_key x) ≡ false) × IsSorted (y ∷ xs)

text_lt_asym : (a b : Text) → text_lt a b ≡ true → text_lt b a ≡ false
text_lt_asym a b h = ground (arith, h, text_lt_trans a b a h, text_lt_irrefl a)

-- No key of the list's first is below `k`.
abbrev IsAbove : Text → List LpTransaction → Type 0
IsAbove k [] = Unit
IsAbove k (x ∷ xs) = text_lt (order_key x) k ≡ false

IsSorted-cons :
    (x : LpTransaction) (xs : List LpTransaction)
    → IsAbove (order_key x) xs
    → IsSorted xs
    → IsSorted (x ∷ xs)
IsSorted-cons x [] a h = tt
IsSorted-cons x (y ∷ xs) a h = (a, h)

IsSorted-tail :
    (x : LpTransaction) (xs : List LpTransaction)
    → IsSorted (x ∷ xs)
    → IsAbove (order_key x) xs × IsSorted xs
IsSorted-tail x [] h = (tt, tt)
IsSorted-tail x (y ∷ xs) h = h

insert_by_order-IsAbove :
    (k : Text) (t : LpTransaction) (xs : List LpTransaction)
    → text_lt (order_key t) k ≡ false
    → IsAbove k xs
    → IsAbove k (insert_by_order t xs)
unfolding insert_by_order
insert_by_order-IsAbove k t [] h a = h
insert_by_order-IsAbove k t (x ∷ xs) h a = elim (Bool-cases (text_lt (order_key x) (order_key t))) [
  | inl e ↦ rw e a
  | inr e ↦ rw e h
]

insert_by_order-IsSorted :
    (t : LpTransaction) (xs : List LpTransaction) → IsSorted xs → IsSorted (insert_by_order t xs)
unfolding insert_by_order
insert_by_order-IsSorted t [] h = tt
insert_by_order-IsSorted t (x ∷ xs) h =
    let (a, b) = IsSorted-tail x xs h in
    elim (Bool-cases (text_lt (order_key x) (order_key t))) [
      | inl e ↦
          let above =
            insert_by_order-IsAbove (order_key x) t xs (text_lt_asym (order_key x) (order_key t) e)
              a in
          rw e (IsSorted-cons x (insert_by_order t xs) above (insert_by_order-IsSorted t xs b))
      | inr e ↦ rw e (e, h)
    ]

sorted_by_order-IsSorted : (xs : List LpTransaction) → IsSorted (sorted_by_order xs)
unfolding sorted_by_order
sorted_by_order-IsSorted [] = tt
sorted_by_order-IsSorted (x ∷ xs) =
    insert_by_order-IsSorted x (sorted_by_order xs) (sorted_by_order-IsSorted xs)

-- Each transaction of a batch with an event of another round, up to that event.
canonicalize-foreign :
    (round : ℕ) (canonical ts : List LpTransaction) (t : LpTransaction)
    → IsIn t ts
    → t.confirmed_round ≢ round
    → (e : BatchError) × (canonicalize round canonical ts ≡ err e)
unfolding canonicalize
canonicalize-foreign round canonical [] t h n = elim h [ ]
canonicalize-foreign round canonical (x ∷ ts) t (inl e) n =
    (foreign_round, ground (arith, ap (λ z. z.confirmed_round) e, n))
canonicalize-foreign round canonical (x ∷ ts) t (inr h) n =
    let (e, p) = canonicalize-foreign round (canonical ++ x ∷ []) ts t h n in
    let (f, q) = canonicalize-foreign round canonical ts t h n in
    elim (Result-cases (canonicalize round canonical (x ∷ ts))) [
      | inr (g, r) ↦ (g, r)
      | inl (c, r) ↦ ground (arith, p, q, r)
    ]

-- A batch with an event of another round than the expected one is refused as a whole: nothing is
-- written, neither by this event nor by the ones before it.
pub update_lp_states_with_transactions-foreign :
    (fuel round : ℕ) (ts : List LpTransaction) (t : LpTransaction) (w : World)
    → IsIn t ts
    → t.confirmed_round ≢ round
    → (e : BatchError) × (update_lp_states_with_transactions fuel round ts w ≡ (err e, w))
unfolding update_lp_states_with_transactions preflight
update_lp_states_with_transactions-foreign fuel round [] t w h n = elim h [ ]
update_lp_states_with_transactions-foreign fuel round (x ∷ ts) t w h n =
    let (e, p) = canonicalize-foreign round [] (x ∷ ts) t h n in (e, ground (arith, p))

-- What a canonical list is: all events of the round, each with an order.
abbrev pub IsOfRound : ℕ → LpTransaction → Type 0
IsOfRound round t = (t.confirmed_round ≡ round) × (t.event_order ≢ none)

All-append :
    (round : ℕ) (xs : List LpTransaction) (t : LpTransaction)
    → All (IsOfRound round) xs
    → IsOfRound round t
    → All (IsOfRound round) (xs ++ t ∷ [])
All-append round [] t a h = (h, tt)
All-append round (x ∷ xs) t a h = (a.0, All-append round xs t a.1 h)

canonicalize-IsOfRound :
    (round : ℕ) (canonical ts out : List LpTransaction)
    → All (IsOfRound round) canonical
    → canonicalize round canonical ts ≡ ok out
    → All (IsOfRound round) out
unfolding canonicalize
canonicalize-IsOfRound round canonical [] out a h = let e : canonical ≡ out = cc (h) in rw (sym e) a
canonicalize-IsOfRound round canonical (t ∷ ts) out a h =
    let added = canonicalize-IsOfRound round (canonical ++ t ∷ []) ts out in
    let kept = canonicalize-IsOfRound round canonical ts out a in
    elim (Bool-cases (t.confirmed_round == round)) [
      | inr b ↦ ground (arith, h, b)
      | inl b ↦ elim (Option-cases t.event_order) [
        | inl c ↦ ground (arith, h, b, c)
        | inr (o, c) ↦ elim (Option-cases (find_id t.id canonical)) [
          | inl f ↦
              let own : IsOfRound round t =
                ((==_iff t.confirmed_round round).0 b, λ n. cc (c, n)) in
              added (All-append round canonical t a own) (ground (arith, h, b, c, f))
          | inr (e, f) ↦ elim (Bool-cases (same_event e t)) [
            | inl g ↦ kept (ground (arith, h, b, c, f, g))
            | inr g ↦ ground (arith, h, b, c, f, g)
          ]
        ]
      ]
    ]

insert_by_order-IsOfRound :
    (round : ℕ) (t : LpTransaction) (xs : List LpTransaction)
    → IsOfRound round t
    → All (IsOfRound round) xs
    → All (IsOfRound round) (insert_by_order t xs)
unfolding insert_by_order
insert_by_order-IsOfRound round t [] h a = (h, tt)
insert_by_order-IsOfRound round t (x ∷ xs) h a =
    elim (Bool-cases (text_lt (order_key x) (order_key t))) [
      | inl e ↦ rw e (a.0, insert_by_order-IsOfRound round t xs h a.1)
      | inr e ↦ rw e (h, a)
    ]

sorted_by_order-IsOfRound :
    (round : ℕ) (xs : List LpTransaction)
    → All (IsOfRound round) xs
    → All (IsOfRound round) (sorted_by_order xs)
unfolding sorted_by_order
sorted_by_order-IsOfRound round [] a = tt
sorted_by_order-IsOfRound round (x ∷ xs) a =
    insert_by_order-IsOfRound round x (sorted_by_order xs) a.0
      (sorted_by_order-IsOfRound round xs a.1)

-- A batch that is let through comes back in the order of its events, with every event of the expected
-- round and with an order.
pub preflight-IsSorted :
    (round : ℕ) (ts out : List LpTransaction)
    → preflight round ts ≡ ok out
    → IsSorted out × All (IsOfRound round) out
unfolding preflight
preflight-IsSorted round ts out h = elim (Result-cases (canonicalize round [] ts)) [
  | inr (e, p) ↦ ground (arith, h, p)
  | inl (c, p) ↦
      let e : sorted_by_order c ≡ out = ground (arith, h, p) in
      rw (sym e) (
        sorted_by_order-IsSorted c,
        sorted_by_order-IsOfRound round c (canonicalize-IsOfRound round [] ts c tt p),
      )
]
