-- ===== src/Http/Pages.antt =====
-- The pages that GET /v1/payments answers with (internal/handler/payment_handler.go).
use mathlib.Core.List.{Perm}
use mathlib.Core.List.Perm
use mkwanja_payment_service.Prelude.{
  ⊤, Bool, Bool-cases, inl, inr, All-map, ◌⊎◌, ◌≤◌, ◌≡◌, refl, false, List, [], ◌∷◌, map, All, take,
  drop, select, is_empty, str_eq, leb, arith,
}
use mkwanja_payment_service.Prelude.Int.{ℤ, pos, negsuc, pos_part, wrap32, ◌≤ℤ◌}
use mkwanja_payment_service.Prelude.Result.{ok}
use mkwanja_payment_service.Db.Models.{Payment}
use mkwanja_payment_service.Db.World.{World, Env}
use mkwanja_payment_service.Db.Action.{query, wrapped}
use mkwanja_payment_service.Db.Payments
use mkwanja_payment_service.Repository.PaymentRepo
use mkwanja_payment_service.Service.Settle
use mkwanja_payment_service.Db.Rows.{insert_row, order_by, page}
use mkwanja_payment_service.Http.Messages.{Request, query_int}
use mkwanja_payment_service.Http.Reply.{Body, reply}
use mkwanja_payment_service.Http.Site.{Site}
use mkwanja_payment_service.Http.Payments.{limit_of, offset_of, payment_item, list_payments}

-- The limit and the offset that the queries run with are in bounds, whatever numbers the request names,
-- those that an int32 does not hold included.
pub limit_of-bounds :
    (r : Request) → (pos 1 ≤ℤ limit_of r) × (limit_of r ≤ℤ pos 100) × (pos 0 ≤ℤ offset_of r)
unfolding limit_of offset_of
limit_of-bounds r = ground arith

page-ok :
    {A : Type 0} (limit offset : ℤ) (rows : List A)
    → (pos 1 ≤ℤ limit)
    → (pos 0 ≤ℤ offset)
    → page limit offset rows ≡ ok (take (pos_part limit) (drop (pos_part offset) rows))
unfolding page
page-ok limit offset rows lo ho = ground arith

-- The newest row first.
abbrev pub IsNewestFirst : List Payment → Type 0
IsNewestFirst [] = ⊤
IsNewestFirst (p ∷ ps) = All (λ (q : Payment). q.created_at ≤ p.created_at) ps × IsNewestFirst ps

abbrev newer : Payment → Payment → Bool
newer p q = leb q.created_at p.created_at

insert_row-Perm : (p : Payment) (ps : List Payment) → Perm (insert_row newer p ps) (p ∷ ps)
unfolding insert_row
insert_row-Perm p [] = Perm.rfl
insert_row-Perm p (q ∷ ps) = elim (Bool-cases (newer p q)) [
  | inl first ↦ rw first Perm.rfl
  | inr later ↦ rw later (Perm.trans (Perm.cons q (insert_row-Perm p ps)) (Perm.swap p q ps))
]

order_by-Perm : (ps : List Payment) → Perm (order_by newer ps) ps
unfolding order_by
order_by-Perm [] = Perm.rfl
order_by-Perm (p ∷ ps) =
    Perm.trans (insert_row-Perm p (order_by newer ps)) (Perm.cons p (order_by-Perm ps))

insert_row-All :
    (P : Payment → Type 0) (p : Payment) (ps : List Payment)
    → P p
    → All P ps
    → All P (insert_row newer p ps)
unfolding insert_row
insert_row-All P p [] h hs = (h, tt)
insert_row-All P p (q ∷ ps) h (hq, hs) = elim (Bool-cases (newer p q)) [
  | inl first ↦ rw first (h, (hq, hs))
  | inr later ↦ rw later (hq, insert_row-All P p ps h hs)
]

insert_row-IsNewestFirst :
    (p : Payment) (ps : List Payment) → IsNewestFirst ps → IsNewestFirst (insert_row newer p ps)
unfolding insert_row
insert_row-IsNewestFirst p [] hs = (tt, tt)
insert_row-IsNewestFirst p (q ∷ ps) (h, hs) = elim (Bool-cases (newer p q)) [
  | inl first ↦
      let le : q.created_at ≤ p.created_at = ground (arith, first) in
      rw first ((le, All-map ps (λ x e. omega (arith, e, le)) h), (h, hs))
  | inr later ↦ rw later (
    insert_row-All (λ (x : Payment). x.created_at ≤ q.created_at) p ps (ground (arith, later)) h,
    insert_row-IsNewestFirst p ps hs,
  )
]

order_by-IsNewestFirst : (ps : List Payment) → IsNewestFirst (order_by newer ps)
unfolding order_by
order_by-IsNewestFirst [] = tt
order_by-IsNewestFirst (p ∷ ps) =
    insert_row-IsNewestFirst p (order_by newer ps) (order_by-IsNewestFirst ps)

-- The number of rows of a page for the number that is asked for: that one, or 20 for one that is too small,
-- or 100 for one that is too large.
abbrev pub IsLimit : ℤ → ℤ → Type 0
IsLimit n limit =
    ((pos 1 ≤ℤ n) × (n ≤ℤ pos 100) × (limit ≡ n))
    ⊎ ((n ≤ℤ pos 0) × (limit ≡ pos 20))
    ⊎ ((pos 101 ≤ℤ n) × (limit ≡ pos 100))

-- The place where a page begins: the one that is asked for, or 0 for a negative one.
abbrev pub IsOffset : ℤ → ℤ → Type 0
IsOffset n offset = ((pos 0 ≤ℤ n) × (offset ≡ n)) ⊎ ((n ≤ℤ negsuc 0) × (offset ≡ pos 0))

limit_of-IsLimit : (r : Request) → IsLimit (wrap32 (query_int r.limit (pos 20))) (limit_of r)
unfolding limit_of
limit_of-IsLimit r = ground arith

offset_of-IsOffset : (r : Request) → IsOffset (wrap32 (query_int r.offset (pos 0))) (offset_of r)
unfolding offset_of
offset_of-IsOffset r = ground arith

module _ (site : Site) (env : Env) (r : Request) (w : World) where
  abbrev pub mine : List Payment
  mine = select (λ (p : Payment). str_eq p.client_id r.client_id) w.payments

  -- A request that names a client is answered with 200 when the statement does not fail, with a page of the
  -- payments of that client, the newest first: as many as the limit says, from the offset on. The limit is the
  -- number that the request asks for (20 when it names none), or 20 for one below 1, or 100 for one above 100;
  -- the offset is the one that it asks for (0 when it names none), or 0 for a negative one; both are read as an
  -- int32, and the answer shows both.
  pub list_payments-page :
      is_empty r.client_id ≡ false
      → env.fails w.tick ≡ false
      → (all : List Payment) × (limit : ℤ) × (offset : ℤ) × Perm all mine
        × IsNewestFirst all
        × IsLimit (wrap32 (query_int r.limit (pos 20))) limit
        × IsOffset (wrap32 (query_int r.offset (pos 0))) offset
        × ((list_payments site env r w).0
            ≡ reply 200 (
                Body.payments
                  (map payment_item (take (pos_part limit) (drop (pos_part offset) all)))
                  limit
                  offset))
  unfolding list_payments Settle.list_payments PaymentRepo.list_payments_by_client
      Payments.list_payments_by_client query wrapped
  list_payments-page named up =
      let bounds = limit_of-bounds r in
      (
        order_by newer mine,
        limit_of r,
        offset_of r,
        order_by-Perm mine,
        order_by-IsNewestFirst mine,
        limit_of-IsLimit r,
        offset_of-IsOffset r,
        rw (named, up, page-ok (limit_of r) (offset_of r) (order_by newer mine) bounds.0 bounds.2)
            refl,
      )
