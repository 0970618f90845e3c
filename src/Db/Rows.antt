-- ===== src/Db/Rows.antt =====
-- What the statements share: how a result is ordered and cut into pages.
pub mod Laws
use mkwanja_payment_service.Prelude.{Bool, List, [], ◌∷◌, take, drop, if◌then◌else◌}
use mkwanja_payment_service.Prelude.Int.{ℤ, pos, ltb_ℤ, pos_part}
use mkwanja_payment_service.Prelude.Result.{Result, ok, err, sql, constraint}

module _ {A : Type 0} where
  -- A row before the first one that must not precede it.
  unfoldable pub insert_row : (A → A → Bool) → A → List A → List A
  insert_row before x [] = x ∷ []
  insert_row before x (y ∷ ys) = if before x y then x ∷ y ∷ ys else y ∷ insert_row before x ys

  -- `ORDER BY`: rows that the order does not tell apart keep their place.
  unfoldable pub order_by : (A → A → Bool) → List A → List A
  unfolding insert_row
  order_by before [] = []
  order_by before (x ∷ xs) = insert_row before x (order_by before xs)

  -- `LIMIT $2 OFFSET $3`
  unfoldable pub page : ℤ → ℤ → List A → Result (List A)
  page limit offset rows =
      if ltb_ℤ limit (pos 0)
      then err (sql (constraint "LIMIT must not be negative"))
      else if ltb_ℤ offset (pos 0)
      then err (sql (constraint "OFFSET must not be negative"))
      else ok (take (pos_part limit) (drop (pos_part offset) rows))
