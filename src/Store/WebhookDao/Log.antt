-- ===== src/Store/WebhookDao/Log.antt =====
-- What GetDeliveryByID reads after the statements on deliveries.
use microservice_diagnosis.Prelude.{
  String, Bool, true, false, Option, none, some, ◌&&◌, List, [], ◌∷◌, ◌++◌, find?, any,
  update_where, ◌==◌, ◌≡◌, refl, arith, Bool-cases, inl, inr, ◌||◌, if◌then◌else◌,
}
use microservice_diagnosis.Store.Rows.{Uuid, Time}
use microservice_diagnosis.Store.World.{ok}
use microservice_diagnosis.Store.WebhookDao.{
  WebhookDelivery, has_delivery_id, delivery_row, create_delivery, succeeded, failed,
  update_delivery_success, update_delivery_failure, get_delivery_by_id, scan_webhook_delivery,
}

abbrev changed :
    (WebhookDelivery → WebhookDelivery) → Option WebhookDelivery → Option WebhookDelivery
changed f none = none
changed f (some d) = some (f d)

-- An update of the row of an id, seen through a lookup.
find?-update_where :
    (id j : Uuid) (f : WebhookDelivery → WebhookDelivery) (rows : List WebhookDelivery)
    → ((d : WebhookDelivery) → (f d).id ≡ d.id)
    → find? (has_delivery_id j) (update_where (has_delivery_id id) f rows) ≡ (
        if id == j
        then changed f (find? (has_delivery_id j) rows)
        else find? (has_delivery_id j) rows)
find?-update_where id j f [] k = ground arith
find?-update_where id j f (d ∷ rows) k = ground (arith, find?-update_where id j f rows k, k d)

find?-append_new :
    (d : WebhookDelivery) (rows : List WebhookDelivery)
    → any (has_delivery_id d.id) rows ≡ false
    → find? (has_delivery_id d.id) (rows ++ d ∷ []) ≡ some d
find?-append_new d [] h = ground arith
find?-append_new d (g ∷ rows) h = ground (arith, find?-append_new d rows)

-- A delivery that CreateDelivery has stored is read by its id, with what was filled in.
pub get_delivery_by_id-create_delivery :
    (fails : Bool) (fresh : Uuid) (now : Time) (d : WebhookDelivery) (rows : List WebhookDelivery)
    → (create_delivery fails fresh now d rows).0 ≡ true
    → get_delivery_by_id false
        (delivery_row fresh now d).id
        (create_delivery fails fresh now d rows).1
      ≡ ok (delivery_row fresh now d)
unfolding create_delivery get_delivery_by_id
get_delivery_by_id-create_delivery fails fresh now d rows h =
    let row = delivery_row fresh now d in
    elim (Bool-cases (fails || any (has_delivery_id row.id) rows)) [
      | inl e ↦ ground arith
      | inr e ↦ simp (e, find?-append_new row rows (ground arith)) refl
    ]

-- After UpdateDeliverySuccess has returned no error, the delivery of the id reads SUCCESS, with the
-- time, and every other one as before.
pub get_delivery_by_id-update_delivery_success :
    (id j : Uuid) (now : Time) (rows : List WebhookDelivery)
    → get_delivery_by_id false j (update_delivery_success false id now rows).1 ≡ (
        if id == j
        then scan_webhook_delivery (changed (succeeded now) (find? (has_delivery_id j) rows))
        else get_delivery_by_id false j rows)
unfolding update_delivery_success get_delivery_by_id
get_delivery_by_id-update_delivery_success id j now rows =
    ground (arith, find?-update_where id j (succeeded now) rows (λ d. refl))

-- After UpdateDeliveryFailure has returned no error, the delivery of the id reads FAILED, with the
-- message and one attempt more, and every other one as before; after an error they all read as before.
pub get_delivery_by_id-update_delivery_failure :
    (fails : Bool) (id j : Uuid) (msg : String) (rows : List WebhookDelivery)
    → get_delivery_by_id false j (update_delivery_failure fails id msg rows).1 ≡ (
        if (update_delivery_failure fails id msg rows).0 && id == j
        then scan_webhook_delivery (changed (failed msg) (find? (has_delivery_id j) rows))
        else get_delivery_by_id false j rows)
unfolding update_delivery_failure get_delivery_by_id
get_delivery_by_id-update_delivery_failure fails id j msg rows =
    ground (arith, find?-update_where id j (failed msg) rows (λ d. refl))
