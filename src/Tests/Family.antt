-- ===== src/Tests/Family.antt =====
-- Two Events that are each other's parents.
use syntrix_dr.Prelude.{ℕ, ◌≡◌, refl, some, List, [], ◌∷◌}
use syntrix_dr.Db.{Session, planned, UniqueIds, get_row}
use syntrix_dr.Events.Descendants.{
  list_descendant_event_ids, Found, list_descendant_event_ids-Found,
}
use syntrix_dr.Tests.Samples.{initial}
use syntrix_dr.Tests.Events.{event}

abbrev ring : Session
ring = record initial {
  events =
      record (event planned) { parent_dr_event_id = some 6 }
      ∷ record (event planned) { id = 6; parent_dr_event_id = some 5 }
      ∷ [];
}

ring-found : list_descendant_event_ids ring 5 ≡ some (5 ∷ 6 ∷ [])
unfolding list_descendant_event_ids
ring-found = refl

list_descendant_event_ids-Found_example :
    (ids : List ℕ) × (list_descendant_event_ids ring 5 ≡ some ids) × Found ring.events 5 ids
unfolding UniqueIds get_row
list_descendant_event_ids-Found_example = list_descendant_event_ids-Found ring 5 (refl, (refl, tt))
