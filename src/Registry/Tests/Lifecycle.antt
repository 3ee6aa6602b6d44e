-- ===== src/Registry/Tests/Lifecycle.antt =====
-- The theorems on the store and on promotions, at tables with the sample registry.
use lingyunzhi_os_backend.Base.{◌+◌, ◌<◌, ◌≡◌, refl, ◌⊎◌, none, some, [], ok, err}
use lingyunzhi_os_backend.ProtoModels.{empty_registry}
use lingyunzhi_os_backend.Registry.Samples.{pump, with_pump, labelled}
use lingyunzhi_os_backend.Registry.Crud.Entities.{Entity, put}
use lingyunzhi_os_backend.Registry.Store.{
  staging, production, Registries, initial, row, write_row, updated, save, load,
}
use lingyunzhi_os_backend.Registry.Store.Locking.{Saves, here, next, save-no_lost_update}
use lingyunzhi_os_backend.Registry.Lifecycle.{
  Await, before_second_load, before_third_load, before_save, before_second_save, promote_among,
  stale_version, undo_unavailable, promote_staging_to_production, undo_promote,
}
use lingyunzhi_os_backend.Registry.Lifecycle.Outcomes.{promoted}
use lingyunzhi_os_backend.Registry.Lifecycle.Interference.{KeepsProduction, promote_among_lem}
use lingyunzhi_os_backend.Registry.Lifecycle.Undo.{undo-promote}
use lingyunzhi_os_backend.Registry.Lifecycle.Reachable.{
  Reach, promote, IsServable, Reach-IsServable,
}
use lingyunzhi_os_backend.Registry.Lifecycle.Reachable
use lingyunzhi_os_backend.Registry.Lifecycle.Labels.{unedited, then_put, undo_refused_after_edits}
use lingyunzhi_os_backend.Registry.Tests.{running}

-- Staging has been saved once, with the pump.
abbrev saved_once : Registries
saved_once = write_row initial staging (updated initial.staging_row 5 with_pump none none)

save_pump : save 5 initial staging with_pump none none none ≡ ok (saved_once, 1)
unfolding running
save_pump = refl

save-no_lost_update_example :
    (((row saved_once staging).version ≡ (row initial staging).version)
      × (row saved_once staging ≡ row initial staging)
      × (save 6 saved_once staging labelled (some (load initial staging).version) none none
          ≡ ok (
            write_row saved_once staging (updated (row initial staging) 6 labelled none none),
            (row initial staging).version + 1,
          )))
    ⊎ (((row initial staging).version < (row saved_once staging).version)
        × (save 6 saved_once staging labelled (some (load initial staging).version) none none
            ≡ err (record {
              env = staging;
              expected_version = (row initial staging).version;
              current_version = (row saved_once staging).version;
            })))
save-no_lost_update_example =
    save-no_lost_update 6 staging labelled none none
      (next 5 staging with_pump none none none here save_pump)

-- Production holds the labelled pump; the plain one is staged.
abbrev before : Registries
before = record saved_once { production_row = updated initial.production_row 6 labelled none none }

abbrev after : Registries
after = promoted 7 none before "second"

promote_before : promote_staging_to_production 7 none before "second" [] ≡ ok after
unfolding running
promote_before = refl

undo-promote_example :
    (w : Registries) × (undo_promote 8 none after ≡ ok w)
    × (w.production_row.payload ≡ labelled)
    × (w.previous_row.payload ≡ empty_registry)
    × (w.staging_row ≡ before.staging_row)
    × (undo_promote 8 none w ≡ err undo_unavailable)
undo-promote_example = undo-promote 7 8 none before "second" [] promote_before refl

abbrev once : Registries
once = promoted 7 none saved_once "first"

abbrev twice : Registries
twice = promoted 7 none once "first"

promote_once : promote_staging_to_production 7 none saved_once "first" [] ≡ ok once
unfolding running
promote_once = refl

promote_twice : promote_staging_to_production 7 none once "first" [] ≡ ok twice
unfolding running
promote_twice = refl

pump_stored : put empty_registry (Entity.object_type pump) [] ≡ ok with_pump
unfolding running
pump_stored = refl

undo_refused_after_edits_example :
    (twice.previous_row.payload ≡ with_pump) × (undo_promote 7 none twice ≡ err undo_unavailable)
undo_refused_after_edits_example =
    undo_refused_after_edits saved_once once twice 7 none "first"
      (then_put (Entity.object_type pump) unedited pump_stored) refl promote_once promote_twice

Reach-IsServable_example : IsServable [] once
Reach-IsServable_example = Reach-IsServable [] (
    Reachable.next
      (Reachable.next Reachable.here (Reachable.edit 5 with_pump none none none save_pump))
      (promote 7 none "first" promote_once))

-- Another transaction saves staging between the two saves of the promotion.
abbrev restaging : Await → Registries → Registries
restaging before_second_save t = write_row t staging (updated (row t staging) 6 labelled none none)
restaging _ t = t

restaging-Saves : (a : Await) (t : Registries) → Saves t (restaging a t)
unfolding save
restaging-Saves before_second_load t = here
restaging-Saves before_third_load t = here
restaging-Saves before_save t = here
restaging-Saves before_second_save t = next 6 staging labelled none none none here refl

not_raised : (promote_among restaging 7 none before "second" []).raised ≡ none
unfolding running
not_raised = refl

promote_among_lem_example :
    KeepsProduction 7 none before "second" []
      (promote_among restaging 7 none before "second" []).registries
promote_among_lem_example =
    promote_among_lem restaging 7 none before "second" [] restaging-Saves not_raised

-- Another transaction saves production there: the promotion raises when it has overwritten the slot.
abbrev replacing : Await → Registries → Registries
replacing before_second_save t =
    write_row t production (updated (row t production) 6 with_pump none none)
replacing _ t = t

half_promoted :
    ((promote_among replacing 7 none before "second" []).registries.previous_row.payload ≡ labelled)
    × ((promote_among replacing 7 none before "second" []).raised
        ≡ some (
            stale_version (record {
              env = production;
              expected_version = before.production_row.version;
              current_version = before.production_row.version + 1;
            })))
unfolding running
half_promoted = (refl, refl)
