-- ===== src/Tests/Saved.antt =====
-- A write of the mock adapter's state that stops in the middle.
use msp_fleet_public.Base.{ℕ, pos, ◌≡◌, ◌⊎◌, refl, none, some, List, [], ◌∷◌}
use msp_fleet_public.Adapter.Mock.Saved.{
  Disk, Call, open_tmp, write_tmp, chmod_tmp, replace_file, prepare, save, do_calls, load_file,
  saved_disk, load_file-save,
}
use msp_fleet_public.Kinds.{codes}
use msp_fleet_public.Value.{Value, num, obj, field, end}

abbrev state : Value
state = obj (field "counter" (num (pos 2)) end)

abbrev pieces : List (List ℕ)
pieces = codes "{\"counter\": " ∷ codes "2}" ∷ []

abbrev disk : Disk
disk = record { file = none; tmp = none }

abbrev before : List Call
before = open_tmp 420 ∷ write_tmp (codes "{\"counter\": ") ∷ []

abbrev after : List Call
after = write_tmp (codes "2}") ∷ chmod_tmp ∷ replace_file ∷ []

load_file-save_example :
    (load_file (λ bytes. some state) (do_calls before disk) ≡ load_file (λ bytes. some state) disk)
    ⊎ ((after ≡ [])
        × (load_file (λ bytes. some state) (do_calls before disk) ≡ state)
        × (do_calls before disk ≡ saved_disk (codes "{\"counter\": 2}")))
unfolding save prepare
load_file-save_example =
    load_file-save (λ bytes. some state) 420 pieces state disk before after refl refl
