-- ===== src/Registry/Tests/Cycles.antt =====
-- Two interfaces, of which one extends the other, and two that extend each other.
use lingyunzhi_os_backend.Base.{String, ◌≡◌, ◌↔◌, refl, true, [], ◌∷◌, List, length, arith}
use mathlib.Core.WellFounded.{Acc}
use lingyunzhi_os_backend.Dict.{Dict, has}
use lingyunzhi_os_backend.ProtoModels.{InterfaceTypeDefinition, interface_type}
use lingyunzhi_os_backend.Registry.Checks.Cycles.{check_cycles, search_from, start}
use lingyunzhi_os_backend.Registry.Checks.Cycles.Acyclic.{Parent}
use lingyunzhi_os_backend.Registry.Checks.Cycles.Fuel.{check_cycles_terminates}
use lingyunzhi_os_backend.Registry.Checks.Cycles.Correct.{check_cycles_lem}
use lingyunzhi_os_backend.Registry.Tests.{running}

abbrev extending : List String → InterfaceTypeDefinition
extending parents = record (interface_type "a") { extends_interface_type_rids = parents }

abbrev chain : Dict InterfaceTypeDefinition
chain = ("a", extending ("b" ∷ [])) ∷ ("b", extending []) ∷ []

abbrev loop : Dict InterfaceTypeDefinition
loop = ("a", extending ("b" ∷ [])) ∷ ("b", extending ("a" ∷ [])) ∷ []

chain_passes : check_cycles chain ≡ []
unfolding running
chain_passes = refl

loop_found : length (check_cycles loop) ≡ 1
unfolding running
loop_found = refl

check_cycles_lem_example :
    (check_cycles chain ≡ []) ↔ ((k : String) → has k chain ≡ true → Acc (Parent chain) k)
check_cycles_lem_example = check_cycles_lem chain

check_cycles_terminates_example : (search_from loop 9 loop start).found ≡ check_cycles loop
check_cycles_terminates_example = check_cycles_terminates loop 9 (omega arith)
