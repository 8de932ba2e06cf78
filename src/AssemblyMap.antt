-- ===== src/AssemblyMap.antt =====
-- `HashMap<AssemblyId, V>`: the value of each key that it holds. The code never iterates over one
-- but to abort every timer that it holds.
use sdv_simulation.Prelude.{Option, none, some, if◌then◌else◌}
use sdv_simulation.Modes.{AssemblyId, assembly_eq}

abbrev pub AssemblyMap {ℓ} : Type ℓ → Type ℓ
AssemblyMap V = AssemblyId → Option V

module _ {ℓ} {V : Type ℓ} where
  abbrev pub empty : AssemblyMap V
  empty a = none

  abbrev pub insert : AssemblyId → V → AssemblyMap V → AssemblyMap V
  insert k v m a = if assembly_eq k a then some v else m a

  abbrev pub remove : AssemblyId → AssemblyMap V → AssemblyMap V
  remove k m a = if assembly_eq k a then none else m a
