-- ===== src/Capacity.antt =====
-- src/qdev_runner/capacity.py: the admission of new work on a host, from what was measured there.
-- Measurements are `float`s; reading them from /proc and the disk is not modelled.
pub mod Admission
use qdev_runner_control_plan.Prelude.{
  ℕ, String, Bool, true, false, ◌&&◌, Option, none, some, List, [], ◌∷◌, ◌++◌, if◌then◌else◌, Real,
  leb_real, ltb_real, times_real,
}

pub record Capacity : Type 0 where
  pub allowed : Bool
  pub disk_used_pct : Real
  pub disk_free_gib : Real
  pub memory_available_gib : Real
  pub load_15 : Real
  pub cpu_psi_avg10 : Real
  pub cpus : ℕ
  pub blockers : List String

pub record Thresholds : Type 0 where
  pub min_disk_free_gib : Real
  pub max_disk_used_pct : Real
  pub min_memory_available_gib : Real
  pub max_load_per_cpu : Real
  pub max_cpu_psi_avg10 : Option Real

-- if bad: blockers.append(name)
abbrev pub block : Bool → String → List String
block true name = name ∷ []
block false name = []

unfoldable pub blockers_of : Capacity → Thresholds → List String
blockers_of m t =
    block (leb_real t.max_disk_used_pct m.disk_used_pct) "disk_used_pct"
    ++ block (ltb_real m.disk_free_gib t.min_disk_free_gib) "disk_free_gib"
    ++ block (ltb_real m.memory_available_gib t.min_memory_available_gib) "memory_available_gib"
    ++ block (leb_real (times_real m.cpus t.max_load_per_cpu) m.load_15) "load_15"
    ++ block
        (elim t.max_cpu_psi_avg10 [ none ↦ false | some limit ↦ leb_real limit m.cpu_psi_avg10 ])
        "cpu_psi_avg10"

abbrev pub is_empty : List String → Bool
is_empty [] = true
is_empty (_ ∷ _) = false

unfoldable pub evaluate : Capacity → Thresholds → Capacity
unfolding blockers_of
evaluate m t = record m { allowed = is_empty (blockers_of m t); blockers = blockers_of m t }
