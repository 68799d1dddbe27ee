-- ===== src/Capacity/Admission.antt =====
-- Admission of hosts that measure better or worse.
use qdev_runner_control_plan.Prelude.{
  ℕ, ◌≡◌, refl, sym, subst, Bool, true, false, Option, none, some, List, [], arith, Real, leb_real,
  ltb_real, times_real, ◌++◌, String, leb_real_trans, leb-ltb_real_trans, Bool-cases, inl, inr,
}
use qdev_runner_control_plan.Capacity.{Capacity, Thresholds, block, is_empty, blockers_of, evaluate}

-- The host `a` measures no worse than the host `b`, with as many processors.
pub record NoWorse (a b : Capacity) : Type 0 where
  pub used : leb_real a.disk_used_pct b.disk_used_pct ≡ true
  pub free : leb_real b.disk_free_gib a.disk_free_gib ≡ true
  pub memory : leb_real b.memory_available_gib a.memory_available_gib ≡ true
  pub load : leb_real a.load_15 b.load_15 ≡ true
  pub psi : leb_real a.cpu_psi_avg10 b.cpu_psi_avg10 ≡ true
  pub cpus : a.cpus ≡ b.cpus

abbrev five : Bool → Bool → Bool → Bool → Bool → List String
five a b c d e =
    block a "disk_used_pct"
    ++ block b "disk_free_gib"
    ++ block c "memory_available_gib"
    ++ block d "load_15"
    ++ block e "cpu_psi_avg10"

five-empty :
    (a b c d e : Bool)
    → is_empty (five a b c d e) ≡ true
    → (a ≡ false) × (b ≡ false) × (c ≡ false) × (d ≡ false) × (e ≡ false)
five-empty true b c d e h = absurd (ground arith)
five-empty false true c d e h = absurd (ground arith)
five-empty false false true d e h = absurd (ground arith)
five-empty false false false true e h = absurd (ground arith)
five-empty false false false false true h = absurd (ground arith)
five-empty false false false false false h = (refl, refl, refl, refl, refl)

-- A value below the limit stays below it as it falls, and one that is not short stays so as it grows.
below :
    (limit x y : Real) → leb_real x y ≡ true → leb_real limit y ≡ false → leb_real limit x ≡ false
below limit x y h f = elim (Bool-cases (leb_real limit x)) [
  | inl t ↦ absurd (let k = leb_real_trans limit x y t h in cc)
  | inr g ↦ g
]

enough :
    (limit x y : Real) → leb_real y x ≡ true → ltb_real y limit ≡ false → ltb_real x limit ≡ false
enough limit x y h f = elim (Bool-cases (ltb_real x limit)) [
  | inl t ↦ absurd (let k = leb-ltb_real_trans y x limit h t in cc)
  | inr g ↦ g
]

calm :
    (limit : Option Real) (x y : Real)
    → leb_real x y ≡ true
    → (elim limit [ none ↦ false | some z ↦ leb_real z y ]) ≡ false
    → (elim limit [ none ↦ false | some z ↦ leb_real z x ]) ≡ false
calm none x y h f = refl
calm (some z) x y h f = below z x y h f

-- Admission is monotone: under the same thresholds, whatever they are, a host with as many
-- processors that measures no worse than an admitted one is admitted, and nothing blocks it. No
-- worse is `<=` on floats, for each of the five measurements, so none of them is NaN.
pub evaluate_monotone :
    (a b : Capacity) (t : Thresholds)
    → NoWorse a b
    → (evaluate b t).allowed ≡ true
    → ((evaluate a t).allowed ≡ true) × ((evaluate a t).blockers ≡ [])
unfolding evaluate blockers_of
evaluate_monotone a b t w h =
    let (used, free, memory, load, psi) = five-empty _ _ _ _ _ h in
    let used' = below t.max_disk_used_pct a.disk_used_pct b.disk_used_pct w.used used in
    let free' = enough t.min_disk_free_gib a.disk_free_gib b.disk_free_gib w.free free in
    let memory' =
      enough t.min_memory_available_gib a.memory_available_gib b.memory_available_gib w.memory
        memory in
    let load' : leb_real (times_real a.cpus t.max_load_per_cpu) a.load_15 ≡ false =
      subst (λ (n : ℕ). leb_real (times_real n t.max_load_per_cpu) a.load_15 ≡ false) (sym w.cpus)
        (below (times_real b.cpus t.max_load_per_cpu) a.load_15 b.load_15 w.load load) in
    let psi' = calm t.max_cpu_psi_avg10 a.cpu_psi_avg10 b.cpu_psi_avg10 w.psi psi in
    rw (used', free', memory', load', psi') (refl, refl)
