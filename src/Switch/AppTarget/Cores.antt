-- ===== src/Switch/AppTarget/Cores.antt =====
-- The cores that the loops visit: those of one node, every one of them in range.
use blk_switch.Common.{ℕ, zero, suc, ◌+◌, ◌*◌, ◌/◌, ◌≤◌, ◌<◌, ◌≡◌, inl, inr, arith, In, ℕ_discrete}
use blk_switch.Switch.AppTarget.{cores_from, node_cores}

In-cores_from :
    (nr_nodes node i rounds c : ℕ)
    → In c (cores_from nr_nodes node i rounds)
    → (j : ℕ) × (i ≤ j) × (j < i + rounds) × (c ≡ j * nr_nodes + node)
unfolding cores_from
In-cores_from nr_nodes node i zero c m = absurd m
In-cores_from nr_nodes node i (suc r) c (inl e) = (i, omega arith, omega arith, e)
In-cores_from nr_nodes node i (suc r) c (inr m) =
    let (j, a, b, e) = In-cores_from nr_nodes node (i + 1) r c m in (j, omega arith, omega arith, e)

cores_from-In :
    (nr_nodes node i rounds j : ℕ)
    → i ≤ j
    → j < i + rounds
    → In (j * nr_nodes + node) (cores_from nr_nodes node i rounds)
unfolding cores_from
cores_from-In nr_nodes node i zero j a b = absurd (omega arith)
cores_from-In nr_nodes node i (suc r) j a b = elim (ℕ_discrete i j) [
  | yes e ↦ inl (rw e)
  | no n ↦ inr (cores_from-In nr_nodes node (i + 1) r j (ground arith) (omega arith))
]

in_range :
    (nr_cpus nr_nodes node j : ℕ)
    → node < nr_nodes
    → j < nr_cpus / nr_nodes
    → j * nr_nodes + node < nr_cpus
in_range nr_cpus nr_nodes node j n h = grind arith

pub node_cores-lt :
    (nr_cpus nr_nodes node c : ℕ)
    → node < nr_nodes
    → In c (node_cores nr_cpus nr_nodes node)
    → c < nr_cpus
unfolding node_cores
node_cores-lt nr_cpus nr_nodes node c n m =
    let (j, a, b, e) = In-cores_from nr_nodes node 0 (nr_cpus / nr_nodes) c m in
    omega (arith, in_range nr_cpus nr_nodes node j n (omega arith))

pub In-node_cores :
    (nr_cpus nr_nodes node j : ℕ)
    → j < nr_cpus / nr_nodes
    → In (j * nr_nodes + node) (node_cores nr_cpus nr_nodes node)
unfolding node_cores
In-node_cores nr_cpus nr_nodes node j h =
    cores_from-In nr_nodes node 0 (nr_cpus / nr_nodes) j (omega arith) (omega arith)
