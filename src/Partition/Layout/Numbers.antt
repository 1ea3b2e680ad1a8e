-- ===== src/Partition/Layout/Numbers.antt =====
-- Which number each partition of src/partition/layout.rs gets.
use omnect_os_init.Base.{
  ◌≡◌, refl, ap, ℕ, Option, none, some, Result, ok, err, ◌⊎◌, inl, inr, arith, Option-cases, subst,
}
use omnect_os_init.Base.Dict.{Dict, lookup, insert}
use omnect_os_init.Base.Text.{Text}
use omnect_os_init.Error.{unknown_root_partition}
use omnect_os_init.Partition.Device.{RootDevice}
use omnect_os_init.Partition.Layout.{
  TableKind, gpt, dos, partition_suffix, device_path, current_number, with_extended, full_map,
  map_for, build_partition_map, PartitionLayout, new_layout, is_root_a, layout_root_current,
}
use omnect_os_init.Partition.Name.{
  PartitionName, boot, root_a, root_b, root_current, factory, cert, etc, data_part, extended,
  name_equality, name_discrete,
}

-- The number of a partition on a disk whose current root has the number n.
abbrev pub number_of : TableKind → ℕ → PartitionName → Option ℕ
number_of kind n boot = some 1
number_of kind n root_a = some 2
number_of kind n root_b = some 3
number_of kind n root_current = some n
number_of gpt n extended = none
number_of dos n extended = some 4
number_of gpt n factory = some 4
number_of dos n factory = some 5
number_of gpt n cert = some 5
number_of dos n cert = some 6
number_of gpt n etc = some 6
number_of dos n etc = some 7
number_of gpt n data_part = some 7
number_of dos n data_part = some 8

abbrev pub path_of : RootDevice → Option ℕ → Option Text
path_of device none = none
path_of device (some n) = some (device_path device n)

-- The map holds, for every partition, exactly the path of the number that the table kind gives it.
abbrev pub Describes : TableKind → RootDevice → ℕ → Dict PartitionName Text → Type 0
Describes kind device n map =
    (name : PartitionName) → lookup name map ≡ path_of device (number_of kind n name)

full_map-Describes :
    (kind : TableKind) (device : RootDevice) (n : ℕ)
    → Describes kind device n (full_map kind device n)
unfolding full_map with_extended lookup insert name_discrete
full_map-Describes gpt device n boot = refl
full_map-Describes gpt device n root_a = refl
full_map-Describes gpt device n root_b = refl
full_map-Describes gpt device n root_current = refl
full_map-Describes gpt device n factory = refl
full_map-Describes gpt device n cert = refl
full_map-Describes gpt device n etc = refl
full_map-Describes gpt device n data_part = refl
full_map-Describes gpt device n extended = refl
full_map-Describes dos device n boot = refl
full_map-Describes dos device n root_a = refl
full_map-Describes dos device n root_b = refl
full_map-Describes dos device n root_current = refl
full_map-Describes dos device n factory = refl
full_map-Describes dos device n cert = refl
full_map-Describes dos device n etc = refl
full_map-Describes dos device n data_part = refl
full_map-Describes dos device n extended = refl

-- A root partition that the layout knows: rootA or rootB.
abbrev pub IsRoot : RootDevice → ℕ → Type 0
IsRoot device n = (partition_suffix device.root_partition ≡ some n) × ((n ≡ 2) ⊎ (n ≡ 3))

current_number-eq-some :
    (o : Option ℕ) (n : ℕ) → current_number o ≡ some n → (o ≡ some n) × ((n ≡ 2) ⊎ (n ≡ 3))
unfolding current_number
current_number-eq-some none n h = cc
current_number-eq-some (some m) n h = ground arith

current_number-eq-none : (o : Option ℕ) → current_number o ≡ none → ¬ (o ≡ some 2) × ¬ (o ≡ some 3)
unfolding current_number
current_number-eq-none none h = (λ e. cc, λ e. cc)
current_number-eq-none (some m) h = (λ e. ground arith, λ e. ground arith)

-- The map is built for a root partition 2 or 3 and for no other, and a map that is built gives
-- every partition exactly the number that the kind of the table has for it.
pub build_partition_map-Describes :
    (kind : TableKind) (device : RootDevice)
    → ((n : ℕ) × (map : Dict PartitionName Text) × IsRoot device n
        × (build_partition_map kind device ≡ ok map)
        × Describes kind device n map)
      ⊎ ((build_partition_map kind device ≡ err (unknown_root_partition device.root_partition))
          × ((n : ℕ) → ¬ IsRoot device n))
unfolding build_partition_map map_for
build_partition_map-Describes kind device =
    elim (Option-cases (current_number (partition_suffix device.root_partition))) [
      | inl e ↦
          let neither = current_number-eq-none (partition_suffix device.root_partition) e in
          inr (ap (map_for kind device) e, λ n h. ground (arith, neither))
      | inr (n, e) ↦ inl (
        n,
        full_map kind device n,
        current_number-eq-some (partition_suffix device.root_partition) n e,
        ap (map_for kind device) e,
        full_map-Describes kind device n,
      )
    ]

pub ok-injective : {E A : Type 0} {a b : A} → ◌≡◌ {A = Result E A} (ok a) (ok b) → a ≡ b
ok-injective h = cc

root_current-of-Describes :
    (kind : TableKind) (layout : PartitionLayout) (n : ℕ)
    → IsRoot layout.device n
    → Describes kind layout.device n layout.partitions
    → lookup root_current layout.partitions ≡ some (layout_root_current layout)
unfolding layout_root_current is_root_a
root_current-of-Describes kind layout n (suffix, inl two) described =
    let current = described root_current in let a = described root_a in ground (arith, two)
root_current-of-Describes kind layout n (suffix, inr three) described =
    let current = described root_current in let b = described root_b in ground (arith, three)

-- The current root that a layout gives is the one that its map holds.
pub new_layout-root_current :
    (kind : TableKind) (device : RootDevice) (layout : PartitionLayout)
    → new_layout kind device ≡ ok layout
    → lookup root_current layout.partitions ≡ some (layout_root_current layout)
unfolding new_layout
new_layout-root_current kind device layout h = elim (build_partition_map-Describes kind device) [
  | inl (n, map, is_root, built, described) ↦
      let made : record { partitions = map; device = device } ≡ layout =
        ok-injective (rw built at h) in
      subst (λ l. lookup root_current l.partitions ≡ some (layout_root_current l)) made
        (root_current-of-Describes kind _ n is_root described)
  | inr (failed, unknown) ↦ cc
]
