-- ===== src/Partition/Layout/Distinct.antt =====
-- The paths of the partitions of src/partition/layout.rs are different.
use omnect_os_init.Base.{
  ◌≡◌, refl, sym, ap, ◌∙◌, ℕ, [], ◌∷◌, ◌++◌, Option, none, some, if◌then◌else◌, ok, inl, inr, arith,
  ◌==◌, subst, ◌+◌, ◌≢◌,
}
use omnect_os_init.Base.Dict.{Dict, lookup}
use omnect_os_init.Base.Text.{Text}
use omnect_os_init.Base.Text.Numbers.{decimal, parse_uint, parse_uint-decimal}
use omnect_os_init.Partition.Device.{RootDevice, partition_path}
use omnect_os_init.Partition.Layout.{TableKind, gpt, dos, device_path, build_partition_map}
use omnect_os_init.Partition.Name.{
  PartitionName, boot, root_a, root_b, root_current, factory, cert, etc, data_part, extended,
  name_equality,
}
use omnect_os_init.Partition.Layout.Numbers.{
  number_of, path_of, ok-injective, build_partition_map-Describes,
}

decimal-injective : (m n : ℕ) → decimal m ≡ decimal n → m ≡ n
decimal-injective m n h = ok-injective (
    sym (parse_uint-decimal (m + n) m (omega arith))
    ∙ ap (parse_uint (m + n)) h
    ∙ parse_uint-decimal (m + n) n (omega arith))

append-injective : (s t t' : Text) → s ++ t ≡ s ++ t' → t ≡ t'
append-injective [] t t' h = h
append-injective (c ∷ s) t t' h = append-injective s t t' (cc)

device_path-injective :
    (device : RootDevice) (m n : ℕ) → device_path device m ≡ device_path device n → m ≡ n
unfolding partition_path
device_path-injective device m n h =
    decimal-injective m n
      (append-injective device.partition_sep _ _ (append-injective device.base _ _ h))

some-injective : {A : Type 0} {a b : A} → some a ≡ some b → a ≡ b
some-injective h = cc

-- The partition with a number, leaving aside the current root.
abbrev name_at : TableKind → ℕ → Option PartitionName
name_at gpt m =
    if m == 1
    then some boot
    else if m == 2
    then some root_a
    else if m == 3
    then some root_b
    else if m == 4
    then some factory
    else if m == 5
    then some cert
    else if m == 6
    then some etc
    else if m == 7
    then some data_part
    else none
name_at dos m =
    if m == 1
    then some boot
    else if m == 2
    then some root_a
    else if m == 3
    then some root_b
    else if m == 5
    then some factory
    else if m == 6
    then some cert
    else if m == 7
    then some etc
    else if m == 8
    then some data_part
    else if m == 4
    then some extended
    else none

name_at-number_of :
    (kind : TableKind) (n m : ℕ) (p : PartitionName)
    → p ≢ root_current
    → number_of kind n p ≡ some m
    → name_at kind m ≡ some p
name_at-number_of kind n m root_current h e = absurd (h refl)
name_at-number_of gpt n m boot h e = subst (λ x. name_at gpt x ≡ some boot) (some-injective e) refl
name_at-number_of gpt n m root_a h e =
    subst (λ x. name_at gpt x ≡ some root_a) (some-injective e) refl
name_at-number_of gpt n m root_b h e =
    subst (λ x. name_at gpt x ≡ some root_b) (some-injective e) refl
name_at-number_of gpt n m factory h e =
    subst (λ x. name_at gpt x ≡ some factory) (some-injective e) refl
name_at-number_of gpt n m cert h e = subst (λ x. name_at gpt x ≡ some cert) (some-injective e) refl
name_at-number_of gpt n m etc h e = subst (λ x. name_at gpt x ≡ some etc) (some-injective e) refl
name_at-number_of gpt n m data_part h e =
    subst (λ x. name_at gpt x ≡ some data_part) (some-injective e) refl
name_at-number_of gpt n m extended h e = cc
name_at-number_of dos n m boot h e = subst (λ x. name_at dos x ≡ some boot) (some-injective e) refl
name_at-number_of dos n m root_a h e =
    subst (λ x. name_at dos x ≡ some root_a) (some-injective e) refl
name_at-number_of dos n m root_b h e =
    subst (λ x. name_at dos x ≡ some root_b) (some-injective e) refl
name_at-number_of dos n m factory h e =
    subst (λ x. name_at dos x ≡ some factory) (some-injective e) refl
name_at-number_of dos n m cert h e = subst (λ x. name_at dos x ≡ some cert) (some-injective e) refl
name_at-number_of dos n m etc h e = subst (λ x. name_at dos x ≡ some etc) (some-injective e) refl
name_at-number_of dos n m data_part h e =
    subst (λ x. name_at dos x ≡ some data_part) (some-injective e) refl
name_at-number_of dos n m extended h e =
    subst (λ x. name_at dos x ≡ some extended) (some-injective e) refl

path_of-eq-some :
    (device : RootDevice) (o : Option ℕ) (path : Text)
    → path_of device o ≡ some path
    → (m : ℕ) × (o ≡ some m) × (device_path device m ≡ path)
path_of-eq-some device none path h = cc
path_of-eq-some device (some m) path h = (m, refl, some-injective h)

-- Two partitions of a map never have the same path, unless one of them is the current root, which
-- is rootA or rootB again.
pub build_partition_map-distinct :
    (kind : TableKind) (device : RootDevice) (map : Dict PartitionName Text) (p q : PartitionName)
    (path : Text)
    → build_partition_map kind device ≡ ok map
    → p ≢ root_current
    → q ≢ root_current
    → lookup p map ≡ some path
    → lookup q map ≡ some path
    → p ≡ q
build_partition_map-distinct kind device map p q path built hp hq at_p at_q =
    elim (build_partition_map-Describes kind device) [
      | inl (n, map', is_root, built', described) ↦
          let same : map' ≡ map = ok-injective (sym built' ∙ built) in
          let (k, p-eq, k-path) =
            path_of-eq-some device _ path (sym (described p) ∙ ap (lookup p) same ∙ at_p) in
          let (m, q-eq, m-path) =
            path_of-eq-some device _ path (sym (described q) ∙ ap (lookup q) same ∙ at_q) in
          let k-eq : k ≡ m = device_path-injective device k m (k-path ∙ sym m-path) in
          some-injective (
            sym (name_at-number_of kind n k p hp p-eq)
            ∙ ap (name_at kind) k-eq
            ∙ name_at-number_of kind n m q hq q-eq)
      | inr (failed, unknown) ↦ cc
    ]
