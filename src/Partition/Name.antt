-- ===== src/Partition/Name.antt =====
-- `PartitionName` of src/partition/layout.rs.
use omnect_os_init.Base.Text.{Text, lit}
use omnect_os_init.Base.Equality.{Eq, eq_of_discrete}

-- `extended` is there on DOS layouts only.
pub data PartitionName : Type 0 where
  boot root_a root_b root_current factory cert etc data_part extended : PartitionName

unfoldable pub name_discrete : Discrete PartitionName
name_discrete = hlevel

instance abbrev pub name_equality : Eq PartitionName
name_equality = eq_of_discrete name_discrete

-- `as_str`
unfoldable pub name_text : PartitionName → Text
unfolding lit
name_text boot = lit "boot"
name_text root_a = lit "rootA"
name_text root_b = lit "rootB"
name_text root_current = lit "rootCurrent"
name_text factory = lit "factory"
name_text cert = lit "cert"
name_text etc = lit "etc"
name_text data_part = lit "data"
name_text extended = lit "extended"
