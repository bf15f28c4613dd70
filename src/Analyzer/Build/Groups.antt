-- ===== src/Analyzer/Build/Groups.antt =====
-- `buildHAGroups` and `appendUnique` of internal/analyzer/analyzer.go. The order of sort.Strings is a
-- parameter.
use cost_optimization.Prelude.{
  String, Bool, Option, none, some, List, [], ◌∷◌, ◌++◌, map, if◌then◌else◌, sort_by,
}
use cost_optimization.Prelude.Assoc.{Map, string_eq, lookup, insert}
use cost_optimization.Model.Sql.{AgInfo, SqlInstanceInventory}
use cost_optimization.Analyzer.Recurrence.{has_id}
use cost_optimization.Analyzer.Dataset.{HostData, Dataset}
use cost_optimization.Analyzer.Build.{HaGroup}
use Prim.Native.String.{◌++◌ as ◌<>◌}

unfoldable pub append_unique : List String → String → List String
unfolding has_id
append_unique s v = if has_id v s then s else s ++ v ∷ []

-- The loop over the partner replicas.
unfoldable pub add_replicas : List String → List String → List String
unfolding append_unique
add_replicas s [] = s
add_replicas s (v ∷ vs) = add_replicas (append_unique s v) vs

-- The group of a name, made where it is missing.
abbrev pub group_or_new : String → Option HaGroup → HaGroup
group_or_new name none = record { ag_name = name; members = []; replicas = [] }
group_or_new name (some g) = g

abbrev pub member_text : String → AgInfo → String
member_text key ag = key <> " (" <> ag.role <> ")"

-- The group with one more member and its partner replicas.
unfoldable pub joined : String → AgInfo → HaGroup → HaGroup
unfolding add_replicas
joined key ag g = record g {
  members = g.members ++ member_text key ag ∷ [];
  replicas = add_replicas g.replicas ag.partner_replicas;
}

-- The groups are pointers in the source, so that writing one changes the map's.
unfoldable pub add_ag : String → AgInfo → Map String HaGroup → Map String HaGroup
unfolding lookup insert joined
add_ag key ag by_ag =
    insert ag.ag_name (joined key ag (group_or_new ag.ag_name (lookup ag.ag_name by_ag))) by_ag

unfoldable pub add_ags : String → List AgInfo → Map String HaGroup → Map String HaGroup
unfolding add_ag
add_ags key [] by_ag = by_ag
add_ags key (ag ∷ ags) by_ag = add_ags key ags (add_ag key ag by_ag)

abbrev pub sort_members : (String → String → Bool) → HaGroup → HaGroup
sort_members less g = record g { members = sort_by less g.members }

module _ {F : Type 0} where
  unfoldable pub add_instances :
      Map String (SqlInstanceInventory F) → Map String HaGroup → Map String HaGroup
  unfolding add_ags
  add_instances [] by_ag = by_ag
  add_instances ((key, inv) ∷ invs) by_ag = add_instances invs (add_ags key inv.ha.ags by_ag)

  unfoldable pub groups_of_hosts : Map String (HostData F) → Map String HaGroup → Map String HaGroup
  unfolding add_instances
  groups_of_hosts [] by_ag = by_ag
  groups_of_hosts ((id, h) ∷ hosts) by_ag = groups_of_hosts hosts (add_instances h.sql_inv by_ag)

  unfoldable pub build_ha_groups : (String → String → Bool) → Dataset F → List HaGroup
  unfolding groups_of_hosts
  build_ha_groups less ds =
      sort_by (λ (a b : HaGroup). less a.ag_name b.ag_name)
        (map (λ (p : String × HaGroup). sort_members less p.1) (groups_of_hosts ds.hosts []))
