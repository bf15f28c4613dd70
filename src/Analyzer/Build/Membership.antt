-- ===== src/Analyzer/Build/Membership.antt =====
-- Which replicas the groups of `buildHAGroups` of internal/analyzer/analyzer.go hold.
use cost_optimization.Prelude.{
  ℕ, ◌+◌, ◌≡◌, refl, sym, ap, ◌∙◌, subst, String, Bool, true, false, Option, none, some, List, [],
  ◌∷◌, ◌++◌, map, length, All, All-sort_by, sum_of, sum_of-sort_by, length-sort_by, length-append,
  arith, sort_by, if◌then◌else◌, Bool-cases, inl, inr,
}
use cost_optimization.Prelude.Assoc.{
  string_eq, Map, lookup, insert, lookup-insert, lookup-insert_self, beq_refl, weight,
  sum_of-insert,
}
use cost_optimization.Prelude.Keys.{HasDistinctKeys, HasDistinctKeys-insert, All-lookup}
use cost_optimization.Model.Sql.{AgInfo}
use cost_optimization.Analyzer.Dataset.{Dataset}
use cost_optimization.Analyzer.Build.{HaGroup}
use cost_optimization.Analyzer.Build.Groups.{
  group_or_new, joined, member_text, add_ag, sort_members, build_ha_groups,
}
use cost_optimization.Analyzer.Build.Replicas.{
  ags_of_hosts, members_named, HasNoDuplicates, HasNoDuplicates-add_replicas, add_entries,
  groups_of_hosts-entries,
}
use mathlib.Core.List.{append_assoc, append-nil}
use text.Mathlib.Text.{◌==◌ as equals}
use text.Mathlib.TextEquality.{eq_iff}

-- What the group of a name holds after the given entries.
record IsGroup (name : String) (entries : List (String × AgInfo)) (g : HaGroup) : Type 0 where
  named : g.ag_name ≡ name
  members : g.members ≡ members_named name entries
  replicas : HasNoDuplicates g.replicas

-- That every group, made or still missing, holds the members that the entries give it.
record IsGrouping (entries : List (String × AgInfo)) (by_ag : Map String HaGroup) : Type 0 where
  keys : HasDistinctKeys by_ag
  groups : (name : String) → IsGroup name entries (group_or_new name (lookup name by_ag))

members_named-snoc :
    (name : String) (entries : List (String × AgInfo)) (key : String) (ag : AgInfo)
    → members_named name (entries ++ (key, ag) ∷ [])
      ≡ members_named name entries
        ++ (if equals ag.ag_name name then member_text key ag ∷ [] else [])
members_named-snoc name [] key ag = refl
members_named-snoc name ((k, a) ∷ entries) key ag = elim (Bool-cases (equals a.ag_name name)) [
  | inl hit ↦ rw (hit, members_named-snoc name entries key ag) refl
  | inr miss ↦ rw (miss, members_named-snoc name entries key ag) refl
]

joined-IsGroup :
    (entries : List (String × AgInfo)) (key : String) (ag : AgInfo) (g : HaGroup)
    → IsGroup ag.ag_name entries g
    → IsGroup ag.ag_name (entries ++ (key, ag) ∷ []) (joined key ag g)
unfolding joined
joined-IsGroup entries key ag g inv =
    let same : equals ag.ag_name ag.ag_name ≡ true = beq_refl ag.ag_name in
    record {
      named = inv.named;
      members =
          ap (λ ms. ms ++ member_text key ag ∷ []) inv.members
          ∙ sym (rw same at (members_named-snoc ag.ag_name entries key ag));
      replicas = HasNoDuplicates-add_replicas g.replicas ag.partner_replicas inv.replicas;
    }

IsGroup-other :
    (name : String) (entries : List (String × AgInfo)) (key : String) (ag : AgInfo) (g : HaGroup)
    → equals ag.ag_name name ≡ false
    → IsGroup name entries g
    → IsGroup name (entries ++ (key, ag) ∷ []) g
IsGroup-other name entries key ag g other inv = record {
  named = inv.named;
  members =
      inv.members
      ∙ sym (append-nil (members_named name entries))
      ∙ sym (rw other at (members_named-snoc name entries key ag));
  replicas = inv.replicas;
}

add_ag-IsGrouping :
    (entries : List (String × AgInfo)) (by_ag : Map String HaGroup) (key : String) (ag : AgInfo)
    → IsGrouping entries by_ag
    → IsGrouping (entries ++ (key, ag) ∷ []) (add_ag key ag by_ag)
unfolding add_ag
add_ag-IsGrouping entries by_ag key ag inv =
    let after = entries ++ (key, ag) ∷ [] in
    let old = group_or_new ag.ag_name (lookup ag.ag_name by_ag) in
    let g = joined key ag old in
    let found : (name : String) (o : Option HaGroup)
        → lookup name (insert ag.ag_name g by_ag) ≡ o
        → IsGroup name after (group_or_new name o)
        → IsGroup name after (group_or_new name (lookup name (insert ag.ag_name g by_ag))) =
      λ name o e h. subst (λ u. IsGroup name after (group_or_new name u)) (sym e) h in
    record {
      keys = HasDistinctKeys-insert ag.ag_name g by_ag inv.keys;
      groups = λ name. elim (Bool-cases (equals ag.ag_name name)) [
        | inl same ↦
            subst (λ n. IsGroup n after (group_or_new n (lookup n (insert ag.ag_name g by_ag))))
              ((eq_iff ag.ag_name name).0 same)
              (found ag.ag_name (some g) (lookup-insert_self ag.ag_name g by_ag)
                (joined-IsGroup entries key ag old (inv.groups ag.ag_name)))
        | inr other ↦
            found name (lookup name by_ag)
              (rw other at
                (lookup-insert {K = String} {V = HaGroup} ⦃e = string_eq⦄ ag.ag_name name g by_ag))
              (IsGroup-other name entries key ag _ other (inv.groups name))
      ];
    }

add_entries-IsGrouping :
    (seen entries : List (String × AgInfo)) (by_ag : Map String HaGroup)
    → IsGrouping seen by_ag
    → IsGrouping (seen ++ entries) (add_entries entries by_ag)
unfolding add_entries
add_entries-IsGrouping seen [] by_ag inv =
    subst (λ es. IsGrouping es by_ag) (sym (append-nil seen)) inv
add_entries-IsGrouping seen ((key, ag) ∷ entries) by_ag inv =
    subst (λ es. IsGrouping es (add_entries entries (add_ag key ag by_ag)))
      (append_assoc seen ((key, ag) ∷ []) entries)
      (add_entries-IsGrouping (seen ++ (key, ag) ∷ []) entries (add_ag key ag by_ag)
        (add_ag-IsGrouping seen by_ag key ag inv))

nothing-IsGrouping : IsGrouping [] []
unfolding lookup
nothing-IsGrouping = record {
  keys = tt;
  groups = λ name. record { named = refl; members = refl; replicas = tt };
}

members_in : Map String HaGroup → ℕ
members_in by_ag = sum_of (λ p. length p.1.members) by_ag

add_ag-members_in :
    (key : String) (ag : AgInfo) (by_ag : Map String HaGroup)
    → members_in (add_ag key ag by_ag) ≡ members_in by_ag + 1
unfolding add_ag joined members_in
add_ag-members_in key ag by_ag =
    let old = lookup ag.ag_name by_ag in
    let g = group_or_new ag.ag_name old in
    omega (
      arith,
      sum_of-insert (λ (h : HaGroup). length h.members) ag.ag_name (joined key ag g) by_ag,
      length-append g.members (member_text key ag ∷ []),
      weighed old,
    )
  where
    weighed :
        (o : Option HaGroup)
        → weight (λ (h : HaGroup). length h.members) o ≡ length (group_or_new ag.ag_name o).members
    weighed none = refl
    weighed (some g) = refl

add_entries-members_in :
    (entries : List (String × AgInfo)) (by_ag : Map String HaGroup)
    → members_in (add_entries entries by_ag) ≡ members_in by_ag + length entries
unfolding add_entries
add_entries-members_in [] by_ag = omega arith
add_entries-members_in ((key, ag) ∷ entries) by_ag =
    omega
      (arith, add_entries-members_in entries (add_ag key ag by_ag), add_ag-members_in key ag by_ag)

module _ (less : String → String → Bool) where
  sorted_members_in :
      (by_ag : Map String HaGroup)
      → sum_of (λ g. length g.members) (map (λ p. sort_members less p.1) by_ag) ≡ members_in by_ag
  unfolding members_in
  sorted_members_in [] = refl
  sorted_members_in ((name, g) ∷ by_ag) =
      omega (arith, length-sort_by less g.members, sorted_members_in by_ag)

  -- The group of a name has all its members and no others, and names no partner replica twice.
  abbrev IsWhole : List (String × AgInfo) → HaGroup → Type 0
  IsWhole entries g =
      (g.members ≡ sort_by less (members_named g.ag_name entries)) × HasNoDuplicates g.replicas

  -- The groups hold every availability group of every instance of the dataset once.
  pub record IsPartition {F : Type 0} (ds : Dataset F) (groups : List HaGroup) : Type 0 where
    pub whole : All (IsWhole (ags_of_hosts ds.hosts)) groups
    pub complete : sum_of (λ g. length g.members) groups ≡ length (ags_of_hosts ds.hosts)

  sorted-IsWhole :
      (entries : List (String × AgInfo)) (by_ag : Map String HaGroup)
      → All (λ p. IsGroup p.0 entries p.1) by_ag
      → All (IsWhole entries) (map (λ p. sort_members less p.1) by_ag)
  sorted-IsWhole entries [] gs = tt
  sorted-IsWhole entries ((name, g) ∷ by_ag) (inv, gs) = (
    (
      ap (sort_by less) (inv.members ∙ ap (λ n. members_named n entries) (sym inv.named)),
      inv.replicas,
    ),
    sorted-IsWhole entries by_ag gs,
  )

  -- `buildHAGroups` gathers the replicas of every availability group: a group has exactly the members
  -- that state its name, in sorted order, and lists no partner replica twice. All groups together have
  -- as many members as the instances of the dataset state availability groups, so that none is lost.
  pub build_ha_groups-IsPartition :
      {F : Type 0} (ds : Dataset F) → IsPartition ds (build_ha_groups less ds)
  unfolding build_ha_groups members_in
  build_ha_groups-IsPartition ds =
      let entries = ags_of_hosts ds.hosts in
      let by_ag = add_entries entries [] in
      let by_name = λ (a b : HaGroup). less a.ag_name b.ag_name in
      let inv = add_entries-IsGrouping [] entries [] nothing-IsGrouping in
      let all =
        All-lookup (λ p. IsGroup p.0 entries p.1) by_ag inv.keys
          (λ name g e. rw e at (inv.groups name)) in
      rw (groups_of_hosts-entries ds.hosts []) (record {
        whole = All-sort_by by_name _ _ (sorted-IsWhole entries by_ag all);
        complete = omega (
          arith,
          sum_of-sort_by (λ (g : HaGroup). length g.members) by_name
              (map (λ p. sort_members less p.1) by_ag),
          sorted_members_in by_ag,
          add_entries-members_in entries [],
        );
      })
