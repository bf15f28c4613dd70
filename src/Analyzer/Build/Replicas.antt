-- ===== src/Analyzer/Build/Replicas.antt =====
-- The loops of `buildHAGroups` of internal/analyzer/analyzer.go as one loop over what the dataset holds.
use cost_optimization.Prelude.{
  ◌≡◌, refl, sym, ap, ◌∙◌, String, false, ◌||◌, List, [], ◌∷◌, ◌++◌, arith, if◌then◌else◌,
  Bool-cases, inl, inr,
}
use cost_optimization.Prelude.Assoc.{string_eq, Map}
use cost_optimization.Model.Sql.{AgInfo, SqlInstanceInventory}
use cost_optimization.Analyzer.Recurrence.{has_id}
use cost_optimization.Analyzer.Dataset.{HostData}
use cost_optimization.Analyzer.Build.{HaGroup}
use cost_optimization.Analyzer.Build.Groups.{
  append_unique, add_replicas, member_text, add_ag, add_ags, add_instances, groups_of_hosts,
}
use text.Mathlib.Text.{◌==◌ as equals}
use text.Mathlib.TextEquality.{eq_iff}

-- The availability groups of a dataset: each with the key of the instance that states it.
abbrev pub ags_of : String → List AgInfo → List (String × AgInfo)
ags_of key [] = []
ags_of key (ag ∷ ags) = (key, ag) ∷ ags_of key ags

module _ {F : Type 0} where
  abbrev pub ags_of_instances : Map String (SqlInstanceInventory F) → List (String × AgInfo)
  ags_of_instances [] = []
  ags_of_instances ((key, inv) ∷ invs) = ags_of key inv.ha.ags ++ ags_of_instances invs

  abbrev pub ags_of_hosts : Map String (HostData F) → List (String × AgInfo)
  ags_of_hosts [] = []
  ags_of_hosts ((id, h) ∷ hosts) = ags_of_instances h.sql_inv ++ ags_of_hosts hosts

-- The members of the group of a name.
abbrev pub members_named : String → List (String × AgInfo) → List String
members_named name [] = []
members_named name ((key, ag) ∷ entries) =
    let rest = members_named name entries in
    if equals ag.ag_name name then member_text key ag ∷ rest else rest

abbrev pub HasNoDuplicates : List String → Type 0
HasNoDuplicates [] = Unit
HasNoDuplicates (x ∷ xs) = (has_id x xs ≡ false) × HasNoDuplicates xs

-- One round after the other, for all the entries.
unfoldable pub add_entries : List (String × AgInfo) → Map String HaGroup → Map String HaGroup
add_entries [] by_ag = by_ag
add_entries ((key, ag) ∷ entries) by_ag = add_entries entries (add_ag key ag by_ag)

add_entries-append :
    (xs ys : List (String × AgInfo)) (by_ag : Map String HaGroup)
    → add_entries (xs ++ ys) by_ag ≡ add_entries ys (add_entries xs by_ag)
unfolding add_entries
add_entries-append [] ys by_ag = refl
add_entries-append ((key, ag) ∷ xs) ys by_ag = add_entries-append xs ys (add_ag key ag by_ag)

add_ags-entries :
    (key : String) (ags : List AgInfo) (by_ag : Map String HaGroup)
    → add_ags key ags by_ag ≡ add_entries (ags_of key ags) by_ag
unfolding add_ags add_entries
add_ags-entries key [] by_ag = refl
add_ags-entries key (ag ∷ ags) by_ag = add_ags-entries key ags (add_ag key ag by_ag)

module _ {F : Type 0} where
  add_instances-entries :
      (invs : Map String (SqlInstanceInventory F)) (by_ag : Map String HaGroup)
      → add_instances invs by_ag ≡ add_entries (ags_of_instances invs) by_ag
  unfolding add_instances add_entries
  add_instances-entries [] by_ag = refl
  add_instances-entries ((key, inv) ∷ invs) by_ag =
      add_instances-entries invs (add_ags key inv.ha.ags by_ag)
      ∙ ap (add_entries (ags_of_instances invs)) (add_ags-entries key inv.ha.ags by_ag)
      ∙ sym (add_entries-append (ags_of key inv.ha.ags) (ags_of_instances invs) by_ag)

  pub groups_of_hosts-entries :
      (hosts : Map String (HostData F)) (by_ag : Map String HaGroup)
      → groups_of_hosts hosts by_ag ≡ add_entries (ags_of_hosts hosts) by_ag
  unfolding groups_of_hosts add_entries
  groups_of_hosts-entries [] by_ag = refl
  groups_of_hosts-entries ((id, h) ∷ hosts) by_ag =
      groups_of_hosts-entries hosts (add_instances h.sql_inv by_ag)
      ∙ ap (add_entries (ags_of_hosts hosts)) (add_instances-entries h.sql_inv by_ag)
      ∙ sym (add_entries-append (ags_of_instances h.sql_inv) (ags_of_hosts hosts) by_ag)

has_id-snoc :
    (x v : String) (xs : List String) → has_id x (xs ++ v ∷ []) ≡ (has_id x xs || equals v x)
unfolding has_id
has_id-snoc x v [] = ground arith
has_id-snoc x v (y ∷ xs) = ground (arith, has_id-snoc x v xs)

HasNoDuplicates-snoc :
    (v : String) (xs : List String)
    → has_id v xs ≡ false
    → HasNoDuplicates xs
    → HasNoDuplicates (xs ++ v ∷ [])
unfolding has_id
HasNoDuplicates-snoc v [] h d = (refl, tt)
HasNoDuplicates-snoc v (x ∷ xs) h (a, d) = (
  ground (arith, has_id-snoc x v xs, eq_iff v x, eq_iff x v, h, a),
  HasNoDuplicates-snoc v xs (ground (arith, h)) d,
)

HasNoDuplicates-append_unique :
    (xs : List String) (v : String) → HasNoDuplicates xs → HasNoDuplicates (append_unique xs v)
unfolding append_unique
HasNoDuplicates-append_unique xs v d = elim (Bool-cases (has_id v xs)) [
  | inl old ↦ rw (old, append_unique) d
  | inr new ↦ rw (new, append_unique) (HasNoDuplicates-snoc v xs new d)
]

pub HasNoDuplicates-add_replicas :
    (xs vs : List String) → HasNoDuplicates xs → HasNoDuplicates (add_replicas xs vs)
unfolding add_replicas
HasNoDuplicates-add_replicas xs [] d = d
HasNoDuplicates-add_replicas xs (v ∷ vs) d =
    HasNoDuplicates-add_replicas (append_unique xs v) vs (HasNoDuplicates-append_unique xs v d)
