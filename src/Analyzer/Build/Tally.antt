-- ===== src/Analyzer/Build/Tally.antt =====
-- What the loops of `Build` of internal/analyzer/analyzer.go add to a count of the report, for each host.
use cost_optimization.Prelude.{
  ℕ, ◌+◌, ◌≡◌, ap, subst, String, some, [], ◌∷◌, sum_of, sum_of-sort_by, arith, >>=-eq-some,
}
use cost_optimization.Prelude.Assoc.{Map}
use cost_optimization.Float64.{Float64}
use cost_optimization.Model.Sql.{SqlInstanceInventory}
use cost_optimization.Analyzer.Dataset.{HostData}
use cost_optimization.Analyzer.Report.{HostReport}
use cost_optimization.Analyzer.Host.Analysis.{analyze_host}
use cost_optimization.Analyzer.Sql.{SqlReport}
use cost_optimization.Analyzer.Sql.Instance.{analyze_sql_instance}
use cost_optimization.Analyzer.Build.{Report}
use cost_optimization.Analyzer.Build.Fleet.{
  BuildTexts, by_key, with_host, with_sql, add_sql, add_details, add_host, add_hosts,
}
use mathlib.Core.Option.{some-injective}

module _ {F : Type 0} ⦃f : Float64 F⦄ (texts : BuildTexts F) where
  -- A count of the report: what a host, each instance and the details of a host add to it, which is in
  -- all the weight of the host.
  pub record Measure (m : Report F → ℕ) (weight : HostData F → ℕ) : Type 0 where
    pub per_host : HostReport F → ℕ
    pub per_sql : HostData F → SqlInstanceInventory F → ℕ
    pub per_details : HostData F → ℕ
    pub host : (hr : HostReport F) (rep : Report F) → m (with_host hr rep) ≡ m rep + per_host hr
    pub sql :
        (h : HostData F) (inv : SqlInstanceInventory F) (hr : HostReport F) (sr : SqlReport F)
        (rep : Report F)
        → analyze_sql_instance texts.job h inv hr ≡ some sr
        → m (with_sql sr rep) ≡ m rep + per_sql h inv
    pub details :
        (h : HostData F) (hr : HostReport F) (rep : Report F)
        → m (add_details texts h hr rep) ≡ m rep + per_details h
    pub total :
        (h : HostData F) (hr : HostReport F)
        → analyze_host texts.host h ≡ some hr
        → per_host hr + sum_of (λ p. per_sql h p.1) h.sql_inv + per_details h ≡ weight h

  module _ {m : Report F → ℕ} {weight : HostData F → ℕ} (k : Measure m weight) where
    add_sql-tally :
        (h : HostData F) (hr : HostReport F) (invs : Map String (SqlInstanceInventory F))
        (rep : Report F) {q : Report F}
        → add_sql texts.job h hr invs rep ≡ some q
        → m q ≡ m rep + sum_of (λ p. k.per_sql h p.1) invs
    unfolding add_sql
    add_sql-tally h hr [] rep e = omega (arith, ap m (some-injective _ _ e))
    add_sql-tally h hr ((key, inv) ∷ invs) rep e =
        let (sr, e1, e2) = >>=-eq-some (analyze_sql_instance texts.job h inv hr) _ e in
        omega (arith, add_sql-tally h hr invs (with_sql sr rep) e2, k.sql h inv hr sr rep e1)

    add_host-tally :
        (h : HostData F) (rep : Report F) {q : Report F}
        → add_host texts h rep ≡ some q
        → m q ≡ m rep + weight h
    unfolding add_host
    add_host-tally h rep e =
        let (hr, e1, e2) = >>=-eq-some (analyze_host texts.host h) _ e in
        let invs = by_key texts.host.less h.sql_inv in
        let (counted, e3, e4) = >>=-eq-some (add_sql texts.job h hr invs (with_host hr rep)) _ e2 in
        omega (
          arith,
          ap m (some-injective _ _ e4),
          k.details h hr counted,
          add_sql-tally h hr invs (with_host hr rep) e3,
          sum_of-sort_by (λ p. k.per_sql h p.1) (λ p q. texts.host.less p.0 q.0) h.sql_inv,
          k.host hr rep,
          k.total h hr e1,
        )

    pub add_hosts-tally :
        (hosts : Map String (HostData F)) (rep : Report F) {q : Report F}
        → add_hosts texts hosts rep ≡ some q
        → m q ≡ m rep + sum_of (λ p. weight p.1) hosts
    unfolding add_hosts
    add_hosts-tally [] rep e = omega (arith, ap m (some-injective _ _ e))
    add_hosts-tally ((id, h) ∷ hosts) rep e =
        let (next, e1, e2) = >>=-eq-some (add_host texts h rep) _ e in
        omega (arith, add_hosts-tally hosts next e2, add_host-tally h rep e1)

  -- A predicate that every step of the loops keeps.
  pub record Kept {κ} (P : Report F → Type κ) : Type κ where
    pub host :
        (h : HostData F) (hr : HostReport F) (rep : Report F)
        → analyze_host texts.host h ≡ some hr
        → P rep
        → P (with_host hr rep)
    pub sql : (sr : SqlReport F) (rep : Report F) → P rep → P (with_sql sr rep)
    pub details :
        (h : HostData F) (hr : HostReport F) (rep : Report F)
        → P rep
        → P (add_details texts h hr rep)

  module _ {κ} {P : Report F → Type κ} (k : Kept P) where
    add_sql-kept :
        (h : HostData F) (hr : HostReport F) (invs : Map String (SqlInstanceInventory F))
        (rep : Report F) {q : Report F}
        → add_sql texts.job h hr invs rep ≡ some q
        → P rep
        → P q
    unfolding add_sql
    add_sql-kept h hr [] rep e p = subst P (some-injective _ _ e) p
    add_sql-kept h hr ((key, inv) ∷ invs) rep e p =
        let (sr, e1, e2) = >>=-eq-some (analyze_sql_instance texts.job h inv hr) _ e in
        add_sql-kept h hr invs (with_sql sr rep) e2 (k.sql sr rep p)

    add_host-kept :
        (h : HostData F) (rep : Report F) {q : Report F}
        → add_host texts h rep ≡ some q
        → P rep
        → P q
    unfolding add_host
    add_host-kept h rep e p =
        let (hr, e1, e2) = >>=-eq-some (analyze_host texts.host h) _ e in
        let invs = by_key texts.host.less h.sql_inv in
        let (counted, e3, e4) = >>=-eq-some (add_sql texts.job h hr invs (with_host hr rep)) _ e2 in
        subst P (some-injective _ _ e4) (
          k.details h hr counted
            (add_sql-kept h hr invs (with_host hr rep) e3 (k.host h hr rep e1 p)))

    pub add_hosts-kept :
        (hosts : Map String (HostData F)) (rep : Report F) {q : Report F}
        → add_hosts texts hosts rep ≡ some q
        → P rep
        → P q
    unfolding add_hosts
    add_hosts-kept [] rep e p = subst P (some-injective _ _ e) p
    add_hosts-kept ((id, h) ∷ hosts) rep e p =
        let (next, e1, e2) = >>=-eq-some (add_host texts h rep) _ e in
        add_hosts-kept hosts next e2 (add_host-kept h rep e1 p)
