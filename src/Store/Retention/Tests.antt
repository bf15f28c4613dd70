-- ===== src/Store/Retention/Tests.antt =====
-- Retention at two closed segments.
use cost_optimization.Prelude.{
  ℕ, ◌≡◌, refl, Bool, true, false, some, [], ◌∷◌, All, ltb, arith, sort_by,
}
use cost_optimization.Store.{SegmentName, SegmentInfo, ClosedFile, Store}
use cost_optimization.Store.Retention.{
  Sweep, Limits, too_old, sidecars, list_closed, remove_closed, sweep_one, sweep, enforce_retention,
}
use cost_optimization.Store.Retention.Effects.{IsSettled, IsBalanced, retention-settles}

program : Unit {0}
unfolding sidecars list_closed remove_closed sweep_one sweep enforce_retention sort_by
program = tt

abbrev segment : ℕ → ClosedFile
segment n = record {
  name = record { kind = "host_minute"; date = "20260701"; seq = n };
  content = [];
  torn = false;
  sidecar = some record {
    name = record { kind = "host_minute"; date = "20260701"; seq = n };
    kind = "host_minute";
    records = 0;
    min_ts = 100;
    max_ts = 200;
    size_bytes = 60;
    recovered = false;
  };
}

abbrev spool : Store
spool = record {
  active = [];
  dropped = 3;
  files = [];
  torn_files = [];
  closed = segment 0 ∷ segment 1 ∷ [];
}

abbrev less : SegmentName → SegmentName → Bool
less a b = ltb a.seq b.seq

abbrev cap : ℕ → Limits
cap n = record { max_bytes = n; max_age_days = 30; cutoff = 50 }

swept : Sweep
unfolding program
swept = enforce_retention (λ n. true) less (cap 100) 120 spool

deletes_the_first : swept.deleted_segments ≡ 1
unfolding program swept
deletes_the_first = refl

all_deletable : All (λ (seg : SegmentInfo). true ≡ true) (list_closed less spool)
unfolding program
all_deletable = (refl, (refl, tt))

none_old : All (λ (seg : SegmentInfo). too_old (cap 200) seg ≡ false) (list_closed less spool)
unfolding program
none_old = (refl, (refl, tt))

retention-settles_example :
    All
      (IsSettled (λ n. true) (cap 100) (enforce_retention (λ n. true) less (cap 100) 120 spool))
      (list_closed less spool)
    × IsBalanced (λ n. true) 120 (enforce_retention (λ n. true) less (cap 100) 120 spool)
retention-settles_example =
    retention-settles (λ n. true) less (cap 100) 120 spool all_deletable (omega arith)
