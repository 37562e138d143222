-- ===== src/Resolver/Matching/Traders.antt =====
-- Changes are booked for participants only.
use mathlib.Core.Path.{◌≡◌, sym, ◌∙◌}
use mathlib.Core.Bool.{true}
use mathlib.Core.List.{List}
use younggeul.Prelude.{ℤ, String, keys, knows, has-knows, All, All-keys-set_item, keys-set_item}
use younggeul.Floats.{FloatOps}
use younggeul.Resolver.Matching.{Ledger}
use younggeul.Resolver.Matching.Settle.{Settled}

module _ (F : FloatOps) (ids : List String) where
  pub record Traders (l : Ledger F) : Type 0 where
    pub same_keys : keys l.participants ≡ ids
    pub capital : All (λ id. knows ids id ≡ true) (keys l.capital_changes)
    pub holdings : All (λ id. knows ids id ≡ true) (keys l.holdings_changes)

  pub settle-Traders :
      (id : String) (c h : ℤ) (l l' : Ledger F) → Settled F id c h l l' → Traders l → Traders l'
  settle-Traders id c h l l' s v =
      let known : knows ids id ≡ true =
        rw (← v.same_keys) (sym (has-knows l.participants id) ∙ (rw s.found)) in
      record {
        same_keys =
            rw s.written (keys-set_item l.participants id s.new s.old s.found ∙ v.same_keys);
        capital = rw s.capital_changes (All-keys-set_item _ l.capital_changes id _ v.capital known);
        holdings =
            rw s.holdings_changes (All-keys-set_item _ l.holdings_changes id _ v.holdings known);
      }
