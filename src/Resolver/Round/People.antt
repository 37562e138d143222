-- ===== src/Resolver/Round/People.antt =====
-- What a round does to the participants: it leaves them solvent, and its running changes account
-- for all that they have gained and lost.
use mathlib.Core.List.{List}
use native.Mathlib.Omega.{arith}
use younggeul.Prelude.{ℕ, ℤ, String, Dict, sorted, str_leb}
use younggeul.Errors.{OnOk, OnOk-ok}
use younggeul.Floats.{FloatOps}
use younggeul.Resolver.Buckets.{Bucket}
use younggeul.Resolver.Matching.{Ledger}
use younggeul.Resolver.Matching.Settle.{Settled}
use younggeul.Resolver.Matching.Outcome.{match_buyers-Keeps}
use younggeul.Resolver.Matching.Solvency.{AllSolvent, match_buyers-AllSolvent}
use younggeul.Resolver.Round.{Progress, match_segment, resolve_segments}
use younggeul.Resolver.Round.Money.{price_pos}
use younggeul.Resolver.Round.Segments.{Resolved, resolve_segments-OnOk}

module _ (F : FloatOps) (buckets : Dict (Bucket F)) where
  module _ (P : Ledger F → Type 0)
      (count : (l : Ledger F) (n : ℕ) → P l → P (record l { total_matched = n }))
      (settled : (id : String) (c h : ℤ) (l l' : Ledger F)
        → Settled F id c h l l'
        → P l
        → P l') where
    segment_keeps :
        (gu_code : String) (s s' : Progress F)
        → Resolved F buckets gu_code s s'
        → P s.ledger
        → P s'.ledger
    unfolding match_segment
    segment_keeps gu_code s s' r p = rw r.ledger (
        OnOk-ok _ _
          (match_buyers-Keeps F P count settled _ _ _ (sorted str_leb r.bucket.buyers) _ p)
          r.matched)

    -- What every side of a trade keeps, the loop over the segments keeps.
    pub resolve_segments-Keeps :
        (codes : List String) (s : Progress F)
        → P s.ledger
        → OnOk (λ s'. P s'.ledger) (resolve_segments F buckets codes s)
    resolve_segments-Keeps = resolve_segments-OnOk F buckets (λ s. P s.ledger) segment_keeps

  module _ (ids : List String) where
    segment-AllSolvent :
        (gu_code : String) (s s' : Progress F)
        → Resolved F buckets gu_code s s'
        → AllSolvent F ids s.ledger
        → AllSolvent F ids s'.ledger
    unfolding match_segment
    segment-AllSolvent gu_code s s' r v = rw r.ledger (
        OnOk-ok _ _
          (match_buyers-AllSolvent F _ _ _ (omega (arith, price_pos F r.bucket r.segment)) ids
            (sorted str_leb r.bucket.buyers) _ v)
          r.matched)

    pub resolve_segments-AllSolvent :
        (codes : List String) (s : Progress F)
        → AllSolvent F ids s.ledger
        → OnOk (λ s'. AllSolvent F ids s'.ledger) (resolve_segments F buckets codes s)
    resolve_segments-AllSolvent =
        resolve_segments-OnOk F buckets (λ s. AllSolvent F ids s.ledger) segment-AllSolvent
