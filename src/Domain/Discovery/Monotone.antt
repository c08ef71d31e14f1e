-- ===== src/Domain/Discovery/Monotone.antt =====
-- How the score and the decision of packages/domain/discovery.py depend on the market.
use saup.Base.{
  ℕ, ◌*◌, ◌≤◌, ◌≡◌, Bool, ◌&&◌, arith, ℤ, pos, ◌≤ℤ◌, leb, ltb, leb_ℤ, ltb_ℤ, if◌then◌else◌,
}
use saup.Domain.Errors.{ok}
use saup.Domain.Discovery.{
  Signals, Score, score, Action, watch, drop, enter, test, Decision, decide, evaluate,
}

-- How far an action goes into the market.
abbrev pub boldness : Action → ℕ
boldness drop = 0
boldness watch = 1
boldness test = 2
boldness enter = 3

-- How far the evidence for a market goes: entering it takes a demand of 70, a competition of at most 40
-- and a sample of 30, and a trial a demand of 45 and a competition below 75.
abbrev pub ceiling : Score → Score → ℤ → ℕ
ceiling d c sample =
    if leb (70 * d.weight) d.total && (leb c.total (40 * c.weight) && leb_ℤ (pos 30) sample)
    then 3
    else if leb (45 * d.weight) d.total && ltb c.total (75 * c.weight) && ltb_ℤ (pos 0) sample
    then 2
    else 1

-- Among markets with a sample, at the same margin and source, one with at least the demand, at most the
-- competition and at least the sample of another is never answered with a less bold action, from DROP
-- over WATCH and TEST to ENTER. No market is answered with a bolder action than its evidence allows:
-- ENTER needs a demand of 70, a competition of at most 40 and a sample of 30, and TEST a demand of 45, a
-- competition below 75 and a sample.
pub decide_monotone :
    (d c d' c' w v : ℕ) (margin sample sample' bound : ℤ) (sourced : Bool)
    → d ≤ d'
    → c' ≤ c
    → pos 1 ≤ℤ sample
    → sample ≤ℤ sample'
    → (boldness (
          decide
            (record { total = d; weight = w })
            (record { total = c; weight = v })
            margin
            sourced
            sample
            bound)
        ≤ boldness (
            decide
              (record { total = d'; weight = w })
              (record { total = c'; weight = v })
              margin
              sourced
              sample'
              bound))
      × (boldness (
            decide
              (record { total = d; weight = w })
              (record { total = c; weight = v })
              margin
              sourced
              sample
              bound)
          ≤ ceiling (record { total = d; weight = w }) (record { total = c; weight = v }) sample)
unfolding decide
decide_monotone d c d' c' w v margin sample sample' bound sourced hd hc some_sample hs =
    (ground arith, ground arith)

-- Both scores of a decision are between 0 and 100: their totals are at most a hundred times their
-- weights.
pub evaluate-bounds :
    (demand competition : Signals) (margin : ℤ) (sourced : Bool) (sample bound : ℤ) (r : Decision)
    → evaluate demand competition margin sourced sample bound ≡ ok r
    → (r.demand.total ≤ 100 * r.demand.weight) × (r.competition.total ≤ 100 * r.competition.weight)
unfolding evaluate score
evaluate-bounds demand competition margin sourced sample bound r h = ground arith
