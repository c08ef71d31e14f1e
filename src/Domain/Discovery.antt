-- ===== src/Domain/Discovery.antt =====
-- packages/domain/discovery.py: the market scores, the decision on a product and the state of a
-- trial sale. A score is the fraction total / weight, kept as the pair; the thresholds are compared
-- by multiplying out, which is exact, as the 28 digits of `Decimal` are for whole signals up to 100.
pub mod Monotone
use saup.Base.{
  ℕ, ◌+◌, ◌*◌, ◌≤◌, ◌≡◌, ◌⊎◌, ◌≢◌, Bool, true, false, ◌&&◌, ◌||◌, arith, ℤ, pos, negsuc, pos_part,
  neg_part, leb_ℤ, ltb_ℤ, ltb, leb, ◌==◌, if◌then◌else◌,
}
use saup.Domain.Errors.{
  Result, ok, err, domain, incomplete_market_input, invalid_market_signal,
  invalid_experiment_metrics, ◌>>=◌, ◌>>◌, raise_if,
}

-- The signals of one side, under the keys that `evaluate` weighs. A record has these keys and its weights
-- are natural numbers, so that of INCOMPLETE_MARKET_INPUT and INVALID_WEIGHT only weights that add up to
-- nothing remain to be refused.
pub record Signals : Type 0 where
  pub first : ℤ
  pub second : ℤ
  pub third : ℤ
  pub fourth : ℤ

pub record Weights : Type 0 where
  pub first : ℕ
  pub second : ℕ
  pub third : ℕ
  pub fourth : ℕ

-- A fraction.
pub record Score : Type 0 where
  pub total : ℕ
  pub weight : ℕ

abbrev pub in_range : ℤ → Bool
in_range v = leb_ℤ (pos 0) v && leb_ℤ v (pos 100)

unfoldable pub score : Signals → Weights → Result Score
score v w =
    if w.first + w.second + w.third + w.fourth == 0
    then err (domain incomplete_market_input 422)
    else if in_range v.first && in_range v.second && in_range v.third && in_range v.fourth
    then ok (record {
      total =
          pos_part v.first * w.first
          + pos_part v.second * w.second
          + pos_part v.third * w.third
          + pos_part v.fourth * w.fourth;
      weight = w.first + w.second + w.third + w.fourth;
    })
    else err (domain invalid_market_signal 422)

-- purchases 3, review_velocity 2, search_interest 2, seasonality 1
abbrev pub demand_weights : Weights
demand_weights = record { first = 3; second = 2; third = 2; fourth = 1 }

-- review_barrier 2, seller_concentration 2, price_pressure 3, sameness 1
abbrev pub competition_weights : Weights
competition_weights = record { first = 2; second = 2; third = 3; fourth = 1 }

pub data Action : Type 0 where
  watch drop enter test : Action

pub record Decision : Type 0 where
  pub demand : Score
  pub competition : Score
  pub action : Action

-- `s >= bound`, and `s <= bound`
abbrev pub at_least : Score → ℕ → Bool
at_least s bound = leb (bound * s.weight) s.total

abbrev pub at_most : Score → ℕ → Bool
at_most s bound = leb s.total (bound * s.weight)

-- The chain of `if`s of `evaluate`; `sourced` is `bool(source)`, margins are in millionths.
unfoldable pub decide : Score → Score → ℤ → Bool → ℤ → ℤ → Action
decide d c expected_margin sourced sample_size min_margin =
    if not_sourced || leb_ℤ sample_size (pos 0)
    then watch
    else if ltb_ℤ expected_margin min_margin
    then drop
    else if at_least d 70 && (at_most c 40 && leb_ℤ (pos 30) sample_size)
    then enter
    else if at_least d 45 && ltb c.total (75 * c.weight)
    then test
    else watch
  where
    not_sourced : Bool
    not_sourced = if sourced then false else true

unfoldable pub evaluate : Signals → Signals → ℤ → Bool → ℤ → ℤ → Result Decision
unfolding score decide
evaluate demand competition expected_margin sourced sample_size min_margin = do
  d ← score demand demand_weights
  c ← score competition competition_weights
  ok (record {
    demand = d;
    competition = c;
    action = decide d c expected_margin sourced sample_size min_margin;
  })

pub data Trial : Type 0 where
  probe pause rework scale : Trial

-- `claims / orders > 0.15` is `100 * claims > 15 * orders`.
unfoldable pub experiment_state : ℤ → ℤ → ℤ → ℤ → Result Trial
experiment_state impressions orders contribution claims =
    if ltb_ℤ impressions (pos 0)
      || ltb_ℤ orders (pos 0)
      || ltb_ℤ claims (pos 0)
      || ltb_ℤ orders claims
      || ltb_ℤ impressions orders
    then err (domain invalid_experiment_metrics 422)
    else if leb_ℤ (pos 10) orders && ltb (15 * pos_part orders) (100 * pos_part claims)
    then ok pause
    else if leb_ℤ (pos 10) orders && leb_ℤ contribution (pos 0)
    then ok rework
    else if leb_ℤ (pos 30) orders
        && (ltb_ℤ (pos 0) contribution && leb (100 * pos_part claims) (3 * pos_part orders))
    then ok scale
    else ok probe
