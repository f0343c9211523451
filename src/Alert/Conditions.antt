-- ===== src/Alert/Conditions.antt =====
-- How the conditions of the alerts relate.
use quota_management.Prelude.{ℕ, suc, ◌*◌, ◌≤◌, ◌≡◌, Bool, true, ◌&&◌, arith, zero, leb}
use quota_management.Prelude.Int.{ℤ, pos, negsuc}
use quota_management.Alert.{eval_threshold_warning, eval_budget_exhausted, compute_alert_forecast}

scaled : (pct n usage : ℕ) → pct ≤ 100 → n ≤ usage → pct * n ≤ usage * 100
scaled pct n usage h k = grind arith

leb_of_le : (a b : ℕ) → a ≤ b → leb a b ≡ true
leb_of_le a b h = ground arith

le_of_leb : (a b : ℕ) → leb a b ≡ true → a ≤ b
le_of_leb a b h = ground arith

exhausted_warns :
    (usage : ℕ) (amount : ℤ) (pct : ℕ)
    → pct ≤ 100
    → eval_budget_exhausted usage amount ≡ true
    → eval_threshold_warning usage amount pct ≡ true
unfolding eval_budget_exhausted eval_threshold_warning
exhausted_warns usage (pos zero) pct h e = absurd (cc e)
exhausted_warns usage (pos (suc n)) pct h e =
    leb_of_le (pct * suc n) (usage * 100) (scaled pct (suc n) usage h (le_of_leb (suc n) usage e))
exhausted_warns usage (negsuc n) pct h e = absurd (cc e)

first_of_both : (a b : Bool) → (a && b) ≡ true → a ≡ true
first_of_both a b h = ground arith

exhaustion_overruns :
    (usage : ℕ) (amount : ℤ) (start end total now days : ℕ)
    → (compute_alert_forecast usage amount start end total now days).exhaustion ≡ true
    → (compute_alert_forecast usage amount start end total now days).overrun ≡ true
unfolding compute_alert_forecast
exhaustion_overruns usage (pos a) start end total now days e = ground arith
exhaustion_overruns usage (negsuc a) start end total now days e = ground arith

-- With a warning threshold of at most 100 per cent, an exhausted budget is also over the threshold;
-- and a budget that is forecast to run out within the threshold of days is also forecast to overrun.
pub alert_conditions_nest :
    (usage : ℕ) (amount : ℤ) (pct start end total now days : ℕ)
    → pct ≤ 100
    → (eval_budget_exhausted usage amount ≡ true → eval_threshold_warning usage amount pct ≡ true)
      × ((compute_alert_forecast usage amount start end total now days).exhaustion ≡ true
          → (compute_alert_forecast usage amount start end total now days).overrun ≡ true)
alert_conditions_nest usage amount pct start end total now days h =
    (exhausted_warns usage amount pct h, exhaustion_overruns usage amount start end total now days)
