-- ===== src/Billing/Subscription/Laws.antt =====
-- billing/src/subscription.rs: the names and weights of the tiers, and a change of tier while a
-- subscription runs.
use dest.Base.{
  ℕ, ◌≤◌, ◌≡◌, ◌≢◌, refl, true, false, none, some, Option-cases, le→ltb, inl, inr, arith,
}
use dest.Base.Text.{Text, bytes_eq, bytes_eq_iff}
use dest.P2p.Gossip.{subscription_weight_from_tier}
use dest.Billing.Extern.{Chrono, Decimal}
use dest.Billing.Subscription.{
  SubscriptionTier, SubscriptionManager, Changed, same_tier, name, weight, standard_name,
  premium_name, from_name, price_monthly, days_remaining, pro_rata, settle, remaining, subscribe,
  change_tier,
}

standard-ne-premium : (s : Text) → bytes_eq s standard_name ≡ true → bytes_eq s premium_name ≡ false
unfolding bytes_eq
standard-ne-premium s h = rw ((bytes_eq_iff s standard_name).0 h) refl

-- The weight that the gossip priorities give to a tier's name, whatever the name, is the weight of the
-- tier that billing reads from it.
pub subscription_weight_from_tier-from_name :
    (s : Text) → subscription_weight_from_tier s ≡ weight (from_name s)
unfolding subscription_weight_from_tier from_name
subscription_weight_from_tier-from_name s = ground (arith, standard-ne-premium s)

-- A tier is read back from its name.
from_name-name : (t : SubscriptionTier) → from_name (name t) ≡ t
unfolding from_name bytes_eq
from_name-name SubscriptionTier.archive = refl
from_name-name SubscriptionTier.standard = refl
from_name-name SubscriptionTier.premium = refl

module _ ⦃c : Chrono⦄ where
  remaining-subscribe :
      (t now : c.Time) (tier : SubscriptionTier) (m : SubscriptionManager)
      → c.leb t now ≡ true
      → remaining now (subscribe t tier m) ≤ 30
  unfolding days_remaining subscribe
  remaining-subscribe t now tier m order = ground (arith, c.num_days_later t now 30 order)

module _ ⦃c : Chrono⦄ ⦃d : Decimal⦄ where
  change_tier-settle :
      (now : c.Time) (new_tier : SubscriptionTier) (m : SubscriptionManager)
      {charge refund : d.Amount}
      → same_tier m.current.tier new_tier ≡ false
      → remaining now m ≤ 30
      → pro_rata new_tier (remaining now m) ≡ some charge
      → pro_rata m.current.tier (remaining now m) ≡ some refund
      → change_tier now new_tier m
        ≡ settle now new_tier (remaining now m) (some (d.sub charge refund)) m
  unfolding change_tier
  change_tier-settle now new_tier m other few charged refunded =
      rw (other, le→ltb 30 (remaining now m) few, charged, refunded) refl

  pro_rata-some :
      (k : SubscriptionTier) (n : ℕ)
      → d.div (price_monthly k) (d.dec 30 0) ≢ none
      → (a : d.Amount) × (pro_rata k n ≡ some a)
  pro_rata-some k n priced = elim (Option-cases (d.div (price_monthly k) (d.dec 30 0))) [
    | inl fails ↦ absurd (priced fails)
    | inr (a, found) ↦ (d.mul a (d.from n), rw found refl)
  ]

  -- After a subscription, at any later time, a change to another tier succeeds, where a thirtieth of
  -- every price can be computed: the days that remain are never more than 30, the new tier is the
  -- current one, and the amount is what those days cost on the new tier less what they cost on the old.
  pub change_tier-subscribe :
      (t now : c.Time) (tier new_tier : SubscriptionTier) (m : SubscriptionManager)
      → ((k : SubscriptionTier) → d.div (price_monthly k) (d.dec 30 0) ≢ none)
      → c.leb t now ≡ true
      → same_tier tier new_tier ≡ false
      → let (m', r) = change_tier now new_tier (subscribe t tier m) in
        let days = remaining now (subscribe t tier m) in
        (days ≤ 30)
        × (m'.current.tier ≡ new_tier)
        × ((charge refund : d.Amount) × (pro_rata new_tier days ≡ some charge)
            × (pro_rata tier days ≡ some refund)
            × (r ≡ Changed.net_amount (d.sub charge refund)))
  change_tier-subscribe t now tier new_tier m priced order other =
      let m' = subscribe t tier m in
      let few = remaining-subscribe t now tier m order in
      let (charge, charged) = pro_rata-some new_tier (remaining now m') (priced new_tier) in
      let (refund, refunded) = pro_rata-some tier (remaining now m') (priced tier) in
      let old : m'.current.tier ≡ tier = unfold subscribe in refl in
      let done = change_tier-settle now new_tier m' (rw old other) few charged (rw old refunded) in
      (few, rw done refl, (charge, refund, charged, refunded, rw done refl))
