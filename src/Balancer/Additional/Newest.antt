-- ===== src/Balancer/Additional/Newest.antt =====
-- The newest entry among the recent ones: `latest_by_account` of app/modules/usage/repository.py with and
-- without `since`.
use codex_octopus.Base.{
  ℕ, leb, ◌≡◌, refl, sym, ◌∙◌, ap, inl, inr, Bool, ◌&&◌, Option, none, some, if◌then◌else◌, List,
  [], ◌∷◌, arith, Bool-cases,
}
use codex_octopus.Balancer.Additional.{AdditionalUsageHistory, newer_of, newest, is_since}

-- An entry that is recent enough.
abbrev pub recent : ℕ → Option AdditionalUsageHistory → Option AdditionalUsageHistory
recent since none = none
recent since (some r) = if leb since r.recorded_at then some r else none

recent-newer_of :
    (since : ℕ) (r : AdditionalUsageHistory) (o : Option AdditionalUsageHistory)
    → recent since (some (newer_of r o))
      ≡ (if leb since r.recorded_at then some (newer_of r (recent since o)) else recent since o)
recent-newer_of since r none = ground arith
recent-newer_of since r (some s) = ground arith

-- The newest of the recent entries is the newest entry, if that is recent.
pub newest_since :
    (condition : AdditionalUsageHistory → Bool) (since : ℕ) (rows : List AdditionalUsageHistory)
    → newest (λ r. is_since (some since) r && condition r) rows
      ≡ recent since (newest condition rows)
unfolding newest
newest_since condition since [] = refl
newest_since condition since (r ∷ rows) = elim (Bool-cases (leb since r.recorded_at)) [
  | inl late ↦ elim (Bool-cases (condition r)) [
    | inr out ↦ rw (late, out) (newest_since condition since rows)
    | inl met ↦
        rw (late, met)
          (ap (λ o. some (newer_of r o)) (newest_since condition since rows)
            ∙ sym (recent-newer_of since r (newest condition rows) ∙ rw late refl))
  ]
  | inr early ↦ elim (Bool-cases (condition r)) [
    | inr out ↦ rw (early, out) (newest_since condition since rows)
    | inl met ↦
        rw (early, met)
          (newest_since condition since rows
            ∙ sym (recent-newer_of since r (newest condition rows) ∙ rw early refl))
  ]
]
