-- ===== src/Automations/Dispatch.antt =====
-- How the accounts of an automation are spread over its window: `_build_dispatch_plan` of
-- app/modules/automations/service.py.
pub mod Spread
use codex_octopus.Base.{
  ℕ, zero, suc, ◌+◌, ◌-◌, ◌*◌, ◌≤◌, ◌<◌, ltb, leb, ◌==◌, ◌≡◌, refl, sym, ◌∙◌, ap, subst, ◌⊎◌, inl,
  inr, Bool, true, false, not, ◌&&◌, ◌||◌, Option, List, [], ◌∷◌, ◌++◌, arith, if◌then◌else◌, any,
  length, length-append, In, All, All-In, All-map, Bool-cases,
}
use codex_octopus.Base.Text.{Text, text_eq}

-- Python's generator, seeded with the job and the slot. Shuffles and choices are numbered, as each call
-- moves the generator on.
pub record Random : Type 0 where
  pub sample : List ℕ → ℕ → List ℕ
  pub shuffle : ℕ → List ℕ → List ℕ
  pub choice : ℕ → List ℕ → ℕ

-- `list(range(1, n + 1))`, in the order of the numbers.
abbrev pub count_up : ℕ → ℕ → List ℕ
count_up from zero = []
count_up from (suc n) = from ∷ count_up (from + 1) n

-- The draws of the last loop.
abbrev pub draws : Random → List ℕ → ℕ → List ℕ
draws rng offsets zero = []
draws rng offsets (suc n) = rng.choice n offsets ∷ draws rng offsets n

abbrev pub zeros : ℕ → List ℕ
zeros zero = []
zeros (suc n) = 0 ∷ zeros n

-- `_pick_dispatch_offsets_seconds`
unfoldable pub pick_dispatch_offsets_seconds : Random → ℕ → ℕ → List ℕ
pick_dispatch_offsets_seconds rng account_count threshold_minutes =
    let max_offset_seconds = threshold_minutes * 60 in
    let available = count_up 1 max_offset_seconds in
    let requested = account_count - 1 in
    if account_count == 0
    then []
    else if threshold_minutes == 0
    then zeros account_count
    else if account_count == 1
    then 0 ∷ []
    else if leb requested (length available)
    then rng.shuffle 0 (0 ∷ rng.sample available requested)
    else rng.shuffle 1
        (rng.shuffle 0 (0 ∷ available) ++ draws rng available (requested - length available))

-- `list(dict.fromkeys(account_ids))`
abbrev pub dedupe : List Text → List Text → List Text
dedupe seen [] = []
dedupe seen (id ∷ ids) =
    let skipping = dedupe seen ids in
    let keeping = id ∷ dedupe (id ∷ seen) ids in if any (text_eq id) seen then skipping else keeping

abbrev pub zip_plan : ℕ → List Text → List ℕ → List (Text × ℕ)
zip_plan due_slot (id ∷ ids) (offset ∷ offsets) =
    (id, due_slot + offset * 1000) ∷ zip_plan due_slot ids offsets
zip_plan due_slot _ _ = []

-- `_build_dispatch_plan`
unfoldable pub build_dispatch_plan : Random → ℕ → List Text → ℕ → List (Text × ℕ)
unfolding pick_dispatch_offsets_seconds
build_dispatch_plan rng due_slot account_ids threshold_minutes =
    let deduped = dedupe [] account_ids in
    zip_plan due_slot deduped (pick_dispatch_offsets_seconds rng (length deduped) threshold_minutes)
