-- ===== src/Balancer/Runtime/Survival.antt =====
-- What a mark of an account survives: later selections, whatever usage they read, and writes by
-- selections that had read the account before. app/modules/proxy/load_balancer.py.
use codex_octopus.Base.{
  ℕ, ◌+◌, ◌<◌, ◌≡◌, refl, sym, ◌∙◌, ap, subst, inl, inr, Bool, true, false, not, Option, none, some,
  get_or, arith, if◌then◌else◌, Bool-cases, List, [], ◌∷◌, map, any, All,
}
use codex_octopus.Base.Text.{Text, text_eq, text_eq_refl}
use codex_octopus.Balancer.State.{AccountState, AccountStatus, status_eq, seconds}
use codex_octopus.Balancer.Examine.{skipped, examine, examine_skips, IsBlocked, is_pending}
use codex_octopus.Balancer.Events.{
  handle_rate_limit, handle_quota_exceeded, handle_permanent_failure, cooldown_end,
}
use codex_octopus.Balancer.Runtime.Usage.{UsageHistory}
use codex_octopus.Balancer.Runtime.{
  Account, RuntimeState, new_runtime, BalancerSettings, state_from_account, with_tier,
}
use codex_octopus.Balancer.Runtime.Marks.{
  LoadBalancer, find_runtime, runtime_of, put_runtime, state_for, sync_runtime_state, is_dirty,
  stored_in, is_changed, update_status, is_current_row, persist_state, persist_state_if_current,
  Mark, rate_limit_mark, quota_mark, permanent_mark, handle, mark,
}

-- A cooldown that runs blocks an account in every status.
pending_blocks :
    (status : AccountStatus) (current : ℕ) (state : AccountState)
    → is_pending current state.cooldown_until ≡ true
    → IsBlocked status current state
pending_blocks AccountStatus.active current state p = p
pending_blocks AccountStatus.rate_limited current state p = inr p
pending_blocks AccountStatus.quota_exceeded current state p = inr p
pending_blocks AccountStatus.paused current state p = tt
pending_blocks AccountStatus.deactivated current state p = tt

-- The state that a selection makes has the cooldown that is kept.
state_from_account-cooldown :
    (settings : BalancerSettings) (now : ℕ) (account : Account)
    (primary secondary : Option UsageHistory) (runtime : RuntimeState)
    → (state_from_account settings now account primary secondary runtime).1.cooldown_until
      ≡ runtime.cooldown_until
unfolding state_from_account with_tier
state_from_account-cooldown settings now account primary secondary runtime = refl

find-put :
    (id : Text) (runtime : RuntimeState) (entries : List (Text × RuntimeState))
    → find_runtime id (put_runtime id runtime entries) ≡ some runtime
find-put id runtime [] = rw (text_eq_refl id) refl
find-put id runtime ((key, old) ∷ rest) = elim (Bool-cases (text_eq key id)) [
  | inl hit ↦ rw (hit, hit) refl
  | inr miss ↦ rw (miss, miss) (find-put id runtime rest)
]

-- What is kept of a state after it has been synced.
sync-cooldown :
    (now : ℕ) (account : Account) (state : AccountState) (runtime : RuntimeState)
    → (sync_runtime_state now account state false none runtime).0.cooldown_until
      ≡ state.cooldown_until
unfolding sync_runtime_state
sync-cooldown now account state runtime = elim (Bool-cases (is_dirty false account state runtime)) [
  | inl dirty ↦ rw (sync_runtime_state, dirty) refl
  | inr clean ↦ rw (sync_runtime_state, clean) refl
]

mark-cooldown :
    (now : ℕ) (m : Mark) (account : Account) (balancer : LoadBalancer)
    → (runtime_of account.id (mark now m account balancer).runtime).cooldown_until
      ≡ (handle now m (state_for account (runtime_of account.id balancer.runtime))).cooldown_until
unfolding mark
mark-cooldown now m account balancer =
    let runtime = runtime_of account.id balancer.runtime in
    let state = handle now m (state_for account runtime) in
    ap (λ (o : Option RuntimeState). (get_or o new_runtime).cooldown_until)
      (find-put account.id (sync_runtime_state now account state false none runtime).0
        balancer.runtime)
    ∙ sync-cooldown now account state runtime

-- Whatever state a selection makes of a marked account, it is passed over while the cooldown runs.
cooldown_skips :
    (settings : BalancerSettings) (built current until : ℕ) (account : Account)
    (primary secondary : Option UsageHistory) (runtime : RuntimeState)
    → runtime.cooldown_until ≡ some until
    → current < until
    → (examine current (state_from_account settings built account primary secondary runtime).1).1
      ≡ skipped
cooldown_skips settings built current until account primary secondary runtime e h =
    let state = (state_from_account settings built account primary secondary runtime).1 in
    let kept : state.cooldown_until ≡ some until =
      state_from_account-cooldown settings built account primary secondary runtime ∙ e in
    let running : is_pending current (some until) ≡ true = ground arith in
    (examine_skips current state).1
      (pending_blocks state.status current state (ap (is_pending current) kept ∙ running))

-- The end of the cooldown that a mark gives an account.
abbrev pub marked_cooldown : ℕ → Mark → AccountState → Option ℕ
marked_cooldown now (rate_limit_mark jitter error) state =
    some (cooldown_end jitter now error state)
marked_cooldown now (quota_mark error) state = some (now + seconds 120)
marked_cooldown now (permanent_mark error_code) state = none

handle-cooldown :
    (now until : ℕ) (m : Mark) (state : AccountState)
    → marked_cooldown now m state ≡ some until
    → (handle now m state).cooldown_until ≡ some until
unfolding handle handle_rate_limit handle_quota_exceeded
handle-cooldown now until (rate_limit_mark jitter error) state e = e
handle-cooldown now until (quota_mark error) state e = e
handle-cooldown now until (permanent_mark error_code) state e = cc

-- After a rate limit or an exceeded quota has been marked, the state that is made of the account at any moment is
-- passed over by every examination whose clock is before the end of its cooldown (at the delay that the message
-- or the backoff gives, or after two minutes), whatever the row of the account and the recorded usage say, as
-- long as its runtime state is the one that the mark left. The clock of the examination is its own: the grace of
-- a sticky session examines with one that is ahead by ten seconds.
pub marked_is_skipped :
    (settings : BalancerSettings) (now built current until : ℕ) (m : Mark) (account row : Account)
    (primary secondary : Option UsageHistory) (balancer : LoadBalancer)
    → marked_cooldown now m (state_for account (runtime_of account.id balancer.runtime))
      ≡ some until
    → current < until
    → let runtime = runtime_of account.id (mark now m account balancer).runtime in
      (examine current (state_from_account settings built row primary secondary runtime).1).1
      ≡ skipped
marked_is_skipped settings now built current until m account row primary secondary balancer e h =
    cooldown_skips settings built current until row primary secondary _
      (mark-cooldown now m account balancer ∙ handle-cooldown now until m _ e) h

-- The status that a mark gives.
abbrev pub marked_status : Mark → AccountStatus
marked_status (rate_limit_mark jitter error) = AccountStatus.rate_limited
marked_status (quota_mark error) = AccountStatus.quota_exceeded
marked_status (permanent_mark error_code) = AccountStatus.deactivated

handle-status :
    (now : ℕ) (m : Mark) (state : AccountState) → (handle now m state).status ≡ marked_status m
unfolding handle handle_rate_limit handle_quota_exceeded handle_permanent_failure
handle-status now (rate_limit_mark jitter error) state = refl
handle-status now (quota_mark error) state = refl
handle-status now (permanent_mark error_code) state = refl

-- A row is not the one that a snapshot with another status expects.
not_current :
    (expected row : Account)
    → status_eq row.status expected.status ≡ false
    → is_current_row expected row ≡ false
not_current expected row e = ground arith

-- A mark of a status that the row does not have is written, so no row of the account is current for a
-- snapshot taken before.
marked_row :
    (snapshot row : Account) (state : AccountState)
    → status_eq state.status snapshot.status ≡ false
    → is_current_row snapshot (if text_eq row.id snapshot.id then stored_in state row else row)
      ≡ false
marked_row snapshot row state e = elim (Bool-cases (text_eq row.id snapshot.id)) [
  | inl own ↦ rw own (not_current snapshot (stored_in state row) e)
  | inr other ↦ rw (other, is_current_row, other) refl
]

no_match :
    (p : Account → Bool) (f : Account → Account) (rows : List Account)
    → All (λ row. p row ≡ false) rows
    → (map (λ row. if p row then f row else row) rows ≡ rows) × (any p rows ≡ false)
no_match p f [] a = (refl, refl)
no_match p f (row ∷ rest) a =
    let (same, nobody) = no_match p f rest a.1 in (rw a.0 (ap (λ xs. row ∷ xs) same), rw a.0 nobody)

marked_rows :
    (snapshot : Account) (state : AccountState) (rows : List Account)
    → status_eq state.status snapshot.status ≡ false
    → All (λ row. is_current_row snapshot row ≡ false) (update_status snapshot.id state rows)
unfolding update_status
marked_rows snapshot state [] e = tt
marked_rows snapshot state (row ∷ rest) e =
    (marked_row snapshot row state e, marked_rows snapshot state rest e)

-- A write that expects what no row is.
stale_write :
    (snapshot : Account) (late : AccountState) (rows : List Account)
    → All (λ row. is_current_row snapshot row ≡ false) rows
    → persist_state_if_current snapshot late rows ≡ (rows, snapshot, not (is_changed snapshot late))
unfolding persist_state_if_current
stale_write snapshot late rows a =
    let (same, nobody) = no_match (is_current_row snapshot) (stored_in late) rows a in
    elim (Bool-cases (is_changed snapshot late)) [
      | inl changed ↦ rw (persist_state_if_current, changed, same, nobody) refl
      | inr kept ↦ rw (persist_state_if_current, kept) refl
    ]

mark_is_written :
    (now : ℕ) (m : Mark) (account : Account) (balancer : LoadBalancer)
    → status_eq account.status (marked_status m) ≡ false
    → (mark now m account balancer).accounts
      ≡ update_status account.id
          (handle now m (state_for account (runtime_of account.id balancer.runtime)))
          balancer.accounts
unfolding mark persist_state is_changed
mark_is_written now m account balancer e =
    let state = handle now m (state_for account (runtime_of account.id balancer.runtime)) in
    let apart : status_eq account.status state.status ≡ false =
      ap (status_eq account.status)
        (handle-status now m (state_for account (runtime_of account.id balancer.runtime)))
      ∙ e in
    rw (persist_state, is_changed, apart) refl

-- A selection that read an account before it was marked does not undo the mark: where the mark gives the account
-- a status that it had neither in the handler nor in the selection's snapshot, the selection's conditional write leaves the
-- table and the snapshot as they are, and says that it was stale exactly if it had something to write.
pub stale_selection_keeps_mark :
    (now : ℕ) (m : Mark) (account snapshot : Account) (late : AccountState)
    (balancer : LoadBalancer)
    → snapshot.id ≡ account.id
    → status_eq account.status (marked_status m) ≡ false
    → status_eq (marked_status m) snapshot.status ≡ false
    → let rows = (mark now m account balancer).accounts in
      persist_state_if_current snapshot late rows ≡ (rows, snapshot, not (is_changed snapshot late))
stale_selection_keeps_mark now m account snapshot late balancer same changes apart =
    let state = handle now m (state_for account (runtime_of account.id balancer.runtime)) in
    let differs : status_eq state.status snapshot.status ≡ false =
      ap (λ s. status_eq s snapshot.status)
        (handle-status now m (state_for account (runtime_of account.id balancer.runtime)))
      ∙ apart in
    stale_write snapshot late _ (
      subst (All (λ row. is_current_row snapshot row ≡ false))
        (ap (λ id. update_status id state balancer.accounts) same
          ∙ sym (mark_is_written now m account balancer changes))
        (marked_rows snapshot state balancer.accounts differs))
